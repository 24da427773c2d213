-- ===== src/Config/Rereading.antt =====
-- loadServerConfig (main.cpp) on a file that was written from settings.
use epoll_threads.Base.{
  ℕ, ◌≡◌, Bool, true, false, not, ◌&&◌, List, [], ◌∷◌, pos, ◌==◌, if◌then◌else◌,
}
use epoll_threads.Text.{codes, decimal}
use epoll_threads.Config.Words.{is_blank}
use epoll_threads.Config.Printing.{level_name, level_number, Settings, line_of, Value}
use epoll_threads.Config.{Server, Progress, go_on, apply_option}

abbrev all_solid : List ℕ → Bool
all_solid [] = true
all_solid (c ∷ s) = not (is_blank c) && all_solid s

abbrev Name : List ℕ → Type 0
Name [] = ⊥
Name (d ∷ n) = (all_solid (d ∷ n) ≡ true) × ((d == 35) ≡ false)

-- A line of the file and the assignment that it is read as.
record Entry : Type 0 where
  name : List ℕ
  value : List ℕ
  assign : Server → Server

abbrev assign_all : List Entry → Server → Server
assign_all [] server = server
assign_all (e ∷ es) server = assign_all es (e.assign server)

abbrev lines_of : List Entry → List (List ℕ)
lines_of [] = []
lines_of (e ∷ es) = line_of e.name e.value ∷ lines_of es

module _ (can_open : List ℕ → Bool) where
  record IsRead (e : Entry) : Type 0 where
    name : Name e.name
    value : Value e.value
    applied :
        (line : ℕ) (p : Progress)
        → apply_option can_open e.name e.value line p
          ≡ go_on (record p { server = e.assign p.server })

  abbrev entries : Settings → List Entry
  entries s =
      record {
        name = codes "daemonize";
        value = if s.daemonize then codes "yes" else codes "no";
        assign = λ server. record server { daemonize = if s.daemonize then pos 1 else pos 0 };
      }
      ∷ record {
        name = codes "pidfile";
        value = s.pidfile;
        assign = λ server. record server { pidfile = s.pidfile };
      }
      ∷ record {
        name = codes "port";
        value = decimal (pos s.port);
        assign = λ server. record server { port = pos s.port };
      }
      ∷ record {
        name = codes "bind";
        value = s.bindaddr;
        assign = λ server. record server { bindaddr = s.bindaddr };
      }
      ∷ record {
        name = codes "timeout";
        value = decimal (pos s.maxidletime);
        assign = λ server. record server { maxidletime = pos s.maxidletime };
      }
      ∷ record {
        name = codes "loglevel";
        value = level_name s.level;
        assign = λ server. record server { verbosity = pos (level_number s.level) };
      }
      ∷ record {
        name = codes "logfile";
        value = s.logfile;
        assign = λ server. record server { logfile = s.logfile };
      }
      ∷ record {
        name = codes "maxclients";
        value = decimal (pos s.maxclients);
        assign = λ server. record server { maxclients = pos s.maxclients };
      }
      ∷ record {
        name = codes "maxthreads";
        value = decimal (pos s.maxthreads);
        assign = λ server. record server { maxthreads = pos s.maxthreads };
      }
      ∷ []
