-- ===== src/Config/Tests.antt =====
-- loadServerConfig (main.cpp) on small files.
use epoll_threads.Base.{
  ℕ, ◌≡◌, refl, ap, Bool, true, List, [], ◌∷◌, ◌++◌, some, pos, minus_one, arith,
}
use epoll_threads.Text.{codes}
use epoll_threads.Config.Words.{skip_leading, break_at, trim_index, same_word, atoi}
use epoll_threads.Config.{init_server_config, invalid_port, option, read_line, load_server_config}
use epoll_threads.Config.Ranges.{IsSane, load_server_config-IsSane}
use epoll_threads.Config.Buffers.{Fits, load_server_config-Fits}
use epoll_threads.Config.Printing.{verbose, Settings}
use epoll_threads.Config.Reference.{reference_line, read_line-reference_line}

abbrev any : List ℕ → Bool
any s = true

abbrev line : List ℕ → List ℕ
line s = s ++ 10 ∷ []

abbrev file : List (List ℕ)
file =
    line (codes "# a comment")
    ∷ line (codes "  PORT  8080 ")
    ∷ line (codes "daemonize yes")
    ∷ line (codes "loglevel notice")
    ∷ line (codes "maxthreads 4")
    ∷ []

abbrev bad_line : List ℕ
bad_line = codes "port 65536"

load-file : load_server_config any (some file) init_server_config ≡ (
  pos 0,
  record {
    server = record init_server_config {
      port = pos 8080;
      daemonize = pos 1;
      verbosity = pos 2;
      maxthreads = pos 4;
    };
    complaints = [];
  },
)
unfolding load_server_config init_server_config read_line skip_leading break_at trim_index same_word
    atoi
load-file = refl

-- A port out of range is stored before it is refused.
load-bad_line : load_server_config any (some (bad_line ∷ file)) init_server_config ≡ (
  minus_one,
  record {
    server = record init_server_config { port = pos 65536 };
    complaints = invalid_port 1 ∷ [];
  },
)
unfolding load_server_config init_server_config read_line skip_leading break_at trim_index same_word
    atoi
load-bad_line = refl

atoi-wraps : atoi (codes " -4294967295x") ≡ pos 1
unfolding atoi
atoi-wraps = refl

load_server_config-IsSane_example :
    IsSane (load_server_config any (some file) init_server_config).1.server
load_server_config-IsSane_example =
    load_server_config-IsSane any (some file) (ap (λ r. r.0) load-file)

load_server_config-Fits_example :
    Fits (load_server_config any (some (bad_line ∷ file)) init_server_config).1.server
load_server_config-Fits_example = load_server_config-Fits any (bad_line ∷ file) (omega arith)

abbrev settings : Settings
settings = record {
  daemonize = true;
  pidfile = codes "/run/m y.pid";
  port = 8080;
  bindaddr = codes "10.0.0.1";
  maxidletime = 0;
  level = verbose;
  logfile = codes "/tmp/log";
  maxclients = 10000;
  maxthreads = 4;
}

-- "\tport  80 \n"
read_line-reference_line_example :
    read_line (9 ∷ (codes "port  80 " ++ 10 ∷ [])) ≡ reference_line (9 ∷ codes "port  80 ")
read_line-reference_line_example = read_line-reference_line (9 ∷ codes "port  80 ")

reference-port : reference_line (9 ∷ codes "port  80 ") ≡ option (codes "port") (codes "80")
unfolding reference_line
reference-port = refl
