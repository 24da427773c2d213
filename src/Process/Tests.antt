-- ===== src/Process/Tests.antt =====
-- The process of main.cpp on a host whose configuration file asks for a daemon.
use epoll_threads.Base.{
  ℕ, zero, suc, ◌≡◌, refl, Bool, true, false, List, [], ◌∷◌, ◌++◌, Option, none, some, ◌⊎◌, inr,
  pos, arith,
}
use epoll_threads.Text.{codes}
use epoll_threads.Config.{Server, Progress, init_server_config, load_server_config, read_line}
use epoll_threads.Config.Words.{skip_leading, break_at, trim_index, same_word, atoi}
use epoll_threads.Slot.{one_slot, slot_fds, idle}
use epoll_threads.Process.{
  File, inherited, default_action, Process, daemonize, Globals, sigterm_handler, GetOpt,
  parse_options, Host, config_option,
}
use epoll_threads.Process.Daemon.{Detached, daemonize_lem}
use epoll_threads.Process.Stop.{sigterm_handler-blocks}
use epoll_threads.Process.Start.{Starts, main-Starts}

abbrev standard_files : ℕ → Option File
standard_files zero = some (inherited 0)
standard_files (suc zero) = some (inherited 1)
standard_files (suc (suc zero)) = some (inherited 2)
standard_files (suc (suc (suc n))) = none

abbrev fresh : Process
fresh = record {
  files = standard_files;
  dispositions = λ i. default_action;
  pid_file = none;
  errors = [];
}

abbrev third : Option ℕ
third = some 3

third_fd : (fd : ℕ) → third ≡ some fd → fd ≡ 3
third_fd fd e = cc

daemonize_lem_example :
    (q : Process) × (daemonize (pos 0) third fresh ≡ some q)
    × (((third ≡ none) × (q ≡ fresh))
        ⊎ ((fd : ℕ) × (third ≡ some fd)
            × Detached standard_files q.files
            × (q.dispositions ≡ fresh.dispositions)
            × (q.pid_file ≡ none)))
daemonize_lem_example = daemonize_lem third fresh free
  where
    free : (fd : ℕ) → third ≡ some fd → standard_files fd ≡ none
    free zero e = absurd (omega (arith, third_fd zero e))
    free (suc zero) e = absurd (omega (arith, third_fd 1 e))
    free (suc (suc zero)) e = absurd (omega (arith, third_fd 2 e))
    free (suc (suc (suc n))) e = refl

abbrev quiet_daemon : Server
quiet_daemon = record {
  pidfile = codes "pid";
  port = pos 8090;
  bindaddr = [];
  verbosity = pos 3;
  maxidletime = pos 0;
  daemonize = pos 1;
  logfile = [];
  maxclients = pos 100;
  maxthreads = pos 2;
}

abbrev loud_daemon : Server
loud_daemon = record quiet_daemon { verbosity = pos 2 }

abbrev any : List ℕ → Bool
any s = true

abbrev globals : Globals
globals = record {
  log = record { locked = false; written = [] };
  shutdown = false;
  has_listener = true;
  pid_file = some (codes "7");
}

sigterm_handler-blocks_example :
    sigterm_handler any quiet_daemon ((0, codes "a") ∷ []) globals ≡ none
sigterm_handler-blocks_example =
    sigterm_handler-blocks any quiet_daemon ((0, codes "a") ∷ []) globals
      (inr (λ e. cc, omega arith))

abbrev file : List (List ℕ)
file = codes "daemonize yes" ∷ codes "maxthreads 2" ∷ []

abbrev host : Host
host = record {
  program = codes "epoll_server";
  fork = pos 0;
  null = some 3;
  pid = 77;
  pid_file_opens = true;
  can_open = any;
  rlim_cur = 1024;
  read_file = λ name. some file;
}

abbrev options : List GetOpt
options = config_option (codes "my.conf") ∷ []

abbrev loaded : Progress
loaded = record {
  server = record init_server_config { daemonize = pos 1; maxthreads = pos 2 };
  complaints = [];
}

load-file : load_server_config any (some file) init_server_config ≡ (pos 0, loaded)
unfolding load_server_config init_server_config read_line skip_leading break_at trim_index same_word
    atoi
load-file = refl

main-Starts_example : Starts one_slot host slot_fds (λ m. []) options loaded.server fresh idle
unfolding parse_options init_server_config
main-Starts_example =
    main-Starts one_slot host slot_fds options (codes "my.conf") loaded fresh idle refl load-file
      refl (λ m. []) (omega arith) refl (inr (λ e. cc, refl))

abbrev diagnosed : List ℕ
diagnosed = codes "epoll_server: invalid option -- 'x'" ++ 10 ∷ []
