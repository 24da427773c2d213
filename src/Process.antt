-- ===== src/Process.antt =====
-- main.cpp, from createPidFile on: the process as it starts, serves and stops.
pub mod Daemon
pub mod Stop
pub mod Start
mod Tests
use epoll_threads.Base.{
  map, ℕ, zero, suc, ◌+◌, ◌<◌, Bool, true, false, List, [], ◌∷◌, ◌++◌, Option, none, some, ℤ, pos,
  negsuc, minus_one, is_minus_one, pos_part, length, set_at, ltb, ◌==◌, if◌then◌else◌,
}
use epoll_threads.Kernel.{Kernel}
use epoll_threads.Proc.{
  loader_call, M, Proc, pure, ◌>>=◌, ◌>>◌, say, server_running, min_bufsz, my_notice,
}
use epoll_threads.Text.{codes, decimal}
use epoll_threads.Config.{Server, Progress, init_server_config, load_server_config}
use epoll_threads.Log.{LogState, myepoll_log, log_all}
use epoll_threads.ListenThread.{Worker, get_worker_capacity, init_task_thread, bind_listener}

-- What a descriptor is open on; the files that the process was started with are numbered.
pub data File : Type 0 where
  dev_null : File
  inherited : ℕ → File

pub data Disposition : Type 0 where
  default_action ignored sigterm_handled : Disposition

-- signal.h, on Linux.
abbrev pub sighup : ℕ
sighup = 1

abbrev pub sigint : ℕ
sigint = 2

abbrev pub sigpipe : ℕ
sigpipe = 13

abbrev pub sigterm : ℕ
sigterm = 15

-- `pid_file` is what stands at `g_Server.pidfile`, `errors` what was written to stderr.
pub record Process : Type 0 where
  pub files : ℕ → Option File
  pub dispositions : ℕ → Disposition
  pub pid_file : Option (List ℕ)
  pub errors : List ℕ

-- `dup2(fd, n)`
abbrev pub dup2 : ℕ → ℕ → (ℕ → Option File) → ℕ → Option File
dup2 fd n files = set_at n (files fd) files

abbrev pub close_file : ℕ → (ℕ → Option File) → ℕ → Option File
close_file fd files = set_at fd none files

-- The descriptors once `/dev/null` is open as `fd`.
unfoldable pub to_dev_null : ℕ → (ℕ → Option File) → ℕ → Option File
to_dev_null fd files =
    let files' = dup2 fd 2 (dup2 fd 1 (dup2 fd 0 (set_at fd (some dev_null) files))) in
    if ltb 2 fd then close_file fd files' else files'

-- `daemonize`: `none` is the process that exits with 0, the parent, and also a process whose `fork`
-- failed. `null` is the result of `open`.
unfoldable pub daemonize : ℤ → Option ℕ → Process → Option Process
unfolding to_dev_null
daemonize (pos zero) none p = some p
daemonize (pos zero) (some fd) p = some (record p { files = to_dev_null fd p.files })
daemonize (pos (suc n)) null p = none
daemonize (negsuc n) null p = none

-- `createPidFile`
unfoldable pub create_pid_file : Bool → ℕ → Process → Process
create_pid_file opens pid p =
    if opens then record p { pid_file = some (decimal (pos pid) ++ 10 ∷ []) } else p

-- `setupSignalHandlers`
abbrev pub setup_signal_handlers : Process → Process
setup_signal_handlers p = record p {
  dispositions =
      set_at sigint sigterm_handled
        (set_at sighup sigterm_handled (set_at sigterm sigterm_handled p.dispositions));
}

-- `initServer`
unfoldable pub init_server : Process → Process
init_server p =
    setup_signal_handlers
      (record p { dispositions = set_at sigpipe ignored (set_at sighup ignored p.dispositions) })

-- `help`, of the name that the program was called by
unfoldable pub help : List ℕ → Process → Process
help program p = record p {
  errors =
      p.errors
      ++ (codes "Usage: "
          ++ (program
              ++ (codes " -c /path/to/" ++ (codes "myepoll" ++ (codes ".conf" ++ 10 ∷ [])))));
}

-- What `sigtermHandler` finds: the log with its mutex, the flag, whether there is a `g_ListenThread`,
-- and the pid file.
pub record Globals : Type 0 where
  pub log : LogState
  pub shutdown : Bool
  pub has_listener : Bool
  pub pid_file : Option (List ℕ)

-- The end of the handler, behind the deletion of the listener.
abbrev pub remove_pid_file : Server → Option LogState → Globals → Option Globals
remove_pid_file server none g = none
remove_pid_file server (some log) g = some (record g { log = log; pid_file = none })

abbrev pub stop_with :
    (List ℕ → Bool) → Server → List (ℕ × List ℕ) → Option LogState → Globals → Option Globals
stop_with can_open server meanwhile none g = none
stop_with can_open server meanwhile (some log) g =
    let g' : Globals = record g { log = log; shutdown = true; has_listener = false } in
    elim server.daemonize [
      | pos zero ↦ some g'
      | _ ↦
          remove_pid_file server
            (log_all can_open server (meanwhile ++ (my_notice, codes "Removing the pid file.") ∷ [])
              log)
            g'
    ]

-- `sigtermHandler` up to its `_exit`, or `none` where it waits in `myepollLog` for a mutex that no call
-- is going to release. `meanwhile` are the calls of other threads that get the mutex between the
-- handler's two messages, in their order; those before its first one have made the log of `g`.
unfoldable pub sigterm_handler :
    (List ℕ → Bool) → Server → List (ℕ × List ℕ) → Globals → Option Globals
sigterm_handler can_open server meanwhile g =
    stop_with can_open server meanwhile
      (myepoll_log can_open server my_notice (codes "Received SIGTERM, scheduling shutdown >:( ...")
        g.log)
      g

-- What `getopt` returns: the option and its argument, or anything else, with what `getopt` itself writes
-- to stderr about it.
pub data GetOpt : Type 0 where
  config_option : List ℕ → GetOpt
  other_option : List ℕ → GetOpt

-- The loop over the options: `configfile` at its end, the usage, or an argument that does not fit the
-- array.
pub data Options : Type 0 where
  configured : List ℕ → Options
  usage : List ℕ → Options
  overrun : Options

pub parse_options : List GetOpt → List ℕ → Options
parse_options [] configfile = configured configfile
parse_options (other_option diagnostic ∷ opts) configfile = usage diagnostic
parse_options (config_option arg ∷ opts) configfile =
    let rest = parse_options opts arg in if ltb (length arg) min_bufsz then rest else overrun

-- What `main` is told by the system, besides the system calls of `Kernel`: `argv[0]`, the result of
-- `fork` and of `open`, its pid, whether the pid file and a log file can be opened, the limit of descriptors, and
-- the lines of a file.
pub record Host : Type 0 where
  pub program : List ℕ
  pub fork : ℤ
  pub null : Option ℕ
  pub pid : ℕ
  pub pid_file_opens : Bool
  pub can_open : List ℕ → Bool
  pub rlim_cur : ℕ
  pub read_file : List ℕ → Option (List (List ℕ))

-- How `main` ends, or gets to its `poll`, with its workers and its listening socket. If `Bind` failed, it
-- ends with the SIGTERM that it sends to itself, whose handler takes over.
pub data Ending : Type 0 where
  returned : ℤ → Ending
  exited : Ending
  overflowed : Ending
  serving : List Worker → ℤ → Ending
  terminated : List Worker → Ending

module _ (k : Kernel) (h : Host) where
  open k use {World}

  abbrev pub Main : Type 0
  Main = Option (Ending × Process × Proc World)

  -- `new ListenThread()`, without its thread.
  unfoldable pub new_listen_thread : Server → M World (List Worker)
  new_listen_thread server =
      let n = pos_part server.maxthreads in init_task_thread k (get_worker_capacity h.rlim_cur n) n

  abbrev pub after_bind : List Worker → ℤ × ℤ × Bool → M World Ending
  after_bind workers (r, sockfd, resumed) =
      if is_minus_one r
      then pure (terminated workers)
      else (say my_notice server_running >> pure (serving workers sockfd))

  -- From the ListenThread on.
  unfoldable pub serve : Server → Process → Proc World → Main
  serve server proc p =
      elim ((do
        workers ← new_listen_thread server
        r ← bind_listener k server
        after_bind workers r)
        p) [ none ↦ none | some (ending, q) ↦ some (ending, proc, q) ]

  -- `if (g_Server.daemonize)`
  abbrev pub if_daemon : {A : Type 0} → Server → A → A → A
  if_daemon server yes_value no_value = elim server.daemonize [
    | pos zero ↦ no_value
    | _ ↦ yes_value
  ]

  -- Behind `daemonize`.
  abbrev pub after_daemonize : Server → Process → Option Process → Proc World → Main
  after_daemonize server proc none p = some (exited, proc, p)
  after_daemonize server proc (some child) p =
      let ready = init_server child in
      serve server (if_daemon server (create_pid_file h.pid_file_opens h.pid ready) ready) p

  -- Behind `loadServerConfig`, whose calls of `myepollLog` come first in the log.
  abbrev pub after_load : ℤ × Progress → Process → Proc World → Main
  after_load (r, progress) proc p =
      let p' : Proc World = record p { log = map loader_call progress.complaints ++ p.log } in
      if is_minus_one r
      then some (returned minus_one, proc, p')
      else (let server = progress.server in
          after_daemonize server proc (if_daemon server (daemonize h.fork h.null proc) (some proc))
            p')

  -- `help` behind what `getopt` has written.
  abbrev pub show_usage : List ℕ → Process → Process
  show_usage diagnostic proc = help h.program (record proc { errors = proc.errors ++ diagnostic })

  abbrev pub after_options : Options → Process → Proc World → Main
  after_options (usage diagnostic) proc p = some (returned minus_one, show_usage diagnostic proc, p)
  after_options overrun proc p = some (overflowed, proc, p)
  after_options (configured configfile) proc p =
      after_load (load_server_config h.can_open (h.read_file configfile) init_server_config) proc p

  unfoldable pub main : ℕ → List GetOpt → Process → Proc World → Main
  unfolding parse_options
  main argc opts proc p =
      if argc == 3
      then after_options (parse_options opts []) proc p
      else some (returned minus_one, help h.program proc, p)
