-- ===== src/Process/Start.antt =====
-- main (main.cpp): what has been done when it returns, and when it gets to its `poll`.
use epoll_threads.Base.{
  ◌≤ℤ◌, ℕ, ◌≡◌, ◌≢◌, refl, ◌∙◌, true, List, [], ◌∷◌, ◌++◌, Option, none, some, ◌⊎◌, inl, inr, All,
  ℤ, pos, minus_one, pos_part, length, arith, if◌then◌else◌,
}
use epoll_threads.Kernel.{Kernel}
use epoll_threads.Log.Blocking.{CanWrite}
use epoll_threads.Log.Calls.{Passes, debug-Passes}
use epoll_threads.Proc.{
  Message, Complaint, loader_call, Proc, LogCall, my_notice, my_warning, bind_port_err,
  server_running,
}
use epoll_threads.Text.{codes, decimal}
use epoll_threads.Config.{Server, Progress, init_server_config, load_server_config}
use epoll_threads.Setup.Opened.{OpenFds}
use epoll_threads.ListenThread.{Worker, get_worker_capacity}
use epoll_threads.ListenThread.Starts.{init_task_thread_lem, bind_listener_lem}
use epoll_threads.Process.Daemon.{init_server_lem}
use epoll_threads.Process.Stop.{zero-cases}
use epoll_threads.Process.{
  Process, ignored, sigterm_handled, sigpipe, sigterm, sighup, create_pid_file, init_server,
  daemonize, GetOpt, configured, usage, parse_options, Host, Ending, serving, terminated,
  new_listen_thread, serve, main,
}

module _ (k : Kernel) (h : Host) (op : OpenFds k) where
  -- The end of `main` with the workers that it started: a listening socket, with the message that
  -- the server runs; or the SIGTERM that follows a `Bind` that failed, behind its log line.
  abbrev pub Serves : Server → Ending → Proc k.World → Type 0
  Serves server ending q =
      (workers : List Worker) × (length workers ≡ pos_part server.maxthreads)
      × All (λ w. w.active ≡ pos 0) workers
      × (log : List LogCall) × (((fd : ℤ) × (ending ≡ serving workers fd)
            × (op.listening q.world fd ≡ true)
            × (q.log ≡ record { level = my_notice; message = server_running } ∷ log))
          ⊎ ((ending ≡ terminated workers)
              × (q.log ≡ record { level = my_warning; message = bind_port_err server.port } ∷ log)))

  serve-Serves :
      (server : Server) (proc : Process) (p : Proc k.World)
      → (ending : Ending) × (q : Proc k.World) × (serve k h server proc p ≡ some (ending, proc, q))
        × Serves server ending q
  unfolding serve new_listen_thread
  serve-Serves server proc p =
      let n = pos_part server.maxthreads in
      let (workers, w, run, len, zeros) =
        init_task_thread_lem k (get_worker_capacity h.rlim_cur n) n p in
      let (r, q, run', ends) = bind_listener_lem k op server w in
      elim ends [
        | inl (z, up, o, l) ↦ (
          serving workers r.1,
          record q { log = record { level = my_notice; message = server_running } ∷ q.log },
          ground (arith, run, run', z),
          (workers, len, zeros, q.log, inl (r.1, refl, l, refl)),
        )
        | inr (z, up, s, (m, log)) ↦ (
          terminated workers,
          q,
          ground (arith, run, run', z),
          (
            workers,
            len,
            zeros,
            record { level = my_warning; message = m } ∷ w.log,
            inr (refl, log),
          ),
        )
      ]

  -- The process at that point: the signals are set, and the pid file is written if the server is a
  -- daemon and the file can be opened.
  abbrev pub Ready : Server → Process → Process → Type 0
  Ready server proc proc' =
      (proc'.dispositions sigpipe ≡ ignored)
      × (proc'.dispositions sigterm ≡ sigterm_handled)
      × (proc'.dispositions sighup ≡ sigterm_handled)
      × (((server.daemonize ≡ pos 0)
            × (proc'.files ≡ proc.files)
            × (proc'.pid_file ≡ proc.pid_file))
          ⊎ ((server.daemonize ≢ pos 0)
              × (proc'.pid_file ≡ (
                  if h.pid_file_opens
                  then some (decimal (pos h.pid) ++ 10 ∷ [])
                  else proc.pid_file))))

  child_of :
      (null : Option ℕ) (proc : Process)
      → (child : Process) × (daemonize (pos 0) null proc ≡ some child)
        × (child.pid_file ≡ proc.pid_file)
  unfolding daemonize
  child_of none proc = (proc, refl, refl)
  child_of (some fd) proc = (_, refl, refl)

  foreground-Ready :
      (server : Server) (proc : Process)
      → server.daemonize ≡ pos 0
      → Ready server proc (init_server proc)
  unfolding init_server
  foreground-Ready server proc d = (
    init_server_lem proc sigpipe,
    init_server_lem proc sigterm,
    init_server_lem proc sighup,
    inl (d, refl, refl),
  )

  daemon-Ready :
      (server : Server) (proc child : Process)
      → server.daemonize ≢ pos 0
      → child.pid_file ≡ proc.pid_file
      → Ready server proc (create_pid_file h.pid_file_opens h.pid (init_server child))
  unfolding create_pid_file init_server
  daemon-Ready server proc child d e = (
    ground (arith, init_server_lem child sigpipe),
    ground (arith, init_server_lem child sigterm),
    ground (arith, init_server_lem child sighup),
    inr (d, ground (arith, e)),
  )

  -- `main` in a run that gets past the configuration.
  abbrev pub Starts : (Message → List ℕ) → List GetOpt → Server → Process → Proc k.World → Type 0
  Starts text opts server proc p =
      (ending : Ending) × (proc' : Process) × (q : Proc k.World) × (main k h 3 opts proc p
        ≡ some (ending, proc', q))
      × Serves server ending q
      × Ready server proc proc'
      × Passes text h.can_open server q.log

  module _ (opts : List GetOpt) (file : List ℕ) (progress : Progress) (proc : Process)
      (p : Proc k.World) (parsed : parse_options opts [] ≡ configured file)
      (loaded : load_server_config h.can_open (h.read_file file) init_server_config
        ≡ (pos 0, progress))
      (silent : progress.complaints ≡ []) where
    main-foreground :
        progress.server.daemonize ≡ pos 0
        → main k h 3 opts proc p ≡ serve k h progress.server (init_server proc) p
    unfolding main
    main-foreground d = ground (arith, parsed, loaded, d, silent)

    main-daemon :
        (child : Process)
        → daemonize (pos 0) h.null proc ≡ some child
        → h.fork ≡ pos 0
        → progress.server.daemonize ≢ pos 0
        → main k h 3 opts proc p
          ≡ serve k h progress.server (create_pid_file h.pid_file_opens h.pid (init_server child)) p
    unfolding main
    main-daemon child born f d = elim (zero-cases progress.server.daemonize) [
      | inl z ↦ absurd (d z)
      | inr (inl (n, d')) ↦ ground (arith, parsed, loaded, f, born, d', silent)
      | inr (inr (n, d')) ↦ ground (arith, parsed, loaded, f, born, d', silent)
    ]

    -- With three words on the command line whose options end with a name of the configuration file, a
    -- file that loads with no complaint and leaves the verbosity at `debug` and a log that can be
    -- written, and a `fork` that succeeds if the server is to be a daemon: there are as many workers
    -- as configured, with their counters at 0, and `main` gets to its `poll` with a listening socket
    -- and the message that the server is running; or, where `Bind` failed and logged its port, to the
    -- SIGTERM that it sends to itself, whose handler takes over. The signals are set, and the pid file
    -- holds the pid of the process that goes on, if the server is a daemon and the file can be opened,
    -- and is left alone if not. No call of `myepollLog` on the way waits for a mutex that one of them
    -- has kept.
    pub main-Starts :
        (text : Message → List ℕ)
        → progress.server.verbosity ≤ℤ pos 0
        → CanWrite h.can_open progress.server
        → (progress.server.daemonize ≡ pos 0)
          ⊎ ((progress.server.daemonize ≢ pos 0) × (h.fork ≡ pos 0))
        → Starts text opts progress.server proc p
    main-Starts text low can (inl d) =
        let (ending, q, run, serves) = serve-Serves progress.server (init_server proc) p in
        (
          ending,
          init_server proc,
          q,
          main-foreground d ∙ run,
          serves,
          foreground-Ready progress.server proc d,
          debug-Passes text h.can_open progress.server low can q.log,
        )
    main-Starts text low can (inr (d, f)) =
        let (child, born, same) = child_of h.null proc in
        let ready = create_pid_file h.pid_file_opens h.pid (init_server child) in
        let (ending, q, run, serves) = serve-Serves progress.server ready p in
        (
          ending,
          ready,
          q,
          main-daemon child born f d ∙ run,
          serves,
          daemon-Ready progress.server proc child d same,
          debug-Passes text h.can_open progress.server low can q.log,
        )

-- What `help` writes.
abbrev pub usage_of : Host → List ℕ
usage_of h = codes "Usage: " ++ (h.program ++ (codes " -c /path/to/myepoll.conf" ++ 10 ∷ []))

-- The command lines and files that `main` refuses, with what stands on stderr and in the log for it.
pub data Refusal (h : Host) (argc : ℕ) (opts : List GetOpt) : List ℕ → List LogCall → Type 0 where
  wrong_words : argc ≢ 3 → Refusal h argc opts (usage_of h) []
  unknown_option :
      (diagnostic : List ℕ)
      → argc ≡ 3
      → parse_options opts [] ≡ usage diagnostic
      → Refusal h argc opts (diagnostic ++ usage_of h) []
  bad_file :
      (file : List ℕ) (progress : Progress) (c : Complaint)
      → argc ≡ 3
      → parse_options opts [] ≡ configured file
      → load_server_config h.can_open (h.read_file file) init_server_config ≡ (minus_one, progress)
      → progress.complaints ≡ c ∷ []
      → Refusal h argc opts [] (loader_call c ∷ [])
