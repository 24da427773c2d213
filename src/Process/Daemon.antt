-- ===== src/Process/Daemon.antt =====
-- daemonize and initServer (main.cpp): the descriptors and the signals of the server's process.
use epoll_threads.Base.{
  ℕ, ◌≡◌, refl, Option, none, some, ◌⊎◌, inl, inr, pos, ◌+◌, ◌==◌, ◌||◌, arith, if◌then◌else◌,
}
use epoll_threads.Process.{
  File, dev_null, ignored, sigterm_handled, sighup, sigint, sigpipe, sigterm, Process, to_dev_null,
  daemonize, init_server,
}

-- `/dev/null` is what the standard descriptors are open on, and the rest is as in `files`.
pub record Detached (files files' : ℕ → Option File) : Type 0 where
  pub stdin : files' 0 ≡ some dev_null
  pub stdout : files' 1 ≡ some dev_null
  pub stderr : files' 2 ≡ some dev_null
  pub others : (i : ℕ) → files' (3 + i) ≡ files (3 + i)

to_dev_null-Detached :
    (fd : ℕ) (files : ℕ → Option File) → files fd ≡ none → Detached files (to_dev_null fd files)
unfolding to_dev_null
to_dev_null-Detached fd files free = record {
  stdin = ground arith;
  stdout = ground arith;
  stderr = ground arith;
  others = λ i. ground (arith, free);
}

-- In the process that goes on, `open` having given a descriptor that was not in use: the standard
-- descriptors are open on /dev/null, and all others are as they were, the one that `open` gave
-- included; if `open` failed, all descriptors are as they were. Signals and the pid file are left
-- alone.
pub daemonize_lem :
    (null : Option ℕ) (p : Process)
    → ((fd : ℕ) → null ≡ some fd → p.files fd ≡ none)
    → (q : Process) × (daemonize (pos 0) null p ≡ some q)
      × (((null ≡ none) × (q ≡ p))
          ⊎ ((fd : ℕ) × (null ≡ some fd)
              × Detached p.files q.files
              × (q.dispositions ≡ p.dispositions)
              × (q.pid_file ≡ p.pid_file)))
unfolding daemonize
daemonize_lem none p h = (p, refl, inl (refl, refl))
daemonize_lem (some fd) p h = (
  record p { files = to_dev_null fd p.files },
  refl,
  inr (fd, refl, to_dev_null-Detached fd p.files (h fd refl), refl, refl),
)

-- After `initServer` SIGPIPE is ignored, and SIGHUP, SIGINT and SIGTERM all go to `sigtermHandler`:
-- that SIGHUP was set to be ignored before has no effect. Every other signal is left alone.
pub init_server_lem :
    (p : Process) (signal : ℕ)
    → (init_server p).dispositions signal ≡ (
        if signal == sigpipe
        then ignored
        else if signal == sighup || signal == sigint || signal == sigterm
        then sigterm_handled
        else p.dispositions signal)
unfolding init_server
init_server_lem p signal = ground arith
