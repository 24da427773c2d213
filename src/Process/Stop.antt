-- ===== src/Process/Stop.antt =====
-- sigtermHandler (main.cpp), and the mutex of the log that it takes.
use epoll_threads.Base.{
  [], ◌∷◌, ◌++◌, ℕ, zero, suc, ◌≡◌, ◌≢◌, refl, Bool, true, false, List, none, some, ◌⊎◌, inl, inr,
  ℤ, pos, negsuc, ◌≤ℤ◌, ◌<ℤ◌, Bool-cases, arith,
}
use epoll_threads.Proc.{my_notice}
use epoll_threads.Text.{codes}
use epoll_threads.Config.{Server}
use epoll_threads.Log.Blocking.{log_all-stuck}
use epoll_threads.Log.{log_all, level_of, LogState, myepoll_log}
use epoll_threads.Process.{Globals, sigterm_handler}

pub zero-cases :
    (d : ℤ) → (d ≡ pos 0) ⊎ (((n : ℕ) × (d ≡ pos (suc n))) ⊎ ((n : ℕ) × (d ≡ negsuc n)))
zero-cases (pos zero) = inl refl
zero-cases (pos (suc n)) = inr (inl (n, refl))
zero-cases (negsuc n) = inr (inr (n, refl))

module _ (can_open : List ℕ → Bool) (server : Server) where
  notice-quiet :
      (msg : List ℕ) (s : LogState)
      → s.locked ≡ false
      → pos 2 <ℤ server.verbosity
      → myepoll_log can_open server my_notice msg s ≡ some (record s { locked = true })
  unfolding myepoll_log
  notice-quiet msg s free quiet = ground (arith, free, quiet)

  locked-blocks :
      (msg : List ℕ) (s : LogState)
      → s.locked ≡ true
      → myepoll_log can_open server my_notice msg s ≡ none
  unfolding myepoll_log
  locked-blocks msg s held = ground (arith, held)

  -- A call of another thread whose level is not below the verbosity.
  abbrev pub IsLoud : ℕ × List ℕ → Type 0
  IsLoud c = server.verbosity ≤ℤ pos (level_of c.0)

  -- Where the mutex is kept for good, the next call waits, whosever it is.
  log_all-held :
      (calls : List (ℕ × List ℕ)) (msg : List ℕ) (s : LogState)
      → s.locked ≡ true
      → log_all can_open server (calls ++ (my_notice, msg) ∷ []) s ≡ none
  unfolding myepoll_log
  log_all-held [] msg s held =
      log_all-stuck can_open server (my_notice, msg) [] s (locked-blocks msg s held)
  log_all-held (c ∷ calls) msg s held =
      log_all-stuck can_open server c (calls ++ (my_notice, msg) ∷ []) s (ground (arith, held))

  -- The pid file is removed if the server is a daemon.
  abbrev pub Stopped : Globals → Globals → Type 0
  Stopped g g' =
      (g'.shutdown ≡ true)
      × (g'.has_listener ≡ false)
      × (g'.log.locked ≡ false)
      × (((server.daemonize ≡ pos 0) × (g'.pid_file ≡ g.pid_file))
          ⊎ ((server.daemonize ≢ pos 0) × (g'.pid_file ≡ none)))

  -- Whatever calls of `myepollLog` other threads make in between, the handler never gets to its
  -- `_exit` if, as it logs its first message, the mutex is held for good, by a call that has returned
  -- with it or by the call that the signal has interrupted; nor if the server is a daemon whose
  -- verbosity is above `notice`: then its first message keeps the mutex and its second one waits for
  -- it, with the pid file still there.
  pub sigterm_handler-blocks :
      (meanwhile : List (ℕ × List ℕ)) (g : Globals)
      → (g.log.locked ≡ true) ⊎ ((server.daemonize ≢ pos 0) × (pos 2 <ℤ server.verbosity))
      → sigterm_handler can_open server meanwhile g ≡ none
  unfolding sigterm_handler
  sigterm_handler-blocks meanwhile g (inl held) =
      ground
        (arith, locked-blocks (codes "Received SIGTERM, scheduling shutdown >:( ...") g.log held)
  sigterm_handler-blocks meanwhile g (inr (daemon, quiet)) = elim (Bool-cases g.log.locked) [
    | inl held ↦
        ground
          (arith, locked-blocks (codes "Received SIGTERM, scheduling shutdown >:( ...") g.log held)
    | inr free ↦
        let s : LogState = record (g.log) { locked = true } in
        let run =
          notice-quiet (codes "Received SIGTERM, scheduling shutdown >:( ...") g.log free quiet in
        let run' = log_all-held meanwhile (codes "Removing the pid file.") s refl in
        elim (zero-cases server.daemonize) [
          | inl d ↦ absurd (daemon d)
          | inr (inl (n, d)) ↦ ground (arith, run, run', d)
          | inr (inr (n, d)) ↦ ground (arith, run, run', d)
        ]
  ]
