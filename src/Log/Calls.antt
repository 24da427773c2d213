-- ===== src/Log/Calls.antt =====
-- The calls of myepollLog that a thread has made, against the mutex of the log (main.cpp). `say` notes
-- a call; whether the calls get past the mutex is said here.
use epoll_threads.Base.{ℕ, ◌≡◌, refl, Bool, false, List, [], ◌∷◌, ◌++◌, some, pos, ◌≤ℤ◌}
use epoll_threads.Proc.{LogCall, Message}
use epoll_threads.Config.{Server}
use epoll_threads.Log.{LogState, log_all}
use epoll_threads.Log.Blocking.{CanWrite, log_all_lem}

-- `text` is what `vsnprintf` makes of a message.
module _ (text : Message → List ℕ) where
  -- The calls of a thread in their order.
  abbrev pub calls : List LogCall → List (ℕ × List ℕ)
  calls [] = []
  calls (c ∷ log) = calls log ++ (c.level, text c.message) ∷ []

  module _ (can_open : List ℕ → Bool) (server : Server) where
    -- None of the calls waits for ever, and the mutex is free after the last one.
    abbrev pub Passes : List LogCall → Type 0
    Passes log =
        (s : LogState) × (log_all can_open server (calls log)
            (record { locked = false; written = [] })
          ≡ some s)
        × (s.locked ≡ false)

    pub debug-Passes :
        server.verbosity ≤ℤ pos 0 → CanWrite can_open server → (log : List LogCall) → Passes log
    debug-Passes low can log = (
      _,
      log_all_lem can_open server (calls log) (record { locked = false; written = [] }) low can
          refl,
      refl,
    )
