-- ===== src/Log/Threads.antt =====
-- myepollLog (main.cpp) called by several threads at once: its lock, its write and its unlock are steps
-- of their own.
use epoll_threads.Base.{
  ℕ, ◌-◌, ◌≡◌, Bool, true, false, List, [], ◌∷◌, ◌++◌, Option, none, some, pos, ltb_ℤ, take, set_at,
}
use epoll_threads.Config.{Server}
use epoll_threads.Log.{LogState, level_of, my_max_logmsg_len, myepoll_log_raw}

-- Where a thread is: in no call, behind `pthread_mutex_lock`, or before `pthread_mutex_unlock`.
pub data Place : Type 0 where
  outside : Place
  inside : (level : ℕ) (msg : List ℕ) → Place
  unlocking : (level : ℕ) (msg : List ℕ) → Place

pub record Callers : Type 0 where
  pub place : ℕ → Place
  pub log : LogState

module _ (can_open : List ℕ → Bool) (server : Server) where
  -- `vsnprintf` into `msg`, and `myepollLogRaw`.
  abbrev pub write : ℕ → List ℕ → LogState → LogState
  write level msg log = myepoll_log_raw can_open server level (take (my_max_logmsg_len - 1) msg) log

  -- A step, with the call that it begins.
  pub data Step (s : Callers) : Option (ℕ × List ℕ) → Callers → Type 0 where
    -- `pthread_mutex_lock`
    lock :
        (i level : ℕ) (msg : List ℕ)
        → s.place i ≡ outside
        → s.log.locked ≡ false
        → Step s (some (level, msg)) (record s {
          place = set_at i (inside level msg) s.place;
          log = record (s.log) { locked = true };
        })
    -- the `return` for a level below the verbosity
    leave :
        (i level : ℕ) (msg : List ℕ)
        → s.place i ≡ inside level msg
        → ltb_ℤ (pos (level_of level)) server.verbosity ≡ true
        → Step s none (record s { place = set_at i outside s.place })
    print :
        (i level : ℕ) (msg : List ℕ)
        → s.place i ≡ inside level msg
        → ltb_ℤ (pos (level_of level)) server.verbosity ≡ false
        → Step s none (record s {
          place = set_at i (unlocking level msg) s.place;
          log = write level msg s.log;
        })
    -- `pthread_mutex_unlock`
    unlock :
        (i level : ℕ) (msg : List ℕ)
        → s.place i ≡ unlocking level msg
        → Step s none
            (record s { place = set_at i outside s.place; log = record (s.log) { locked = false } })

  abbrev pub begun : List (ℕ × List ℕ) → Option (ℕ × List ℕ) → List (ℕ × List ℕ)
  begun calls none = calls
  begun calls (some c) = calls ++ c ∷ []

  -- The states that can be reached, with the calls in the order of their locks.
  pub data Reach (log : LogState) : List (ℕ × List ℕ) → Callers → Type 0 where
    here : Reach log [] (record { place = λ i. outside; log = log })
    next :
        {calls : List (ℕ × List ℕ)} {c : Option (ℕ × List ℕ)} {s t : Callers}
        → Reach log calls s
        → Step s c t
        → Reach log (begun calls c) t
