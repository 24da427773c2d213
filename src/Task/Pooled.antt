-- ===== src/Task/Pooled.antt =====
-- A worker's Run (TaskThread.cpp) against the steps of `Pool`, in which the listener and the other
-- workers may come in between.
use epoll_threads.Base.{ℕ, ◌+◌, ◌<◌, ◌≡◌, ◌≢◌, false, ℤ}
use epoll_threads.Kernel.{Kernel, Atomic}
use epoll_threads.Proc.{Proc}
use epoll_threads.Pool.{System}
use epoll_threads.ListenThread.Interleaved.{Steps}

-- Worker `i` between two events: its counter is `c`, and it is in no `iClose`.
pub record Rests (i : ℕ) (s : System) (c : ℤ) : Type 0 where
  pub counter : s.counter i ≡ c
  pub open_door : s.closing i ≡ false

-- `m` of the sockets of worker `i` are gone, and what the others have is as it was.
pub record Lost (i m : ℕ) (s t : System) : Type 0 where
  pub conns : t.conns i + m ≡ s.conns i
  pub listener : t.listener ≡ s.listener
  pub other_counters : (j : ℕ) → j ≢ i → t.counter j ≡ s.counter j
  pub other_conns : (j : ℕ) → j ≢ i → t.conns j ≡ s.conns j

module _ (a : Atomic) (n maxclients i : ℕ) (lt : i < n) where
  -- What the worker's code does to the counter and to its sockets, as steps of `Pool`.
  abbrev pub RunsAs : ℕ → System → ℤ → Type 0
  RunsAs m s c = (t : System) × Steps a n maxclients s t × Rests i t c × Lost i m s t
