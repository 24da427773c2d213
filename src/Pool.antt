-- ===== src/Pool.antt =====
-- ListenThread::AssignTask (ListenThread.cpp) and TaskThread::iClose (TaskThread.cpp) as threads:
-- one listener and `n` workers share the counters m_ActiveConns, one access of a counter a step.
pub mod Invariant
pub mod Safety
pub mod Sample
mod Tests
use epoll_threads.Base.{
  ℕ, ◌+◌, ◌-◌, ◌≤◌, ◌<◌, ◌≡◌, Bool, true, false, ℤ, pos, ◌+ℤ◌, ◌≤ℤ◌, ◌<ℤ◌, ltb_ℤ, set_at,
  if◌then◌else◌,
}
use epoll_threads.Kernel.{Atomic}

-- Where the listener stands in `AssignTask`, with its locals `i`, `target` and `activeConns`.
pub data Listener : Type 0 where
  -- in `Listen`
  waiting : Listener
  -- at the head of the loop
  summing : (i target : ℕ) (active_conns : ℤ) → Listener
  -- before the first read of the `if`
  comparing : (i target : ℕ) (active_conns : ℤ) → Listener
  -- before its second read; the first gave `count`
  compared : (i target : ℕ) (active_conns count : ℤ) → Listener
  -- behind the loop
  deciding : (target : ℕ) (active_conns : ℤ) → Listener
  -- before `i_epoll_add`
  adding : (target : ℕ) → Listener
  -- before `IncrementActiveConns`
  incrementing : (target : ℕ) → Listener

-- `conns i` sockets are registered with worker `i`; `closing i` holds from its `close` in `iClose`
-- to its `atomic_dec`.
pub record System : Type 0 where
  pub counter : ℕ → ℤ
  pub conns : ℕ → ℕ
  pub closing : ℕ → Bool
  pub listener : Listener

-- The workers as `InitTaskThread` leaves them.
abbrev pub start : System
start = record {
  counter = λ _. pos 0;
  conns = λ _. 0;
  closing = λ _. false;
  listener = Listener.waiting;
}

pub data Step (a : Atomic) (n maxclients : ℕ) (s : System) : System → Type 0 where
  -- `Listen` returned a socket: `target = 1`, `activeConns = 1`, `i = 0`
  accept :
      s.listener ≡ Listener.waiting
      → Step a n maxclients s (record s { listener = Listener.summing 0 1 (pos 1) })
  -- `activeConns += m_taskthread[i]->GetActiveConns()`
  sum :
      (i t : ℕ) (c : ℤ)
      → s.listener ≡ Listener.summing i t c
      → i < n
      → Step a n maxclients s (record s { listener = Listener.comparing i t (c +ℤ s.counter i) })
  -- `m_taskthread[i]->GetActiveConns()` in the `if`
  load :
      (i t : ℕ) (c : ℤ)
      → s.listener ≡ Listener.comparing i t c
      → Step a n maxclients s (record s { listener = Listener.compared i t c (s.counter i) })
  -- `< m_taskthread[target]->GetActiveConns()`, then `target = i` and `i++`; the read wants a
  -- worker at `target`
  choose :
      (i t : ℕ) (c count : ℤ)
      → s.listener ≡ Listener.compared i t c count
      → t < n
      → Step a n maxclients s (record s {
        listener = Listener.summing (i + 1) (if ltb_ℤ count (s.counter t) then i else t) c;
      })
  leave :
      (i t : ℕ) (c : ℤ)
      → s.listener ≡ Listener.summing i t c
      → n ≤ i
      → Step a n maxclients s (record s { listener = Listener.deciding t c })
  -- `close(sockfd)`
  refuse :
      (t : ℕ) (c : ℤ)
      → s.listener ≡ Listener.deciding t c
      → pos maxclients <ℤ c
      → Step a n maxclients s (record s { listener = Listener.waiting })
  admit :
      (t : ℕ) (c : ℤ)
      → s.listener ≡ Listener.deciding t c
      → c ≤ℤ pos maxclients
      → Step a n maxclients s (record s { listener = Listener.adding t })
  add_fails :
      (t : ℕ)
      → s.listener ≡ Listener.adding t
      → Step a n maxclients s (record s { listener = Listener.waiting })
  add :
      (t : ℕ)
      → s.listener ≡ Listener.adding t
      → Step a n maxclients s (record s {
        listener = Listener.incrementing t;
        conns = set_at t (s.conns t + 1) s.conns;
      })
  -- `atomic_inc`
  increment :
      (t : ℕ)
      → s.listener ≡ Listener.incrementing t
      → Step a n maxclients s (record s {
        listener = Listener.waiting;
        counter = set_at t (a.inc (s.counter t)) s.counter;
      })
  -- `i_epoll_del` and `close` in the `iClose` of worker `k`
  hang_up :
      (k : ℕ)
      → k < n
      → s.closing k ≡ false
      → 0 < s.conns k
      → Step a n maxclients s
          (record s { conns = set_at k (s.conns k - 1) s.conns; closing = set_at k true s.closing })
  -- `atomic_dec`
  decrement :
      (k : ℕ)
      → k < n
      → s.closing k ≡ true
      → Step a n maxclients s (record s {
        counter = set_at k (a.dec (s.counter k)) s.counter;
        closing = set_at k false s.closing;
      })

pub data Reach (a : Atomic) (n maxclients : ℕ) : System → Type 0 where
  here : Reach a n maxclients start
  next : {s t : System} → Reach a n maxclients s → Step a n maxclients s t → Reach a n maxclients t
