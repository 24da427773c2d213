-- ===== src/Pool/Safety.antt =====
-- What holds in every reachable state of the listener and the workers (ListenThread.cpp,
-- TaskThread.cpp), and what happens with a single worker.
use epoll_threads.Base.{
  ℕ, suc, ◌+◌, ◌≤◌, ◌<◌, ◌^◌, ◌≡◌, refl, false, Option, none, some, ℤ, pos, negsuc, ◌≤ℤ◌, pos_part,
  neg_part, sum_below, sum_below_mono, sum_below-prefix, ltb_ℤ, ◌≢◌, inl, inr, Bool-cases, dec_lt,
  arith, subst, ap,
}
use epoll_threads.Kernel.{Atomic, InRange}
use epoll_threads.Pool.{
  Listener, waiting, summing, comparing, compared, deciding, adding, incrementing, System, Step,
  accept, sum, load, choose, leave, refuse, admit, add_fails, add, increment, hang_up, decrement,
  Reach, here, next,
}
use epoll_threads.Pool.Invariant.{counted, pending, ListenerInv, Inv, Reach-Inv, counter-InRange}

-- The index that the listener reads or writes `m_taskthread` at, besides `i`.
abbrev pub target_of : Listener → Option ℕ
target_of waiting = none
target_of (summing _ t _) = some t
target_of (comparing _ t _) = some t
target_of (compared _ t _ _) = some t
target_of (deciding t _) = some t
target_of (adding t) = some t
target_of (incrementing t) = some t

-- The listener's running sum.
abbrev pub sum_of : Listener → Option ℤ
sum_of (summing _ _ c) = some c
sum_of (comparing _ _ c) = some c
sum_of (compared _ _ c _) = some c
sum_of (deciding _ c) = some c
sum_of _ = none

module _ (a : Atomic) (n m : ℕ) (two : 1 < n) (range : m < 2 ^ 23) {s : System}
    (r : Reach a n m s) where
  inv : Inv n m s
  inv = Reach-Inv a n m two range r

  -- With at least two workers and a limit below 2^23: in every state that any interleaving of the
  -- counter accesses of the listener and the workers reaches, at most `maxclients` sockets are
  -- registered with all workers together, those in the middle of `iClose` counted too.
  pub connections_bounded : (sum_below n s.conns ≤ m) × (sum_below n (counted s) ≤ m)
  connections_bounded = (
    omega (arith, inv.bounded, sum_below_mono n s.conns (counted s) (λ j _. omega arith)),
    inv.bounded,
  )

  -- With at least two workers and a limit below 2^23, in every reachable state the counter of a
  -- worker is the number of its registered sockets, whenever the listener is not between
  -- registering and counting a socket of it and the worker is not between closing and uncounting
  -- one.
  pub counter_exact :
      (i : ℕ) → pending s.listener i ≡ 0 → s.closing i ≡ false → s.counter i ≡ pos (s.conns i)
  counter_exact i p c = exact (s.counter i) (s.conns i) (ground (arith, inv.balance i))
    where
      exact : (x : ℤ) (k : ℕ) → pos_part x ≡ neg_part x + k → x ≡ pos k
      exact (pos x) k e = ap pos (omega (arith, e))
      exact (negsuc x) k e = absurd (omega arith)

  target-lt :
      (f : ℕ → ℕ) (l : Listener) (t : ℕ) → ListenerInv n m f l → target_of l ≡ some t → t < n
  target-lt f waiting t v e = cc
  target-lt f l t v e = ground arith

  -- With at least two workers and a limit below 2^23, in every reachable state the index `target`
  -- that `AssignTask` reads or writes `m_taskthread` at is the index of a worker.
  pub target_in_range : (t : ℕ) → target_of s.listener ≡ some t → t < n
  target_in_range t e = target-lt (counted s) s.listener t inv.at_listener e

  sum-le :
      (f : ℕ → ℕ) (l : Listener) (c : ℤ)
      → ListenerInv n m f l
      → sum_of l ≡ some c
      → (pos 1 ≤ℤ c) × (c ≤ℤ pos (m + 1))
  sum-le f waiting c v e = cc
  sum-le f (summing i t c') c v e =
      ground (arith, v.1.above, v.1.small, v.1.sign, sum_below-prefix n i f v.1.within)
  sum-le f (comparing i t c') c v e =
      ground (arith, v.1.above, v.1.small, v.1.sign, sum_below-prefix n (suc i) f v.1.within)
  sum-le f (compared i t c' k) c v e =
      ground (arith, v.1.above, v.1.small, v.1.sign, sum_below-prefix n (suc i) f v.1.within)
  sum-le f (deciding t c') c v e = ground (arith, v.1.above, v.1.small, v.1.sign)
  sum-le f (adding t) c v e = cc
  sum-le f (incrementing t) c v e = cc

  -- With at least two workers and a limit below 2^23, in every reachable state `activeConns` is
  -- between 1 and `maxclients` + 1 and every counter is within the 24 bits of the atomic
  -- operations.
  pub sums-InRange :
      ((c : ℤ) → sum_of s.listener ≡ some c → (pos 1 ≤ℤ c) × (c ≤ℤ pos (m + 1)))
      × ((k : ℕ) → k < n → InRange (s.counter k))
  sums-InRange = (
    λ c e. sum-le (counted s) s.listener c inv.at_listener e,
    counter-InRange a n m two range inv,
  )

  -- With at least two workers and a limit below 2^23, in every reachable state the listener has a
  -- step that takes it to another place in `AssignTask`.
  pub listener_moves : (s' : System) × Step a n m s s' × (s'.listener ≢ s.listener)
  listener_moves = go s.listener refl
    where
      go :
          (l : Listener)
          → s.listener ≡ l
          → (s' : System) × Step a n m s s' × (s'.listener ≢ s.listener)
      go waiting e = (_, accept e, λ q. cc)
      go (summing i t c) e = elim (dec_lt i n) [
        | yes more ↦ (_, sum i t c e more, λ q. cc)
        | no done ↦ (_, leave i t c e (omega arith), λ q. cc)
      ]
      go (comparing i t c) e = (_, load i t c e, λ q. cc)
      go (compared i t c k) e = (_, choose i t c k e (target_in_range t (ground arith)), λ q. cc)
      go (deciding t c) e = elim (Bool-cases (ltb_ℤ (pos m) c)) [
        | inl over ↦ (_, refuse t c e (ground arith), λ q. cc)
        | inr fits ↦ (_, admit t c e (ground arith), λ q. cc)
      ]
      go (adding t) e = (_, add t e, λ q. cc)
      go (incrementing t) e = (_, increment t e, λ q. cc)

-- With one worker the initial target, 1, names no worker.
abbrev AloneAt : Listener → Type 0
AloneAt waiting = Unit
AloneAt (summing i t c) = (i ≡ 0) × (t ≡ 1)
AloneAt (comparing i t c) = (i ≡ 0) × (t ≡ 1)
AloneAt (compared i t c k) = (i ≡ 0) × (t ≡ 1)
AloneAt _ = ⊥

record Alone (s : System) : Type 0 where
  at : AloneAt s.listener
  nobody : (k : ℕ) → s.conns k ≡ 0

module _ (a : Atomic) (m : ℕ) where
  Step-Alone : {s t : System} → Alone s → Step a 1 m s t → Alone t
  Step-Alone v (accept e) = record { at = (refl, refl); nobody = v.nobody }
  Step-Alone v (sum i t c e lt) = record { at = subst AloneAt e v.at; nobody = v.nobody }
  Step-Alone v (load i t c e) = record { at = subst AloneAt e v.at; nobody = v.nobody }
  Step-Alone v (choose i t c k e lt) =
      let (_, one) = subst AloneAt e v.at in absurd (omega (arith, one))
  Step-Alone v (leave i t c e le) =
      let (zeroth, _) = subst AloneAt e v.at in absurd (omega (arith, zeroth))
  Step-Alone v (refuse t c e lt) = absurd (subst AloneAt e v.at)
  Step-Alone v (admit t c e le) = absurd (subst AloneAt e v.at)
  Step-Alone v (add_fails t e) = absurd (subst AloneAt e v.at)
  Step-Alone v (add t e) = absurd (subst AloneAt e v.at)
  Step-Alone v (increment t e) = absurd (subst AloneAt e v.at)
  Step-Alone v (hang_up k lt e open_one) = absurd (omega (arith, v.nobody k))
  Step-Alone v (decrement k lt e) = record { at = v.at; nobody = v.nobody }

  Reach-Alone : {s : System} → Reach a 1 m s → Alone s
  Reach-Alone here = record { at = tt; nobody = λ _. refl }
  Reach-Alone (next r st) = Step-Alone (Reach-Alone r) st

  -- With a single worker, every reachable state that is about to read `m_taskthread[target]` reads
  -- it at index 1, past the end of the deque, and no reachable state has a socket registered.
  pub one_worker_faults :
      {s : System}
      → Reach a 1 m s
      → ((i t : ℕ) (c k : ℤ) → s.listener ≡ compared i t c k → t ≡ 1) × ((k : ℕ) → s.conns k ≡ 0)
  one_worker_faults r =
      (λ i t c k e. (subst AloneAt e (Reach-Alone r).at).1, (Reach-Alone r).nobody)
