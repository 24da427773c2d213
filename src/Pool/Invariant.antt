-- ===== src/Pool/Invariant.antt =====
-- What every interleaving of the listener and the workers keeps: each counter against the sockets
-- it counts, and the listener's partial sum against the sockets that are left.
use epoll_threads.Base.{
  ℕ, zero, suc, ◌+◌, ◌≤◌, ◌<◌, ◌≡◌, refl, ℤ, pos, pos_part, neg_part, ◌+ℤ◌, set_at, sum_below,
  sum_below-zero, sum_below-suc, sum_below_mono, sum_below-bump, sum_below-loss, le-sum_below,
  arith, ◌==◌, if◌then◌else◌, ◌^◌, subst, sym, negsuc,
}
use native.Mathlib.Numerals.{add-one}
use epoll_threads.Kernel.{Atomic, InRange}
use epoll_threads.Pool.{
  Listener, waiting, summing, comparing, compared, deciding, adding, incrementing, System, start,
  Step, accept, sum, load, choose, leave, refuse, admit, add_fails, add, increment, hang_up,
  decrement, Reach, here, next,
}

-- The sockets of worker `i` that its counter still counts.
abbrev pub counted : System → ℕ → ℕ
counted s i = s.conns i + (if s.closing i then 1 else 0)

-- A socket is registered before it is counted.
abbrev pub pending : Listener → ℕ → ℕ
pending (incrementing t) i = if t == i then 1 else 0
pending _ i = 0

-- The listener's sum after the first `i` counters, over the family `f` of what they count.
pub record IsPartial (n m : ℕ) (f : ℕ → ℕ) (i : ℕ) (c : ℤ) : Type 0 where
  pub within : i ≤ n
  pub above : sum_below i f < pos_part c
  pub small : pos_part c + sum_below n f ≤ m + 1 + sum_below i f
  pub sign : neg_part c ≡ 0

abbrev pub ListenerInv : (n m : ℕ) (f : ℕ → ℕ) → Listener → Type 0
ListenerInv n m f waiting = Unit
ListenerInv n m f (summing i t c) = (t < n) × IsPartial n m f i c
ListenerInv n m f (comparing i t c) = (t < n) × IsPartial n m f (suc i) c
ListenerInv n m f (compared i t c _) = (t < n) × IsPartial n m f (suc i) c
ListenerInv n m f (deciding t c) = (t < n) × IsPartial n m f n c
ListenerInv n m f (adding t) = (t < n) × (sum_below n f < m)
ListenerInv n m f (incrementing t) = t < n

pub record Inv (n m : ℕ) (s : System) : Type 0 where
  pub balance :
      (i : ℕ) → pos_part (s.counter i) + pending s.listener i ≡ neg_part (s.counter i) + counted s i
  pub bounded : sum_below n (counted s) ≤ m
  pub at_listener : ListenerInv n m (counted s) s.listener

-- Sockets that go away keep what the listener knows.
IsPartial-mono :
    (n m : ℕ) (f g : ℕ → ℕ) (i : ℕ) (c : ℤ)
    → ((j : ℕ) → g j ≤ f j)
    → IsPartial n m f i c
    → IsPartial n m g i c
IsPartial-mono n m f g i c h p = record {
  within = p.within;
  above = omega (arith, p.above, sum_below_mono i g f (λ j _. h j));
  small = omega (arith, p.small, sum_below-loss n i f g p.within h);
  sign = p.sign;
}

ListenerInv-mono :
    (n m : ℕ) (f g : ℕ → ℕ) (l : Listener)
    → ((j : ℕ) → g j ≤ f j)
    → ListenerInv n m f l
    → ListenerInv n m g l
ListenerInv-mono n m f g waiting h v = tt
ListenerInv-mono n m f g (summing i t c) h v = (v.0, IsPartial-mono n m f g i c h v.1)
ListenerInv-mono n m f g (comparing i t c) h v = (v.0, IsPartial-mono n m f g (suc i) c h v.1)
ListenerInv-mono n m f g (compared i t c _) h v = (v.0, IsPartial-mono n m f g (suc i) c h v.1)
ListenerInv-mono n m f g (deciding t c) h v = (v.0, IsPartial-mono n m f g n c h v.1)
ListenerInv-mono n m f g (adding t) h v = (v.0, omega (arith, sum_below_mono n g f (λ j _. h j)))
ListenerInv-mono n m f g (incrementing t) h v = v

Inv-start : (n m : ℕ) → Inv n m start
Inv-start n m = record {
  balance = λ i. omega arith;
  bounded = omega (arith, sum_below_mono n (counted start) (λ _. 0) (λ _ _. omega arith), none n);
  at_listener = tt;
}
  where
    none : (k : ℕ) → sum_below k (λ _. 0) ≡ 0
    none zero = sum_below-zero _
    none (suc k) = omega (arith, sum_below-suc k (λ _. 0), none k)

-- One more counter is read, that agrees with what it counts.
IsPartial-sum :
    (n m : ℕ) (f : ℕ → ℕ) (i : ℕ) (c x : ℤ)
    → i < n
    → pos_part x ≡ neg_part x + f i
    → IsPartial n m f i c
    → IsPartial n m f (suc i) (c +ℤ x)
unfolding ◌+ℤ◌
IsPartial-sum n m f i c x lt e p = record {
  within = lt;
  above = ground (arith, p.above, p.sign, sum_below-suc i f);
  small = ground (arith, p.small, p.sign, sum_below-suc i f);
  sign = ground (arith, p.sign);
}

-- A counter that agrees up to one pending socket stays where the atomic operations are exact.
in_range : (c : ℤ) (p k : ℕ) → pos_part c + p ≡ neg_part c + k → p ≤ 1 → k < 2 ^ 23 → InRange c
in_range (pos x) p k e one lt = (omega arith, omega arith)
in_range (negsuc x) p k e one lt = (omega arith, omega arith)

pending_le : (l : Listener) (i : ℕ) → pending l i ≤ 1
pending_le (incrementing t) i = ground arith
pending_le waiting i = omega arith
pending_le _ i = omega arith

module _ (a : Atomic) (n m : ℕ) (two : 1 < n) (range : m < 2 ^ 23) {s : System}
    (v : Inv n m s) where
  open v use {balance, bounded, at_listener}

  known : {l : Listener} → s.listener ≡ l → ListenerInv n m (counted s) l
  known e = subst (ListenerInv n m (counted s)) e at_listener

  pub counter-InRange : (k : ℕ) → k < n → InRange (s.counter k)
  counter-InRange k lt =
      in_range (s.counter k) (pending s.listener k) (counted s k) (balance k)
        (pending_le s.listener k) (omega (arith, le-sum_below n (counted s) k lt))

  -- A step of a worker: nothing is counted that was not counted before.
  shrink :
      {t : System}
      → t.listener ≡ s.listener
      → ((i : ℕ) → counted t i ≤ counted s i)
      → ((i : ℕ)
          → pos_part (t.counter i) + pending t.listener i ≡ neg_part (t.counter i) + counted t i)
      → Inv n m t
  shrink {t} e h b = record {
    balance = b;
    bounded = omega (arith, sum_below_mono n (counted t) (counted s) (λ j _. h j));
    at_listener =
        ListenerInv-mono n m (counted s) (counted t) t.listener h
          (subst (ListenerInv n m (counted s)) (sym e) at_listener);
  }

  -- A step of the listener alone.
  move :
      (l : Listener)
      → ListenerInv n m (counted s) l
      → ((i : ℕ) → pending l i ≡ pending s.listener i)
      → Inv n m (record s { listener = l })
  move l h p = record {
    balance = λ j. omega (arith, balance j, p j);
    bounded = bounded;
    at_listener = h;
  }

  pub Step-Inv : {t : System} → Step a n m s t → Inv n m t
  unfolding ◌+ℤ◌
  Step-Inv (accept e) =
      move _
        (
          two,
          record {
            within = omega arith;
            above = omega (arith, sum_below-zero (counted s));
            small = omega (arith, bounded);
            sign = refl;
          },
        )
        (λ i. ground arith)
  Step-Inv (sum i t c e lt) =
      move _
        (
          (known e).0,
          IsPartial-sum n m (counted s) i c (s.counter i) lt (ground (arith, balance i))
              (known e).1,
        )
        (λ j. ground arith)
  Step-Inv (load i t c e) = move _ (known e) (λ j. ground arith)
  Step-Inv (choose i t c count e lt) =
      move _ (ground (arith, (known e).1.within), rw add-one (known e).1) (λ j. ground arith)
  Step-Inv (leave i t c e le) =
      let end : i ≡ n = omega (arith, (known e).1.within) in
      move _ ((known e).0, subst (λ k. IsPartial n m (counted s) k c) end (known e).1)
        (λ j. ground arith)
  Step-Inv (refuse t c e lt) = move _ tt (λ j. ground arith)
  Step-Inv (admit t c e le) =
      move _ ((known e).0, omega (arith, (known e).1.above, (known e).1.sign)) (λ j. ground arith)
  Step-Inv (add_fails t e) = move _ tt (λ j. ground arith)
  Step-Inv (add t e) = record {
    balance = λ j. ground (arith, balance j);
    bounded =
        let s' : System = record s {
          listener = incrementing t;
          conns = set_at t (s.conns t + 1) s.conns;
        } in
        omega (
          arith,
          (known e).1,
          sum_below-bump n (counted s) (counted s') t (known e).0 (ground arith)
              (λ j _ ne. ground arith),
        );
    at_listener = (known e).0;
  }
  Step-Inv (increment t e) = record {
    balance = λ j. ground (arith, balance j, a.inc_lem (s.counter t) (counter-InRange t (known e)));
    bounded = bounded;
    at_listener = tt;
  }
  Step-Inv (hang_up k lt e held) = shrink refl (λ j. ground arith) (λ j. ground (arith, balance j))
  Step-Inv (decrement k lt e) =
      shrink refl (λ j. ground arith)
        (λ j. ground (arith, balance j, a.dec_lem (s.counter k) (counter-InRange k lt)))

pub Reach-Inv :
    (a : Atomic) (n m : ℕ) → 1 < n → m < 2 ^ 23 → {s : System} → Reach a n m s → Inv n m s
Reach-Inv a n m two range here = Inv-start n m
Reach-Inv a n m two range (next r st) = Step-Inv a n m two range (Reach-Inv a n m two range r) st
