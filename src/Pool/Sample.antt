-- ===== src/Pool/Sample.antt =====
-- A run of two workers of `Pool` (ListenThread.cpp): the first client is registered and counted.
use epoll_threads.Base.{◌≡◌, refl, pos, ◌+ℤ◌, set_at, arith}
use epoll_threads.Sim.{exact}
use epoll_threads.Pool.{
  Listener, System, accept, sum, load, choose, leave, admit, add, increment, Reach, here, next,
}

abbrev pub Run : System → Type 0
Run s = Reach exact 2 5 s

-- Up to the decision, for the first client.
unfoldable pub scan : (s : System) × Run s × (s.listener ≡ Listener.deciding 1 (pos 1))
unfolding ◌+ℤ◌
scan =
    let r1 = next here (accept refl) in
    let r2 = next r1 (sum 0 1 (pos 1) refl (omega arith)) in
    let r3 = next (next r2 (load 0 1 _ refl)) (choose 0 1 _ _ refl (omega arith)) in
    let r4 = next r3 (sum 1 1 _ refl (omega arith)) in
    let r5 = next (next r4 (load 1 1 _ refl)) (choose 1 1 _ _ refl (omega arith)) in
    (_, next r5 (leave 2 1 _ refl (omega arith)), refl)

-- The socket is registered, and not yet counted.
unfoldable pub registered : (s : System) × Run s × (s.listener ≡ Listener.incrementing 1)
unfolding scan
registered =
    let (s, r, e) = scan in (_, next (next r (admit 1 (pos 1) e (omega arith))) (add 1 refl), refl)

unfoldable pub served : System
unfolding registered
served = record registered.0 {
  listener = Listener.waiting;
  counter = set_at 1 (registered.0.counter 1 +ℤ pos 1) registered.0.counter;
}

pub served-Run : Run served
unfolding served
served-Run = next registered.1 (increment 1 registered.2)
