-- ===== src/Pool/Tests.antt =====
-- A run of two workers, and the theorems at its states.
use epoll_threads.Base.{ℕ, ◌≤◌, ◌<◌, ◌≡◌, refl, some, ℤ, pos, ◌+ℤ◌, ◌≤ℤ◌, sum_below, arith}
use epoll_threads.Kernel.{InRange}
use epoll_threads.Pool.{Listener, System, accept, sum, load, Reach, here, next}
use epoll_threads.Sim.{exact}
use epoll_threads.Pool.Sample.{scan, registered, served, served-Run}
use epoll_threads.Pool.Invariant.{counted}
use epoll_threads.Pool.Safety.{
  sum_of, connections_bounded, counter_exact, target_in_range, sums-InRange, one_worker_faults,
}

connections_bounded_example : (sum_below 2 served.conns ≤ 5) × (sum_below 2 (counted served) ≤ 5)
connections_bounded_example = connections_bounded exact 2 5 (omega arith) (omega arith) served-Run

counter_exact_example : served.counter 1 ≡ pos (served.conns 1)
unfolding served
counter_exact_example = counter_exact exact 2 5 (omega arith) (omega arith) served-Run 1 refl refl

target_in_range_example : 1 < 2
unfolding registered
target_in_range_example = target_in_range exact 2 5 (omega arith) (omega arith) registered.1 1 refl

sums-InRange_example :
    ((c : ℤ) → sum_of scan.0.listener ≡ some c → (pos 1 ≤ℤ c) × (c ≤ℤ pos 6))
    × ((k : ℕ) → k < 2 → InRange (scan.0.counter k))
unfolding scan
sums-InRange_example = sums-InRange exact 2 5 (omega arith) (omega arith) scan.1

alone : (s : System) × Reach exact 1 5 s × (s.listener ≡ Listener.compared 0 1 (pos 1) (pos 0))
unfolding ◌+ℤ◌
alone =
    let r = next (next here (accept refl)) (sum 0 1 (pos 1) refl (omega arith)) in
    (_, next r (load 0 1 _ refl), refl)

one_worker_faults_example :
    ((i t : ℕ) (c k : ℤ) → alone.0.listener ≡ Listener.compared i t c k → t ≡ 1)
    × ((k : ℕ) → alone.0.conns k ≡ 0)
one_worker_faults_example = one_worker_faults exact 5 alone.1
