-- ===== src/ListenThread/Capacity.antt =====
-- GetWorkerCapacity (ListenThread.cpp): the number of descriptors that each worker may have.
use native.Mathlib.Nat.{mod-lt, div-add-mod, zero-div}
use epoll_threads.Base.{
  ℕ, zero, suc, ◌+◌, ◌-◌, ◌*◌, ◌/◌, ◌%◌, ◌^◌, ◌≤◌, ◌<◌, ◌≡◌, refl, ℤ, pos, negsuc, ◌-ℤ◌, ◌≤ℤ◌,
  signed32, arith, int_laws,
}
use epoll_threads.ListenThread.{quotient, available, get_worker_capacity}

signed32-low : (w : ℕ) → w < 2 ^ 31 → signed32 (w % 2 ^ 32) ≡ pos w
signed32-low w h = ground arith

available-pos : (m t : ℕ) → 4 + t ≤ m → available (pos m) t ≡ pos (m - (4 + t))
unfolding available ◌-ℤ◌
available-pos m t h = ground arith

-- Two descriptors for each connection that the workers may have, one for each worker and four for
-- the process fit a limit below 2^31, and one more connection for each worker would not, where the
-- limit has room for the workers.
pub get_worker_capacity_lem :
    (rlim_cur maxthreads : ℕ)
    → 1 ≤ maxthreads
    → 4 + maxthreads ≤ rlim_cur
    → rlim_cur < 2 ^ 31
    → (c : ℕ) × (get_worker_capacity rlim_cur maxthreads ≡ pos c)
      × (4 + maxthreads + 2 * (maxthreads * c) ≤ rlim_cur)
      × (rlim_cur < 4 + maxthreads + 2 * (maxthreads * c + maxthreads))
unfolding get_worker_capacity
get_worker_capacity_lem rlim_cur maxthreads one room small =
    let half = (rlim_cur - (4 + maxthreads)) / 2 in
    (
      half / maxthreads,
      rw (signed32-low rlim_cur small, available-pos rlim_cur maxthreads room) refl,
      omega (arith, div-add-mod half maxthreads, mod-lt half one),
      omega (arith, div-add-mod half maxthreads, mod-lt half one),
    )

quotient_le_zero : (a : ℤ) (d : ℕ) → a ≤ℤ pos 0 → quotient a d ≤ℤ pos 0
quotient_le_zero (pos zero) d h = omega (arith, zero-div d)
quotient_le_zero (pos (suc n)) d h = absurd (omega arith)
quotient_le_zero (negsuc n) d h = ground arith

available-negsuc : (n t : ℕ) → available (negsuc n) t ≤ℤ pos 0
unfolding available
available-negsuc n t = omega int_laws

signed32-high : (w : ℕ) → 2 ^ 31 ≤ w → signed32 w ≡ negsuc (2 ^ 32 - w - 1)
signed32-high w h = ground arith

-- Under a limit whose low 32 bits are an `int` below 0, as RLIM_INFINITY, no worker may have any
-- descriptor, for every number of threads.
pub get_worker_capacity-unlimited :
    (rlim_cur maxthreads : ℕ)
    → 2 ^ 31 ≤ rlim_cur % 2 ^ 32
    → get_worker_capacity rlim_cur maxthreads ≤ℤ pos 0
unfolding get_worker_capacity
get_worker_capacity-unlimited rlim_cur maxthreads h = rw (signed32-high (rlim_cur % 2 ^ 32) h) (
    quotient_le_zero _ maxthreads
      (quotient_le_zero _ 2 (available-negsuc (2 ^ 32 - rlim_cur % 2 ^ 32 - 1) maxthreads)))
