-- ===== src/Client/Tests.antt =====
-- Test.cpp on the machine of `Sim`.
use epoll_threads.Base.{◌≡◌, refl, none, some, pos, ◌-ℤ◌, arith}
use epoll_threads.Sim.{sim, sim_stream, sim_patience, sim_shutdown}
use epoll_threads.Client.{client_capacity}
use epoll_threads.Client.Halts.{ShortNap}
use epoll_threads.Client.Talk.{Nap}

abbrev sim_nap : Nap sim sim_stream sim_patience
unfolding sim_stream
sim_nap = record { sleep_outgoing = λ ms fd w. refl; sleep_le = λ ms w. omega arith }

-- Each of three threads, and no thread at all, which divides by zero.
capacity-three : client_capacity 1024 (pos 3) ≡ some (pos 170)
unfolding client_capacity ◌-ℤ◌
capacity-three = refl

capacity-zero : client_capacity 1024 (pos 0) ≡ none
unfolding client_capacity
capacity-zero = refl

abbrev sim_short_nap : ShortNap sim sim_patience sim_shutdown
sim_short_nap = record { sleep_le = λ ms w. (omega arith, omega arith) }
