-- ===== src/ListenThread/Tests.antt =====
-- ListenThread.cpp on two workers.
use epoll_threads.Pool.{System, start}
use epoll_threads.ListenThread.Interleaved.{Represents, Called, assign_task-Steps}
use epoll_threads.Base.{
  ℤ, sum_below, zero, suc, get_elem?, minus_one, ℕ, ◌≤◌, ◌≡◌, refl, List, [], ◌∷◌, some, none, pos,
  ◌+ℤ◌, arith,
}
use epoll_threads.Proc.{Proc, max_clients}
use epoll_threads.Sim.{Machine, sim, sim_epoll, busy_proc}
use epoll_threads.Slot.{Slot, one_slot, slot_fds, slot_waiting, slot_epoll, slot_handing, idle}
use epoll_threads.ListenThread.Composed.{Life, run_listener-bounded}
use epoll_threads.ListenThread.{run_listener, Worker, scan_loop, assign_task}
use epoll_threads.ListenThread.Handover.{Assigned, assign_task_lem}

abbrev workers : List Worker
workers = record { epfd = pos 4; active = pos 3 } ∷ record { epfd = pos 5; active = pos 1 } ∷ []

assign_task_lem_example :
    (ws : List Worker) × (q : Proc Machine) × (assign_task sim (pos 5) workers (pos 9) busy_proc
      ≡ some (some ws, q))
    × Assigned sim sim_epoll (pos 9) (pos 5) workers busy_proc ws q
assign_task_lem_example =
    assign_task_lem sim sim_epoll (pos 9) (pos 5) workers busy_proc (omega arith)

-- The sum is 4 and one more.
assign-full :
    assign_task sim (pos 4) workers (pos 9) busy_proc
    ≡ some (
      some workers,
      record busy_proc { log = record { level = 2; message = max_clients (pos 4) } ∷ [] },
    )
unfolding assign_task scan_loop ◌+ℤ◌
assign-full = refl

-- A single worker: the read at index 1 is past the end.
assign-single :
    assign_task sim (pos 4) (record { epfd = pos 4; active = pos 0 } ∷ []) (pos 9) busy_proc
    ≡ some (none, busy_proc)
unfolding assign_task scan_loop
assign-single = refl

-- A state of `Pool` with the two workers' counters.
abbrev counts : ℕ → ℤ
counts zero = pos 3
counts (suc n) = pos 1

abbrev before : System
before = record start { counter = counts; conns = λ i. 3 }

before-Represents : Represents workers before
before-Represents = record { counters = same }
  where
    same : (i : ℕ) (w : Worker) → get_elem? workers i ≡ some w → counts i ≡ w.active
    same zero w e = cc
    same (suc zero) w e = cc
    same (suc (suc i)) w e = cc

assign_task-Steps_example :
    (ws : List Worker) × (q : Proc Machine) × (t : System) × (assign_task sim
        (pos 5)
        workers
        (pos 9)
        busy_proc
      ≡ some (some ws, q))
    × Called sim 5 before workers sim_epoll (pos 9) busy_proc ws q t
assign_task-Steps_example =
    assign_task-Steps sim 5 before workers sim_epoll (pos 9) busy_proc (omega arith)
      before-Represents

-- The two workers as they are made.
abbrev fresh : List Worker
fresh = record { epfd = pos 4; active = pos 0 } ∷ record { epfd = pos 5; active = pos 0 } ∷ []

run_listener-bounded_example :
    (ws : List Worker) × (q : Proc Slot) × (t : System) × (run_listener one_slot 3 3
        (pos 5)
        (pos 3)
        fresh
        minus_one
        idle
      ≡ some (some ws, q))
    × Life one_slot slot_fds slot_waiting slot_epoll slot_handing 5 2 3
        (pos 3)
        start
        fresh
        minus_one
        idle
        t
        ws
        q
    × ((i : ℕ) (w : Worker) → get_elem? ws i ≡ some w → w.active ≡ pos (t.conns i))
    × (sum_below 2 t.conns ≤ 5)
run_listener-bounded_example =
    run_listener-bounded one_slot slot_fds slot_waiting slot_epoll slot_handing 5 2 3 3 (pos 3)
      fresh minus_one idle (omega arith) (omega arith) refl (refl, (refl, tt)) (omega arith)
      (omega arith)
