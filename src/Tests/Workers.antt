-- ===== src/Tests/Workers.antt =====
-- TaskThread.cpp on the machine of `Sim`.
use epoll_threads.Base.{◌≡◌, refl, true, false, [], some, ℤ, pos, replicate, arith}
use epoll_threads.Kernel.{Event}
use epoll_threads.Proc.{min_bufsz, Proc}
use epoll_threads.Socket.{recvn, recvn_loop}
use epoll_threads.Task.{greeting, i_read, i_write, run}
use epoll_threads.Task.Reply.{Replies, i_write_lem}
use epoll_threads.Task.Request.{Reads, i_read_lem}
use epoll_threads.Log.Calls.{Passes}
use epoll_threads.Config.{init_server_config}
use epoll_threads.Task.Halts.{run_returns}
use epoll_threads.Text.{codes, decimal}
use epoll_threads.Sim.{
  Machine, sim, sim_stream, sim_patience, sim_clean, sim_epoll, sim_shutdown, busy, busy_proc,
}

greeting_six : greeting (pos 6) 7 ≡ codes "Hi 6 welcome 7"
unfolding greeting decimal
greeting_six = refl

i_write_lem_example :
    (r : ℤ) × (q : Proc Machine) × (i_write sim 40 (pos 4) (pos 6) busy_proc ≡ some (r, q))
    × Replies sim sim_stream sim_patience sim_epoll 40 (pos 4) (pos 6) busy_proc r q
    × (q.active ≡ pos 2)
i_write_lem_example =
    i_write_lem sim sim_stream sim_patience sim_epoll 40 (pos 4) (pos 6) busy_proc (omega arith)

i_read_lem_example :
    (r : ℤ) × (q : Proc Machine) × (i_read sim 1030 (pos 4) (pos 6) busy_proc ≡ some (r, q))
    × Reads sim sim_stream sim_patience sim_clean sim_epoll 1030 (pos 4) (pos 6) busy_proc r q
    × (q.active ≡ pos 2)
i_read_lem_example =
    i_read_lem sim sim_stream sim_patience sim_clean sim_epoll 1030 (pos 4) (pos 6) busy_proc
      (omega arith)

abbrev hang_up : Event
hang_up = record {
  fd = pos 6;
  events = record {
    readable = false;
    writable = false;
    error = false;
    hangup = true;
    rdhangup = false;
    edge = false;
  };
}

run_returns_example :
    (q : Proc Machine) × (run sim 1030 (pos 4) 4 (pos 10) busy_proc ≡ some (pos 0, q))
    × (sim.shutdown q.world ≡ true)
    × Passes (λ m. []) (λ s. true) init_server_config q.log
unfolding init_server_config
run_returns_example =
    run_returns sim sim_stream sim_patience sim_clean sim_shutdown 1030 (λ m. []) (λ s. true)
      init_server_config 4 (pos 4) (pos 10) busy_proc (omega arith) refl (omega arith) (omega arith)

-- A full buffer of 'A'.
abbrev flood : Proc Machine
flood = record busy_proc { world = record busy { inbox = replicate 1024 65; signals = 0 } }

flooded : Proc Machine
flooded = record flood { world = record flood.world { inbox = [] } }

flood_read : recvn sim 3 (pos 6) min_bufsz flood ≡ some ((pos 1024, replicate 1024 65), flooded)
unfolding recvn recvn_loop flooded
flood_read = refl
