-- ===== src/Tests/Sockets.antt =====
-- iSocket.cpp and iEpoll.cpp on the machine of `Sim`.
use epoll_threads.Base.{
  ℕ, ◌≤◌, ◌≡◌, refl, Bool, false, List, [], ◌∷◌, ◌++◌, none, some, ℤ, pos, minus_one, length, arith,
}
use epoll_threads.Kernel.{Kernel, Event, eintr, got}
use epoll_threads.Proc.{Proc, pure}
use epoll_threads.Socket.{recvn, recvn_loop, sendn}
use epoll_threads.Socket.Laws.{Quiet}
use epoll_threads.Socket.Recv.{recvn_lem, recvn_spins}
use epoll_threads.Socket.Send.{Sends, sendn_lem}
use epoll_threads.Epoll.{Handlers}
use epoll_threads.Sim.{Machine, sim, sim_stream, sim_patience, sim_clean, busy, busy_proc}

-- One interruption, then both bytes, then the end of the stream.
recvn-busy :
    recvn sim 8 (pos 6) 5 busy_proc
    ≡ some (
      (pos 2, 72 ∷ 105 ∷ []),
      record busy_proc { world = record busy { inbox = []; signals = 0 } },
    )
unfolding recvn recvn_loop
recvn-busy = refl

recvn_lem_example :
    (out : List ℕ) × (q : Proc Machine) × (recvn sim 8 (pos 6) 5 busy_proc
      ≡ some ((pos (length out), out), q))
    × (length out ≤ 5)
    × (busy.inbox ≡ out ++ q.world.inbox)
    × Quiet sim busy_proc q
unfolding sim_stream
recvn_lem_example =
    recvn_lem sim sim_stream (pos 6) sim_patience sim_clean 8 5 busy_proc (omega arith)
      (omega arith)

-- A machine at the end of its stream with EINTR left over.
abbrev stale_sim : Kernel
stale_sim = record sim { recv = λ fd n w. (got [], w) }

abbrev stale : Proc Machine
stale = record busy_proc { world = record busy { err = eintr; inbox = []; signals = 0 } }

recvn_spins_example : recvn stale_sim 1000 (pos 6) 5 stale ≡ none
recvn_spins_example =
    recvn_spins stale_sim (pos 6) stale.world (λ n. refl) refl 1000 5 stale refl (omega arith)
      (omega arith)

sendn_lem_example :
    (r : ℤ) × (q : Proc Machine) × (sendn sim 9 (pos 6) (1 ∷ 2 ∷ 3 ∷ []) 2 busy_proc ≡ some (r, q))
    × Sends sim sim_stream sim_patience (pos 6) 2 2 (1 ∷ 2 ∷ 3 ∷ []) busy_proc r q
    × Quiet sim busy_proc q
sendn_lem_example =
    sendn_lem sim sim_stream sim_patience (pos 6) 2 9 (1 ∷ 2 ∷ 3 ∷ []) busy_proc (omega arith)
      (omega arith) (omega arith)

-- Handlers that fail to read, succeed to write, and count what they close.
abbrev toy : Handlers Machine
toy = record {
  i_read = λ fd. pure minus_one;
  i_write = λ fd. pure (pos 0);
  i_error = λ fd. pure minus_one;
  i_close = λ fd p. some (pos 0, record p { active = fd });
}

abbrev event : Bool → Bool → Bool → Event
event r w h = record {
  fd = pos 9;
  events = record {
    readable = r;
    writable = w;
    error = false;
    hangup = h;
    rdhangup = false;
    edge = false;
  };
}
