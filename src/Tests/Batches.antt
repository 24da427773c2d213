-- ===== src/Tests/Batches.antt =====
-- A batch of events on the machine of `Crowd`.
use epoll_threads.Base.{
  ℕ, ◌≡◌, refl, true, false, Bool, List, [], ◌∷◌, some, none, inl, inr, negsuc, if◌then◌else◌, ◌==◌,
  Bool-cases, ℤ, pos, ◌+ℤ◌, arith,
}
use epoll_threads.Kernel.{Event}
use epoll_threads.Proc.{Proc}
use epoll_threads.Epoll.{
  handle_events, with_mode, add_mask, change_mask, i_epoll_read, i_epoll_write,
  i_epoll_edge_triggered,
}
use epoll_threads.Task.{task_handlers, run}
use epoll_threads.Task.Batch.{streams, Idle, Served, handle_events-Served}
use epoll_threads.Task.Interest.{AllOneDirection}
use epoll_threads.Task.Life.{Conversations, run-Conversations}
use epoll_threads.Crowd.{
  crowd_shutdown, crowd_reporting, Crowd, crowd, crowd_stream, crowd_patience, crowd_clean,
  crowd_epoll, crowd_ways, crowd_apart, two_clients, two_clients_proc,
}

abbrev event : ℤ → Bool → Bool → Event
event fd r w = record {
  fd = fd;
  events = record {
    readable = r;
    writable = w;
    error = false;
    hangup = false;
    rdhangup = false;
    edge = false;
  };
}

-- Client 6 is read, and client 7 has left.
abbrev batch : List Event
batch = event (pos 6) true false ∷ event (pos 7) true false ∷ []

handle_events-Served_example :
    (r : ℤ) × (n : ℕ) × (q : Proc Crowd) × (handle_events crowd
        (task_handlers crowd 1100 (pos 4))
        batch
        (pos 0)
        two_clients_proc
      ≡ some (r, q))
    × Served crowd crowd_stream crowd_epoll (pos 4) batch n two_clients_proc q
    × (pos 2 ≡ q.active +ℤ pos n)
    × ((o : ℤ)
        → Idle crowd crowd_stream crowd_epoll (pos 4) batch o
        → streams crowd crowd_stream q.world o ≡ streams crowd crowd_stream two_clients o)
unfolding crowd_patience
handle_events-Served_example =
    handle_events-Served crowd crowd_stream crowd_epoll (pos 4) crowd_ways crowd_patience
      crowd_clean 1100 crowd_apart batch (pos 0) two_clients_proc
      ((refl, inr refl), ((refl, inr refl), tt)) (omega arith) (omega arith, omega arith)

-- Client 6 waits for a reply, and client 7 is to send; the third wait sees the flag.
abbrev registered : Proc Crowd
registered = record two_clients_proc {
  world = record two_clients {
    mask = λ fd. elim fd [
      | pos n ↦
          if n == 6
          then some (with_mode add_mask i_epoll_write i_epoll_edge_triggered)
          else some (with_mode change_mask i_epoll_read i_epoll_edge_triggered)
      | negsuc n ↦ none
    ];
  };
}

registered_one : AllOneDirection crowd crowd_epoll (pos 4) registered.world
unfolding crowd_epoll with_mode
registered_one (pos n) m e = elim (Bool-cases (n == 6)) [
  | inl six ↦ inl (ground (arith, e, six))
  | inr other ↦ inr (ground (arith, e, other))
]
registered_one (negsuc n) m e = absurd cc

run-Conversations_example :
    (m : ℕ) × (q : Proc Crowd) × (run crowd 1100 (pos 4) 4 (pos 10) registered ≡ some (pos 0, q))
    × Conversations crowd crowd_stream crowd_epoll (pos 4) (pos 10) m registered q
    × AllOneDirection crowd crowd_epoll (pos 4) q.world
unfolding crowd_patience crowd_shutdown
run-Conversations_example =
    run-Conversations crowd crowd_stream crowd_epoll (pos 4) (pos 10) crowd_ways crowd_patience
      crowd_clean crowd_shutdown crowd_reporting 1100 4 registered (omega arith) (omega arith)
      registered_one
