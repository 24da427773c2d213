-- ===== src/ListenThread.antt =====
-- ListenThread.cpp: the thread that accepts sockets and hands each to the least loaded worker, one
-- socket after the other, with the counters as they are at that moment. (What the workers may do to
-- the counters in between is in `Pool`.)
pub mod Capacity
pub mod Assign
pub mod Handover
pub mod Starts
pub mod Serve
pub mod Interleaved
pub mod Composed
mod Tests
use epoll_threads.Base.{
  ℕ, zero, suc, ◌+◌, ◌-◌, ◌/◌, ◌%◌, ◌^◌, Bool, List, [], ◌∷◌, Option, none, some, ℤ, pos, negsuc,
  minus_one, ◌+ℤ◌, ◌-ℤ◌, ltb_ℤ, signed32, sub_ℕ, is_minus_one, get_elem?, ◌==◌, if◌then◌else◌,
}
use epoll_threads.Kernel.{Kernel}
use epoll_threads.Proc.{
  M, pure, ◌>>=◌, ◌>>◌, call, look, say, my_notice, my_warning, max_clients, bind_port_err,
}
use epoll_threads.Config.{Server}
use epoll_threads.Epoll.{i_epoll_write, i_epoll_edge_triggered, i_epoll_add, i_epoll_create}
use epoll_threads.Setup.{bind_socket, listen_socket}

-- A `TaskThread` as the listener sees it: `m_epfd` and `m_ActiveConns.counter`.
pub record Worker : Type 0 where
  pub epfd : ℤ
  pub active : ℤ

-- Division of an `int` by a positive one, which rounds to 0.
abbrev pub quotient : ℤ → ℕ → ℤ
quotient (pos a) d = pos (a / d)
quotient (negsuc a) d = sub_ℕ 0 (suc a / d)

-- `max - (3 + 1 + maxthreads)`
unfoldable pub available : ℤ → ℕ → ℤ
available max maxthreads = max -ℤ pos (4 + maxthreads)

-- `GetWorkerCapacity` under a limit `rlim_cur`, a 64-bit number, which `max` keeps 32 bits of.
-- `maxthreads` is positive once the configuration is loaded.
unfoldable pub get_worker_capacity : ℕ → ℕ → ℤ
unfolding available
get_worker_capacity rlim_cur maxthreads =
    quotient (quotient (available (signed32 (rlim_cur % 2 ^ 32)) maxthreads) 2) maxthreads

-- The loop of `AssignTask` from worker `i` on: `target` and `activeConns` at its end, or `none`
-- where `m_taskthread[target]` is read past the end.
unfoldable pub scan_loop : List Worker → List Worker → ℕ → ℕ → ℤ → Option (ℕ × ℤ)
scan_loop workers [] i target active_conns = some (target, active_conns)
scan_loop workers (w ∷ rest) i target active_conns = elim (get_elem? workers target) [
  | none ↦ none
  | some t ↦
      scan_loop workers rest (i + 1) (if ltb_ℤ w.active t.active then i else target)
        (active_conns +ℤ w.active)
]

-- `m_taskthread[target]->…` changed.
abbrev pub update_at : ℕ → Worker → List Worker → List Worker
update_at i w [] = []
update_at zero w (x ∷ ws) = w ∷ ws
update_at (suc i) w (x ∷ ws) = x ∷ update_at i w ws

-- The conversion of an `int` to an `unsigned short`.
abbrev pub unsigned_short : ℤ → ℕ
unsigned_short (pos n) = n % 2 ^ 16
unsigned_short (negsuc n) = 2 ^ 16 - 1 - n % 2 ^ 16

module _ (k : Kernel) where
  open k use {World, shutdown, close}

  -- `IncrementActiveConns`
  abbrev pub increment_active_conns : Worker → Worker
  increment_active_conns w = record w { active = k.counters.inc w.active }

  -- Behind the loop: `add_to` hands the socket to worker `target`.
  abbrev pub add_to : List Worker → ℤ → ℕ → Option Worker → M World (Option (List Worker))
  add_to workers sockfd target none = pure none
  add_to workers sockfd target (some w) = do
    r ← i_epoll_add k w.epfd sockfd i_epoll_write i_epoll_edge_triggered
    elim r [
      | pos zero ↦ pure (some (update_at target (increment_active_conns w) workers))
      | _ ↦ pure (some workers)
    ]

  abbrev pub after_scan : ℤ → List Worker → ℤ → Option (ℕ × ℤ) → M World (Option (List Worker))
  after_scan maxclients workers sockfd none = pure none
  after_scan maxclients workers sockfd (some (target, active_conns)) =
      if ltb_ℤ maxclients active_conns
      then (do say my_notice (max_clients maxclients); call (close sockfd); pure (some workers))
      else add_to workers sockfd target (get_elem? workers target)

  -- The workers that it leaves, or `none` after a read past their end.
  unfoldable pub assign_task : ℤ → List Worker → ℤ → M World (Option (List Worker))
  unfolding scan_loop
  assign_task maxclients workers sockfd =
      after_scan maxclients workers sockfd (scan_loop workers workers 0 1 (pos 1))

  -- The loop of `InitTaskThread`, with `n` threads to go. A worker whose `epoll_create` failed is
  -- kept all the same.
  unfoldable pub init_task_thread : ℤ → ℕ → M World (List Worker)
  init_task_thread capacity zero = pure []
  init_task_thread capacity (suc n) = do
    r ← i_epoll_create k capacity
    workers ← init_task_thread capacity n
    pure (record { epfd = r.1; active = pos 0 } ∷ workers)

  -- `ListenThread::Bind`: its result, `m_sockfd`, and whether it resumes the thread.
  unfoldable pub bind_listener : Server → M World (ℤ × ℤ × Bool)
  bind_listener server = do
    r ← bind_socket k (some server.bindaddr) (unsigned_short server.port)
    if is_minus_one r.0
        then (say my_warning (bind_port_err server.port) >> pure (minus_one, r.1, Bool.false))
        else pure (pos 0, r.1, Bool.true)

  -- `ListenThread::Run`, once it is resumed: `rounds` of its loop, each with `fuel` for `Listen`.
  abbrev pub go_on_with :
      (List Worker → ℤ → M World (Option (List Worker)))
      → ℤ
      → Option (List Worker)
      → M World (Option (List Worker))
  go_on_with again sockfd none = pure none
  go_on_with again sockfd (some workers) = again workers sockfd

  abbrev pub after_listen :
      (List Worker → ℤ → M World (Option (List Worker)))
      → ℤ
      → List Worker
      → ℤ × ℤ
      → M World (Option (List Worker))
  after_listen again maxclients workers (pos zero, sockfd) =
      assign_task maxclients workers sockfd >>= go_on_with again sockfd
  after_listen again maxclients workers (pos (suc n), sockfd) = again workers sockfd
  after_listen again maxclients workers (negsuc e, sockfd) = again workers sockfd

  unfoldable pub run_listener : ℕ → ℕ → ℤ → ℤ → List Worker → ℤ → M World (Option (List Worker))
  run_listener zero fuel maxclients lsockfd workers sockfd p = none
  run_listener (suc rounds) fuel maxclients lsockfd workers sockfd p =
      let round =
        (listen_socket k fuel lsockfd sockfd
            >>= after_listen (run_listener rounds fuel maxclients lsockfd) maxclients workers)
          p in
      if shutdown p.world then some (some workers, p) else round
