-- ===== src/ListenThread/Handover.antt =====
-- ListenThread::AssignTask (ListenThread.cpp): what becomes of the socket on each branch.
use epoll_threads.Base.{
  ℕ, zero, suc, ◌≤◌, ◌≡◌, ◌≢◌, refl, List, ◌∷◌, some, ◌⊎◌, inl, inr, ℤ, pos, negsuc, ◌≤ℤ◌, ◌<ℤ◌,
  ltb_ℤ, length, get_elem?, Bool-cases, arith,
}
use epoll_threads.Kernel.{Kernel, Ctl, ctl_add}
use epoll_threads.Proc.{Proc, my_notice, my_warning, max_clients, epoll_add_err}
use epoll_threads.Epoll.{with_mode, add_mask, i_epoll_write, i_epoll_edge_triggered, i_epoll_add}
use epoll_threads.Epoll.Laws.{EpollSet, wanted}
use epoll_threads.ListenThread.{Worker, update_at, increment_active_conns, add_to, assign_task}
use epoll_threads.ListenThread.Assign.{total_from, Least, scan_loop_lem}

-- The `epoll_ctl` of the hand-over: room to write, errors and hang-ups, edge-triggered.
abbrev pub handing : ℤ → Ctl
handing sockfd =
    ctl_add
      (record { fd = sockfd; events = with_mode add_mask i_epoll_write i_epoll_edge_triggered })

module _ (k : Kernel) (es : EpollSet k) (sockfd : ℤ) where
  -- The socket is with worker `t` and counted there; or `epoll_ctl` did not return 0, nothing is
  -- counted, and the failing call is the last one: the socket is not closed.
  abbrev pub Handed : List Worker → ℕ → Worker → Proc k.World → List Worker → Proc k.World → Type 0
  Handed workers target t p ws q =
      let r = k.epoll_ctl t.epfd (handing sockfd) sockfd p.world in
      (q.world ≡ r.1)
      × (((r.0 ≡ pos 0)
            × (ws ≡ update_at target (increment_active_conns k t) workers)
            × (es.interest q.world t.epfd sockfd ≡ wanted (handing sockfd))
            × (q.log ≡ p.log))
          ⊎ ((r.0 ≢ pos 0) × (ws ≡ workers)))

  int-cases : (r : ℤ) → (r ≡ pos 0) ⊎ (((m : ℕ) × (r ≡ pos (suc m))) ⊎ ((e : ℕ) × (r ≡ negsuc e)))
  int-cases (pos zero) = inl refl
  int-cases (pos (suc m)) = inr (inl (m, refl))
  int-cases (negsuc e) = inr (inr (e, refl))

  pub add_to-Handed :
      (workers : List Worker) (target : ℕ) (t : Worker) (p : Proc k.World)
      → (ws : List Worker) × (q : Proc k.World) × (add_to k workers sockfd target (some t) p
          ≡ some (some ws, q))
        × Handed workers target t p ws q
  unfolding i_epoll_add
  add_to-Handed workers target t p =
      let r = k.epoll_ctl t.epfd (handing sockfd) sockfd p.world in
      elim (int-cases r.0) [
        | inl e ↦ (
          update_at target (increment_active_conns k t) workers,
          record p { world = r.1 },
          ground (arith, e),
          (refl, inl (e, refl, es.ctl_done t.epfd (handing sockfd) sockfd p.world 0 e, refl)),
        )
        | inr (inl (m, e)) ↦
            (workers, record p { world = r.1 }, ground (arith, e), (refl, inr (cc, refl)))
        | inr (inr (x, e)) ↦ (
          workers,
          record p {
            world = r.1;
            log =
                record { level = my_warning; message = epoll_add_err (k.errno r.1) sockfd } ∷ p.log;
          },
          ground (arith, e),
          (refl, inr (cc, refl)),
        )
      ]

  -- The end of `AssignTask`.
  abbrev pub Assigned : ℤ → List Worker → Proc k.World → List Worker → Proc k.World → Type 0
  Assigned maxclients workers p ws q =
      ((maxclients <ℤ total_from (pos 1) workers)
        × (ws ≡ workers)
        × (q.world ≡ (k.close sockfd p.world).1)
        × (q.log ≡ record { level = my_notice; message = max_clients maxclients } ∷ p.log))
      ⊎ ((total_from (pos 1) workers ≤ℤ maxclients)
          × ((target : ℕ) × (t : Worker) × (get_elem? workers target ≡ some t)
              × Least workers t
              × Handed workers target t p ws q))

  -- With two workers or more, `AssignTask` reads no worker past the end. If the sum of all counters
  -- and one exceeds `maxclients`, it logs that and closes the socket. Otherwise it picks a worker
  -- whose counter is least and registers the socket there to be written to: if that succeeds, just
  -- that worker's counter goes through `atomic_inc`; if not, no counter changes and the socket is
  -- left as it is, not closed.
  pub assign_task_lem :
      (maxclients : ℤ) (workers : List Worker) (p : Proc k.World)
      → 2 ≤ length workers
      → (ws : List Worker) × (q : Proc k.World) × (assign_task k maxclients workers sockfd p
          ≡ some (some ws, q))
        × Assigned maxclients workers p ws q
  unfolding assign_task
  assign_task_lem maxclients workers p two =
      let (target, t, run, at, least) = scan_loop_lem workers two in
      let total = total_from (pos 1) workers in
      elim (Bool-cases (ltb_ℤ maxclients total)) [
        | inl e ↦
            let over : maxclients <ℤ total = ground (arith, e) in
            (
              workers,
              record p {
                world = (k.close sockfd p.world).1;
                log = record { level = my_notice; message = max_clients maxclients } ∷ p.log;
              },
              rw (run, e) refl,
              inl (over, refl, refl, refl),
            )
        | inr e ↦
            let within : total ≤ℤ maxclients = ground (arith, e) in
            let (ws, q, added, handed) = add_to-Handed workers target t p in
            (ws, q, rw (run, e, at) added, inr (within, (target, t, at, least, handed)))
      ]
