-- ===== src/ListenThread/Serve.antt =====
-- ListenThread::Run (ListenThread.cpp): how its loop ends.
use epoll_threads.Base.{
  ℕ, zero, suc, ◌≤◌, ◌<◌, ◌≡◌, refl, ap, ◌∙◌, true, List, [], ◌∷◌, Option, some, inl, inr, ℤ, pos,
  negsuc, length, Bool-cases, arith,
}
use epoll_threads.Kernel.{Kernel, Ctl}
use epoll_threads.Proc.{Proc}
use epoll_threads.Epoll.Laws.{EpollSet}
use epoll_threads.Setup.Opened.{OpenFds}
use epoll_threads.Setup.Keeps.{Waiting}
use epoll_threads.Setup.Listen.{listen_socket-fewer}
use epoll_threads.ListenThread.{Worker, update_at, after_listen, run_listener}
use epoll_threads.ListenThread.Handover.{Assigned, assign_task_lem}

length-update_at : (i : ℕ) (w : Worker) (ws : List Worker) → length (update_at i w ws) ≡ length ws
length-update_at i w [] = refl
length-update_at zero w (x ∷ ws) = refl
length-update_at (suc i) w (x ∷ ws) = ap suc (length-update_at i w ws)

-- Registering and closing a socket brings no call of `select` back.
pub record Handing (k : Kernel) (wt : Waiting k) : Type 0 where
  pub ctl_le :
      (epfd : ℤ) (c : Ctl) (fd : ℤ) (w : k.World)
      → wt.rounds (k.epoll_ctl epfd c fd w).1 ≤ wt.rounds w
  pub close_le : (fd : ℤ) (w : k.World) → wt.rounds (k.close fd w).1 ≤ wt.rounds w

module _ (k : Kernel) (op : OpenFds k) (wt : Waiting k) (es : EpollSet k) (hd : Handing k wt)
    (maxclients : ℤ) where
  open wt use {rounds}

  pub Assigned-fewer :
      (sockfd : ℤ) (workers ws : List Worker) (p q : Proc k.World)
      → Assigned k es sockfd maxclients workers p ws q
      → (length ws ≡ length workers) × (rounds q.world ≤ rounds p.world)
  Assigned-fewer sockfd workers ws p q (inl (over, same, w, l)) =
      (ap length same, rw w (hd.close_le sockfd p.world))
  Assigned-fewer sockfd workers ws p q
        (inr (within, (target, t, at, least, (w, inl (z, same, i, l))))) =
      (ap length same ∙ length-update_at target _ workers, rw w (hd.ctl_le t.epfd _ sockfd p.world))
  Assigned-fewer sockfd workers ws p q (inr (within, (target, t, at, least, (w, inr (z, same))))) =
      (ap length same, rw w (hd.ctl_le t.epfd _ sockfd p.world))

  -- A run that ends, with as many workers and the shutdown flag up.
  abbrev pub Ends : ℕ → Option (Option (List Worker) × Proc k.World) → Type 0
  Ends n o =
      (ws : List Worker) × (q : Proc k.World) × (o ≡ some (some ws, q))
      × (length ws ≡ n)
      × (k.shutdown q.world ≡ true)

  -- The rounds to come end, with fewer than `m` calls of `select` to come.
  abbrev AgainEnds :
      ℕ
      → ℕ
      → (List Worker → ℤ → Proc k.World → Option (Option (List Worker) × Proc k.World))
      → Type 0
  AgainEnds n m again =
      (workers : List Worker) (fd : ℤ) (p : Proc k.World)
      → length workers ≡ n
      → rounds p.world < m
      → Ends n (again workers fd p)

  after_listen-Ends :
      (m : ℕ)
      (again : List Worker → ℤ → Proc k.World → Option (Option (List Worker) × Proc k.World))
      (workers : List Worker) (r : ℤ × ℤ) (p : Proc k.World)
      → AgainEnds (length workers) m again
      → 2 ≤ length workers
      → rounds p.world < m
      → Ends (length workers) (after_listen k again maxclients workers r p)
  after_listen-Ends m again workers (pos zero, fd) p ih two lt =
      let (ws, q, run, ends) = assign_task_lem k es fd maxclients workers p two in
      let (len, fewer) = Assigned-fewer fd workers ws p q ends in
      let (ws', q', run', len', up) = ih ws fd q len (omega (arith, fewer)) in
      (ws', q', ground (arith, run, run'), len', up)
  after_listen-Ends m again workers (pos (suc n), fd) p ih two lt = ih workers fd p refl lt
  after_listen-Ends m again workers (negsuc e, fd) p ih two lt = ih workers fd p refl lt

  -- With two workers or more, and more rounds and more fuel for `Listen` than calls of `select`
  -- before the shutdown flag is seen, the loop of `Run` ends: no worker is read past the end on the
  -- way, there are as many workers as before, and the shutdown flag is up.
  pub run_listener-Ends :
      (n fuel : ℕ) (lfd : ℤ) (workers : List Worker) (fd : ℤ) (p : Proc k.World)
      → 2 ≤ length workers
      → rounds p.world < n
      → rounds p.world < fuel
      → Ends (length workers) (run_listener k n fuel maxclients lfd workers fd p)
  unfolding run_listener
  run_listener-Ends zero fuel lfd workers fd p two lt enough = absurd (omega arith)
  run_listener-Ends (suc n) fuel lfd workers fd p two lt enough =
      elim (Bool-cases (k.shutdown p.world)) [
        | inl e ↦ rw e (workers, p, refl, refl, e)
        | inr e ↦
            let (r, q, run, fewer) = listen_socket-fewer k op wt fuel lfd fd p enough e in
            let (ws, q', run', len, up) =
              after_listen-Ends (rounds p.world) (run_listener k n fuel maxclients lfd) workers r q
                (λ ws' fd' p' len' lt'. rw (← len') (
                  run_listener-Ends n fuel lfd ws' fd' p' (omega (arith, len')) (omega arith)
                    (omega arith)))
                two fewer in
            (ws, q', ground (arith, e, run, run'), len, up)
      ]
