-- ===== src/ListenThread/Composed.antt =====
-- ListenThread::Run over AssignTask (ListenThread.cpp) on one thread, against the steps of `Pool`.
use epoll_threads.Base.{
  ℕ, zero, suc, ◌≤◌, ◌<◌, ◌^◌, ◌≡◌, ◌≢◌, refl, sym, ap, ◌∙◌, List, [], ◌∷◌, Option, some, inl, inr,
  ℤ, pos, negsuc, true, false, length, get_elem?, sum_below, All, Bool-cases, arith, subst,
}
use epoll_threads.Kernel.{Kernel}
use epoll_threads.Proc.{Proc}
use epoll_threads.Epoll.Laws.{EpollSet}
use epoll_threads.Setup.{listen_socket}
use epoll_threads.Setup.Opened.{OpenFds}
use epoll_threads.Setup.Keeps.{Waiting}
use epoll_threads.Setup.Listen.{listen_socket-fewer}
use epoll_threads.Pool.{waiting, System, start, here}
use epoll_threads.Pool.Safety.{connections_bounded, counter_exact}
use epoll_threads.ListenThread.{Worker, after_listen, assign_task, run_listener}
use epoll_threads.ListenThread.Handover.{assign_task_lem}
use epoll_threads.ListenThread.Serve.{Handing, Assigned-fewer}
use epoll_threads.ListenThread.Interleaved.{
  Reach-Steps, Steps, none_yet, Steps-trans, Represents, Takes, refused, registered, not_registered,
  Called, assign_task-Steps,
}

module _ (k : Kernel) (op : OpenFds k) (wt : Waiting k) (es : EpollSet k) (hd : Handing k wt)
    (m n : ℕ) where
  open wt use {rounds}

  -- The workers `ws` at the end of a run of the steps from `s` to `t`: their counters are those of
  -- `t`, and the listener waits there.
  record Follows (s : System) (ws : List Worker) (t : System) : Type 0 where
    steps : Steps k.counters n m s t
    represents : Represents ws t
    listens : t.listener ≡ waiting
    closing : t.closing ≡ s.closing
    size : length ws ≡ n

  -- The rounds of `Run` from the state `s` of the steps on: the flag is up; or `Listen` gives no
  -- client; or it gives one, and `AssignTask` is called with it.
  pub data Life (fuel : ℕ) (lfd : ℤ)
      : System → List Worker → ℤ → Proc k.World → System → List Worker → Proc k.World → Type 0 where
    stopped :
        {s : System} {workers : List Worker} {fd : ℤ} {p : Proc k.World}
        → k.shutdown p.world ≡ true
        → Life fuel lfd s workers fd p s workers p
    waited :
        {s t : System} {workers ws : List Worker} {fd : ℤ} {r : ℤ × ℤ} {p q q' : Proc k.World}
        → k.shutdown p.world ≡ false
        → listen_socket k fuel lfd fd p ≡ some (r, q)
        → r.0 ≢ pos 0
        → Life fuel lfd s workers r.1 q t ws q'
        → Life fuel lfd s workers fd p t ws q'
    served :
        {s t u : System} {workers ws ws' : List Worker} {fd : ℤ} {r : ℤ × ℤ}
        {p q q' q'' : Proc k.World}
        → k.shutdown p.world ≡ false
        → listen_socket k fuel lfd fd p ≡ some (r, q)
        → r.0 ≡ pos 0
        → Called k m s workers es r.1 q ws q' t
        → Life fuel lfd t ws r.1 q' u ws' q''
        → Life fuel lfd s workers fd p u ws' q''

  abbrev Runs :
      ℕ
      → ℤ
      → System
      → List Worker
      → ℤ
      → Proc k.World
      → Option (Option (List Worker) × Proc k.World)
      → Type 0
  Runs fuel lfd s workers fd p o =
      (ws : List Worker) × (q : Proc k.World) × (t : System) × (o ≡ some (some ws, q))
      × Follows s ws t
      × Life fuel lfd s workers fd p t ws q

  module _ (es' : EpollSet k) (sockfd : ℤ) (p : Proc k.World) (s : System) (workers : List Worker)
      (target : ℕ) (w : Worker) where
    Takes-listens :
        (ws : List Worker) (q : Proc k.World) (t : System)
        → Takes k m s workers es' sockfd p target w ws q t
        → (t.listener ≡ waiting) × (t.closing ≡ s.closing)
    Takes-listens ws q t (refused over e) = (refl, refl)
    Takes-listens ws q t (registered within z e i same) = (refl, refl)
    Takes-listens ws q t (not_registered within z e same) = (refl, refl)

  assign_task-Follows :
      (s : System) (workers : List Worker) (sockfd : ℤ) (p : Proc k.World)
      → 2 ≤ n
      → length workers ≡ n
      → s.listener ≡ waiting
      → Represents workers s
      → (ws : List Worker) × (q : Proc k.World) × (t : System) × (assign_task k
            (pos m)
            workers
            sockfd
            p
          ≡ some (some ws, q))
        × Follows s ws t
        × Called k m s workers es sockfd p ws q t
        × (rounds q.world ≤ rounds p.world)
  assign_task-Follows s workers sockfd p two len at rep =
      let (ws, q, t, run, called) =
        assign_task-Steps k m s workers es sockfd p (omega (arith, len)) rep in
      let (ws', q', run', assigned) =
        assign_task_lem k es sockfd (pos m) workers p (omega (arith, len)) in
      let (size, fewer) = Assigned-fewer k op wt es hd (pos m) sockfd workers ws' p q' assigned in
      let same_ws : ws' ≡ ws = cc in
      let same_q : q' ≡ q = cc in
      let back : record s { listener = waiting } ≡ s =
        ap (λ l. record s { listener = l }) (sym at) in
      let (listens, closing) =
        Takes-listens es sockfd p s workers called.target called.worker ws q t called.takes in
      let steps = Steps-trans k.counters (length workers) m called.scans called.decides in
      (
        ws,
        q,
        t,
        run,
        record {
          steps =
              subst (λ u. Steps k.counters n m u t) back
                (subst (λ j. Steps k.counters j m (record s { listener = waiting }) t) len steps);
          represents = called.represents;
          listens = listens;
          closing = closing;
          size = ap length (sym same_ws) ∙ size ∙ len;
        },
        called,
        rw (← same_q) fewer,
      )

  abbrev AgainRuns :
      ℕ
      → ℤ
      → ℕ
      → (List Worker → ℤ → Proc k.World → Option (Option (List Worker) × Proc k.World))
      → Type 0
  AgainRuns fuel lfd b again =
      (s : System) (workers : List Worker) (fd : ℤ) (p : Proc k.World)
      → length workers ≡ n
      → s.listener ≡ waiting
      → Represents workers s
      → rounds p.world < b
      → Runs fuel lfd s workers fd p (again workers fd p)

  Follows-refl :
      (s : System) (workers : List Worker)
      → length workers ≡ n
      → s.listener ≡ waiting
      → Represents workers s
      → Follows s workers s
  Follows-refl s workers len at rep = record {
    steps = none_yet;
    represents = rep;
    listens = at;
    closing = refl;
    size = len;
  }

  Follows-trans :
      (s t u : System) (ws ws' : List Worker) → Follows s ws t → Follows t ws' u → Follows s ws' u
  Follows-trans s t u ws ws' a b = record {
    steps = Steps-trans k.counters n m a.steps b.steps;
    represents = b.represents;
    listens = b.listens;
    closing = b.closing ∙ a.closing;
    size = b.size;
  }

  after_listen-Runs :
      (fuel : ℕ) (lfd : ℤ) (b : ℕ)
      (again : List Worker → ℤ → Proc k.World → Option (Option (List Worker) × Proc k.World))
      (s : System) (workers : List Worker) (fd : ℤ) (p0 : Proc k.World) (r : ℤ × ℤ)
      (p : Proc k.World)
      → AgainRuns fuel lfd b again
      → 2 ≤ n
      → length workers ≡ n
      → s.listener ≡ waiting
      → Represents workers s
      → rounds p.world < b
      → k.shutdown p0.world ≡ false
      → listen_socket k fuel lfd fd p0 ≡ some (r, p)
      → Runs fuel lfd s workers fd p0 (after_listen k again (pos m) workers r p)
  after_listen-Runs fuel lfd b again s workers fd p0 (pos zero, fd') p ih two len at rep lt on
        heard =
      let (ws, q, t, run, f, called, fewer) = assign_task-Follows s workers fd' p two len at rep in
      let (ws', q', u, run', g, life) =
        ih t ws fd' q f.size f.listens f.represents (omega (arith, fewer)) in
      (
        ws',
        q',
        u,
        ground (arith, run, run'),
        Follows-trans s t u ws ws' f g,
        served on heard refl called life,
      )
  after_listen-Runs fuel lfd b again s workers fd p0 (pos (suc x), fd') p ih two len at rep lt on
        heard =
      let (ws, q, t, run, f, life) = ih s workers fd' p len at rep lt in
      (ws, q, t, run, f, waited on heard (λ z. absurd cc) life)
  after_listen-Runs fuel lfd b again s workers fd p0 (negsuc x, fd') p ih two len at rep lt on
        heard =
      let (ws, q, t, run, f, life) = ih s workers fd' p len at rep lt in
      (ws, q, t, run, f, waited on heard (λ z. absurd cc) life)

  run_listener-Runs :
      (b fuel : ℕ) (lfd : ℤ) (s : System) (workers : List Worker) (fd : ℤ) (p : Proc k.World)
      → 2 ≤ n
      → length workers ≡ n
      → s.listener ≡ waiting
      → Represents workers s
      → rounds p.world < b
      → rounds p.world < fuel
      → Runs fuel lfd s workers fd p (run_listener k b fuel (pos m) lfd workers fd p)
  unfolding run_listener
  run_listener-Runs zero fuel lfd s workers fd p two len at rep lt enough = absurd (omega arith)
  run_listener-Runs (suc b) fuel lfd s workers fd p two len at rep lt enough =
      elim (Bool-cases (k.shutdown p.world)) [
        | inl e ↦ rw e (workers, p, s, refl, Follows-refl s workers len at rep, stopped e)
        | inr e ↦
            let (r, q, run, fewer) = listen_socket-fewer k op wt fuel lfd fd p enough e in
            let (ws, q', t, run', f, life) =
              after_listen-Runs fuel lfd (rounds p.world) (run_listener k b fuel (pos m) lfd) s
                workers fd p r q
                (λ s' ws' fd' p' len' at' rep' lt'.
                  run_listener-Runs b fuel lfd s' ws' fd' p' two len' at' rep' (omega arith)
                    (omega arith))
                two len at rep fewer e run in
            (ws, q', t, ground (arith, e, run, run'), f, life)
      ]

  zeros-Represents : (ws : List Worker) → All (λ w. w.active ≡ pos 0) ws → Represents ws start
  zeros-Represents ws zeros = record { counters = λ i w e. sym (at ws i w zeros e) }
    where
      at :
          (ws : List Worker) (i : ℕ) (w : Worker)
          → All (λ w. w.active ≡ pos 0) ws
          → get_elem? ws i ≡ some w
          → w.active ≡ pos 0
      at [] i w all e = cc
      at (x ∷ ws) zero w all e = let same : x ≡ w = cc in rw (← same) all.0
      at (x ∷ ws) (suc i) w all e = at ws i w all.1 e

  -- With two workers or more, all of their counters at 0, and a limit below 2^23: the loop of `Run`,
  -- with no worker closing anything in between, and with more rounds and more fuel for `Listen` than
  -- calls of `select` before the shutdown flag is seen, is one round after the other until the flag
  -- is up, in each of which `Listen` gives no client or `AssignTask` is called with the one it gives.
  -- At the end each counter is the number of the `epoll_ctl` calls with that worker that returned 0,
  -- and these numbers add up to no more than `maxclients`.
  pub run_listener-bounded :
      (b fuel : ℕ) (lfd : ℤ) (workers : List Worker) (fd : ℤ) (p : Proc k.World)
      → 2 ≤ n
      → m < 2 ^ 23
      → length workers ≡ n
      → All (λ w. w.active ≡ pos 0) workers
      → rounds p.world < b
      → rounds p.world < fuel
      → (ws : List Worker) × (q : Proc k.World) × (t : System) × (run_listener k b fuel
            (pos m)
            lfd
            workers
            fd
            p
          ≡ some (some ws, q))
        × Life fuel lfd start workers fd p t ws q
        × ((i : ℕ) (w : Worker) → get_elem? ws i ≡ some w → w.active ≡ pos (t.conns i))
        × (sum_below n t.conns ≤ m)
  run_listener-bounded b fuel lfd workers fd p two range len zeros lt enough =
      let (ws, q, t, run, f, life) =
        run_listener-Runs b fuel lfd start workers fd p two len refl
          (zeros-Represents workers zeros) lt enough in
      let reached = Reach-Steps k.counters n m here f.steps in
      (
        ws,
        q,
        t,
        run,
        life,
        λ i w e.
            sym (f.represents.counters i w e)
            ∙ counter_exact k.counters n m two range reached i (rw f.listens refl)
                (ap (λ g. g i) f.closing),
        (connections_bounded k.counters n m two range reached).0,
      )
