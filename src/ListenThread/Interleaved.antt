-- ===== src/ListenThread/Interleaved.antt =====
-- ListenThread::AssignTask (ListenThread.cpp) on one thread against the steps of `Pool`, in which the
-- workers may come in between.
use epoll_threads.Base.{
  ℕ, zero, suc, ◌+◌, ◌≤◌, ◌<◌, ◌≡◌, ◌≢◌, refl, sym, ap, ◌∙◌, List, [], ◌∷◌, some, ◌⊎◌, inl, inr, ℤ,
  pos, ◌+ℤ◌, ◌≤ℤ◌, ◌<ℤ◌, ltb_ℤ, length, get_elem?, set_at, Bool-cases, arith, if◌then◌else◌,
  ℕ_discrete,
}
use mathlib.Core.Logic.{if_pos, if_neg}
use epoll_threads.Kernel.{Kernel, Atomic}
use epoll_threads.Proc.{Proc, my_notice, max_clients}
use epoll_threads.Epoll.Laws.{EpollSet, wanted}
use epoll_threads.Pool.{
  Listener, waiting, summing, deciding, System, Step, accept, sum, load, choose, leave, refuse,
  admit, add_fails, add, increment, Reach, next,
}
use epoll_threads.ListenThread.{Worker, scan_loop, update_at, increment_active_conns, assign_task}
use epoll_threads.ListenThread.Assign.{total_from, Least, scan_loop_lem, scan_loop-next}
use epoll_threads.ListenThread.Handover.{handing, add_to-Handed}

-- Some steps, one after the other.
pub data Steps (a : Atomic) (n m : ℕ) (s : System) : System → Type 0 where
  none_yet : Steps a n m s s
  one_more : {t u : System} → Steps a n m s t → Step a n m t u → Steps a n m s u

pub Steps-trans :
    (a : Atomic) (n m : ℕ) {s t u : System} → Steps a n m s t → Steps a n m t u → Steps a n m s u
Steps-trans a n m r none_yet = r
Steps-trans a n m r (one_more q st) = one_more (Steps-trans a n m r q) st

pub Reach-Steps :
    (a : Atomic) (n m : ℕ) {s t : System} → Reach a n m s → Steps a n m s t → Reach a n m t
Reach-Steps a n m r none_yet = r
Reach-Steps a n m r (one_more q st) = next (Reach-Steps a n m r q) st

-- The list of the workers, as far as the steps see it.
pub record Represents (workers : List Worker) (s : System) : Type 0 where
  pub counters : (i : ℕ) (w : Worker) → get_elem? workers i ≡ some w → s.counter i ≡ w.active

get_elem?-lt {ℓ} :
    {A : Type ℓ} (xs : List A) (i : ℕ) (x : A) → get_elem? xs i ≡ some x → i < length xs
get_elem?-lt [] i x e = cc
get_elem?-lt (y ∷ xs) zero x e = omega arith
get_elem?-lt (y ∷ xs) (suc i) x e = omega (arith, get_elem?-lt xs i x e)

get_elem?-update_at :
    (ws : List Worker) (i j : ℕ) (w x : Worker)
    → get_elem? (update_at i w ws) j ≡ some x
    → ((i ≡ j) × (x ≡ w)) ⊎ ((i ≢ j) × (get_elem? ws j ≡ some x))
get_elem?-update_at [] i j w x e = cc
get_elem?-update_at (y ∷ ws) zero zero w x e = inl (refl, cc)
get_elem?-update_at (y ∷ ws) zero (suc j) w x e = inr (omega arith, e)
get_elem?-update_at (y ∷ ws) (suc i) zero w x e = inr (omega arith, e)
get_elem?-update_at (y ∷ ws) (suc i) (suc j) w x e = elim (get_elem?-update_at ws i j w x e) [
  | inl (same, e') ↦ inl (omega (arith, same), e')
  | inr (other, e') ↦ inr (λ same. other (omega (arith, same)), e')
]

module _ (a : Atomic) (n m : ℕ) (s : System) where
  abbrev pub at : Listener → System
  at l = record s { listener = l }

  -- One round of the loop over the workers.
  round-Steps :
      (i target : ℕ) (c : ℤ)
      → i < n
      → target < n
      → Steps a n m (at (summing i target c)) (
          at (
            summing
              (i + 1)
              (if ltb_ℤ (s.counter i) (s.counter target) then i else target)
              (c +ℤ s.counter i)))
  round-Steps i target c li lt =
      one_more
        (one_more (one_more none_yet (sum i target c refl li))
          (load i target (c +ℤ s.counter i) refl))
        (choose i target (c +ℤ s.counter i) (s.counter i) refl lt)

  module _ (workers : List Worker) (len : length workers ≡ n) (rep : Represents workers s) where
    scan_loop-Steps :
        (rest : List Worker) (i target : ℕ) (c : ℤ) (t : Worker) (r : ℕ × ℤ)
        → get_elem? workers target ≡ some t
        → ((j : ℕ) → get_elem? rest j ≡ get_elem? workers (i + j))
        → i + length rest ≡ n
        → scan_loop workers rest i target c ≡ some r
        → Steps a n m (at (summing i target c)) (at (deciding r.0 r.1))
    unfolding scan_loop
    scan_loop-Steps [] i target c t r at_t same end e =
        let r0 : target ≡ r.0 = cc in
        let r1 : c ≡ r.1 = cc in
        rw (← r0, ← r1) (one_more none_yet (leave i target c refl (omega (arith, end))))
    scan_loop-Steps (w ∷ rest) i target c t r at_t same end e =
        let here : get_elem? workers i ≡ some w =
          ap (get_elem? workers) (omega arith) ∙ sym (same 0) in
        let later : (j : ℕ) → get_elem? rest j ≡ get_elem? workers (i + 1 + j) =
          λ j. same (suc j) ∙ ap (get_elem? workers) (omega arith) in
        let first =
          round-Steps i target c (omega (arith, end))
            (omega (arith, get_elem?-lt workers target t at_t, len)) in
        let e' = sym (scan_loop-next workers rest w t i target c at_t) ∙ e in
        let count = rep.counters i w here in
        let count_t = rep.counters target t at_t in
        elim (Bool-cases (ltb_ℤ w.active t.active)) [
          | inl less ↦ Steps-trans a n m (rw (count, count_t, less) at first) (
              scan_loop-Steps rest (i + 1) i (c +ℤ w.active) w r here later (omega (arith, end))
                (rw less at e'))
          | inr more ↦ Steps-trans a n m (rw (count, count_t, more) at first) (
              scan_loop-Steps rest (i + 1) target (c +ℤ w.active) t r at_t later
                (omega (arith, end)) (rw more at e'))
        ]

second : (ws : List Worker) → 2 ≤ length ws → (b : Worker) × (get_elem? ws 1 ≡ some b)
second [] h = absurd (omega arith)
second (a ∷ []) h = absurd (omega arith)
second (a ∷ b ∷ ws) h = (b, refl)

module _ (k : Kernel) (m : ℕ) (s : System) (workers : List Worker) where
  -- Back in `Listen`, with one more socket at worker `target`, counted.
  abbrev pub with_client : ℕ → System
  with_client target = record s {
    listener = waiting;
    conns = set_at target (s.conns target + 1) s.conns;
    counter = set_at target (k.counters.inc (s.counter target)) s.counter;
  }

  with_client-Represents :
      (target : ℕ) (t : Worker)
      → Represents workers s
      → get_elem? workers target ≡ some t
      → Represents (update_at target (increment_active_conns k t) workers) (with_client target)
  with_client-Represents target t rep at_t = record {
    counters = λ i w e.
        elim (get_elem?-update_at workers target i (increment_active_conns k t) w e) [
          | inl (hit, e') ↦
              if_pos (ℕ_discrete target i) hit _ _
              ∙ ap k.counters.inc (rep.counters target t at_t)
              ∙ sym (ap (λ x. x.active) e')
          | inr (miss, e') ↦ if_neg (ℕ_discrete target i) miss _ _ ∙ rep.counters i w e'
        ];
  }

  deciding-Steps :
      (target : ℕ) (c : ℤ)
      → 2 ≤ length workers
      → Represents workers s
      → scan_loop workers workers 0 1 (pos 1) ≡ some (target, c)
      → Steps k.counters
          (length workers)
          m
          (at k.counters (length workers) m s waiting)
          (at k.counters (length workers) m s (deciding target c))
  deciding-Steps target c two rep run =
      let (b, at_1) = second workers two in
      Steps-trans k.counters (length workers) m (one_more none_yet (accept refl)) (
        scan_loop-Steps k.counters (length workers) m s workers refl rep workers 0 1 (pos 1) b
          (target, c) at_1 (λ j. ap (get_elem? workers) (omega arith)) (omega arith) run)

  module _ (es : EpollSet k) (sockfd : ℤ) (p : Proc k.World) where
    -- What `epoll_ctl` answers to the hand-over to worker `w`.
    abbrev pub hand_over : Worker → ℤ × k.World
    hand_over w = k.epoll_ctl w.epfd (handing sockfd) sockfd p.world

    -- Behind a scan that ends with worker `w` at index `target`: what the call has done, and the
    -- state of the steps. A socket counts as registered only if `epoll_ctl` has returned 0.
    pub data Takes (target : ℕ) (w : Worker) : List Worker → Proc k.World → System → Type 0 where
      refused :
          {q : Proc k.World}
          → pos m <ℤ total_from (pos 1) workers
          → q.world ≡ (k.close sockfd p.world).1
          → Takes target w workers q (record s { listener = waiting })
      registered :
          {ws : List Worker} {q : Proc k.World}
          → total_from (pos 1) workers ≤ℤ pos m
          → (hand_over w).0 ≡ pos 0
          → q.world ≡ (hand_over w).1
          → es.interest q.world w.epfd sockfd ≡ wanted (handing sockfd)
          → ws ≡ update_at target (increment_active_conns k w) workers
          → Takes target w ws q (with_client target)
      not_registered :
          {ws : List Worker} {q : Proc k.World}
          → total_from (pos 1) workers ≤ℤ pos m
          → (hand_over w).0 ≢ pos 0
          → q.world ≡ (hand_over w).1
          → ws ≡ workers
          → Takes target w ws q (record s { listener = waiting })

    -- The whole call: all counters are read, up to the decision on the sum, and then it is taken.
    pub record Called (ws : List Worker) (q : Proc k.World) (t : System) : Type 0 where
      pub target : ℕ
      pub worker : Worker
      pub at_target : get_elem? workers target ≡ some worker
      pub least : Least workers worker
      pub scans :
          Steps k.counters
            (length workers)
            m
            (record s { listener = waiting })
            (record s { listener = deciding target (total_from (pos 1) workers) })
      pub decides :
          Steps k.counters
            (length workers)
            m
            (record s { listener = deciding target (total_from (pos 1) workers) })
            t
      pub takes : Takes target worker ws q t
      pub represents : Represents ws t

    -- With two workers or more, whose counters are those of a state `s`: `AssignTask` returns, and
    -- is a run of the listener's steps from `s` with the listener in `Listen`. They scan all
    -- counters up to the decision on their sum, with a worker picked whose counter is least, and go
    -- on from there back to `Listen`: with the socket closed, if the sum is too large; with one
    -- socket more at that worker, in its interest list and counted, if the `epoll_ctl` that
    -- registers it returns 0; and with nothing changed if it does not. The workers that are left
    -- have the counters of the last state.
    pub assign_task-Steps :
        2 ≤ length workers
        → Represents workers s
        → (ws : List Worker) × (q : Proc k.World) × (t : System) × (assign_task k
              (pos m)
              workers
              sockfd
              p
            ≡ some (some ws, q))
          × Called ws q t
    unfolding assign_task
    assign_task-Steps two rep =
        let (target, w, run, at_t, least) = scan_loop_lem workers two in
        let total = total_from (pos 1) workers in
        let scanned = deciding-Steps target total two rep run in
        let kept : Represents workers (record s { listener = waiting }) = record {
          counters = rep.counters;
        } in
        elim (Bool-cases (ltb_ℤ (pos m) total)) [
          | inl e ↦
              let over : pos m <ℤ total = ground (arith, e) in
              (
                workers,
                record p {
                  world = (k.close sockfd p.world).1;
                  log = record { level = my_notice; message = max_clients (pos m) } ∷ p.log;
                },
                record s { listener = waiting },
                rw (run, e) refl,
                record {
                  target = target;
                  worker = w;
                  at_target = at_t;
                  least = least;
                  scans = scanned;
                  decides = one_more none_yet (refuse target total refl over);
                  takes = refused over refl;
                  represents = kept;
                },
              )
          | inr e ↦
              let within : total ≤ℤ pos m = ground (arith, e) in
              let admitted = one_more none_yet (admit target total refl within) in
              let (ws, q, added, (world, handed)) = add_to-Handed k es sockfd workers target w p in
              elim handed [
                | inl (z, same, i, l) ↦ (
                  ws,
                  q,
                  with_client target,
                  rw (run, e, at_t) added,
                  record {
                    target = target;
                    worker = w;
                    at_target = at_t;
                    least = least;
                    scans = scanned;
                    decides =
                        one_more (one_more admitted (add target refl)) (increment target refl);
                    takes = registered within z world i same;
                    represents = rw same (with_client-Represents target w rep at_t);
                  },
                )
                | inr (z, same) ↦ (
                  ws,
                  q,
                  record s { listener = waiting },
                  rw (run, e, at_t) added,
                  record {
                    target = target;
                    worker = w;
                    at_target = at_t;
                    least = least;
                    scans = scanned;
                    decides = one_more admitted (add_fails target refl);
                    takes = not_registered within z world same;
                    represents = rw same kept;
                  },
                )
              ]
        ]
