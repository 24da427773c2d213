-- ===== src/Client/Start.antt =====
-- Test.cpp: the start of one client by main, and of all of them.
use epoll_threads.Base.{
  subst, ◌≤◌, true, false, same_or_other, ℕ, zero, suc, ◌+◌, ◌≡◌, refl, ap, ◌∙◌, Bool, true, false,
  List, [], ◌∷◌, none, some, ◌⊎◌, inl, inr, ℤ, is_minus_one, Bool-cases, length, arith,
}
use epoll_threads.Kernel.{Kernel, Ctl}
use epoll_threads.Proc.{
  Proc, LogCall, my_warning, epoll_create_err, epoll_add_err, connect_server_err,
}
use epoll_threads.Epoll.{i_epoll_read, i_epoll_edge_triggered, i_epoll_create, with_mode, add_mask}
use epoll_threads.Epoll.Laws.{EpollSet}
use epoll_threads.Epoll.Modes.{i_epoll_add_lem}
use epoll_threads.Task.Switch.{logged}
use epoll_threads.Setup.Opened.{Opens, Same, OpenFds}
use epoll_threads.Setup.Connect.{Connects, connect_socket_lem}
use epoll_threads.Lifetime.{EpollObject, new_epoll}
use epoll_threads.Lifetime.Construction.{CreateOpens}
use epoll_threads.Client.Launch.{
  ClientObject, new_client_object, client_connect, add_epoll_events, start_client, start_clients,
}

-- `epoll_ctl` opens and closes nothing.
pub record CtlKeepsFds (k : Kernel) (op : OpenFds k) : Type 0 where
  pub ctl_same :
      (epfd : ℤ) (c : Ctl) (fd : ℤ) (w : k.World) → Same op.opened w (k.epoll_ctl epfd c fd w).1

-- As many clients as asked for, or a failure after at most as many.
abbrev pub Counted : ℕ → List ClientObject → Bool → Type 0
Counted n os b = ((b ≡ false) × (length os ≡ n)) ⊎ ((b ≡ true) × (length os ≤ n))

module _ (k : Kernel) (op : OpenFds k) (es : EpollSet k) where
  open op use {opened}
  open es use {interest}

  -- What was open stays open.
  abbrev pub Grows : k.World → k.World → Type 0
  Grows v w = (fd : ℤ) → opened v fd ≡ true → opened w fd ≡ true

  -- The socket is in the interest list of its client in read mode, or the failure is logged.
  abbrev pub Added : ClientObject → List LogCall → Proc k.World → Type 0
  Added o before q =
      ((interest q.world o.epoll.epfd o.sockfd
          ≡ some (with_mode add_mask i_epoll_read i_epoll_edge_triggered))
        × (q.log ≡ before))
      ⊎ (q.log ≡ logged my_warning (epoll_add_err (k.errno q.world) o.sockfd) ∷ before)

  -- Client `i` is started, with a socket that is new and that is added; or its `Connect` failed, which
  -- is logged, and it has no socket or one that is left open.
  pub record Started (i : ℕ) (ip : List ℕ) (port : ℕ) (o : ClientObject) (failed : Bool)
      (p q : Proc k.World) : Type 0 where
    pub socket :
        ((opened p.world o.sockfd ≡ false) × (opened q.world o.sockfd ≡ true))
        ⊎ ((failed ≡ true) × (is_minus_one o.sockfd ≡ true))
    pub epoll_fresh : (is_minus_one o.epoll.epfd ≡ true) ⊎ (opened p.world o.epoll.epfd ≡ false)
    pub others :
        (fd : ℤ) → ((fd ≡ o.epoll.epfd) ⊎ (fd ≡ o.sockfd)) ⊎ (opened q.world fd ≡ opened p.world fd)
    pub before : List LogCall
    pub outcome :
        ((failed ≡ false) × Added o before q)
        ⊎ ((failed ≡ true) × (q.log ≡ logged my_warning (connect_server_err i ip port) ∷ before))
    pub grows : Grows p.world q.world

  -- The clients from `i` on, and whether the last one failed, which ends the loop.
  pub data Launched (ip : List ℕ) (port : ℕ)
      : ℕ → List ClientObject → Bool → Proc k.World → Proc k.World → Type 0 where
    all_launched : {i : ℕ} {p : Proc k.World} → Launched ip port i [] false p p
    launched :
        {i : ℕ} {o : ClientObject} {os : List ClientObject} {b : Bool} {p q r : Proc k.World}
        → Started i ip port o false p q
        → Launched ip port (i + 1) os b q r
        → Launched ip port i (o ∷ os) b p r
    failed_at :
        {i : ℕ} {o : ClientObject} {p q : Proc k.World}
        → Started i ip port o true p q
        → Launched ip port i (o ∷ []) true p q

  Opens-Grows : (fd : ℤ) (v w : k.World) → Opens opened fd v w → Grows v w
  Opens-Grows fd v w opens o on = elim (same_or_other o fd) [
    | inl e ↦ ap (opened w) e ∙ opens.now
    | inr ne ↦ opens.others o ne ∙ on
  ]

  Opens-others :
      (fd : ℤ) (v w : k.World)
      → Opens opened fd v w
      → (o : ℤ) → (o ≡ fd) ⊎ (opened w o ≡ opened v o)
  Opens-others fd v w opens o = elim (same_or_other o fd) [
    | inl e ↦ inl e
    | inr ne ↦ inr (opens.others o ne)
  ]

  -- A descriptor that is closed later was closed before.
  pub Grows-fresh : (v w : k.World) (fd : ℤ) → Grows v w → opened w fd ≡ false → opened v fd ≡ false
  Grows-fresh v w fd grows off = elim (Bool-cases (opened v fd)) [
    | inl on ↦ absurd (cc (grows fd on, off))
    | inr still ↦ still
  ]

  module _ (co : CreateOpens k op) (ck : CtlKeepsFds k op) where
    new_epoll-Grows :
        (capacity : ℤ) (p : Proc k.World)
        → (o : EpollObject) × (q : Proc k.World) × (new_epoll k capacity p ≡ some (o, q))
          × Grows p.world q.world
          × ((is_minus_one o.epfd ≡ true) ⊎ (opened p.world o.epfd ≡ false))
          × ((fd : ℤ) → (fd ≡ o.epfd) ⊎ (opened q.world fd ≡ opened p.world fd))
    unfolding new_epoll i_epoll_create
    new_epoll-Grows capacity p =
        let (fd, w) = k.epoll_create capacity p.world in
        elim (Bool-cases (is_minus_one fd)) [
          | inl e ↦ (
            record { epfd = fd; maxevents = capacity; events = none },
            record p {
              world = w;
              log = record { level = my_warning; message = epoll_create_err } ∷ p.log;
            },
            ground (arith, e),
            λ o on. co.create_fails capacity p.world e o ∙ on,
            inl e,
            λ o. inr (co.create_fails capacity p.world e o),
          )
          | inr e ↦ (
            record { epfd = fd; maxevents = capacity; events = some capacity },
            record p { world = w },
            ground (arith, e),
            Opens-Grows fd p.world w (co.create_opens capacity p.world e),
            inr (co.create_opens capacity p.world e).fresh,
            Opens-others fd p.world w (co.create_opens capacity p.world e),
          )
        ]

    Connects-Grows : (w : k.World) (r : ℤ × ℤ) (w' : k.World) → Connects k op w r w' → Grows w w'
    Connects-Grows w r w' (inl (z, opens)) = Opens-Grows r.1 w w' opens
    Connects-Grows w r w' (inr (z, inl (gone, same))) = λ fd on. same fd ∙ on
    Connects-Grows w r w' (inr (z, inr (left, opens))) = Opens-Grows r.1 w w' opens

    Connects-others :
        (w : k.World) (r : ℤ × ℤ) (w' : k.World)
        → Connects k op w r w'
        → (fd : ℤ) → (fd ≡ r.1) ⊎ (opened w' fd ≡ opened w fd)
    Connects-others w r w' (inl (z, opens)) = Opens-others r.1 w w' opens
    Connects-others w r w' (inr (z, inl (gone, same))) = λ fd. inr (same fd)
    Connects-others w r w' (inr (z, inr (left, opens))) = Opens-others r.1 w w' opens

    -- Whether `Connect` failed, and what it made of the socket.
    Connects-opened :
        (w : k.World) (r : ℤ × ℤ) (w' : k.World)
        → Connects k op w r w'
        → ((opened w r.1 ≡ false) × (opened w' r.1 ≡ true))
          ⊎ ((is_minus_one r.0 ≡ true) × (is_minus_one r.1 ≡ true))
    Connects-opened w r w' (inl (z, opens)) = inl (opens.fresh, opens.now)
    Connects-opened w r w' (inr (z, inl (gone, same))) = inr (rw z refl, gone)
    Connects-opened w r w' (inr (z, inr (left, opens))) = inl (opens.fresh, opens.now)

    start_client_lem :
        (i : ℕ) (capacity : ℤ) (ip : List ℕ) (port : ℕ) (p : Proc k.World)
        → (o : ClientObject) × (b : Bool) × (q : Proc k.World) × (start_client k i capacity ip port
              p
            ≡ some ((o, b), q))
          × Started i ip port o b p q
    unfolding start_client new_client_object client_connect add_epoll_events
    start_client_lem i capacity ip port p =
        let (e, s, run, grown, fresh, others) = new_epoll-Grows capacity p in
        let (r, t, run', connects) = connect_socket_lem k op ip port s in
        let (x, q, run'', adds) =
          i_epoll_add_lem k es e.epfd r.1 i_epoll_read i_epoll_edge_triggered t in
        let kept : (fd : ℤ) → opened q.world fd ≡ opened t.world fd =
          λ fd. ap (λ w. opened w fd) adds.world ∙ ck.ctl_same e.epfd _ r.1 t.world fd in
        let only : (fd : ℤ)
            → ((fd ≡ e.epfd) ⊎ (fd ≡ r.1)) ⊎ (opened t.world fd ≡ opened p.world fd) =
          λ fd. elim (Connects-others s.world r t.world connects fd) [
            | inl at_socket ↦ inl (inr at_socket)
            | inr same' ↦ elim (others fd) [
              | inl at_epoll ↦ inl (inl at_epoll)
              | inr same'' ↦ inr (same' ∙ same'')
            ]
          ] in
        elim (Bool-cases (is_minus_one r.0)) [
          | inl bad ↦ (
            record { epoll = e; sockfd = r.1 },
            true,
            record t { log = logged my_warning (connect_server_err i ip port) ∷ t.log },
            ground (arith, run, run', bad),
            record {
              socket = elim (Connects-opened s.world r t.world connects) [
                | inl (off, on) ↦ inl (Grows-fresh p.world s.world r.1 grown off, on)
                | inr (_, gone) ↦ inr (refl, gone)
              ];
              epoll_fresh = fresh;
              others = only;
              before = t.log;
              outcome = inr (refl, refl);
              grows = λ fd on. Connects-Grows s.world r t.world connects fd (grown fd on);
            },
          )
          | inr good ↦ (
            record { epoll = e; sockfd = r.1 },
            false,
            q,
            ground (arith, run, run', good, run''),
            record {
              socket = elim (Connects-opened s.world r t.world connects) [
                | inl (off, on) ↦ inl (Grows-fresh p.world s.world r.1 grown off, kept r.1 ∙ on)
                | inr (bad, gone) ↦ absurd (cc (bad, good))
              ];
              epoll_fresh = fresh;
              others =
                  λ fd. elim (only fd) [ inl mine ↦ inl mine | inr same ↦ inr (kept fd ∙ same) ];
              before = t.log;
              outcome = inl (
                refl,
                elim adds.outcome [
                  | inl (_, now, quiet) ↦ inl (now, quiet)
                  | inr (_, _, loud) ↦ inr loud
                ],
              );
              grows = λ fd on. kept fd ∙ Connects-Grows s.world r t.world connects fd (grown fd on);
            },
          )
        ]

    pub start_clients_lem :
        (capacity : ℤ) (ip : List ℕ) (port i n : ℕ) (p : Proc k.World)
        → (os : List ClientObject) × (b : Bool) × (q : Proc k.World) × (start_clients k capacity ip
              port i n p
            ≡ some ((os, b), q))
          × Counted n os b
          × Launched ip port i os b p q
    unfolding start_clients
    start_clients_lem capacity ip port i zero p =
        ([], false, p, refl, inl (refl, refl), all_launched)
    start_clients_lem capacity ip port i (suc n) p =
        let (o, b, q, run, starts) = start_client_lem i capacity ip port p in
        let (os, b', r, run', len, rest) = start_clients_lem capacity ip port (i + 1) n q in
        elim (Bool-cases b) [
          | inl bad ↦ (
            o ∷ [],
            true,
            q,
            ground (arith, run, bad),
            inr (refl, omega arith),
            failed_at (subst (λ f. Started i ip port o f p q) bad starts),
          )
          | inr good ↦ (
            o ∷ os,
            b',
            r,
            ground (arith, run, good, run'),
            elim len [
              | inl (fine, e) ↦ inl (fine, ap suc e)
              | inr (bad, le) ↦ inr (bad, omega (arith, le))
            ],
            launched (subst (λ f. Started i ip port o f p q) good starts) rest,
          )
        ]
