-- ===== src/Session/Ends.antt =====
-- One end of a connection: what a turn of iEpoll's loop (iEpoll.cpp) on it does, for handlers that do
-- not fail.
use epoll_threads.Base.{
  ℕ, ◌+◌, ◌<◌, ◌≤◌, ◌≡◌, refl, sym, ap, subst, ◌∙◌, Bool, true, false, not, List, ◌++◌, some, ◌⊎◌,
  inl, inr, ℤ, pos, length, length-append, Bool-cases, arith,
}
use epoll_threads.Kernel.{Kernel, Mask, Event}
use epoll_threads.Proc.{Proc, min_bufsz}
use epoll_threads.Socket.Laws.{Stream, Patience}
use epoll_threads.Epoll.{
  Handlers, handle_event, i_epoll_read, i_epoll_write, i_epoll_edge_triggered, with_mode,
  change_mask,
}
use epoll_threads.Epoll.Laws.{EpollSet}
use epoll_threads.Epoll.Dispatch.{hung_up}
use epoll_threads.Task.Interest.{ReportedBy}

-- One end: its epoll set and its socket.
pub record End : Type 0 where
  pub epfd : ℤ
  pub fd : ℤ

abbrev event_of : End → Bool → Bool → Event
event_of e r w = record {
  fd = e.fd;
  events = record {
    readable = r;
    writable = w;
    error = false;
    hangup = false;
    rdhangup = false;
    edge = false;
  };
}

module _ (k : Kernel) (es : EpollSet k) (pt : Patience k) (taken : k.World → ℤ → List ℕ) where
  open pt use {signals}

  -- What a turn on `e` leaves alone: the entry of the other end, and what that has taken; and no
  -- more interruptions are to come.
  pub record Leaves (other : End) (v w : k.World) : Type 0 where
    pub entry : es.interest w other.epfd other.fd ≡ es.interest v other.epfd other.fd
    pub took : taken w other.fd ≡ taken v other.fd
    pub calm : signals w ≤ signals v

  pub Leaves-refl : (other : End) (w : k.World) → Leaves other w w
  Leaves-refl other w = record { entry = refl; took = refl; calm = omega arith }

  pub Leaves-trans :
      (other : End) (u v w : k.World) → Leaves other u v → Leaves other v w → Leaves other u w
  Leaves-trans other u v w x y = record {
    entry = y.entry ∙ x.entry;
    took = y.took ∙ x.took;
    calm = omega (arith, x.calm, y.calm);
  }

module _ (k : Kernel) (st : Stream k) (es : EpollSet k) (pt : Patience k) (fuel : ℕ) where
  open st use {incoming, outgoing}
  open pt use {signals}

  -- The entry of an end asks for one direction: for room to write, or for input.
  pub record In (e : End) (w : k.World) (writes : Bool) : Type 0 where
    pub mask : Mask
    pub entry : es.interest w e.epfd e.fd ≡ some mask
    pub out : mask.writable ≡ writes
    pub input : mask.readable ≡ not writes

  -- An event that epoll may report of an end while the connection is up.
  pub record Due (e : End) (w : k.World) (ev : Event) : Type 0 where
    pub on : ev.fd ≡ e.fd
    pub asked : ReportedBy (es.interest w e.epfd e.fd) ev.events
    pub up : hung_up ev.events ≡ false
    pub arrived : (ev.events.readable ≡ false) ⊎ (0 < length (incoming w e.fd))

  -- Fuel for a full buffer and the interruptions to come.
  abbrev pub Fueled : k.World → Type 0
  Fueled w = min_bufsz + signals w < fuel

  module _ (taken : k.World → ℤ → List ℕ) where
    -- Handlers that never fail on `e`.
    pub record Answers (h : Handlers k.World) (e other : End) : Type 0 where
      pub reads :
          (p : Proc k.World)
          → Fueled p.world
          → 0 < length (incoming p.world e.fd)
          → (q : Proc k.World) × (h.i_read e.fd p ≡ some (pos 0, q))
            × (es.interest q.world e.epfd e.fd
                ≡ some (with_mode change_mask i_epoll_write i_epoll_edge_triggered))
            × Leaves k es pt taken other p.world q.world
      pub writes :
          (p : Proc k.World)
          → Fueled p.world
          → (q : Proc k.World) × (h.i_write e.fd p ≡ some (pos 0, q))
            × (es.interest q.world e.epfd e.fd
                ≡ some (with_mode change_mask i_epoll_read i_epoll_edge_triggered))
            × (length (outgoing p.world e.fd) < length (outgoing q.world e.fd))
            × Leaves k es pt taken other p.world q.world

    module _ (h : Handlers k.World) (e other : End) (answers : Answers h e other)
        (wire : (w : k.World) → outgoing w e.fd ≡ taken w other.fd ++ incoming w other.fd) where
      -- After a turn: the mode of this end, the entry of the other, and what keeps them going.
      pub record Turned (w : k.World) (other_writes : Bool) : Type 0 where
        pub writes : Bool
        pub mine : In e w writes
        pub theirs : In other w other_writes
        pub fueled : Fueled w
        pub alive : (writes ≡ true) ⊎ (0 < length (incoming w other.fd))

      In-Leaves :
          (v w : k.World) (y : Bool) → Leaves k es pt taken other v w → In other v y → In other w y
      In-Leaves v w y l i = record {
        mask = i.mask;
        entry = l.entry ∙ i.entry;
        out = i.out;
        input = i.input;
      }

      arrives :
          (v w : k.World)
          → Leaves k es pt taken other v w
          → length (outgoing v e.fd) < length (outgoing w e.fd)
          → 0 < length (incoming w other.fd)
      arrives v w l more = omega (
        arith,
        more,
        ap length (wire v),
        ap length (wire w),
        ap length l.took,
        length-append {0} (taken v other.fd) (incoming v other.fd),
        length-append {0} (taken w other.fd) (incoming w other.fd),
      )

      read_turn :
          (ev : Event) (ret r : ℤ) (p q : Proc k.World) (y : Bool)
          → ev.fd ≡ e.fd
          → ev.events.readable ≡ true
          → ev.events.writable ≡ false
          → hung_up ev.events ≡ false
          → 0 < length (incoming p.world e.fd)
          → Fueled p.world
          → In other p.world y
          → handle_event k h ev ret p ≡ some (r, q)
          → Turned q.world y
      unfolding handle_event with_mode
      read_turn ev ret r p q y on rd wr up some_in enough theirs ran =
          let (s, run, entry, leaves) = answers.reads p enough some_in in
          let run' : h.i_read ev.fd p ≡ some (pos 0, s) = rw on run in
          let same : s ≡ q = ground (arith, rd, wr, up, run', ran) in
          rw (← same) (record {
            writes = true;
            mine = record { mask = _; entry = entry; out = refl; input = refl };
            theirs = In-Leaves p.world s.world y leaves theirs;
            fueled = omega (arith, leaves.calm);
            alive = inl refl;
          })

      write_turn :
          (ev : Event) (ret r : ℤ) (p q : Proc k.World) (y : Bool)
          → ev.fd ≡ e.fd
          → ev.events.readable ≡ false
          → ev.events.writable ≡ true
          → hung_up ev.events ≡ false
          → Fueled p.world
          → In other p.world y
          → handle_event k h ev ret p ≡ some (r, q)
          → Turned q.world y
      unfolding handle_event with_mode
      write_turn ev ret r p q y on rd wr up enough theirs ran =
          let (s, run, entry, more, leaves) = answers.writes p enough in
          let run' : h.i_write ev.fd p ≡ some (pos 0, s) = rw on run in
          let same : s ≡ q = ground (arith, rd, wr, up, run', ran) in
          rw (← same) (record {
            writes = false;
            mine = record { mask = _; entry = entry; out = refl; input = refl };
            theirs = In-Leaves p.world s.world y leaves theirs;
            fueled = omega (arith, leaves.calm);
            alive = inr (arrives p.world s.world leaves more);
          })

      -- Any event that is due is a turn that succeeds.
      pub turn :
          (ev : Event) (ret r : ℤ) (p q : Proc k.World) (x y : Bool)
          → Due e p.world ev
          → Fueled p.world
          → In e p.world x
          → In other p.world y
          → handle_event k h ev ret p ≡ some (r, q)
          → Turned q.world y
      turn ev ret r p q x y due enough mine theirs ran =
          let asked : ReportedBy (some mine.mask) ev.events =
            subst (λ m. ReportedBy m ev.events) mine.entry due.asked in
          elim (Bool-cases ev.events.readable) [
            | inl rd ↦
                let wr : ev.events.writable ≡ false =
                  ground (arith, asked, mine.out, mine.input, rd) in
                let some_in : 0 < length (incoming p.world e.fd) = elim due.arrived [
                  | inl no_read ↦ absurd (cc)
                  | inr bytes ↦ bytes
                ] in
                read_turn ev ret r p q y due.on rd wr due.up some_in enough theirs ran
            | inr no_read ↦
                let wr : ev.events.writable ≡ true = ground (arith, asked.0, due.up, no_read) in
                write_turn ev ret r p q y due.on no_read wr due.up enough theirs ran
          ]

      -- An end in write mode, or one that bytes have come to, has a turn.
      pub has_turn :
          (p : Proc k.World) (x : Bool)
          → Fueled p.world
          → In e p.world x
          → (x ≡ true) ⊎ (0 < length (incoming p.world e.fd))
          → (ev : Event) × (q : Proc k.World) × Due e p.world ev
            × (handle_event k h ev (pos 0) p ≡ some (pos 0, q))
      unfolding handle_event
      has_turn p true enough mine why =
          let (q, run, _, _, _) = answers.writes p enough in
          let ev : Event = event_of e false true in
          (
            ev,
            q,
            record {
              on = refl;
              asked =
                  subst (λ m. ReportedBy m ev.events) (sym mine.entry)
                    (refl, inl refl, inr mine.out);
              up = refl;
              arrived = inl refl;
            },
            ground (arith, run),
          )
      has_turn p false enough mine why =
          let some_in : 0 < length (incoming p.world e.fd) = elim why [
            | inl writes ↦ absurd (cc)
            | inr bytes ↦ bytes
          ] in
          let (q, run, _, _) = answers.reads p enough some_in in
          let ev : Event = event_of e true false in
          (
            ev,
            q,
            record {
              on = refl;
              asked =
                  subst (λ m. ReportedBy m ev.events) (sym mine.entry)
                    (refl, inr mine.input, inl refl);
              up = refl;
              arrived = inr some_in;
            },
            ground (arith, run),
          )
