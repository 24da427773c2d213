-- ===== src/Epoll/Halts.antt =====
-- Termination of iEpoll::i_epoll_wait (iEpoll.cpp) once the shutdown flag is raised, for handlers
-- that return.
use epoll_threads.Base.{
  ℕ, zero, suc, ◌<◌, ◌≤◌, ◌≡◌, refl, Bool, true, false, ◌||◌, List, [], ◌∷◌, some, inl, inr, ℤ, pos,
  is_neg, arith, Bool-cases,
}
use epoll_threads.Kernel.{Kernel, Event}
use epoll_threads.Proc.{M, Proc, pure, ◌>>=◌, when}
use epoll_threads.Socket.Laws.{Steady}
use epoll_threads.Epoll.{Handlers, on_bit, handle_event, handle_events, wait_loop, ready}

-- `rounds` bounds the calls of `epoll_wait` up to the one after which the flag is seen.
pub record Shutdown (k : Kernel) : Type 0 where
  pub rounds : k.World → ℕ
  pub steady : Steady k rounds
  pub wait_lt :
      (epfd maxevents : ℤ) (w : k.World)
      → k.shutdown w ≡ false
      → rounds (k.epoll_wait epfd maxevents w).1 < rounds w

module _ (k : Kernel) (sd : Shutdown k) (Good : k.World → Type 0) where
  open sd use {rounds}

  -- From every good state `m` returns, in a good state that is no further from the end.
  pub record Done {A : Type 0} (m : M k.World A) : Type 0 where
    pub returns :
        (p : Proc k.World)
        → Good p.world
        → (r : A) × (q : Proc k.World) × (m p ≡ some (r, q))
          × Good q.world
          × (rounds q.world ≤ rounds p.world)

  pub Done-pure : {A : Type 0} (a : A) → Done (pure a)
  Done-pure a = record { returns = λ p g. (a, p, refl, g, omega arith) }

  pub Done-bind :
      {A B : Type 0} {m : M k.World A} {f : A → M k.World B}
      → Done m
      → ((a : A) → Done (f a))
      → Done (m >>= f)
  Done-bind dm df = record {
    returns = λ p g.
        let (a, q, e, g', le) = dm.returns p g in
        let (b, s, e', g'', le') = (df a).returns q g' in
        (b, s, ground (arith, e, e'), g'', omega arith);
  }

  Done-on_bit : (b : Bool) {act : M k.World ℤ} (r : ℤ) → Done act → Done (on_bit b act r)
  Done-on_bit true r d = d
  Done-on_bit false r d = Done-pure r

  pub Done-when : (b : Bool) {act : M k.World (Unit {0})} → Done act → Done (when b act)
  Done-when true d = d
  Done-when false d = Done-pure tt

  pub record AllDone (h : Handlers k.World) : Type 0 where
    pub read : (fd : ℤ) → Done (h.i_read fd)
    pub write : (fd : ℤ) → Done (h.i_write fd)
    pub error : (fd : ℤ) → Done (h.i_error fd)
    pub close : (fd : ℤ) → Done (h.i_close fd)

  module _ (h : Handlers k.World) (all : AllDone h) where
    handle_event-Done : (ev : Event) (r : ℤ) → Done (handle_event k h ev r)
    unfolding handle_event
    handle_event-Done ev r = Done-bind (Done-on_bit ev.events.readable r (all.read ev.fd)) λ r1.
        Done-bind (Done-on_bit ev.events.writable r1 (all.write ev.fd)) λ r2.
          Done-bind
            (Done-on_bit (ev.events.hangup || ev.events.error || ev.events.rdhangup) r2
              (all.error ev.fd))
            λ r3.
              Done-bind (Done-when (is_neg r3) (Done-bind (all.close ev.fd) λ _. Done-pure tt))
                λ _. Done-pure r3

    handle_events-Done : (evs : List Event) (r : ℤ) → Done (handle_events k h evs r)
    unfolding handle_events
    handle_events-Done [] r = Done-pure r
    handle_events-Done (ev ∷ evs) r = Done-bind (handle_event-Done ev r) (handle_events-Done evs)

    pub wait_loop-returns :
        ((epfd maxevents : ℤ) (w : k.World) → Good w → Good (k.epoll_wait epfd maxevents w).1)
        → (fuel : ℕ) (epfd maxevents ret : ℤ) (p : Proc k.World) → Good p.world
        → rounds p.world < fuel
        → (q : Proc k.World) × (wait_loop k h fuel epfd maxevents ret p ≡ some (pos 0, q))
          × (k.shutdown q.world ≡ true)
    unfolding wait_loop
    wait_loop-returns keep zero epfd maxevents ret p g lt = absurd (omega arith)
    wait_loop-returns keep (suc fuel) epfd maxevents ret p g lt =
        elim (Bool-cases (k.shutdown p.world)) [
          | inl raised ↦ (p, rw raised, raised)
          | inr running ↦
              let p' : Proc k.World = record p {
                world = (k.epoll_wait epfd maxevents p.world).1;
              } in
              let evs = ready (k.epoll_wait epfd maxevents p.world).0 in
              let (r, q, e, g', le) =
                (handle_events-Done evs ret).returns p' (keep epfd maxevents p.world g) in
              let (s, e', raised) =
                wait_loop-returns keep fuel epfd maxevents r q g'
                  (omega (arith, sd.wait_lt epfd maxevents p.world running)) in
              (s, ground (arith, running, e, e'), raised)
        ]
