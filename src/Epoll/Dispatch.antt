-- ===== src/Epoll/Dispatch.antt =====
-- The event loop of iEpoll::i_epoll_wait (iEpoll.cpp): which handlers an event reaches, when its
-- socket is closed, and what the `nRet` that outlives an event can do.
use epoll_threads.Base.{
  ◌≡◌, refl, Bool, true, false, ◌||◌, List, [], ◌∷◌, ◌++◌, some, inl, inr, ℤ, is_neg, arith,
  Option-cases,
}
use epoll_threads.Kernel.{Kernel, Mask, Event}
use epoll_threads.Proc.{Proc, pure, ◌>>=◌, ◌>>◌}
use epoll_threads.Epoll.{Handlers, handle_event, handle_events}

-- The bits that the loop tests.
abbrev pub hung_up : Mask → Bool
hung_up m = m.hangup || m.error || m.rdhangup

abbrev pub is_handled : Mask → Bool
is_handled m = m.readable || m.writable || hung_up m

module _ (k : Kernel) (h : Handlers k.World) where
  -- An event with a bit that the loop tests is handled the same whatever `nRet` the events before
  -- it left: the stale value cannot close its socket or keep it open.
  pub handle_event_fresh :
      (ev : Event) (r s : ℤ) (p : Proc k.World)
      → is_handled ev.events ≡ true
      → handle_event k h ev r p ≡ handle_event k h ev s p
  unfolding handle_event
  handle_event_fresh ev r s p e = ground arith

  -- An event with none of those bits calls no handler but `iClose`, and that exactly if the stale
  -- `nRet` is negative; on the first event of all it is, since `nRet` starts at -1.
  pub handle_event_stale :
      (ev : Event) (r : ℤ) (p : Proc k.World)
      → is_handled ev.events ≡ false
      → ((is_neg r ≡ false) → handle_event k h ev r p ≡ some (r, p))
        × ((is_neg r ≡ true) → handle_event k h ev r p ≡ (h.i_close ev.fd >> pure r) p)
  unfolding handle_event
  handle_event_stale ev r p e = (λ z. ground arith, λ z. ground arith)

  -- A readable and writable event whose read failed keeps its socket if the write succeeds: only
  -- the last result counts.
  pub handle_event_masked :
      (ev : Event) (r a b : ℤ) (p q s : Proc k.World)
      → ev.events.readable ≡ true
      → ev.events.writable ≡ true
      → hung_up ev.events ≡ false
      → h.i_read ev.fd p ≡ some (a, q)
      → is_neg a ≡ true
      → h.i_write ev.fd q ≡ some (b, s)
      → is_neg b ≡ false
      → handle_event k h ev r p ≡ some (b, s)
  unfolding handle_event
  handle_event_masked ev r a b p q s x y z e f g i = ground arith

  -- A hang-up or error ends in `iClose` on the state that `iError` leaves, if `iError` is negative.
  pub handle_event-hung_up :
      (ev : Event) (r b : ℤ) (p q : Proc k.World)
      → ev.events.readable ≡ false
      → ev.events.writable ≡ false
      → hung_up ev.events ≡ true
      → h.i_error ev.fd p ≡ some (b, q)
      → is_neg b ≡ true
      → handle_event k h ev r p ≡ (h.i_close ev.fd >> pure b) q
  unfolding handle_event
  handle_event-hung_up ev r b p q x y z e f = ground arith

  -- The loop takes the events in order, the state and `nRet` of each passed on to the next.
  pub handle_events-append :
      (xs ys : List Event) (r : ℤ) (p : Proc k.World)
      → handle_events k h (xs ++ ys) r p ≡ (handle_events k h xs r >>= handle_events k h ys) p
  unfolding handle_events
  handle_events-append [] ys r p = refl
  handle_events-append (x ∷ xs) ys r p = elim (Option-cases (handle_event k h x r p)) [
    | inl e ↦ ground (arith, e)
    | inr ((s, q), e) ↦ ground (arith, e, handle_events-append xs ys s q)
  ]
