-- ===== src/Task/Interest.antt =====
-- The masks in the interest list of a worker (iEpoll.cpp, TaskThread.cpp): while ListenThread adds
-- sockets in write mode and the handlers change them between read and write mode, none asks for both
-- directions.
use epoll_threads.Base.{
  ℕ, ◌≡◌, ◌≢◌, refl, sym, ◌∙◌, true, false, List, [], ◌∷◌, Option, none, some, ◌⊎◌, inl, inr, All,
  ℤ, same_or_other, arith,
}
use epoll_threads.Kernel.{Kernel, Mask, Event, Ctl}
use epoll_threads.Epoll.{i_epoll_write, i_epoll_edge_triggered, with_mode, add_mask}
use epoll_threads.Epoll.Laws.{EpollSet, wanted}
use epoll_threads.Epoll.Modes.{sign-cases}
use epoll_threads.Epoll.Dispatch.{is_handled}
use epoll_threads.Task.Conversation.{OneWay}
use epoll_threads.Task.Frame.{Calls, HandlerCtl}

abbrev pub OneDirection : Mask → Type 0
OneDirection m = (m.readable ≡ false) ⊎ (m.writable ≡ false)

-- What `epoll_wait` may report of a socket: no direction but those that it is asked for, and some bit
-- that the loop handles.
abbrev pub ReportedBy : Option Mask → Mask → Type 0
ReportedBy none m = ⊥
ReportedBy (some asked) m =
    (is_handled m ≡ true)
    × ((m.readable ≡ false) ⊎ (asked.readable ≡ true))
    × ((m.writable ≡ false) ⊎ (asked.writable ≡ true))

module _ (k : Kernel) (es : EpollSet k) (epfd : ℤ) where
  open es use {interest}

  -- What may become of the entry of a socket while the worker makes a call that is not an `epoll_ctl`
  -- on it: it stays, it is gone with a descriptor that is closed, or ListenThread adds it.
  abbrev pub Admits : k.World → k.World → ℤ → Type 0
  Admits v w o =
      (interest w epfd o ≡ interest v epfd o)
      ⊎ ((interest w epfd o ≡ none)
          ⊎ (interest w epfd o ≡ some (with_mode add_mask i_epoll_write i_epoll_edge_triggered)))

  pub record Reporting : Type 0 where
    pub reported :
        (n : ℤ) (w : k.World) (evs : List Event)
        → (k.epoll_wait epfd n w).0 ≡ some evs
        → All (λ ev. ReportedBy (interest (k.epoll_wait epfd n w).1 epfd ev.fd) ev.events) evs
    pub wait_admits : (n : ℤ) (w : k.World) (o : ℤ) → Admits w (k.epoll_wait epfd n w).1 o
    pub recv_admits : (fd : ℤ) (n : ℕ) (w : k.World) (o : ℤ) → Admits w (k.recv fd n w).1 o
    pub send_admits : (fd : ℤ) (bs : List ℕ) (w : k.World) (o : ℤ) → Admits w (k.send fd bs w).1 o
    pub close_admits : (fd : ℤ) (w : k.World) (o : ℤ) → Admits w (k.close fd w).1 o
    pub time_admits : (w : k.World) (o : ℤ) → Admits w (k.gettimeofday_usec w).1 o
    pub ctl_admits :
        (c : Ctl) (fd : ℤ) (w : k.World) (o : ℤ) → o ≢ fd → Admits w (k.epoll_ctl epfd c fd w).1 o

  -- No entry of the list asks for both directions.
  abbrev pub AllOneDirection : k.World → Type 0
  AllOneDirection w = (o : ℤ) (m : Mask) → interest w epfd o ≡ some m → OneDirection m

  abbrev Kept : k.World → k.World → Type 0
  Kept v w = AllOneDirection v → AllOneDirection w

  OneDirection-Admits :
      (v w : k.World) (o : ℤ) (m : Mask)
      → Admits v w o
      → AllOneDirection v
      → interest w epfd o ≡ some m
      → OneDirection m
  unfolding with_mode
  OneDirection-Admits v w o m (inl same) one e = one o m (sym same ∙ e)
  OneDirection-Admits v w o m (inr (inl gone)) one e = absurd (cc (gone, e))
  OneDirection-Admits v w o m (inr (inr added)) one e = inl (ground (arith, added, e))

  Admits-Kept : (v w : k.World) → ((o : ℤ) → Admits v w o) → Kept v w
  Admits-Kept v w admits one o m e = OneDirection-Admits v w o m (admits o) one e

  wanted-OneDirection :
      (fd : ℤ) (c : Ctl) (m : Mask) → HandlerCtl fd c → wanted c ≡ some m → OneDirection m
  unfolding with_mode
  wanted-OneDirection fd c m (inl del) e = ground (arith, del, e)
  wanted-OneDirection fd c m (inr (mode, inl r, change)) e = inr (ground (arith, r, change, e))
  wanted-OneDirection fd c m (inr (mode, inr r, change)) e = inl (ground (arith, r, change, e))

  ctl-Kept :
      (fd : ℤ) (c : Ctl)
      → HandlerCtl fd c
      → Reporting
      → (w : k.World) → Kept w (k.epoll_ctl epfd c fd w).1
  ctl-Kept fd c is rp w one o m e = elim (same_or_other o fd) [
    | inr ne ↦ OneDirection-Admits w _ o m (rp.ctl_admits c fd w o ne) one e
    | inl same ↦
        let here : interest (k.epoll_ctl epfd c fd w).1 epfd fd ≡ some m = rw same at e in
        elim (sign-cases (k.epoll_ctl epfd c fd w).0) [
          | inl (n, done) ↦
              wanted-OneDirection fd c m is (sym (es.ctl_done epfd c fd w n done) ∙ here)
          | inr (x, refused) ↦ one fd m (sym (es.ctl_refused epfd c fd w x refused) ∙ here)
        ]
  ]

  module _ (rp : Reporting) where
    -- What the handlers call on any socket keeps the list so.
    pub Calls-Kept : (fd : ℤ) → Calls k Kept (λ w one. one) (λ u v w a b one. b (a one)) epfd fd
    Calls-Kept fd = record {
      recv = λ n w. Admits-Kept w _ (rp.recv_admits fd n w);
      send = λ bs w. Admits-Kept w _ (rp.send_admits fd bs w);
      close = λ w. Admits-Kept w _ (rp.close_admits fd w);
      time = λ w. Admits-Kept w _ (rp.time_admits w);
      ctl = λ c is w. ctl-Kept fd c is rp w;
    }

    pub wait-Kept : (n : ℤ) (w : k.World) → Kept w (k.epoll_wait epfd n w).1
    wait-Kept n w = Admits-Kept w _ (rp.wait_admits n w)

    reported-OneWay :
        (asked : Option Mask) (ev : Event)
        → ReportedBy asked ev.events
        → ((m : Mask) → asked ≡ some m → OneDirection m)
        → OneWay ev
    reported-OneWay none ev r one = absurd r
    reported-OneWay (some m) ev (handled, r, w) one = (
      handled,
      elim (one m refl) [
        | inl no_read ↦ elim r [ inl n ↦ inl n | inr y ↦ absurd cc ]
        | inr no_write ↦ elim w [ inl n ↦ inr n | inr y ↦ absurd cc ]
      ],
    )

    All-reported-OneWay :
        (v : k.World) (evs : List Event)
        → All (λ ev. ReportedBy (interest v epfd ev.fd) ev.events) evs
        → AllOneDirection v
        → All OneWay evs
    All-reported-OneWay v [] rs one = tt
    All-reported-OneWay v (ev ∷ evs) (r, rs) one =
        (reported-OneWay (interest v epfd ev.fd) ev r (one ev.fd), All-reported-OneWay v evs rs one)

    -- The events of a wait on such a list show one direction each.
    pub wait-OneWay :
        (n : ℤ) (w : k.World) (evs : List Event)
        → (k.epoll_wait epfd n w).0 ≡ some evs
        → AllOneDirection w
        → All OneWay evs
    wait-OneWay n w evs e one =
        All-reported-OneWay (k.epoll_wait epfd n w).1 evs (rp.reported n w evs e)
          (wait-Kept n w one)
