-- ===== src/Client/Leave.antt =====
-- Test::iError and iClose (Test.cpp), and the events that lead to them.
use epoll_threads.Base.{
  ℕ, ◌≡◌, refl, ap, ◌∙◌, true, false, ◌∷◌, some, ◌⊎◌, inl, inr, ℤ, pos, minus_one, arith,
}
use epoll_threads.Kernel.{Kernel, Event, ctl_del}
use epoll_threads.Proc.{Proc, my_debug, my_warning, event_err, server_closed, epoll_del_err}
use epoll_threads.Epoll.{handle_event}
use epoll_threads.Epoll.Laws.{EpollSet}
use epoll_threads.Epoll.Modes.{i_epoll_del_lem}
use epoll_threads.Epoll.Dispatch.{hung_up, handle_event-hung_up}
use epoll_threads.Task.Switch.{logged}
use epoll_threads.Client.{client_error, client_close, client_handlers}

module _ (k : Kernel) (es : EpollSet k) (fuel : ℕ) (epfd sockfd : ℤ) where
  -- The log of the client's `iClose`: the server's end, and a failed removal.
  abbrev pub LeaveLog : Proc k.World → Proc k.World → Type 0
  LeaveLog p q =
      (q.log ≡ logged my_debug server_closed ∷ p.log)
      ⊎ ((e : ℕ) × (q.log
            ≡ logged my_warning (epoll_del_err e sockfd) ∷ (logged my_debug server_closed ∷ p.log)))

  client_close_lem :
      (p : Proc k.World)
      → (q : Proc k.World) × (client_close k fuel epfd sockfd p ≡ some (pos 0, q))
        × (q.world ≡ (k.close sockfd (k.epoll_ctl epfd ctl_del sockfd p.world).1).1)
        × (q.active ≡ p.active)
        × LeaveLog p q
  unfolding client_close
  client_close_lem p =
      let p' : Proc k.World = record p { log = logged my_debug server_closed ∷ p.log } in
      let (r, s, run, d) = i_epoll_del_lem k es epfd sockfd p' in
      (
        record s { world = (k.close sockfd s.world).1 },
        ground (arith, run),
        ap (λ w. (k.close sockfd w).1) d.world,
        d.active,
        elim d.outcome [ inl (_, _, l) ↦ inl l | inr (_, _, l) ↦ inr (k.errno s.world, l) ],
      )

-- An event with a hang-up or error bit, and no input or room for output, makes the client log the
-- error, take its socket out of the interest list and close it, also if the removal failed; -1 is
-- left in `nRet`.
pub client_hang_up_closes :
    (k : Kernel) (es : EpollSet k) (fuel : ℕ) (epfd : ℤ) (ev : Event) (r : ℤ) (p : Proc k.World)
    → ev.events.readable ≡ false
    → ev.events.writable ≡ false
    → hung_up ev.events ≡ true
    → let p' : Proc k.World = record p {
      log = logged my_warning (event_err (k.errno p.world) ev.fd) ∷ p.log;
    } in
      (q : Proc k.World) × (handle_event k (client_handlers k fuel epfd) ev r p
        ≡ some (minus_one, q))
      × (q.world ≡ (k.close ev.fd (k.epoll_ctl epfd ctl_del ev.fd p.world).1).1)
      × (q.active ≡ p.active)
      × LeaveLog k es fuel epfd ev.fd p' q
unfolding client_error
client_hang_up_closes k es fuel epfd ev r p x y z =
    let p' : Proc k.World = record p {
      log = logged my_warning (event_err (k.errno p.world) ev.fd) ∷ p.log;
    } in
    let (q, run, w, a, l) = client_close_lem k es fuel epfd ev.fd p' in
    (
      q,
      handle_event-hung_up k (client_handlers k fuel epfd) ev r minus_one p p' x y z refl refl
          ∙ ground (arith, run),
      w,
      a,
      l,
    )
