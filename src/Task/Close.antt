-- ===== src/Task/Close.antt =====
-- TaskThread::iError and iClose (TaskThread.cpp), and the events that lead to them.
use epoll_threads.Base.{
  ℕ, ◌≡◌, refl, ap, ◌∙◌, true, false, ◌∷◌, some, ◌⊎◌, inl, inr, ℤ, pos, minus_one, arith,
}
use epoll_threads.Kernel.{Kernel, Event, ctl_del}
use epoll_threads.Proc.{
  Proc, my_debug, my_warning, event_err, client_closed, active_conns, epoll_del_err,
}
use epoll_threads.Epoll.{handle_event}
use epoll_threads.Epoll.Laws.{EpollSet}
use epoll_threads.Epoll.Modes.{i_epoll_del_lem}
use epoll_threads.Epoll.Dispatch.{hung_up, handle_event-hung_up}
use epoll_threads.Task.Switch.{logged}
use epoll_threads.Task.{i_error, i_close, task_handlers}

module _ (k : Kernel) (es : EpollSet k) (fuel : ℕ) (epfd sockfd : ℤ) where
  -- The log of `iClose`: the client, a failed removal from the interest list, the count that is left.
  abbrev pub CloseLog : Proc k.World → Proc k.World → Type 0
  CloseLog p q =
      (q.log
        ≡ logged my_debug (active_conns q.active)
          ∷ (logged my_debug (client_closed sockfd) ∷ p.log))
      ⊎ ((e : ℕ) × (q.log
            ≡ logged my_debug (active_conns q.active)
              ∷ (logged my_warning (epoll_del_err e sockfd)
                  ∷ (logged my_debug (client_closed sockfd) ∷ p.log))))

  -- `iClose` takes the socket out of the interest list, then closes it, then makes one `atomic_dec`
  -- of the counter, and returns 0. It closes the socket also if the removal failed.
  pub i_close_lem :
      (p : Proc k.World)
      → (q : Proc k.World) × (i_close k fuel epfd sockfd p ≡ some (pos 0, q))
        × (q.world ≡ (k.close sockfd (k.epoll_ctl epfd ctl_del sockfd p.world).1).1)
        × (q.active ≡ k.counters.dec p.active)
        × CloseLog p q
  unfolding i_close
  i_close_lem p =
      let p' : Proc k.World = record p { log = logged my_debug (client_closed sockfd) ∷ p.log } in
      let (r, s, run, d) = i_epoll_del_lem k es epfd sockfd p' in
      let n = k.counters.dec s.active in
      let q : Proc k.World = record {
        world = (k.close sockfd s.world).1;
        active = n;
        log = logged my_debug (active_conns n) ∷ s.log;
      } in
      (
        q,
        ground (arith, run),
        ap (λ w. (k.close sockfd w).1) d.world,
        ap k.counters.dec d.active,
        elim d.outcome [
          | inl (_, _, l) ↦ inl (ap (◌∷◌ (logged my_debug (active_conns n))) l)
          | inr (_, _, l) ↦ inr (k.errno s.world, ap (◌∷◌ (logged my_debug (active_conns n))) l)
        ],
      )

-- An event with a hang-up or error bit, and no input or room for output, closes its socket: the
-- error is logged, and `iClose` does what it does; -1 is left in `nRet`.
pub hang_up_closes :
    (k : Kernel) (es : EpollSet k) (fuel : ℕ) (epfd : ℤ) (ev : Event) (r : ℤ) (p : Proc k.World)
    → ev.events.readable ≡ false
    → ev.events.writable ≡ false
    → hung_up ev.events ≡ true
    → let p' : Proc k.World = record p {
      log = logged my_warning (event_err (k.errno p.world) ev.fd) ∷ p.log;
    } in
      (q : Proc k.World) × (handle_event k (task_handlers k fuel epfd) ev r p ≡ some (minus_one, q))
      × (q.world ≡ (k.close ev.fd (k.epoll_ctl epfd ctl_del ev.fd p.world).1).1)
      × (q.active ≡ k.counters.dec p.active)
      × CloseLog k es fuel epfd ev.fd p' q
unfolding i_error
hang_up_closes k es fuel epfd ev r p x y z =
    let p' : Proc k.World = record p {
      log = logged my_warning (event_err (k.errno p.world) ev.fd) ∷ p.log;
    } in
    let (q, run, w, a, l) = i_close_lem k es fuel epfd ev.fd p' in
    (
      q,
      handle_event-hung_up k (task_handlers k fuel epfd) ev r minus_one p p' x y z refl refl
          ∙ ground (arith, run),
      w,
      a,
      l,
    )
