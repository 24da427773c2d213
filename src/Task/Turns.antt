-- ===== src/Task/Turns.antt =====
-- The body of the loop of iEpoll::i_epoll_wait (iEpoll.cpp) over the handlers of TaskThread.cpp: an
-- event, a turn of the conversation.
use epoll_threads.Base.{
  ℕ, ◌+◌, ◌<◌, ◌≡◌, refl, sym, ap, ◌∙◌, Bool, true, false, [], ◌∷◌, some, ◌⊎◌, inl, inr, ℤ, pos,
  minus_one, is_neg, arith, Bool-cases, append-nil,
}
use epoll_threads.Kernel.{Kernel, Event}
use epoll_threads.Proc.{M, Proc, pure, ◌>>=◌, ◌>>◌, when, min_bufsz, my_warning, event_err}
use epoll_threads.Socket.Laws.{Stream, Patience, CleanEnd}
use epoll_threads.Epoll.{on_bit, handle_event}
use epoll_threads.Epoll.Laws.{EpollSet}
use epoll_threads.Epoll.Dispatch.{hung_up}
use epoll_threads.Task.{i_read, i_write, i_error, i_close, task_handlers}
use epoll_threads.Task.Switch.{logged}
use epoll_threads.Task.Request.{i_read_lem}
use epoll_threads.Task.Reply.{i_write_lem}
use epoll_threads.Task.Close.{i_close_lem}
use epoll_threads.Task.Frame.{i_read-Keeps, i_write-Keeps}
use epoll_threads.Task.Conversation.{
  TwoWays, OneWay, Exchange, request, reply, Part, Turn, goes_on, ends, Exchange-Part, Part-nothing,
}

module _ (k : Kernel) (st : Stream k) (es : EpollSet k) (epfd : ℤ) where
  open st use {incoming, outgoing}

  module _ (tw : TwoWays k st) (pt : Patience k) (clean : CleanEnd k) (fuel : ℕ) where
    open pt use {signals}

    -- A handler for one direction has served the socket, or has failed in a part of it.
    abbrev Serves : ℤ → Proc k.World → ℤ → Proc k.World → Type 0
    Serves fd p r q =
        (((r ≡ pos 0) × Exchange k st es epfd fd p q)
          ⊎ ((r ≡ minus_one) × Part k st es epfd fd p q.world))
        × (q.active ≡ p.active)

    i_read-Serves :
        (fd : ℤ) (p : Proc k.World)
        → min_bufsz + signals p.world < fuel
        → (r : ℤ) × (q : Proc k.World) × (i_read k fuel epfd fd p ≡ some (r, q)) × Serves fd p r q
    i_read-Serves fd p enough =
        let (r, q, run, reads, a) = i_read_lem k st pt clean es fuel epfd fd p enough in
        let same : outgoing q.world fd ≡ outgoing p.world fd =
          i_read-Keeps k (λ v w. outgoing w fd ≡ outgoing v fd) (λ w. refl) (λ u v w e f. f ∙ e)
            fuel epfd fd (tw.recv_outgoing fd) (λ c h. st.ctl_outgoing epfd c fd fd) p r q run in
        elim reads [
          | inl (z, (out, (low, high, i, s))) ↦
              (r, q, run, (inl (z, request out (low, high) i same s), a))
          | inr (z, i, _) ↦ (
            r,
            q,
            run,
            (
              inr (
                z,
                record {
                  bytes = [];
                  usec = 0;
                  sent = 0;
                  taken = sym i;
                  given = same ∙ sym (append-nil (outgoing p.world fd));
                  one_way = inl refl;
                },
              ),
              a,
            ),
          )
        ]

    i_write-Serves :
        (fd : ℤ) (p : Proc k.World)
        → min_bufsz + signals p.world < fuel
        → (r : ℤ) × (q : Proc k.World) × (i_write k fuel epfd fd p ≡ some (r, q)) × Serves fd p r q
    i_write-Serves fd p enough =
        let (r, q, run, replies, a) = i_write_lem k st pt es fuel epfd fd p (omega arith) in
        let same : incoming q.world fd ≡ incoming p.world fd =
          i_write-Keeps k (λ v w. incoming w fd ≡ incoming v fd) (λ w. refl) (λ u v w e f. f ∙ e)
            fuel epfd fd (tw.send_incoming fd) (tw.time_incoming fd)
            (λ c h. st.ctl_incoming epfd c fd fd) p r q run in
        elim replies [
          | inl (z, o, s) ↦ (r, q, run, (inl (z, reply _ o same s), a))
          | inr (z, _, (m, lt, o)) ↦ (
            r,
            q,
            run,
            (
              inr (
                z,
                record {
                  bytes = [];
                  usec = (k.gettimeofday_usec p.world).0;
                  sent = m;
                  taken = sym same;
                  given = o;
                  one_way = inl refl;
                },
              ),
              a,
            ),
          )
        ]

    -- The end of the loop's body, from the `nRet` that reading and writing left.
    abbrev finish : Event → ℤ → M k.World ℤ
    finish ev r = do
      r3 ← on_bit (hung_up ev.events) (i_error k fuel epfd ev.fd) r
      when (is_neg r3) (i_close k fuel epfd ev.fd >> pure tt)
      pure r3

    finish-closes :
        (ev : Event) (p s : Proc k.World) (r : ℤ)
        → Part k st es epfd ev.fd p s.world
        → s.active ≡ p.active
        → (hung_up ev.events ≡ true) ⊎ (r ≡ minus_one)
        → (r' : ℤ) × (q : Proc k.World) × (finish ev r s ≡ some (r', q))
          × Turn k st es epfd ev.fd p true q
    unfolding i_error
    finish-closes ev p s r part a why = elim (Bool-cases (hung_up ev.events)) [
      | inl up ↦
          let s' : Proc k.World = record s {
            log = logged my_warning (event_err (k.errno s.world) ev.fd) ∷ s.log;
          } in
          let (q, run, w, a', _) = i_close_lem k es fuel epfd ev.fd s' in
          (minus_one, q, ground (arith, up, run), ends s.world part w (a' ∙ ap k.counters.dec a))
      | inr quiet ↦ elim why [
        | inl up ↦ absurd (cc)
        | inr e ↦
            let (q, run, w, a', _) = i_close_lem k es fuel epfd ev.fd s in
            (
              minus_one,
              q,
              ground (arith, quiet, run, e),
              ends s.world part w (a' ∙ ap k.counters.dec a),
            )
      ]
    ]

    finish-Turn :
        (ev : Event) (p s : Proc k.World) (r : ℤ)
        → Serves ev.fd p r s
        → (r' : ℤ) × (b : Bool) × (q : Proc k.World) × (finish ev r s ≡ some (r', q))
          × Turn k st es epfd ev.fd p b q
    finish-Turn ev p s r (inl (z, x), a) = elim (Bool-cases (hung_up ev.events)) [
      | inl up ↦
          let (r', q, run, t) =
            finish-closes ev p s r (Exchange-Part k st es epfd ev.fd p s x) a (inl up) in
          (r', true, q, run, t)
      | inr quiet ↦ (r, false, s, ground (arith, quiet, z), goes_on x a)
    ]
    finish-Turn ev p s r (inr (z, part), a) =
        let (r', q, run, t) = finish-closes ev p s r part a (inr z) in (r', true, q, run, t)

    -- The handling of an event of a socket in read or write mode is a turn of its conversation,
    -- whatever `nRet` the events before it left: with fuel for a full buffer and the interruptions to
    -- come, it returns, and either a request is taken or a reply sent whole, with the counter as it
    -- was, or the socket is closed and one `atomic_dec` of the counter is made.
    pub handle_event-Turn :
        (ev : Event) (ret : ℤ) (p : Proc k.World)
        → OneWay ev
        → min_bufsz + signals p.world < fuel
        → (r : ℤ) × (b : Bool) × (q : Proc k.World) × (handle_event k
              (task_handlers k fuel epfd)
              ev
              ret
              p
            ≡ some (r, q))
          × Turn k st es epfd ev.fd p b q
    unfolding handle_event
    handle_event-Turn ev ret p (handled, way) enough = elim (Bool-cases ev.events.readable) [
      | inl readable ↦
          let (r, s, run, served) = i_read-Serves ev.fd p enough in
          let (r', b, q, run', t) = finish-Turn ev p s r served in
          let no_write : ev.events.writable ≡ false = elim way [
            | inl no_read ↦ absurd cc
            | inr no_write ↦ no_write
          ] in
          (r', b, q, ground (arith, readable, no_write, run, run'), t)
      | inr no_read ↦ elim (Bool-cases ev.events.writable) [
        | inl writable ↦
            let (r, s, run, served) = i_write-Serves ev.fd p enough in
            let (r', b, q, run', t) = finish-Turn ev p s r served in
            (r', b, q, ground (arith, no_read, writable, run, run'), t)
        | inr no_write ↦
            let (r', q, run, t) =
              finish-closes ev p p ret (Part-nothing k st es epfd ev.fd p) refl
                (inl (ground (arith, handled, no_read, no_write))) in
            (r', true, q, ground (arith, no_read, no_write, run), t)
      ]
    ]
