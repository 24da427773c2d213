-- ===== src/Task/Batch.antt =====
-- The events of one `epoll_wait`, as the workers handle them (iEpoll::i_epoll_wait of iEpoll.cpp over
-- TaskThread.cpp).
use epoll_threads.Base.{
  ℕ, ◌+◌, ◌^◌, ◌≤◌, ◌<◌, ◌≡◌, ◌≢◌, refl, ap, ◌∙◌, Bool, suc, true, false, List, [], ◌∷◌, some, ℤ,
  pos, negsuc, ◌+ℤ◌, pos_part, neg_part, length, All, int_laws, arith, if◌then◌else◌,
}
use epoll_threads.Kernel.{Kernel, Event}
use epoll_threads.Proc.{Proc, min_bufsz}
use epoll_threads.Socket.Laws.{Stream, Steady, Patience, CleanEnd}
use epoll_threads.Epoll.{handle_events}
use epoll_threads.Epoll.Laws.{EpollSet}
use epoll_threads.Task.{task_handlers}
use epoll_threads.Task.Conversation.{TwoWays, OneWay, Turn, goes_on, ends}
use epoll_threads.Task.Turns.{handle_event-Turn}
use epoll_threads.Task.Frame.{Calls, handle_event-Keeps, handle_events-Keeps}

-- What a client has sent and will send, and what it has been sent.
abbrev pub streams : (k : Kernel) → Stream k → k.World → ℤ → List ℕ × List ℕ
streams k st w fd = (st.incoming w fd, st.outgoing w fd)

-- A call on one socket leaves the streams of the others alone.
pub record Separate (k : Kernel) (st : Stream k) : Type 0 where
  pub recv_other :
      (fd o : ℤ) (n : ℕ) (w : k.World)
      → o ≢ fd
      → streams k st (k.recv fd n w).1 o ≡ streams k st w o
  pub send_other :
      (fd o : ℤ) (bs : List ℕ) (w : k.World)
      → o ≢ fd
      → streams k st (k.send fd bs w).1 o ≡ streams k st w o
  pub close_other :
      (fd o : ℤ) (w : k.World) → o ≢ fd → streams k st (k.close fd w).1 o ≡ streams k st w o

module _ (k : Kernel) (st : Stream k) (es : EpollSet k) (epfd : ℤ) where
  -- A turn for each event, in their order; the number is that of the conversations that end.
  pub data Served : List Event → ℕ → Proc k.World → Proc k.World → Type 0 where
    all_served : {p : Proc k.World} → Served [] 0 p p
    served :
        {ev : Event} {evs : List Event} {b : Bool} {n : ℕ} {p q r : Proc k.World}
        → Turn k st es epfd ev.fd p b q
        → Served evs n q r
        → Served (ev ∷ evs) ((if b then 1 else 0) + n) p r

  -- The socket of none of the events.
  abbrev pub Idle : List Event → ℤ → Type 0
  Idle evs o = All (λ ev. o ≢ ev.fd) evs

  -- The range of the atomic operations, with room for `n` steps down.
  abbrev pub Room : ℕ → ℤ → Type 0
  Room n c = (pos_part c < 2 ^ 23) × (neg_part c + n < 2 ^ 23)

  step_down : (c : ℤ) (n : ℕ) → Room (suc n) c → Room n (c +ℤ negsuc 0)
  unfolding ◌+ℤ◌
  step_down c n (up, down) = (ground arith, ground arith)

  Turn-active :
      (fd : ℤ) (p q : Proc k.World) (b : Bool) (n : ℕ)
      → Turn k st es epfd fd p b q
      → Room (suc n) p.active
      → Room n q.active × (p.active ≡ q.active +ℤ pos (if b then 1 else 0))
  Turn-active fd p q false n (goes_on x a) (up, down) = (
    (omega (arith, ap pos_part a), omega (arith, ap neg_part a)),
    omega (int_laws, ap pos_part a, ap neg_part a),
  )
  Turn-active fd p q true n (ends w x y a) (up, down) =
      let less : q.active ≡ p.active +ℤ negsuc 0 =
        a ∙ k.counters.dec_lem p.active (up, omega arith) in
      (
        rw less (step_down p.active n (up, down)),
        omega (int_laws, ap pos_part less, ap neg_part less),
      )

  -- The counter has fallen by the number of the conversations that ended.
  Served-active :
      {evs : List Event} {n : ℕ} {p q : Proc k.World}
      → Served evs n p q
      → Room (length evs) p.active
      → p.active ≡ q.active +ℤ pos n
  Served-active all_served room = omega int_laws
  Served-active (served {ev = ev} {evs = evs} {b = b} {p = p} {q = q} turn turns) room =
      let (room', fell) = Turn-active ev.fd p q b (length evs) turn room in
      let fell' = Served-active turns room' in
      omega (int_laws, ap pos_part fell, ap neg_part fell, ap pos_part fell', ap neg_part fell')

  -- The calls of the handlers raise no steady measure.
  pub falls :
      (f : k.World → ℕ)
      → Steady k f
      → (fd : ℤ) → Calls k (λ v w. f w ≤ f v) (λ w. omega arith) (λ u v w a b. omega arith) epfd fd
  falls f s fd = record {
    recv = s.recv_le fd;
    send = s.send_le fd;
    close = s.close_le fd;
    time = s.time_le;
    ctl = λ c h. s.ctl_le epfd c fd;
  }

  module _ (tw : TwoWays k st) (pt : Patience k) (clean : CleanEnd k) (fuel : ℕ) where
    open pt use {signals}

    -- With fuel for a full buffer and the interruptions to come, the events of a batch are handled
    -- one after the other, each as a turn of the conversation on its socket.
    pub handle_events-turns :
        (evs : List Event) (ret : ℤ) (p : Proc k.World)
        → All OneWay evs
        → min_bufsz + signals p.world < fuel
        → (r : ℤ) × (n : ℕ) × (q : Proc k.World) × (handle_events k
              (task_handlers k fuel epfd)
              evs
              ret
              p
            ≡ some (r, q))
          × Served evs n p q
    unfolding handle_events
    handle_events-turns [] ret p ways enough = (ret, 0, p, refl, all_served)
    handle_events-turns (ev ∷ evs) ret p (way, ways) enough =
        let (r, b, q, run, turn) =
          handle_event-Turn k st es epfd tw pt clean fuel ev ret p way enough in
        let less : signals q.world ≤ signals p.world =
          handle_event-Keeps k (λ v w. signals w ≤ signals v) (λ w. omega arith)
            (λ u v w a b. omega arith) fuel epfd ev ret (falls signals pt.steady ev.fd) p r q run in
        let (r', n, q', run', turns) = handle_events-turns evs r q ways (omega arith) in
        (r', (if b then 1 else 0) + n, q', ground (arith, run, run'), served turn turns)

    module _ (sep : Separate k st) where
      apart :
          (ev : Event) (o : ℤ)
          → o ≢ ev.fd
          → Calls k
              (λ v w. streams k st w o ≡ streams k st v o)
              (λ w. refl)
              (λ u v w a b. b ∙ a)
              epfd
              ev.fd
      apart ev o ne = record {
        recv = λ n w. sep.recv_other ev.fd o n w ne;
        send = λ bs w. sep.send_other ev.fd o bs w ne;
        close = λ w. sep.close_other ev.fd o w ne;
        time = λ w. rw (tw.time_incoming o w, st.time_outgoing o w);
        ctl = λ c h w. rw (st.ctl_incoming epfd c ev.fd o w, st.ctl_outgoing epfd c ev.fd o w);
      }

      All-apart :
          (evs : List Event) (o : ℤ)
          → Idle evs o
          → All
              (λ ev.
                Calls k
                  (λ v w. streams k st w o ≡ streams k st v o)
                  (λ w. refl)
                  (λ u v w a b. b ∙ a)
                  epfd
                  ev.fd)
              evs
      All-apart [] o idle = tt
      All-apart (ev ∷ evs) o (ne, idle) = (apart ev o ne, All-apart evs o idle)

      -- Where no EINTR of an earlier call stands in `errno` when `recv` returns 0, and `myepollLog`
      -- returns, as it does at the verbosity `debug`: for events that each have a bit that the loop
      -- tests and not both that of input and that of output, with fuel for a full buffer and the
      -- interruptions to come, and a counter that stays in the range of the atomic operations if
      -- each event lowers it: the events of a batch are handled one after the other, each as a turn
      -- of the conversation on its socket; the counter falls by exactly the number of conversations
      -- that end, and no other socket's streams are touched.
      pub handle_events-Served :
          (evs : List Event) (ret : ℤ) (p : Proc k.World)
          → All OneWay evs
          → min_bufsz + signals p.world < fuel
          → Room (length evs) p.active
          → (r : ℤ) × (n : ℕ) × (q : Proc k.World) × (handle_events k
                (task_handlers k fuel epfd)
                evs
                ret
                p
              ≡ some (r, q))
            × Served evs n p q
            × (p.active ≡ q.active +ℤ pos n)
            × ((o : ℤ) → Idle evs o → streams k st q.world o ≡ streams k st p.world o)
      handle_events-Served evs ret p ways enough room =
          let (r, n, q, run, turns) = handle_events-turns evs ret p ways enough in
          (
            r,
            n,
            q,
            run,
            turns,
            Served-active turns room,
            λ o idle.
                handle_events-Keeps k (λ v w. streams k st w o ≡ streams k st v o) (λ w. refl)
                  (λ u v w a b. b ∙ a) fuel epfd evs ret (All-apart evs o idle) p r q run,
          )
