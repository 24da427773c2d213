-- ===== src/Task/Life.antt =====
-- TaskThread::Run (TaskThread.cpp, iEpoll.cpp) from its start to its end: the conversations of a
-- worker's whole life.
use epoll_threads.Base.{
  ℕ, zero, suc, ◌+◌, ◌<◌, ◌≤◌, ◌≡◌, refl, true, false, List, [], ◌∷◌, some, inl, inr, All, ℤ, pos,
  minus_one, Bool-cases, Option-cases, arith,
}
use epoll_threads.Kernel.{Kernel, Event}
use epoll_threads.Proc.{Proc, min_bufsz}
use epoll_threads.Socket.Laws.{Stream, Patience, CleanEnd}
use epoll_threads.Epoll.{ready, wait_loop, i_epoll_wait}
use epoll_threads.Epoll.Laws.{EpollSet}
use epoll_threads.Epoll.Halts.{Shutdown}
use epoll_threads.Task.{task_handlers, run}
use epoll_threads.Task.Conversation.{TwoWays, OneWay}
use epoll_threads.Task.Batch.{Served, falls, handle_events-turns}
use epoll_threads.Task.Frame.{handle_events-Keeps}
use epoll_threads.Task.Interest.{Reporting, AllOneDirection, Calls-Kept, wait-Kept, wait-OneWay}

module _ (k : Kernel) (st : Stream k) (es : EpollSet k) (epfd maxevents : ℤ) where
  abbrev waited : Proc k.World → Proc k.World
  waited p = record p { world = (k.epoll_wait epfd maxevents p.world).1 }

  -- The flag is tested, the events of a wait are served, each as a turn on its socket, and so on until
  -- the flag is up; the number is that of the conversations that end. A wait that fails has no events.
  pub data Conversations : ℕ → Proc k.World → Proc k.World → Type 0 where
    flag_up : {p : Proc k.World} → k.shutdown p.world ≡ true → Conversations 0 p p
    batch :
        {evs : List Event} {n m : ℕ} {p q r : Proc k.World}
        → k.shutdown p.world ≡ false
        → ready (k.epoll_wait epfd maxevents p.world).0 ≡ evs
        → All OneWay evs
        → Served k st es epfd evs n (record p { world = (k.epoll_wait epfd maxevents p.world).1 }) q
        → Conversations m q r
        → Conversations (n + m) p r

  module _ (tw : TwoWays k st) (pt : Patience k) (clean : CleanEnd k) (sd : Shutdown k)
      (rp : Reporting k es epfd) (fuel : ℕ) where
    open pt use {signals}
    open sd use {rounds}

    All-falls : {P : ℤ → Type 0} (evs : List Event) → ((fd : ℤ) → P fd) → All (λ ev. P ev.fd) evs
    All-falls [] h = tt
    All-falls (ev ∷ evs) h = (h ev.fd, All-falls evs h)

    ready-OneWay :
        (w : k.World)
        → AllOneDirection k es epfd w
        → All OneWay (ready (k.epoll_wait epfd maxevents w).0)
    ready-OneWay w one = elim (Option-cases (k.epoll_wait epfd maxevents w).0) [
      | inl e ↦ rw e tt
      | inr (evs, e) ↦ rw e (wait-OneWay k es epfd rp maxevents w evs e one)
    ]

    wait_loop-Conversations :
        (n : ℕ) (ret : ℤ) (p : Proc k.World)
        → min_bufsz + signals p.world < fuel
        → rounds p.world < n
        → AllOneDirection k es epfd p.world
        → (m : ℕ) × (q : Proc k.World) × (wait_loop k
              (task_handlers k fuel epfd)
              n
              epfd
              maxevents
              ret
              p
            ≡ some (pos 0, q))
          × Conversations m p q
          × AllOneDirection k es epfd q.world
    unfolding wait_loop
    wait_loop-Conversations zero ret p enough left one = absurd (omega arith)
    wait_loop-Conversations (suc n) ret p enough left one = elim (Bool-cases (k.shutdown p.world)) [
      | inl up ↦ (0, p, ground (arith, up), flag_up up, one)
      | inr down ↦
          let evs = ready (k.epoll_wait epfd maxevents p.world).0 in
          let ways = ready-OneWay p.world one in
          let s = waited p in
          let less = pt.wait_le epfd maxevents p.world in
          let (r, b, q, ran, turns) =
            handle_events-turns k st es epfd tw pt clean fuel evs ret s ways
              (omega (arith, less)) in
          let fewer =
            handle_events-Keeps k (λ v w. signals w ≤ signals v) (λ w. omega arith)
              (λ u v w a b. omega arith) fuel epfd evs ret
              (All-falls evs (falls k st es epfd signals pt.steady)) s r q ran in
          let sooner =
            handle_events-Keeps k (λ v w. rounds w ≤ rounds v) (λ w. omega arith)
              (λ u v w a b. omega arith) fuel epfd evs ret
              (All-falls evs (falls k st es epfd rounds sd.steady)) s r q ran in
          let one' : AllOneDirection k es epfd q.world =
            handle_events-Keeps k (λ v w. AllOneDirection k es epfd v → AllOneDirection k es epfd w)
              (λ w o. o) (λ u v w a b o. b (a o)) fuel epfd evs ret
              (All-falls evs (Calls-Kept k es epfd rp)) s r q ran
              (wait-Kept k es epfd rp maxevents p.world one) in
          let (m, q', ran', rest, one'') =
            wait_loop-Conversations n r q (omega (arith, less, fewer))
              (omega (arith, sooner, sd.wait_lt epfd maxevents p.world down)) one' in
          (b + m, q', ground (arith, down, ran, ran'), batch down refl ways turns rest, one'')
    ]

    -- Where no EINTR of an earlier call stands in `errno` when `recv` returns 0, and `myepollLog`
    -- returns, as it does at the verbosity `debug`: with an interest list in which no entry asks
    -- for both directions, as it is when a worker starts, events that each report something of what
    -- the entry of their socket asks for, fuel for a full buffer and the interruptions to come, and
    -- more rounds than calls of `epoll_wait` before the flag is seen: `Run` returns 0, and its life
    -- has been one batch after the other until the flag was up, each event of them a turn of the
    -- conversation on its socket; at its end, too, no entry asks for both directions.
    pub run-Conversations :
        (n : ℕ) (p : Proc k.World)
        → min_bufsz + signals p.world < fuel
        → rounds p.world < n
        → AllOneDirection k es epfd p.world
        → (m : ℕ) × (q : Proc k.World) × (run k fuel epfd n maxevents p ≡ some (pos 0, q))
          × Conversations m p q
          × AllOneDirection k es epfd q.world
    unfolding run i_epoll_wait
    run-Conversations n p enough left one = wait_loop-Conversations n minus_one p enough left one
