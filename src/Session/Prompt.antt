-- ===== src/Session/Prompt.antt =====
-- The handlers of TaskThread.cpp and Test.cpp on a connection that is up: none of them fails.
use epoll_threads.Base.{
  ℕ, ◌+◌, ◌<◌, ◌≤◌, ◌≡◌, refl, false, List, ◌∷◌, some, inl, inr, ℤ, pos, is_neg, length,
  length-append, length-take, take, ap, ◌∙◌, arith,
}
use epoll_threads.Kernel.{Kernel, Ctl}
use epoll_threads.Proc.{Proc, LogCall, min_bufsz, my_debug, recv_data, recv_data_from}
use epoll_threads.Text.{c_string, filled}
use epoll_threads.Socket.{sendn}
use epoll_threads.Socket.Laws.{Stream, Patience, CleanEnd}
use epoll_threads.Socket.Recv.{recvn_lem}
use epoll_threads.Socket.Send.{sendn_lem}
use epoll_threads.Socket.Prompt.{Prompt, recvn-takes, sendn-all}
use epoll_threads.Epoll.{
  i_epoll_read, i_epoll_write, i_epoll_edge_triggered, with_mode, change_mask,
}
use epoll_threads.Epoll.Laws.{EpollSet}
use epoll_threads.Task.{greeting, i_read, i_write}
use epoll_threads.Task.Reply.{length-greeting}
use epoll_threads.Task.Switch.{logged, Switched, switch}
use epoll_threads.Client.{client_greeting, client_read, client_write}
use epoll_threads.Client.Talk.{Nap, length-client_greeting}

-- `epoll_ctl` does not fail.
abbrev pub CtlWorks : Kernel → Type 0
CtlWorks k =
    (epfd : ℤ) (c : Ctl) (fd : ℤ) (w : k.World) → is_neg (k.epoll_ctl epfd c fd w).0 ≡ false

module _ (k : Kernel) (st : Stream k) (es : EpollSet k) (pt : Patience k) (clean : CleanEnd k)
    (pr : Prompt k st) (cw : CtlWorks k) (fuel : ℕ) (epfd fd : ℤ) where
  open st use {incoming, outgoing}
  open pt use {signals}

  -- The socket waits in `mode`.
  abbrev pub Waits : ℕ → k.World → Type 0
  Waits mode w = es.interest w epfd fd ≡ some (with_mode change_mask mode i_epoll_edge_triggered)

  Switched-Waits :
      (mode : ℕ) (before : List LogCall) (q : Proc k.World)
      → Switched k st es epfd fd mode before q
      → Waits mode q.world
  Switched-Waits mode before q (inl (now, log)) = now
  Switched-Waits mode before q (inr ((w, neg), log)) = absurd (cc (neg, cw epfd _ fd w))

  -- Where bytes have come, `iRead` takes some and waits for room to write.
  pub i_read-prompt :
      (p : Proc k.World)
      → min_bufsz + signals p.world < fuel
      → 0 < length (incoming p.world fd)
      → (q : Proc k.World) × (i_read k fuel epfd fd p ≡ some (pos 0, q))
        × Waits i_epoll_write q.world
  unfolding i_read
  i_read-prompt p enough some_in =
      let (out, s, run, most, split, quiet) =
        recvn_lem k st fd pt clean fuel min_bufsz p (omega arith) enough in
      let taken =
        recvn-takes k st pr fd fuel min_bufsz p (pos (length out)) out s (omega arith) (omega arith)
          some_in run in
      let line = logged my_debug (recv_data (pos (length out)) (c_string (filled min_bufsz out))) in
      let (r, q, run', sw, a, o, i) =
        switch k st es epfd fd i_epoll_write (line ∷ s.log) (record s { log = line ∷ s.log })
          refl in
      (q, ground (arith, run, run', taken), Switched-Waits i_epoll_write (line ∷ s.log) q sw)

  sendn-whole :
      (msg : List ℕ) (p : Proc k.World)
      → length msg ≤ min_bufsz
      → min_bufsz + signals p.world < fuel
      → (q : Proc k.World) × (sendn k fuel fd msg (length msg) p ≡ some (pos (length msg), q))
        × (length (outgoing q.world fd) ≡ length (outgoing p.world fd) + length msg)
  sendn-whole msg p small enough =
      let (r, q, run, s, quiet) =
        sendn_lem k st pt fd (length msg) fuel msg p (omega arith) (omega arith) (omega arith) in
      let up = sendn-all k st pr fd fuel (length msg) msg p r q (omega arith) (omega arith) run in
      elim s [
        | inl (all, o) ↦ (
          q,
          rw (← all) run,
          ap length o
              ∙ length-append {0} (outgoing p.world fd) (take (length msg) msg)
              ∙ ap (λ n. length (outgoing p.world fd) + n)
                  (length-take (length msg) msg (omega arith)),
        )
        | inr (e, _) ↦ absurd (ground (arith, e, up))
      ]

  -- `iWrite` sends its whole reply and waits for the next request.
  pub i_write-prompt :
      (p : Proc k.World)
      → min_bufsz + signals p.world < fuel
      → (q : Proc k.World) × (i_write k fuel epfd fd p ≡ some (pos 0, q))
        × Waits i_epoll_read q.world
        × (length (outgoing p.world fd) < length (outgoing q.world fd))
  unfolding i_write
  i_write-prompt p enough =
      let p' : Proc k.World = record p { world = (k.gettimeofday_usec p.world).1 } in
      let usec = (k.gettimeofday_usec p.world).0 in
      let (low, high) = length-greeting fd usec in
      let (s, run, grown) =
        sendn-whole (greeting fd usec) p' (omega arith) (omega (arith, pt.time_le p.world)) in
      let (r, q, run', sw, a, o, i) = switch k st es epfd fd i_epoll_read s.log s refl in
      (
        q,
        ground (arith, run, run', low),
        Switched-Waits i_epoll_read s.log q sw,
        omega (arith, ap length (o fd), grown, low, ap length (st.time_outgoing fd p.world)),
      )

  -- Where bytes have come, the client's `iRead` takes some and waits for room to write.
  pub client_read-prompt :
      (p : Proc k.World)
      → min_bufsz + signals p.world < fuel
      → 0 < length (incoming p.world fd)
      → (q : Proc k.World) × (client_read k fuel epfd fd p ≡ some (pos 0, q))
        × Waits i_epoll_write q.world
  unfolding client_read
  client_read-prompt p enough some_in =
      let (out, s, run, most, split, quiet) =
        recvn_lem k st fd pt clean fuel min_bufsz p (omega arith) enough in
      let taken =
        recvn-takes k st pr fd fuel min_bufsz p (pos (length out)) out s (omega arith) (omega arith)
          some_in run in
      let line =
        logged my_debug (recv_data_from (pos (length out)) (c_string (filled min_bufsz out)) fd) in
      let (r, q, run', sw, a, o, i) =
        switch k st es epfd fd i_epoll_write (line ∷ s.log) (record s { log = line ∷ s.log })
          refl in
      (q, ground (arith, run, run', taken), Switched-Waits i_epoll_write (line ∷ s.log) q sw)

  -- The client's `iWrite` sends its whole request and waits for the reply.
  pub client_write-prompt :
      (nap : Nap k st pt) (p : Proc k.World)
      → min_bufsz + signals p.world < fuel
      → (q : Proc k.World) × (client_write k fuel epfd fd p ≡ some (pos 0, q))
        × Waits i_epoll_read q.world
        × (length (outgoing p.world fd) < length (outgoing q.world fd))
  unfolding client_write
  client_write-prompt nap p enough =
      let usec = (k.gettimeofday_usec p.world).0 in
      let w1 = (k.gettimeofday_usec p.world).1 in
      let p' : Proc k.World = record p { world = (k.sleep_ms 1000 w1).1 } in
      let (low, high) = length-client_greeting fd usec in
      let (s, run, grown) =
        sendn-whole (client_greeting fd usec) p' (omega arith)
          (omega (arith, pt.time_le p.world, nap.sleep_le 1000 w1)) in
      let (r, q, run', sw, a, o, i) = switch k st es epfd fd i_epoll_read s.log s refl in
      (
        q,
        ground (arith, run, run', low),
        Switched-Waits i_epoll_read s.log q sw,
        omega (
          arith,
          ap length (o fd),
          grown,
          low,
          ap length (st.time_outgoing fd p.world),
          ap length (nap.sleep_outgoing 1000 fd w1),
        ),
      )
