-- ===== src/Task/Reply.antt =====
-- TaskThread::iWrite (TaskThread.cpp): what the client has been sent at its end.
use epoll_threads.Base.{
  ℕ, ◌+◌, ◌≤◌, ◌<◌, ◌≡◌, refl, ap, ◌∙◌, List, ◌∷◌, ◌++◌, some, ◌⊎◌, inl, inr, ℤ, pos, minus_one,
  length, take, length-append, take_all, arith,
}
use epoll_threads.Kernel.{Kernel}
use epoll_threads.Proc.{Proc, my_warning, send_err}
use epoll_threads.Text.{codes, decimal, length-decimal}
use epoll_threads.Socket.Laws.{Stream, Patience}
use epoll_threads.Socket.Send.{sendn_lem}
use epoll_threads.Epoll.{i_epoll_read}
use epoll_threads.Epoll.Laws.{EpollSet}
use epoll_threads.Task.Switch.{logged, Switched, switch}
use epoll_threads.Task.{greeting, i_write}

-- The reply is never empty, and with its NUL it fits `sBuf` with room to spare.
pub length-greeting :
    (sockfd : ℤ) (usec : ℕ)
    → (12 ≤ length (greeting sockfd usec)) × (length (greeting sockfd usec) ≤ 34)
unfolding greeting
length-greeting sockfd usec =
    let tail = length-append {0} (codes " welcome ") (decimal (pos usec)) in
    let all = length-append {0} (decimal sockfd) (codes " welcome " ++ decimal (pos usec)) in
    (
      omega (arith, tail, all),
      omega (arith, tail, all, length-decimal sockfd, length-decimal (pos usec)),
    )

module _ (k : Kernel) (st : Stream k) (pt : Patience k) (es : EpollSet k) (fuel : ℕ)
    (epfd sockfd : ℤ) where
  open st use {incoming, outgoing}
  open pt use {signals}

  abbrev pub reply_to : Proc k.World → List ℕ
  reply_to p = greeting sockfd (k.gettimeofday_usec p.world).0

  -- What `iWrite` has done when it returned `r`: the whole reply is sent and the socket waits for
  -- input, or -1 is returned, the failure is logged and only a proper prefix is sent.
  abbrev pub Replies : Proc k.World → ℤ → Proc k.World → Type 0
  Replies p r q =
      ((r ≡ pos 0)
        × (outgoing q.world sockfd ≡ outgoing p.world sockfd ++ reply_to p)
        × Switched k st es epfd sockfd i_epoll_read p.log q)
      ⊎ ((r ≡ minus_one)
          × (q.log ≡ logged my_warning (send_err minus_one sockfd) ∷ p.log)
          × ((m : ℕ) × (m < length (reply_to p))
              × (outgoing q.world sockfd ≡ outgoing p.world sockfd ++ take m (reply_to p))))

  -- With fuel for 34 bytes and the interruptions to come, `iWrite` returns: 0 with exactly the
  -- reply appended to what the client is sent and the socket in read mode (or the failed change of
  -- mode logged), or -1 with a proper prefix of the reply sent and the failure logged; the counter
  -- stays.
  pub i_write_lem :
      (p : Proc k.World)
      → 34 + signals p.world < fuel
      → (r : ℤ) × (q : Proc k.World) × (i_write k fuel epfd sockfd p ≡ some (r, q))
        × Replies p r q
        × (q.active ≡ p.active)
  unfolding i_write
  i_write_lem p enough =
      let p' : Proc k.World = record p { world = (k.gettimeofday_usec p.world).1 } in
      let msg = reply_to p in
      let (low, high) = length-greeting sockfd (k.gettimeofday_usec p.world).0 in
      let (r, q, run, s, quiet) =
        sendn_lem k st pt sockfd (length msg) fuel msg p' (omega arith) (omega arith)
          (omega (arith, pt.time_le p.world)) in
      elim s [
        | inl (all, o) ↦
            let (r', q', run', sw, a, out, _) =
              switch k st es epfd sockfd i_epoll_read p.log q quiet.log in
            (
              pos 0,
              q',
              ground (arith, run, all, run', low),
              inl (
                refl,
                out sockfd
                    ∙ o
                    ∙ ap (◌++◌ (outgoing p'.world sockfd)) (take_all (length msg) msg (omega arith))
                    ∙ ap (λ xs. xs ++ msg) (st.time_outgoing sockfd p.world),
                sw,
              ),
              a ∙ quiet.active,
            )
        | inr (e, (m, lt, o)) ↦ (
          minus_one,
          record q { log = logged my_warning (send_err minus_one sockfd) ∷ q.log },
          ground (arith, run, e),
          inr (
            refl,
            ap (◌∷◌ (logged my_warning (send_err minus_one sockfd))) quiet.log,
            (m, lt, o ∙ ap (λ xs. xs ++ take m msg) (st.time_outgoing sockfd p.world)),
          ),
          quiet.active,
        )
      ]
