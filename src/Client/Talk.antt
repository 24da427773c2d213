-- ===== src/Client/Talk.antt =====
-- Test::iWrite (Test.cpp): what the server has been sent when it returns.
use epoll_threads.Base.{
  ℕ, ◌+◌, ◌≤◌, ◌<◌, ◌≡◌, refl, ap, ◌∙◌, List, ◌∷◌, ◌++◌, some, ◌⊎◌, inl, inr, ℤ, pos, minus_one,
  length, take, length-append, take_all, arith,
}
use epoll_threads.Kernel.{Kernel}
use epoll_threads.Proc.{Proc, my_warning, send_err}
use epoll_threads.Text.{codes, decimal, length-decimal}
use epoll_threads.Socket.Laws.{Stream, Patience}
use epoll_threads.Socket.Send.{sendn_lem}
use epoll_threads.Epoll.{i_epoll_read}
use epoll_threads.Epoll.Laws.{EpollSet}
use epoll_threads.Task.Switch.{logged, Switched, switch}
use epoll_threads.Client.{client_greeting, client_write}

pub length-client_greeting :
    (sockfd : ℤ) (usec : ℕ)
    → (17 ≤ length (client_greeting sockfd usec)) × (length (client_greeting sockfd usec) ≤ 39)
unfolding client_greeting
length-client_greeting sockfd usec =
    let tail = length-append {0} (codes " ") (decimal (pos usec)) in
    let all = length-append {0} (decimal sockfd) (codes " " ++ decimal (pos usec)) in
    (
      omega (arith, tail, all),
      omega (arith, tail, all, length-decimal sockfd, length-decimal (pos usec)),
    )

-- The wait of a second moves no data and brings no interruption that was not to come.
pub record Nap (k : Kernel) (st : Stream k) (pt : Patience k) : Type 0 where
  pub sleep_outgoing :
      (ms : ℕ) (fd : ℤ) (w : k.World) → st.outgoing (k.sleep_ms ms w).1 fd ≡ st.outgoing w fd
  pub sleep_le : (ms : ℕ) (w : k.World) → pt.signals (k.sleep_ms ms w).1 ≤ pt.signals w

module _ (k : Kernel) (st : Stream k) (pt : Patience k) (nap : Nap k st pt) (es : EpollSet k)
    (fuel : ℕ) (epfd sockfd : ℤ) where
  open st use {outgoing}
  open pt use {signals}

  abbrev pub request_at : Proc k.World → List ℕ
  request_at p = client_greeting sockfd (k.gettimeofday_usec p.world).0

  abbrev pub Requests : Proc k.World → ℤ → Proc k.World → Type 0
  Requests p r q =
      ((r ≡ pos 0)
        × (outgoing q.world sockfd ≡ outgoing p.world sockfd ++ request_at p)
        × Switched k st es epfd sockfd i_epoll_read p.log q)
      ⊎ ((r ≡ minus_one)
          × (q.log ≡ logged my_warning (send_err minus_one sockfd) ∷ p.log)
          × ((m : ℕ) × (m < length (request_at p))
              × (outgoing q.world sockfd ≡ outgoing p.world sockfd ++ take m (request_at p))))

  -- With fuel for the 39 bytes that a request has at most and for the interruptions to come, the
  -- client's `iWrite` returns: 0 with the whole request sent, which shows the time before the wait,
  -- and the socket switched to read mode (or the failed switch logged), or -1 with a proper prefix
  -- sent and the failure logged.
  pub client_write_lem :
      (p : Proc k.World)
      → 39 + signals p.world < fuel
      → (r : ℤ) × (q : Proc k.World) × (client_write k fuel epfd sockfd p ≡ some (r, q))
        × Requests p r q
  unfolding client_write
  client_write_lem p enough =
      let w1 = (k.gettimeofday_usec p.world).1 in
      let p' : Proc k.World = record p { world = (k.sleep_ms 1000 w1).1 } in
      let msg = request_at p in
      let (low, high) = length-client_greeting sockfd (k.gettimeofday_usec p.world).0 in
      let kept : outgoing p'.world sockfd ≡ outgoing p.world sockfd =
        nap.sleep_outgoing 1000 sockfd w1 ∙ st.time_outgoing sockfd p.world in
      let (r, q, run, s, quiet) =
        sendn_lem k st pt sockfd (length msg) fuel msg p' (omega arith) (omega arith)
          (omega (arith, pt.time_le p.world, nap.sleep_le 1000 w1)) in
      elim s [
        | inl (all, o) ↦
            let (r', q', run', sw, a, out, _) =
              switch k st es epfd sockfd i_epoll_read p.log q quiet.log in
            (
              pos 0,
              q',
              ground (arith, run, all, run', low),
              inl (
                refl,
                out sockfd
                    ∙ o
                    ∙ ap (◌++◌ (outgoing p'.world sockfd)) (take_all (length msg) msg (omega arith))
                    ∙ ap (λ xs. xs ++ msg) kept,
                sw,
              ),
            )
        | inr (e, (m, lt, o)) ↦ (
          minus_one,
          record q { log = logged my_warning (send_err minus_one sockfd) ∷ q.log },
          ground (arith, run, e),
          inr (
            refl,
            ap (◌∷◌ (logged my_warning (send_err minus_one sockfd))) quiet.log,
            (m, lt, o ∙ ap (λ xs. xs ++ take m msg) kept),
          ),
        )
      ]
