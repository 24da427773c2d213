-- ===== src/Task/Request.antt =====
-- TaskThread::iRead (TaskThread.cpp): what it has read at its end, and the `%s` of its log
-- line.
use epoll_threads.Base.{
  ℕ, zero, suc, ◌+◌, ◌-◌, ◌≤◌, ◌<◌, ◌≡◌, refl, sym, ap, ◌∙◌, List, [], ◌∷◌, ◌++◌, none, some, ◌⊎◌,
  inl, inr, ℤ, pos, minus_one, length, All, replicate, arith,
}
use epoll_threads.Kernel.{Kernel}
use epoll_threads.Proc.{min_bufsz, Proc, pure, ◌>>◌, my_debug, my_warning, recv_err, recv_data}
use epoll_threads.Text.{c_string, filled}
use epoll_threads.Socket.{recvn}
use epoll_threads.Socket.Laws.{Stream, Patience, CleanEnd, Quiet}
use epoll_threads.Socket.Recv.{recvn_lem}
use epoll_threads.Epoll.{i_epoll_write, i_epoll_edge_triggered, i_epoll_change_mode}
use epoll_threads.Epoll.Laws.{EpollSet}
use epoll_threads.Task.Switch.{logged, Switched, switch}
use epoll_threads.Task.{i_read}

c_string_padded :
    (bs : List ℕ) (n : ℕ) → (shown : List ℕ) × (c_string (bs ++ replicate (suc n) 0) ≡ some shown)
unfolding c_string
c_string_padded [] n = ([], refl)
c_string_padded (zero ∷ bs) n = ([], refl)
c_string_padded (suc c ∷ bs) n = let (s, e) = c_string_padded bs n in (suc c ∷ s, rw e)

c_string_endless : (bs : List ℕ) → All (λ b. 0 < b) bs → c_string (bs ++ []) ≡ none
unfolding c_string
c_string_endless [] h = refl
c_string_endless (zero ∷ bs) h = absurd (omega (arith, h.0))
c_string_endless (suc c ∷ bs) h = rw (c_string_endless bs h.1)

-- The `%s` of the log line finds a NUL in `sBuf` as long as fewer than 1024 bytes were read, and
-- runs past the end of `sBuf` whenever 1024 bytes other than NUL were.
pub shown_cases :
    (out : List ℕ)
    → (length out < min_bufsz → (shown : List ℕ) × (c_string (filled min_bufsz out) ≡ some shown))
      × (length out ≡ min_bufsz → All (λ b. 0 < b) out → c_string (filled min_bufsz out) ≡ none)
shown_cases out = (
  λ lt.
      let more : min_bufsz - length out ≡ suc (min_bufsz - length out - 1) = omega arith in
      rw more (c_string_padded out (min_bufsz - length out - 1)),
  λ full h.
      let none_left : min_bufsz - length out ≡ 0 = omega arith in
      rw none_left (c_string_endless out h),
)

module _ (k : Kernel) (st : Stream k) (pt : Patience k) (clean : CleanEnd k) (es : EpollSet k)
    (fuel : ℕ) (epfd sockfd : ℤ) where
  open st use {incoming}
  open pt use {signals}

  -- What `iRead` has done when it returned `r`: some bytes of the stream are read and logged and
  -- the socket waits for room to reply, or nothing is read, which is logged, and -1 is returned.
  abbrev pub Reads : Proc k.World → ℤ → Proc k.World → Type 0
  Reads p r q =
      ((r ≡ pos 0)
        × ((out : List ℕ) × ((0 < length out)
              × (length out ≤ min_bufsz)
              × (incoming p.world sockfd ≡ out ++ incoming q.world sockfd)
              × Switched k st es epfd sockfd i_epoll_write
                  (logged my_debug (recv_data (pos (length out)) (c_string (filled min_bufsz out)))
                    ∷ p.log)
                  q)))
      ⊎ ((r ≡ minus_one)
          × (incoming q.world sockfd ≡ incoming p.world sockfd)
          × (q.log ≡ logged my_warning (recv_err (pos 0) sockfd) ∷ p.log))

  -- With fuel for a full buffer and the interruptions to come, and no stale EINTR at the end of the
  -- stream, `iRead` returns: 0 with 1 to 1024 bytes taken off the stream in order and logged and
  -- the socket in write mode (or the failed change of mode logged), or -1 with nothing read; the
  -- counter stays.
  pub i_read_lem :
      (p : Proc k.World)
      → min_bufsz + signals p.world < fuel
      → (r : ℤ) × (q : Proc k.World) × (i_read k fuel epfd sockfd p ≡ some (r, q))
        × Reads p r q
        × (q.active ≡ p.active)
  unfolding i_read
  i_read_lem p enough =
      let (out, q, run, most, split, quiet) =
        recvn_lem k st sockfd pt clean fuel min_bufsz p (omega arith) enough in
      go out q run most split quiet
    where
      go :
          (out : List ℕ) (q : Proc k.World)
          → recvn k fuel sockfd min_bufsz p ≡ some ((pos (length out), out), q)
          → length out ≤ min_bufsz
          → incoming p.world sockfd ≡ out ++ incoming q.world sockfd
          → Quiet k p q
          → (r : ℤ) × (q' : Proc k.World) × (i_read k fuel epfd sockfd p ≡ some (r, q'))
            × Reads p r q'
            × (q'.active ≡ p.active)
      go [] q run most split quiet = (
        minus_one,
        record q { log = logged my_warning (recv_err (pos 0) sockfd) ∷ q.log },
        ground (arith, run),
        inr (refl, sym split, ap (◌∷◌ (logged my_warning (recv_err (pos 0) sockfd))) quiet.log),
        quiet.active,
      )
      go (b ∷ bs) q run most split quiet =
          let line =
            logged my_debug
              (recv_data (pos (length (b ∷ bs))) (c_string (filled min_bufsz (b ∷ bs)))) in
          let (r', q', run', sw, a, _, inc) =
            switch k st es epfd sockfd i_epoll_write (line ∷ p.log)
              (record q { log = line ∷ q.log }) (ap (◌∷◌ line) quiet.log) in
          (
            pos 0,
            q',
            ground (arith, run, run'),
            inl (
              refl,
              (b ∷ bs, (omega arith, most, split ∙ ap (◌++◌ (b ∷ bs)) (sym (inc sockfd)), sw)),
            ),
            a ∙ quiet.active,
          )

-- Where `recvn` fills `sBuf` with 1024 bytes other than NUL, `iRead` hands the log a `%s` that has
-- no end in the buffer, and goes on as usual.
pub i_read_overrun :
    (k : Kernel) (fuel : ℕ) (epfd sockfd : ℤ) (p q : Proc k.World) (out : List ℕ)
    → recvn k fuel sockfd min_bufsz p ≡ some ((pos (length out), out), q)
    → length out ≡ min_bufsz
    → All (λ b. 0 < b) out
    → i_read k fuel epfd sockfd p
      ≡ (i_epoll_change_mode k epfd sockfd i_epoll_write i_epoll_edge_triggered >> pure (pos 0))
          (record q { log = logged my_debug (recv_data (pos min_bufsz) none) ∷ q.log })
unfolding i_read
i_read_overrun k fuel epfd sockfd p q out run full h =
    ground (arith, run, full, (shown_cases out).1 full h)
