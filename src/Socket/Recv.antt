-- ===== src/Socket/Recv.antt =====
-- iSocket::recvn (iSocket.cpp): what it returns and writes, and when it returns.
use epoll_threads.Base.{
  ℕ, zero, suc, ◌+◌, ◌-◌, ◌^◌, ◌≤◌, ◌<◌, ◌≡◌, refl, sym, ap, ◌∙◌, List, [], ◌∷◌, ◌++◌, none, some,
  ◌⊎◌, inl, inr, ℤ, pos, length, length-append, append_assoc, arith, ◌==◌, Bool-cases, false,
}
use epoll_threads.Kernel.{Kernel, Received, got, failed, eintr}
use epoll_threads.Proc.{Proc}
use epoll_threads.Socket.{recvn_loop, recvn}
use epoll_threads.Socket.Laws.{Stream, Patience, CleanEnd, Quiet, Quiet-refl, Quiet-trans}

pub Received-cases :
    (r : Received) → ((b : ℕ) × (bs : List ℕ) × (r ≡ got (b ∷ bs))) ⊎ ((r ≡ got []) ⊎ (r ≡ failed))
Received-cases (got (b ∷ bs)) = inl (b, bs, refl)
Received-cases (got []) = inr (inl refl)
Received-cases failed = inr (inr refl)

module _ (k : Kernel) (st : Stream k) (fd : ℤ) where
  open st use {incoming}

  -- From `n` free bytes behind `out` the loop has come to `r`: what was read is behind `out`, in the
  -- order of the stream, and nothing of the stream is lost.
  pub record Drains (n : ℕ) (out : List ℕ) (p : Proc k.World) (r : ℕ × List ℕ) (q : Proc k.World)
      : Type 0 where
    pub size : length r.1 + r.0 ≡ length out + n
    pub bytes : r.1 ++ incoming q.world fd ≡ out ++ incoming p.world fd
    pub quiet : Quiet k p q

  abbrev Returns : ℕ → ℕ → List ℕ → Proc k.World → Type 0
  Returns fuel n out p =
      (r : ℕ × List ℕ) × (q : Proc k.World) × (recvn_loop k fuel fd n out p ≡ some (r, q))
      × Drains n out p r q

  -- The state behind the call of `recv` with `n` free bytes.
  abbrev received : ℕ → Proc k.World → Proc k.World
  received n p = record p { world = (k.recv fd n p.world).1 }

  received-Quiet : (n : ℕ) (p : Proc k.World) → Quiet k p (received n p)
  received-Quiet n p = record { log = refl; active = refl; falls = λ f s. s.recv_le fd n p.world }

  Drains-got :
      (n : ℕ) (out bs : List ℕ) (p : Proc k.World) (r : ℕ × List ℕ) (q : Proc k.World)
      → (k.recv fd n p.world).0 ≡ got bs
      → Drains (n - length bs) (out ++ bs) (received n p) r q
      → Drains n out p r q
  Drains-got n out bs p r q e d = record {
    size = omega (arith, d.size, length-append {0} out bs, (st.recv_got fd n p.world bs e).0);
    bytes =
        d.bytes
        ∙ append_assoc out bs (incoming (received n p).world fd)
        ∙ ap (◌++◌ out) (sym (st.recv_got fd n p.world bs e).1);
    quiet = Quiet-trans k (received-Quiet n p) d.quiet;
  }

  incoming-same :
      (n : ℕ) (w : k.World)
      → ((k.recv fd n w).0 ≡ got []) ⊎ ((k.recv fd n w).0 ≡ failed)
      → incoming (k.recv fd n w).1 fd ≡ incoming w fd
  incoming-same n w (inl e) = sym (st.recv_got fd n w [] e).1
  incoming-same n w (inr e) = st.recv_failed fd n w e

  -- The next round starts where this one did, or the loop ends there.
  Drains-none :
      (n : ℕ) (out : List ℕ) (p : Proc k.World) (r : ℕ × List ℕ) (q : Proc k.World)
      → ((k.recv fd n p.world).0 ≡ got []) ⊎ ((k.recv fd n p.world).0 ≡ failed)
      → Drains n out (received n p) r q
      → Drains n out p r q
  Drains-none n out p r q e d = record {
    size = d.size;
    bytes = d.bytes ∙ ap (◌++◌ out) (incoming-same n p.world e);
    quiet = Quiet-trans k (received-Quiet n p) d.quiet;
  }

  Drains-here : (n : ℕ) (out : List ℕ) (p : Proc k.World) → Drains n out p (n, out) p
  Drains-here n out p = record { size = refl; bytes = refl; quiet = Quiet-refl k p }

  module _ (pt : Patience k) (clean : CleanEnd k) where
    open pt use {signals}

    -- A round of the loop, from the next one.
    recvn_loop-Returns_round :
        (fuel n : ℕ) (out : List ℕ) (p : Proc k.World)
        → ((m : ℕ) (o : List ℕ)
            → m + signals (received n p).world < fuel
            → Returns fuel m o (received n p))
        → n + signals p.world < suc fuel
        → (n == 0) ≡ false
        → Returns (suc fuel) n out p
    unfolding recvn_loop
    recvn_loop-Returns_round fuel n out p ih lt room =
        elim (Received-cases (k.recv fd n p.world).0) [
          | inl (b, bs, e) ↦
              let (r, q, run, d) = ih (n - length (b ∷ bs)) (out ++ b ∷ bs) (
                ground (arith, (st.recv_got fd n p.world (b ∷ bs) e).0, pt.recv_le fd n p.world)) in
              (r, q, rw (room, e) run, Drains-got n out (b ∷ bs) p r q e d)
          | inr (inl e) ↦ (
            (n, out),
            received n p,
            rw (room, e) (ground (arith, clean fd n p.world e)),
            Drains-none n out p _ _ (inl e) (Drains-here n out (received n p)),
          )
          | inr (inr e) ↦ elim (Bool-cases (k.errno (received n p).world == eintr)) [
            | inl again ↦
                let (r, q, run, d) = ih n out (ground (arith, pt.recv_lt fd n p.world e)) in
                (r, q, rw (room, e, again) run, Drains-none n out p r q (inr e) d)
            | inr stop ↦ (
              (n, out),
              received n p,
              rw (room, e, stop),
              Drains-none n out p _ _ (inr e) (Drains-here n out (received n p)),
            )
          ]
        ]

    recvn_loop-Returns :
        (fuel n : ℕ) (out : List ℕ) (p : Proc k.World)
        → n + signals p.world < fuel
        → Returns fuel n out p
    unfolding recvn_loop
    recvn_loop-Returns zero n out p lt = absurd (omega arith)
    recvn_loop-Returns (suc fuel) n out p lt = elim (Bool-cases (n == 0)) [
      | inl full ↦ ((n, out), p, rw full, Drains-here n out p)
      | inr room ↦
          recvn_loop-Returns_round fuel n out p
            (λ m o h. recvn_loop-Returns fuel m o (received n p) h) lt room
    ]

    -- For an `nLen` that fits an int, with more fuel than bytes asked for and interruptions to
    -- come, and no stale EINTR at the end of the stream, `recvn` returns the number of bytes that
    -- it wrote, at most `nLen`; they are the next bytes of the stream in order, and the rest of the
    -- stream is still to be read.
    pub recvn_lem :
        (fuel len : ℕ) (p : Proc k.World)
        → len < 2 ^ 31
        → len + signals p.world < fuel
        → (out : List ℕ) × (q : Proc k.World) × (recvn k fuel fd len p
            ≡ some ((pos (length out), out), q))
          × (length out ≤ len)
          × (incoming p.world fd ≡ out ++ incoming q.world fd)
          × Quiet k p q
    unfolding recvn
    recvn_lem fuel len p small lt =
        let ((n, out), q, run, d) = recvn_loop-Returns fuel len [] p lt in
        (out, q, ground (arith, run, d.size), omega (arith, d.size), sym d.bytes, d.quiet)

module _ (k : Kernel) (fd : ℤ) (w : k.World) (stays : (n : ℕ) → k.recv fd n w ≡ (got [], w))
    (stale : k.errno w ≡ eintr) where
  recvn_loop_spins :
      (fuel n : ℕ) (out : List ℕ) (p : Proc k.World)
      → p.world ≡ w
      → (n == 0) ≡ false
      → recvn_loop k fuel fd n out p ≡ none
  unfolding recvn_loop
  recvn_loop_spins zero n out p at room = refl
  recvn_loop_spins (suc fuel) n out p at room =
      ground
        (arith, at, stays n, stale, recvn_loop_spins fuel n out (record p { world = w }) refl room)

  -- If `recv` returns 0 and changes nothing, as at the end of the stream, and `errno` holds EINTR
  -- from an earlier call, `recvn` with a positive `nLen` never returns, with any fuel.
  pub recvn_spins :
      (fuel len : ℕ) (p : Proc k.World)
      → p.world ≡ w
      → 0 < len
      → len < 2 ^ 31
      → recvn k fuel fd len p ≡ none
  unfolding recvn
  recvn_spins fuel len p at pos_len small =
      ground (arith, recvn_loop_spins fuel len [] p at (ground arith))
