-- ===== src/Socket/Send.antt =====
-- iSocket::sendn (iSocket.cpp): what it returns, and what the peer is sent then.
use epoll_threads.Base.{
  ℕ, zero, suc, ◌+◌, ◌-◌, ◌^◌, ◌≤◌, ◌<◌, ◌≡◌, refl, sym, ap, ◌∙◌, List, [], ◌∷◌, ◌++◌, some, ◌⊎◌,
  inl, inr, ℤ, pos, negsuc, minus_one, length, take, drop, take-take, take_add, length-take,
  length-drop, append-nil, append_assoc, arith, ◌==◌, Bool-cases, false,
}
use epoll_threads.Kernel.{Kernel, eintr}
use epoll_threads.Proc.{Proc}
use epoll_threads.Socket.{sendn_loop, sendn}
use epoll_threads.Socket.Laws.{Stream, Patience, Quiet, Quiet-refl, Quiet-trans}

pub ℤ-cases : (r : ℤ) → ((m : ℕ) × (r ≡ pos (suc m))) ⊎ ((r ≡ pos 0) ⊎ ((e : ℕ) × (r ≡ negsuc e)))
ℤ-cases (pos zero) = inr (inl refl)
ℤ-cases (pos (suc m)) = inl (m, refl)
ℤ-cases (negsuc e) = inr (inr (e, refl))

module _ (k : Kernel) (st : Stream k) (pt : Patience k) (fd : ℤ) (len : ℕ) where
  open st use {outgoing}
  open pt use {signals}

  -- All of the `n` bytes from `str` on are sent, or -1 is the result and only some are.
  abbrev pub Sends : ℕ → List ℕ → Proc k.World → ℤ → Proc k.World → Type 0
  Sends n str p r q =
      ((r ≡ pos len) × (outgoing q.world fd ≡ outgoing p.world fd ++ take n str))
      ⊎ ((r ≡ minus_one)
          × ((m : ℕ) × (m < n) × (outgoing q.world fd ≡ outgoing p.world fd ++ take m str)))

  abbrev Returns : ℕ → ℕ → List ℕ → Proc k.World → Type 0
  Returns fuel n str p =
      (r : ℤ) × (q : Proc k.World) × (sendn_loop k fuel fd len n str p ≡ some (r, q))
      × Sends n str p r q
      × Quiet k p q

  abbrev sent : ℕ → List ℕ → Proc k.World → Proc k.World
  sent n str p = record p { world = (k.send fd (take n str) p.world).1 }

  sent-Quiet : (n : ℕ) (str : List ℕ) (p : Proc k.World) → Quiet k p (sent n str p)
  sent-Quiet n str p = record {
    log = refl;
    active = refl;
    falls = λ f s. s.send_le fd (take n str) p.world;
  }

  sent-le :
      (n m : ℕ) (str : List ℕ) (w : k.World)
      → n ≤ length str
      → (k.send fd (take n str) w).0 ≡ pos m
      → m ≤ n
  sent-le n m str w room e =
      omega (arith, (st.send_sent fd (take n str) w m e).0, length-take n str room)

  -- The bytes sent by a call, and `j` more sent after it.
  outgoing_add :
      (n m j : ℕ) (str : List ℕ) (p q : Proc k.World)
      → n ≤ length str
      → (k.send fd (take n str) p.world).0 ≡ pos m
      → outgoing q.world fd ≡ outgoing (sent n str p).world fd ++ take j (drop m str)
      → outgoing q.world fd ≡ outgoing p.world fd ++ take (m + j) str
  outgoing_add n m j str p q room e o =
      o
      ∙ ap (λ xs. xs ++ take j (drop m str))
          ((st.send_sent fd (take n str) p.world m e).1
            ∙ ap (◌++◌ (outgoing p.world fd)) (take-take m n str (sent-le n m str p.world room e)))
      ∙ append_assoc (outgoing p.world fd) (take m str) (take j (drop m str))
      ∙ ap (◌++◌ (outgoing p.world fd)) (take_add m j str)

  Sends-sent :
      (n m : ℕ) (str : List ℕ) (p : Proc k.World) (r : ℤ) (q : Proc k.World)
      → n ≤ length str
      → (k.send fd (take n str) p.world).0 ≡ pos m
      → Sends (n - m) (drop m str) (sent n str p) r q
      → Sends n str p r q
  Sends-sent n m str p r q room e (inl (all, o)) =
      let whole : m + (n - m) ≡ n = omega (arith, sent-le n m str p.world room e) in
      inl (all, rw (← whole) (outgoing_add n m (n - m) str p q room e o))
  Sends-sent n m str p r q room e (inr (err, (j, lt, o))) =
      inr (err, (m + j, omega arith, outgoing_add n m j str p q room e o))

  -- A call that failed sent nothing.
  Sends-failed :
      (n e : ℕ) (str : List ℕ) (p : Proc k.World) (r : ℤ) (q : Proc k.World)
      → (k.send fd (take n str) p.world).0 ≡ negsuc e
      → Sends n str (sent n str p) r q
      → Sends n str p r q
  Sends-failed n e str p r q f (inl (all, o)) =
      inl (all, o ∙ ap (λ xs. xs ++ take n str) (st.send_failed fd (take n str) p.world e f))
  Sends-failed n e str p r q f (inr (err, (j, lt, o))) =
      inr
        (err, (j, lt, o ∙ ap (λ xs. xs ++ take j str) (st.send_failed fd (take n str) p.world e f)))

  Sends-stop : (n : ℕ) (str : List ℕ) (p : Proc k.World) → 0 < n → Sends n str p minus_one p
  Sends-stop n str p lt = inr (refl, (0, lt, sym (append-nil _)))

  sendn_loop-Returns_round :
      (fuel n : ℕ) (str : List ℕ) (p : Proc k.World)
      → ((j : ℕ) (xs : List ℕ)
          → j + signals (sent n str p).world < fuel
          → j ≤ len
          → j ≤ length xs
          → Returns fuel j xs (sent n str p))
      → n + signals p.world < suc fuel
      → n ≤ len
      → n ≤ length str
      → (n == 0) ≡ false
      → Returns (suc fuel) n str p
  unfolding sendn_loop
  sendn_loop-Returns_round fuel n str p ih lt le room busy =
      elim (ℤ-cases (k.send fd (take n str) p.world).0) [
        | inl (m, e) ↦
            let (r, q, run, s, l) =
              ih (n - suc m) (drop (suc m) str)
                (omega
                  (arith, sent-le n (suc m) str p.world room e, pt.send_le fd (take n str) p.world))
                (omega arith) (omega (arith, length-drop (suc m) str)) in
            (
              r,
              q,
              rw (busy, e) run,
              Sends-sent n (suc m) str p r q room e s,
              Quiet-trans k (sent-Quiet n str p) l,
            )
        | inr (inl e) ↦ absurd (nonzero n str room busy e)
        | inr (inr (x, e)) ↦ elim (Bool-cases (k.errno (sent n str p).world == eintr)) [
          | inl again ↦
              let (r, q, run, s, l) =
                ih n str (ground (arith, pt.send_lt fd (take n str) p.world x e)) le room in
              (
                r,
                q,
                rw (busy, e, again) run,
                Sends-failed n x str p r q e s,
                Quiet-trans k (sent-Quiet n str p) l,
              )
          | inr stop ↦ (
            minus_one,
            sent n str p,
            rw (busy, e, stop),
            Sends-failed n x str p minus_one (sent n str p) e
                (Sends-stop n str (sent n str p) (ground arith)),
            sent-Quiet n str p,
          )
        ]
      ]
    where
      nonzero :
          (j : ℕ) (xs : List ℕ)
          → j ≤ length xs
          → (j == 0) ≡ false
          → (k.send fd (take j xs) p.world).0 ≡ pos 0
          → ⊥
      nonzero zero xs h b e = cc
      nonzero (suc j) [] h b e = absurd (omega arith)
      nonzero (suc j) (x ∷ xs) h b e = pt.send_ne_zero fd x (take j xs) p.world e

  sendn_loop-Returns :
      (fuel n : ℕ) (str : List ℕ) (p : Proc k.World)
      → n + signals p.world < fuel
      → n ≤ len
      → n ≤ length str
      → Returns fuel n str p
  unfolding sendn_loop
  sendn_loop-Returns zero n str p lt le room = absurd (omega arith)
  sendn_loop-Returns (suc fuel) n str p lt le room = elim (Bool-cases (n == 0)) [
    | inl done ↦
        let zeroth : n ≡ 0 = ground arith in
        (
          pos len,
          p,
          ground arith,
          inl (refl, rw zeroth (sym (append-nil (outgoing p.world fd)))),
          Quiet-refl k p,
        )
    | inr busy ↦
        sendn_loop-Returns_round fuel n str p
          (λ j xs h i o. sendn_loop-Returns fuel j xs (sent n str p) h i o) lt le room busy
  ]

  -- For an `nLen` that fits an int, and with more fuel than bytes and interruptions to come,
  -- `sendn` returns: `nLen` with exactly the `nLen` bytes of the buffer sent in order, or -1 with a
  -- proper prefix of them sent; nothing is logged.
  pub sendn_lem :
      (fuel : ℕ) (str : List ℕ) (p : Proc k.World)
      → len < 2 ^ 31
      → len ≤ length str
      → len + signals p.world < fuel
      → (r : ℤ) × (q : Proc k.World) × (sendn k fuel fd str len p ≡ some (r, q))
        × Sends len str p r q
        × Quiet k p q
  unfolding sendn
  sendn_lem fuel str p small room lt =
      let (r, q, run, s, l) = sendn_loop-Returns fuel len str p lt (omega arith) room in
      (r, q, ground (arith, run), s, l)
