-- ===== src/Setup/Listen.antt =====
-- iSocket::Listen (iSocket.cpp): how it ends, and how long it waits.
use epoll_threads.Base.{
  ℕ, zero, suc, ◌+◌, ◌≤◌, ◌<◌, ◌≡◌, refl, Bool, true, false, some, Option, ◌⊎◌, inl, inr, ℤ, pos,
  negsuc, minus_one, is_minus_one, Bool-cases, ◌==◌, arith,
}
use epoll_threads.Kernel.{Kernel, eintr}
use epoll_threads.Proc.{Proc}
use epoll_threads.Setup.{if_set, after_select, listen_loop, listen_socket, one_second}
use epoll_threads.Setup.Opened.{Same, Same-trans, Opens, Opens-Same, Same-Opens, OpenFds}
use epoll_threads.Setup.Keeps.{Waiting, set_up_client-Kept}

module _ (k : Kernel) (op : OpenFds k) (wt : Waiting k) where
  open op use {opened}
  open wt use {rounds, waited}

  -- The end of a `Listen` that had `tv` left: a new socket and 0, or -1 and none.
  abbrev pub Accepts : Proc k.World → ℕ → ℤ × ℤ → Proc k.World → Type 0
  Accepts p tv r q =
      (((r.0 ≡ pos 0) × Opens opened r.1 p.world q.world)
        ⊎ ((r.0 ≡ minus_one) × Same opened p.world q.world))
      × (waited q.world ≤ waited p.world + tv)
      × (rounds q.world ≤ rounds p.world)

  abbrev Returns : Proc k.World → ℕ → Option ((ℤ × ℤ) × Proc k.World) → Type 0
  Returns p tv o = (r : ℤ × ℤ) × (q : Proc k.World) × (o ≡ some (r, q)) × Accepts p tv r q

  Accepts-Same :
      (p p' : Proc k.World) (tv tv' : ℕ) (r : ℤ × ℤ) (q : Proc k.World)
      → Same opened p.world p'.world
      → waited p'.world + tv' ≤ waited p.world + tv
      → rounds p'.world ≤ rounds p.world
      → Accepts p' tv' r q
      → Accepts p tv r q
  Accepts-Same p p' tv tv' r q s h le (inl (z, opens), w, n) = (
    inl (z, Same-Opens opened r.1 p.world p'.world q.world s opens),
    omega (arith, w),
    omega (arith, n),
  )
  Accepts-Same p p' tv tv' r q s h le (inr (z, same), w, n) = (
    inr (z, Same-trans opened p.world p'.world q.world s same),
    omega (arith, w),
    omega (arith, n),
  )

  -- The rounds to come return, with fewer than `n` calls of `select` to come.
  abbrev AgainReturns : ℕ → (ℕ → ℤ → Proc k.World → Option ((ℤ × ℤ) × Proc k.World)) → Type 0
  AgainReturns n again =
      (tv : ℕ) (fd : ℤ) (p : Proc k.World) → rounds p.world < n → Returns p tv (again tv fd p)

  module _ (n : ℕ) (again : ℕ → ℤ → Proc k.World → Option ((ℤ × ℤ) × Proc k.World))
      (ih : AgainReturns n again) (lfd fd : ℤ) (p : Proc k.World) (lt : rounds p.world < n) where
    if_set-Returns :
        (is_set : Bool) (left : ℕ) → Returns p left (if_set k (again left) lfd fd is_set p)
    if_set-Returns false left = ih left fd p lt
    if_set-Returns true left =
        let a = k.accept lfd p.world in
        let p' : Proc k.World = record p { world = a.1 } in
        elim (Bool-cases (is_minus_one a.0)) [
          | inl e ↦
              let same = op.accept_fails lfd p.world e in
              elim (Bool-cases (k.errno a.1 == eintr)) [
                | inl e' ↦
                    rw (e, e')
                      (let (r, q, run, ends) =
                          ih left a.0 p' (omega (arith, wt.accept_le lfd p.world)) in
                        (
                          r,
                          q,
                          run,
                          Accepts-Same p p' left left r q same
                              (omega (arith, wt.accept_waits lfd p.world))
                              (wt.accept_le lfd p.world) ends,
                        ))
                | inr e' ↦
                    rw (e, e')
                      (
                        (minus_one, a.0),
                        _,
                        refl,
                        (
                          inr (refl, same),
                          omega (arith, wt.accept_waits lfd p.world),
                          wt.accept_le lfd p.world,
                        ),
                      )
              ]
          | inr e ↦
              let (q, run, kept) = set_up_client-Kept k op wt a.0 p' in
              rw e (
                (pos 0, a.0),
                q,
                run,
                (
                  inl (
                    refl,
                    Opens-Same opened a.0 p.world a.1 q.world (op.accept_opens lfd p.world e)
                        kept.0,
                  ),
                  omega (arith, kept.1, wt.accept_waits lfd p.world),
                  omega (arith, kept.2, wt.accept_le lfd p.world),
                ),
              )
        ]

    after_select-Returns : (s : ℤ × Bool × ℕ) → Returns p s.2 (after_select k again lfd fd s p)
    after_select-Returns (pos zero, is_set, left) = ih left fd p lt
    after_select-Returns (pos (suc m), is_set, left) = if_set-Returns is_set left
    after_select-Returns (negsuc zero, is_set, left) =
        ((minus_one, fd), _, refl, (inr (refl, λ f. refl), omega arith, omega arith))
    after_select-Returns (negsuc (suc m), is_set, left) = if_set-Returns is_set left

  -- With the flag down, the loop calls `select` at least once.
  Once : Proc k.World → ℕ → Option ((ℤ × ℤ) × Proc k.World) → Type 0
  Once p tv o =
      (r : ℤ × ℤ) × (q : Proc k.World) × (o ≡ some (r, q))
      × Accepts p tv r q
      × (rounds q.world < rounds p.world)

  listen_loop-Once :
      (fuel : ℕ) (lfd : ℤ)
      → AgainReturns fuel (listen_loop k fuel lfd)
      → (tv : ℕ) (fd : ℤ) (p : Proc k.World) → rounds p.world < suc fuel
      → k.shutdown p.world ≡ false
      → Once p tv (listen_loop k (suc fuel) lfd tv fd p)
  unfolding listen_loop Once
  listen_loop-Once fuel lfd ih tv fd p lt e =
      let s = k.select lfd tv p.world in
      let p' : Proc k.World = record p { world = s.1 } in
      let fewer : rounds p'.world < rounds p.world = wt.select_lt lfd tv p.world e in
      let (r, q, run, ends) =
        after_select-Returns fuel (listen_loop k fuel lfd) ih lfd fd p' (omega (arith, fewer))
          s.0 in
      (
        r,
        q,
        rw e run,
        Accepts-Same p p' tv s.0.2 r q (op.select_same lfd tv p.world)
            (wt.select_waits lfd tv p.world) (omega (arith, fewer)) ends,
        omega (arith, fewer, ends.2),
      )

  listen_loop-Returns : (fuel : ℕ) (lfd : ℤ) → AgainReturns fuel (listen_loop k fuel lfd)
  unfolding listen_loop Once
  listen_loop-Returns zero lfd tv fd p lt = absurd (omega arith)
  listen_loop-Returns (suc fuel) lfd tv fd p lt = elim (Bool-cases (k.shutdown p.world)) [
    | inl e ↦ rw e ((minus_one, fd), p, refl, (inr (refl, λ f. refl), omega arith, omega arith))
    | inr e ↦
        let (r, q, run, ends, fewer) =
          listen_loop-Once fuel lfd (listen_loop-Returns fuel lfd) tv fd p lt e in
        (r, q, run, ends)
  ]

  -- With more fuel than calls of `select` before the shutdown flag is seen, `Listen` returns: 0
  -- with a socket that is open and was not, or -1 with no socket opened; no other descriptor is
  -- touched, no more calls of `select` are to come than before, and all those that it made waited at
  -- most the one second together that the timeout is set to once.
  pub listen_socket_lem :
      (fuel : ℕ) (lfd fd : ℤ) (p : Proc k.World)
      → rounds p.world < fuel
      → (r : ℤ × ℤ) × (q : Proc k.World) × (listen_socket k fuel lfd fd p ≡ some (r, q))
        × Accepts p one_second r q
  unfolding listen_socket
  listen_socket_lem fuel lfd fd p lt = listen_loop-Returns fuel lfd one_second fd p lt

  -- A `Listen` that starts with the flag down uses up a call of `select` at least.
  pub listen_socket-fewer :
      (fuel : ℕ) (lfd fd : ℤ) (p : Proc k.World)
      → rounds p.world < fuel
      → k.shutdown p.world ≡ false
      → (r : ℤ × ℤ) × (q : Proc k.World) × (listen_socket k fuel lfd fd p ≡ some (r, q))
        × (rounds q.world < rounds p.world)
  unfolding listen_socket Once
  listen_socket-fewer zero lfd fd p lt e = absurd (omega arith)
  listen_socket-fewer (suc fuel) lfd fd p lt e =
      let (r, q, run, ends, fewer) =
        listen_loop-Once fuel lfd (listen_loop-Returns fuel lfd) one_second fd p lt e in
      (r, q, run, fewer)
