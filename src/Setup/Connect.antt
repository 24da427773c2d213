-- ===== src/Setup/Connect.antt =====
-- iSocket::Connect (iSocket.cpp): the sockets that are open at its end.
use epoll_threads.Base.{
  ℕ, ◌≡◌, refl, true, false, List, Option, none, some, ◌⊎◌, inl, inr, ℤ, pos, minus_one,
  is_minus_one, is_neg, Bool-cases, arith,
}
use Prim.Native.Nat.{bit_or}
use epoll_threads.Kernel.{Kernel, reuse_addr, recv_buffer, send_buffer, linger}
use epoll_threads.Proc.{Proc}
use epoll_threads.Setup.{set_non_block, after_getfl, connect_socket, o_nonblock, buffer_size}
use epoll_threads.Setup.Opened.{Same, Same-trans, Opens, Opens-Same, OpenFds}

module _ (k : Kernel) (op : OpenFds k) where
  open op use {
    opened, setsockopt_same, fcntl_get_same, fcntl_set_same, connect_same, socket_opens,
    socket_fails,
  }

  after_getfl-Same :
      (fd : ℤ) (o : Option ℕ) (p : Proc k.World)
      → (r : ℤ) × (q : Proc k.World) × (after_getfl k fd o p ≡ some (r, q))
        × Same opened p.world q.world
  after_getfl-Same fd none p = (minus_one, _, refl, λ f. refl)
  after_getfl-Same fd (some o) p =
      let same = fcntl_set_same fd (bit_or o o_nonblock) p.world in
      elim (Bool-cases (is_neg (k.fcntl_set fd (bit_or o o_nonblock) p.world).0)) [
        | inl e ↦ rw e (minus_one, _, refl, same)
        | inr e ↦ rw e (pos 0, _, refl, same)
      ]

  set_non_block-Same :
      (fd : ℤ) (p : Proc k.World)
      → (r : ℤ) × (q : Proc k.World) × (set_non_block k fd p ≡ some (r, q))
        × Same opened p.world q.world
  unfolding set_non_block
  set_non_block-Same fd p =
      let g = k.fcntl_get fd p.world in
      let (r, q, run, same) = after_getfl-Same fd g.0 (record p { world = g.1 }) in
      (r, q, run, Same-trans opened p.world g.1 q.world (fcntl_get_same fd p.world) same)

  -- The end of a `Connect`, with its result and the `sockfd` that it leaves.
  abbrev pub Connects : k.World → ℤ × ℤ → k.World → Type 0
  Connects w r w' =
      ((r.0 ≡ pos 0) × Opens opened r.1 w w')
      ⊎ ((r.0 ≡ minus_one)
          × (((is_minus_one r.1 ≡ true) × Same opened w w')
              ⊎ ((is_minus_one r.1 ≡ false) × Opens opened r.1 w w')))

  -- `Connect` gives 0 and a new socket; or -1, and then, unless `socket` failed and left -1 in
  -- `sockfd`, the socket that it opened is still open and in `sockfd`.
  pub connect_socket_lem :
      (remote_ip : List ℕ) (port : ℕ) (p : Proc k.World)
      → (r : ℤ × ℤ) × (q : Proc k.World) × (connect_socket k remote_ip port p ≡ some (r, q))
        × Connects p.world r q.world
  unfolding connect_socket
  connect_socket_lem remote_ip port p =
      let s = k.socket p.world in
      let fd = s.0 in
      let w1 = (k.setsockopt fd (reuse_addr 1) s.1).1 in
      let w2 = (k.setsockopt fd (recv_buffer buffer_size) w1).1 in
      let w3 = (k.setsockopt fd (send_buffer buffer_size) w2).1 in
      let c = k.connect fd (record { ip = k.inet_addr remote_ip; port = port }) w3 in
      let w4 = (k.setsockopt fd (linger 1 0) c.1).1 in
      elim (Bool-cases (is_minus_one fd)) [
        | inl e ↦ rw e ((minus_one, fd), _, refl, inr (refl, inl (e, socket_fails p.world e)))
        | inr e ↦
            let o1 =
              Opens-Same opened fd p.world s.1 w1 (socket_opens p.world e)
                (setsockopt_same fd _ s.1) in
            let o2 = Opens-Same opened fd p.world w1 w2 o1 (setsockopt_same fd _ w1) in
            let o3 = Opens-Same opened fd p.world w2 w3 o2 (setsockopt_same fd _ w2) in
            let o4 = Opens-Same opened fd p.world w3 c.1 o3 (connect_same fd _ w3) in
            let o5 = Opens-Same opened fd p.world c.1 w4 o4 (setsockopt_same fd _ c.1) in
            elim (Bool-cases (is_neg c.0)) [
              | inl e' ↦ rw (e, e') ((minus_one, fd), _, refl, inr (refl, inr (e, o4)))
              | inr e' ↦
                  let (r, q, run, same) = set_non_block-Same fd (record p { world = w4 }) in
                  rw (e, e')
                    (
                      (pos 0, fd),
                      q,
                      ground (arith, run),
                      inl (refl, Opens-Same opened fd p.world w4 q.world o5 same),
                    )
            ]
      ]
