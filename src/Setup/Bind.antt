-- ===== src/Setup/Bind.antt =====
-- iSocket::Bind (iSocket.cpp): the sockets that are open at its end.
use epoll_threads.Base.{
  ℕ, ◌≡◌, refl, true, List, [], ◌∷◌, Option, none, some, ◌⊎◌, inl, inr, ℤ, pos, minus_one,
  is_minus_one, Bool-cases,
}
use epoll_threads.Kernel.{Kernel, reuse_addr}
use epoll_threads.Proc.{Proc, Message, my_warning, socket_err, address_err, bind_err, listen_err}
use epoll_threads.Config.{init_server_config}
use epoll_threads.Setup.{bind_socket, bind_address, bind_ip, give_up, shown}
use epoll_threads.Setup.Opened.{Same, Opens, Opens-Same, Opens-Closes, OpenFds}

module _ (k : Kernel) (op : OpenFds k) where
  open op use {
    opened, listening, close_closes, setsockopt_same, bind_same, listen_same, listen_listens,
    socket_opens, socket_fails,
  }

  -- The end of `Bind`: `r` is its result with the `sockfd` that it leaves.
  abbrev pub Binds : k.World → Proc k.World → ℤ × ℤ → Proc k.World → Type 0
  Binds w p r q =
      ((r.0 ≡ pos 0)
        × Opens opened r.1 w q.world
        × (listening q.world r.1 ≡ true)
        × (q.log ≡ p.log))
      ⊎ ((r.0 ≡ minus_one)
          × Same opened w q.world
          × ((m : Message) × (q.log ≡ record { level = my_warning; message = m } ∷ p.log)))

  give_up-Binds :
      (w : k.World) (fd : ℤ) (line : ℕ → Message) (p : Proc k.World)
      → Opens opened fd w p.world
      → (r : ℤ × ℤ) × (q : Proc k.World) × (give_up k fd line p ≡ some (r, q)) × Binds w p r q
  give_up-Binds w fd line p o =
      let q : Proc k.World = record p {
        world = (k.close fd p.world).1;
        log = record { level = my_warning; message = line (k.errno p.world) } ∷ p.log;
      } in
      (
        (minus_one, fd),
        q,
        refl,
        inr (
          refl,
          Opens-Closes opened fd w p.world q.world o (close_closes fd p.world),
          (line _, refl),
        ),
      )

  -- From the open socket on, in any world `w` before it was opened.
  bind_address-Binds :
      (w : k.World) (ip : Option ℕ) (bindaddr : Option (List ℕ)) (port : ℕ) (fd : ℤ)
      (p : Proc k.World)
      → Opens opened fd w p.world
      → (r : ℤ × ℤ) × (q : Proc k.World) × (bind_address k ip bindaddr port fd p ≡ some (r, q))
        × Binds w p r q
  bind_address-Binds w none bindaddr port fd p o =
      give_up-Binds w fd (λ e. address_err (shown bindaddr)) p o
  bind_address-Binds w (some ip) bindaddr port fd p o =
      let b = k.bind fd (record { ip = ip; port = port }) p.world in
      let o1 : Opens opened fd w b.1 =
        Opens-Same opened fd w p.world b.1 o (bind_same fd _ p.world) in
      let l = k.listen fd 1024 b.1 in
      let o2 : Opens opened fd w l.1 =
        Opens-Same opened fd w b.1 l.1 o1 (listen_same fd 1024 b.1) in
      elim (Bool-cases (is_minus_one b.0)) [
        | inl e ↦ rw e (give_up-Binds w fd bind_err (record p { world = b.1 }) o1)
        | inr e ↦ elim (Bool-cases (is_minus_one l.0)) [
          | inl e' ↦ rw (e, e') (give_up-Binds w fd listen_err (record p { world = l.1 }) o2)
          | inr e' ↦
              rw (e, e')
                (
                  (pos 0, fd),
                  record p { world = l.1 },
                  refl,
                  inl (refl, o2, listen_listens fd 1024 b.1 e', refl),
                )
        ]
      ]

  -- `Bind` gives 0 and a listening socket that is new, with nothing logged; or -1 with one warning,
  -- and the open descriptors are those from before: a socket whose set-up failed on the way is
  -- closed again.
  pub bind_socket_lem :
      (bindaddr : Option (List ℕ)) (port : ℕ) (p : Proc k.World)
      → (r : ℤ × ℤ) × (q : Proc k.World) × (bind_socket k bindaddr port p ≡ some (r, q))
        × Binds p.world p r q
  unfolding bind_socket
  bind_socket_lem bindaddr port p =
      let s = k.socket p.world in
      let w2 = (k.setsockopt s.0 (reuse_addr 1) s.1).1 in
      elim (Bool-cases (is_minus_one s.0)) [
        | inl e ↦ rw e (
          (minus_one, s.0),
          record p {
            world = s.1;
            log = record { level = my_warning; message = socket_err (k.errno s.1) } ∷ p.log;
          },
          refl,
          inr (refl, socket_fails p.world e, (socket_err (k.errno s.1), refl)),
        )
        | inr e ↦ rw e (
            bind_address-Binds p.world (bind_ip k.inet_aton bindaddr) bindaddr port s.0
              (record p { world = w2 })
              (Opens-Same opened s.0 p.world s.1 w2 (socket_opens p.world e)
                (setsockopt_same s.0 (reuse_addr 1) s.1)))
      ]

-- With the default `bindaddr`, the empty string, which `inet_aton` takes for no address, `Bind`
-- fails whatever the port and the state of the machine: it is not NULL, so that `Bind` does not ask
-- for all interfaces.
pub bind_socket-init_server_config :
    (k : Kernel)
    → k.inet_aton [] ≡ none
    → (port : ℕ) (p : Proc k.World)
    → (r : ℤ × ℤ) × (q : Proc k.World) × (bind_socket k (some (init_server_config.bindaddr)) port p
        ≡ some (r, q))
      × (r.0 ≡ minus_one)
unfolding bind_socket init_server_config
bind_socket-init_server_config k h port p = elim (Bool-cases (is_minus_one (k.socket p.world).0)) [
  | inl e ↦ rw e ((minus_one, (k.socket p.world).0), _, refl, refl)
  | inr e ↦ rw (e, h) ((minus_one, (k.socket p.world).0), _, refl, refl)
]
