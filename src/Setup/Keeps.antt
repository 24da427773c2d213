-- ===== src/Setup/Keeps.antt =====
-- The set-up of an accepted socket in iSocket::Listen (iSocket.cpp), and what it leaves as it is.
use epoll_threads.Base.{
  ℕ, ◌+◌, ◌≤◌, ◌<◌, ◌≡◌, refl, false, some, none, Option, ◌∷◌, inl, inr, ℤ, pos, minus_one, is_neg,
  Bool-cases, arith,
}
use Prim.Native.Nat.{bit_or}
use epoll_threads.Kernel.{Kernel, SocketOption, recv_buffer, send_buffer, linger}
use epoll_threads.Proc.{Proc, my_debug, new_client}
use epoll_threads.Setup.{set_non_block, after_getfl, set_up_client, o_nonblock, buffer_size}
use epoll_threads.Setup.Opened.{Same, Same-trans, OpenFds}

-- `rounds` bounds the calls of `select` before the shutdown flag is seen; `waited` is the time that
-- has been spent in `select`, which on Linux leaves in the timeout what it did not wait.
pub record Waiting (k : Kernel) : Type 0 where
  pub rounds : k.World → ℕ
  pub waited : k.World → ℕ
  pub select_lt :
      (fd : ℤ) (tv : ℕ) (w : k.World)
      → k.shutdown w ≡ false
      → rounds (k.select fd tv w).1 < rounds w
  pub accept_le : (fd : ℤ) (w : k.World) → rounds (k.accept fd w).1 ≤ rounds w
  pub select_waits :
      (fd : ℤ) (tv : ℕ) (w : k.World)
      → waited (k.select fd tv w).1 + (k.select fd tv w).0.2 ≤ waited w + tv
  pub accept_waits : (fd : ℤ) (w : k.World) → waited (k.accept fd w).1 ≡ waited w
  pub setsockopt_waits :
      (fd : ℤ) (o : SocketOption) (w : k.World) → waited (k.setsockopt fd o w).1 ≡ waited w
  pub fcntl_get_waits : (fd : ℤ) (w : k.World) → waited (k.fcntl_get fd w).1 ≡ waited w
  pub fcntl_set_waits : (fd : ℤ) (o : ℕ) (w : k.World) → waited (k.fcntl_set fd o w).1 ≡ waited w
  pub setsockopt_le :
      (fd : ℤ) (o : SocketOption) (w : k.World) → rounds (k.setsockopt fd o w).1 ≤ rounds w
  pub fcntl_get_le : (fd : ℤ) (w : k.World) → rounds (k.fcntl_get fd w).1 ≤ rounds w
  pub fcntl_set_le : (fd : ℤ) (o : ℕ) (w : k.World) → rounds (k.fcntl_set fd o w).1 ≤ rounds w

module _ (k : Kernel) (op : OpenFds k) (wt : Waiting k) where
  open op use {opened}
  open wt use {rounds, waited}

  -- Nothing opened, closed or waited for.
  abbrev pub Kept : k.World → k.World → Type 0
  Kept v w = Same opened v w × (waited w ≡ waited v) × (rounds w ≤ rounds v)

  pub Kept-trans : (u v w : k.World) → Kept u v → Kept v w → Kept u w
  Kept-trans u v w a b =
      (Same-trans opened u v w a.0 b.0, omega (arith, a.1, b.1), omega (arith, a.2, b.2))

  setsockopt-Kept : (fd : ℤ) (o : SocketOption) (w : k.World) → Kept w (k.setsockopt fd o w).1
  setsockopt-Kept fd o w =
      (op.setsockopt_same fd o w, wt.setsockopt_waits fd o w, wt.setsockopt_le fd o w)

  after_getfl-Kept :
      (fd : ℤ) (o : Option ℕ) (p : Proc k.World)
      → (r : ℤ) × (q : Proc k.World) × (after_getfl k fd o p ≡ some (r, q)) × Kept p.world q.world
  after_getfl-Kept fd none p = (minus_one, _, refl, (λ f. refl, refl, omega arith))
  after_getfl-Kept fd (some o) p =
      let o' = bit_or o o_nonblock in
      let kept : Kept p.world (k.fcntl_set fd o' p.world).1 = (
        op.fcntl_set_same fd o' p.world,
        wt.fcntl_set_waits fd o' p.world,
        wt.fcntl_set_le fd o' p.world,
      ) in
      elim (Bool-cases (is_neg (k.fcntl_set fd o' p.world).0)) [
        | inl e ↦ rw e (minus_one, _, refl, kept)
        | inr e ↦ rw e (pos 0, _, refl, kept)
      ]

  set_non_block-Kept :
      (fd : ℤ) (p : Proc k.World)
      → (r : ℤ) × (q : Proc k.World) × (set_non_block k fd p ≡ some (r, q)) × Kept p.world q.world
  unfolding set_non_block
  set_non_block-Kept fd p =
      let g = k.fcntl_get fd p.world in
      let (r, q, run, kept) = after_getfl-Kept fd g.0 (record p { world = g.1 }) in
      (
        r,
        q,
        run,
        Kept-trans p.world g.1 q.world
            (
              op.fcntl_get_same fd p.world,
              wt.fcntl_get_waits fd p.world,
              wt.fcntl_get_le fd p.world,
            )
            kept,
      )

  pub set_up_client-Kept :
      (fd : ℤ) (p : Proc k.World)
      → (q : Proc k.World) × (set_up_client k fd p ≡ some ((pos 0, fd), q)) × Kept p.world q.world
  set_up_client-Kept fd p =
      let w1 = (k.setsockopt fd (recv_buffer buffer_size) p.world).1 in
      let w2 = (k.setsockopt fd (send_buffer buffer_size) w1).1 in
      let w3 = (k.setsockopt fd (linger 1 0) w2).1 in
      let k1 : Kept p.world w1 = setsockopt-Kept fd (recv_buffer buffer_size) p.world in
      let k2 : Kept p.world w2 =
        Kept-trans p.world w1 w2 k1 (setsockopt-Kept fd (send_buffer buffer_size) w1) in
      let k3 : Kept p.world w3 = Kept-trans p.world w2 w3 k2 (setsockopt-Kept fd (linger 1 0) w2) in
      let (r, q, run, kept) = set_non_block-Kept fd (record p { world = w3 }) in
      (
        record q { log = record { level = my_debug; message = new_client } ∷ q.log },
        ground (arith, run),
        Kept-trans p.world w3 q.world k3 kept,
      )
