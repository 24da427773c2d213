-- ===== src/Setup/Opened.antt =====
-- What the set-up of sockets relies on: which descriptors are open after each system call.
use epoll_threads.Base.{
  ℕ, ◌≡◌, ◌≢◌, sym, ap, ◌∙◌, Bool, true, false, inl, inr, ℤ, is_minus_one, same_or_other,
}
use epoll_threads.Kernel.{Kernel, SocketOption, Address}

module _ {W : Type 0} (opened : W → ℤ → Bool) where
  -- The open descriptors stay as they were.
  abbrev pub Same : W → W → Type 0
  Same v w = (fd : ℤ) → opened w fd ≡ opened v fd

  -- `fd` is open now and was not, and the others stay as they were.
  pub record Opens (fd : ℤ) (v w : W) : Type 0 where
    pub fresh : opened v fd ≡ false
    pub now : opened w fd ≡ true
    pub others : (fd' : ℤ) → fd' ≢ fd → opened w fd' ≡ opened v fd'

  pub record Closes (fd : ℤ) (v w : W) : Type 0 where
    pub now : opened w fd ≡ false
    pub others : (fd' : ℤ) → fd' ≢ fd → opened w fd' ≡ opened v fd'

  pub Same-trans : (u v w : W) → Same u v → Same v w → Same u w
  Same-trans u v w a b fd = b fd ∙ a fd

  pub Opens-Same : (fd : ℤ) (u v w : W) → Opens fd u v → Same v w → Opens fd u w
  Opens-Same fd u v w a b = record {
    fresh = a.fresh;
    now = b fd ∙ a.now;
    others = λ fd' ne. b fd' ∙ a.others fd' ne;
  }

  pub Same-Opens : (fd : ℤ) (u v w : W) → Same u v → Opens fd v w → Opens fd u w
  Same-Opens fd u v w a b = record {
    fresh = sym (a fd) ∙ b.fresh;
    now = b.now;
    others = λ fd' ne. b.others fd' ne ∙ a fd';
  }

  -- A socket that is opened and closed again leaves no trace.
  pub Opens-Closes : (fd : ℤ) (u v w : W) → Opens fd u v → Closes fd v w → Same u w
  Opens-Closes fd u v w a b fd' = elim (same_or_other fd' fd) [
    | inl e ↦ ap (opened w) e ∙ b.now ∙ sym a.fresh ∙ ap (opened u) (sym e)
    | inr ne ↦ b.others fd' ne ∙ a.others fd' ne
  ]

-- `listening` is what `listen` sets.
pub record OpenFds (k : Kernel) : Type 0 where
  pub opened : k.World → ℤ → Bool
  pub listening : k.World → ℤ → Bool
  pub socket_opens :
      (w : k.World)
      → is_minus_one (k.socket w).0 ≡ false
      → Opens opened (k.socket w).0 w (k.socket w).1
  pub socket_fails :
      (w : k.World) → is_minus_one (k.socket w).0 ≡ true → Same opened w (k.socket w).1
  pub accept_opens :
      (l : ℤ) (w : k.World)
      → is_minus_one (k.accept l w).0 ≡ false
      → Opens opened (k.accept l w).0 w (k.accept l w).1
  pub accept_fails :
      (l : ℤ) (w : k.World) → is_minus_one (k.accept l w).0 ≡ true → Same opened w (k.accept l w).1
  pub close_closes : (fd : ℤ) (w : k.World) → Closes opened fd w (k.close fd w).1
  pub listen_listens :
      (fd : ℤ) (n : ℕ) (w : k.World)
      → is_minus_one (k.listen fd n w).0 ≡ false
      → listening (k.listen fd n w).1 fd ≡ true
  pub setsockopt_same :
      (fd : ℤ) (o : SocketOption) (w : k.World) → Same opened w (k.setsockopt fd o w).1
  pub fcntl_get_same : (fd : ℤ) (w : k.World) → Same opened w (k.fcntl_get fd w).1
  pub fcntl_set_same : (fd : ℤ) (o : ℕ) (w : k.World) → Same opened w (k.fcntl_set fd o w).1
  pub bind_same : (fd : ℤ) (a : Address) (w : k.World) → Same opened w (k.bind fd a w).1
  pub listen_same : (fd : ℤ) (n : ℕ) (w : k.World) → Same opened w (k.listen fd n w).1
  pub connect_same : (fd : ℤ) (a : Address) (w : k.World) → Same opened w (k.connect fd a w).1
  pub select_same : (fd : ℤ) (tv : ℕ) (w : k.World) → Same opened w (k.select fd tv w).1
