-- ===== src/Epoll/Modes.antt =====
-- i_epoll_add, i_epoll_del and i_epoll_change_mode (iEpoll.cpp): the interest list behind each.
use epoll_threads.Base.{
  ℕ, ◌≡◌, refl, sym, Bool, true, false, ◌∷◌, some, ◌⊎◌, ◌||◌, ◌==◌, inl, inr, ℤ, pos, negsuc,
  is_neg, arith,
}
use epoll_threads.Kernel.{Kernel, Mask, Ctl, ctl_add, ctl_mod, ctl_del}
use epoll_threads.Proc.{M, Proc, Message, my_warning, epoll_add_err, epoll_del_err, epoll_mod_err}
use epoll_threads.Epoll.Laws.{EpollSet, wanted}
use epoll_threads.Epoll.{
  i_epoll_read, i_epoll_write, i_epoll_rw, with_mode, add_mask, change_mask, ctl_or_warn,
  i_epoll_add, i_epoll_del, i_epoll_change_mode,
}

pub sign-cases : (r : ℤ) → ((m : ℕ) × (r ≡ pos m)) ⊎ ((e : ℕ) × (r ≡ negsuc e))
sign-cases (pos m) = inl (m, refl)
sign-cases (negsuc e) = inr (e, refl)

module _ (k : Kernel) (es : EpollSet k) (epfd sockfd : ℤ) where
  open es use {interest}

  abbrev pub answer : Ctl → Proc k.World → ℤ × k.World
  answer c p = k.epoll_ctl epfd c sockfd p.world

  -- A call that ends in `epoll_ctl` with `c`: the socket has the mask asked for and nothing is
  -- logged, or nothing changes and the failure is logged with its `errno`.
  pub record Registers (c : Ctl) (line : ℕ → Message) (p : Proc k.World) (r : ℤ) (q : Proc k.World)
      : Type 0 where
    pub world : q.world ≡ (k.epoll_ctl epfd c sockfd p.world).1
    pub active : q.active ≡ p.active
    pub result : r ≡ (k.epoll_ctl epfd c sockfd p.world).0
    pub outcome :
        ((is_neg r ≡ false) × (interest q.world epfd sockfd ≡ wanted c) × (q.log ≡ p.log))
        ⊎ ((is_neg r ≡ true)
            × (interest q.world epfd sockfd ≡ interest p.world epfd sockfd)
            × (q.log ≡ record { level = my_warning; message = line (k.errno q.world) } ∷ p.log))

  abbrev after : Ctl → Proc k.World → Proc k.World
  after c p = record p { world = (answer c p).1 }

  abbrev warned : Ctl → (ℕ → Message) → Proc k.World → Proc k.World
  warned c line p = record p {
    world = (answer c p).1;
    log = record { level = my_warning; message = line (k.errno (answer c p).1) } ∷ p.log;
  }

  abbrev pub Returns : M k.World ℤ → Ctl → (ℕ → Message) → Proc k.World → Type 0
  Returns m c line p = (r : ℤ) × (q : Proc k.World) × (m p ≡ some (r, q)) × Registers c line p r q

  ctl_or_warn_lem :
      (c : Ctl) (line : ℕ → Message) (p : Proc k.World)
      → Returns (ctl_or_warn k epfd c sockfd line) c line p
  ctl_or_warn_lem c line p = elim (sign-cases (answer c p).0) [
    | inl (m, e) ↦ (
      pos m,
      after c p,
      rw e,
      record {
        world = refl;
        active = refl;
        result = sym e;
        outcome = inl (refl, es.ctl_done epfd c sockfd p.world m e, refl);
      },
    )
    | inr (x, e) ↦ (
      negsuc x,
      warned c line p,
      rw e,
      record {
        world = refl;
        active = refl;
        result = sym e;
        outcome = inr (refl, es.ctl_refused epfd c sockfd p.world x e, refl);
      },
    )
  ]

  -- `i_epoll_add` asks for the events of the mode, errors and hang-ups of both kinds.
  pub i_epoll_add_lem :
      (mode behavior : ℕ) (p : Proc k.World)
      → Returns
          (i_epoll_add k epfd sockfd mode behavior)
          (ctl_add (record { fd = sockfd; events = with_mode add_mask mode behavior }))
          (λ e. epoll_add_err e sockfd)
          p
  unfolding i_epoll_add
  i_epoll_add_lem mode behavior p = ctl_or_warn_lem _ (λ e. epoll_add_err e sockfd) p

  -- `i_epoll_change_mode` asks for the events of the mode, errors and full hang-ups.
  pub i_epoll_change_mode_lem :
      (mode behavior : ℕ) (p : Proc k.World)
      → Returns
          (i_epoll_change_mode k epfd sockfd mode behavior)
          (ctl_mod (record { fd = sockfd; events = with_mode change_mask mode behavior }))
          (λ e. epoll_mod_err e sockfd)
          p
  unfolding i_epoll_change_mode
  i_epoll_change_mode_lem mode behavior p = ctl_or_warn_lem _ (λ e. epoll_mod_err e sockfd) p

  pub i_epoll_del_lem :
      (p : Proc k.World)
      → Returns (i_epoll_del k epfd sockfd) ctl_del (λ e. epoll_del_err e sockfd) p
  unfolding i_epoll_del
  i_epoll_del_lem p = ctl_or_warn_lem ctl_del (λ e. epoll_del_err e sockfd) p

-- The bits of a mask for the two directions of the traffic.
abbrev pub directions : Mask → Bool × Bool
directions m = (m.readable, m.writable)

-- A socket in read mode is asked for input alone, in write mode for room to write alone, in the
-- mixed mode for both, and in any other mode for neither; errors and hang-ups are asked for always.
-- Half-closed peers (EPOLLRDHUP) are asked for by `i_epoll_add` only: every change of mode drops it.
pub with_mode-directions :
    (mode behavior : ℕ)
    → (directions (with_mode add_mask mode behavior)
        ≡ (mode == i_epoll_read || mode == i_epoll_rw, mode == i_epoll_write || mode == i_epoll_rw))
      × (directions (with_mode change_mask mode behavior)
          ≡ directions (with_mode add_mask mode behavior))
      × ((with_mode add_mask mode behavior).rdhangup ≡ true)
      × ((with_mode change_mask mode behavior).rdhangup ≡ false)
unfolding with_mode
with_mode-directions mode behavior = ground arith
