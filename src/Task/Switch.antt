-- ===== src/Task/Switch.antt =====
-- The change of mode at the end of TaskThread::iRead and iWrite (TaskThread.cpp), whose result the
-- handlers do not look at.
use epoll_threads.Base.{ℕ, ◌≡◌, ap, ◌∙◌, List, ◌∷◌, some, ◌⊎◌, inl, inr, true, is_neg, ℤ}
use epoll_threads.Kernel.{Kernel, Event, Ctl, ctl_mod}
use epoll_threads.Proc.{Proc, LogCall, Message, my_warning, epoll_mod_err}
use epoll_threads.Socket.Laws.{Stream}
use epoll_threads.Epoll.{i_epoll_edge_triggered, with_mode, change_mask, i_epoll_change_mode}
use epoll_threads.Epoll.Laws.{EpollSet}
use epoll_threads.Epoll.Modes.{i_epoll_change_mode_lem}

abbrev pub logged : ℕ → Message → LogCall
logged level m = record { level = level; message = m }

module _ (k : Kernel) (st : Stream k) (es : EpollSet k) (epfd sockfd : ℤ) where
  open st use {incoming, outgoing}
  open es use {interest}

  abbrev pub switching : ℕ → Ctl
  switching mode =
      ctl_mod (record { fd = sockfd; events = with_mode change_mask mode i_epoll_edge_triggered })

  -- The socket is in `mode` and `before` is all that was logged, or `epoll_ctl` failed, which is
  -- logged and has no other effect.
  abbrev pub Switched : ℕ → List LogCall → Proc k.World → Type 0
  Switched mode before q =
      ((interest q.world epfd sockfd ≡ some (with_mode change_mask mode i_epoll_edge_triggered))
        × (q.log ≡ before))
      ⊎ (((w : k.World) × (is_neg (k.epoll_ctl epfd (switching mode) sockfd w).0 ≡ true))
          × (q.log ≡ logged my_warning (epoll_mod_err (k.errno q.world) sockfd) ∷ before))

  pub switch :
      (mode : ℕ) (before : List LogCall) (p : Proc k.World)
      → p.log ≡ before
      → (r : ℤ) × (q : Proc k.World) × (i_epoll_change_mode k epfd sockfd mode
            i_epoll_edge_triggered p
          ≡ some (r, q))
        × Switched mode before q
        × (q.active ≡ p.active)
        × ((fd : ℤ) → outgoing q.world fd ≡ outgoing p.world fd)
        × ((fd : ℤ) → incoming q.world fd ≡ incoming p.world fd)
  switch mode before p e =
      let (r, q, run, d) = i_epoll_change_mode_lem k es epfd sockfd mode i_epoll_edge_triggered p in
      let ev : Event = record {
        fd = sockfd;
        events = with_mode change_mask mode i_epoll_edge_triggered;
      } in
      (
        r,
        q,
        run,
        elim d.outcome [
          | inl (_, i, l) ↦ inl (i, l ∙ e)
          | inr (neg, _, l) ↦ inr (
            (p.world, rw (← d.result) neg),
            l ∙ ap (◌∷◌ (logged my_warning (epoll_mod_err (k.errno q.world) sockfd))) e,
          )
        ],
        d.active,
        λ fd. rw d.world (st.ctl_outgoing epfd (ctl_mod ev) sockfd fd p.world),
        λ fd. rw d.world (st.ctl_incoming epfd (ctl_mod ev) sockfd fd p.world),
      )
