-- ===== src/Epoll.antt =====
-- iEpoll.cpp: the epoll set of a worker, and the loop that hands its events to the handlers of a
-- subclass.
pub mod Laws
pub mod Modes
pub mod Dispatch
pub mod Halts
use epoll_threads.Base.{
  ℕ, zero, suc, ◌^◌, Bool, true, false, not, ◌||◌, List, [], ◌∷◌, Option, none, some, ℤ, pos,
  minus_one, is_neg, is_minus_one, ◌==◌, if◌then◌else◌,
}
use epoll_threads.Kernel.{Kernel, Mask, Event, Ctl, ctl_add, ctl_mod, ctl_del}
use epoll_threads.Proc.{
  M, Proc, Message, pure, ◌>>=◌, ◌>>◌, call, look, say, when, my_warning, epoll_create_err,
  epoll_add_err, epoll_del_err, epoll_mod_err,
}

-- Define.h
abbrev pub i_epoll_read : ℕ
i_epoll_read = 0

abbrev pub i_epoll_write : ℕ
i_epoll_write = 1

abbrev pub i_epoll_rw : ℕ
i_epoll_rw = 2

abbrev pub i_epoll_level_triggered : ℕ
i_epoll_level_triggered = 2

-- EPOLLET, as a bit pattern.
abbrev pub i_epoll_edge_triggered : ℕ
i_epoll_edge_triggered = 2 ^ 31

-- The `if` on `behavior` and the `switch` on the mode, from a mask that holds the bits set before.
unfoldable pub with_mode : Mask → ℕ → ℕ → Mask
with_mode m mode behavior = record m {
  edge = m.edge || (behavior == i_epoll_edge_triggered);
  readable = m.readable || (mode == i_epoll_read) || (mode == i_epoll_rw);
  writable = m.writable || (mode == i_epoll_write) || (mode == i_epoll_rw);
}

-- EPOLLERR | EPOLLHUP | EPOLLRDHUP
abbrev pub add_mask : Mask
add_mask = record {
  readable = false;
  writable = false;
  error = true;
  hangup = true;
  rdhangup = true;
  edge = false;
}

-- EPOLLERR | EPOLLHUP
abbrev pub change_mask : Mask
change_mask = record add_mask { rdhangup = false }

-- The `iRead`, `iWrite`, `iError` and `iClose` of a subclass. (`iTimeout` is never called.)
pub record Handlers (W : Type 0) : Type 0 where
  pub i_read : ℤ → M W ℤ
  pub i_write : ℤ → M W ℤ
  pub i_error : ℤ → M W ℤ
  pub i_close : ℤ → M W ℤ

-- A handler under its `if`: `nRet` keeps its value where the bit is not set.
abbrev pub on_bit : {W : Type 0} → Bool → M W ℤ → ℤ → M W ℤ
on_bit true act ret = act
on_bit false act ret = pure ret

-- The events of one `epoll_wait`; a `num_fds` of -1 leaves the inner loop at once.
abbrev pub ready : Option (List Event) → List Event
ready none = []
ready (some evs) = evs

module _ (k : Kernel) where
  open k use {World, errno, shutdown, epoll_create, epoll_ctl, epoll_wait}

  -- `epoll_ctl`, and a warning with its `errno` if it fails.
  abbrev pub ctl_or_warn : ℤ → Ctl → ℤ → (ℕ → Message) → M World ℤ
  ctl_or_warn epfd c sockfd line = do
    r ← call (epoll_ctl epfd c sockfd)
    e ← look errno
    when (is_neg r) (say my_warning (line e))
    pure r

  -- The new `m_epfd` and the result.
  unfoldable pub i_epoll_create : ℤ → M World (ℤ × ℤ)
  i_epoll_create capacity = do
    epfd ← call (epoll_create capacity)
    if is_minus_one epfd
        then (say my_warning epoll_create_err >> pure (minus_one, epfd))
        else pure (pos 0, epfd)

  unfoldable pub i_epoll_add : ℤ → ℤ → ℕ → ℕ → M World ℤ
  i_epoll_add epfd sockfd init_mode behavior =
      let ev : Event = record { fd = sockfd; events = with_mode add_mask init_mode behavior } in
      ctl_or_warn epfd (ctl_add ev) sockfd (λ e. epoll_add_err e sockfd)

  unfoldable pub i_epoll_del : ℤ → ℤ → M World ℤ
  i_epoll_del epfd sockfd = ctl_or_warn epfd ctl_del sockfd (λ e. epoll_del_err e sockfd)

  unfoldable pub i_epoll_change_mode : ℤ → ℤ → ℕ → ℕ → M World ℤ
  i_epoll_change_mode epfd sockfd mode behavior =
      let ev : Event = record { fd = sockfd; events = with_mode change_mask mode behavior } in
      ctl_or_warn epfd (ctl_mod ev) sockfd (λ e. epoll_mod_err e sockfd)

  module _ (h : Handlers World) where
    -- The body of the loop over the events; `ret` is `nRet`, which is not reset between events.
    unfoldable pub handle_event : Event → ℤ → M World ℤ
    handle_event ev ret = do
      r1 ← on_bit ev.events.readable (h.i_read ev.fd) ret
      r2 ← on_bit ev.events.writable (h.i_write ev.fd) r1
      r3 ← on_bit (ev.events.hangup || ev.events.error || ev.events.rdhangup) (h.i_error ev.fd) r2
      when (is_neg r3) (h.i_close ev.fd >> pure tt)
      pure r3

    unfoldable pub handle_events : List Event → ℤ → M World ℤ
    handle_events [] ret = pure ret
    handle_events (ev ∷ evs) ret = handle_event ev ret >>= handle_events evs

    -- `while (!g_Server.shutdown)`, with `fuel` rounds.
    unfoldable pub wait_loop : ℕ → ℤ → ℤ → ℤ → M World ℤ
    wait_loop zero epfd maxevents ret p = none
    wait_loop (suc fuel) epfd maxevents ret p =
        let round =
          (do
            evs ← call (epoll_wait epfd maxevents)
            ret' ← handle_events (ready evs) ret
            wait_loop fuel epfd maxevents ret')
            p in
        if shutdown p.world then some (pos 0, p) else round

    unfoldable pub i_epoll_wait : ℕ → ℤ → ℤ → M World ℤ
    i_epoll_wait fuel epfd maxevents = wait_loop fuel epfd maxevents minus_one
