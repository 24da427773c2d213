-- ===== src/Task/Frame.antt =====
-- The handlers of TaskThread.cpp, and iSocket.cpp below them: a relation that every system call of a
-- handler keeps is kept by the handler.
use epoll_threads.Base.{
  ℕ, zero, suc, ◌≡◌, Bool, true, false, List, [], ◌∷◌, ◌||◌, some, inl, inr, ◌⊎◌, ℤ, minus_one,
  refl, pos, negsuc, is_neg, Bool-cases, arith, Option-cases, All, length, take, drop, ◌-◌, ◌==◌,
  ◌++◌, if◌then◌else◌, ltb, ◌^◌,
}
use epoll_threads.Kernel.{Kernel, Event, Ctl, ctl_mod, ctl_del, Received, got, failed, eintr}
use epoll_threads.Proc.{
  M, Proc, Message, my_debug, my_warning, recv_err, recv_data, send_err, epoll_mod_err,
  epoll_del_err, event_err, client_closed, active_conns, pure, ◌>>=◌, call, look, say, when,
  min_bufsz,
}
use epoll_threads.Socket.{
  unless_interrupted, after_recv, recvn_loop, recvn, after_send, sendn_loop, sendn,
}
use epoll_threads.Epoll.{
  ctl_or_warn, on_bit, handle_event, i_epoll_change_mode, i_epoll_del, i_epoll_read, i_epoll_write,
  i_epoll_edge_triggered, with_mode, change_mask, handle_events,
}
use epoll_threads.Text.{c_string, filled}
use epoll_threads.Task.{
  greeting, i_read, i_write, i_error, i_close, atomic_dec, get_active_conns, nothing_moved,
  task_handlers,
}

-- The calls of `epoll_ctl` that the handlers make: a removal, or a change to read or write mode.
abbrev pub HandlerCtl : ℤ → Ctl → Type 0
HandlerCtl fd c =
    (c ≡ ctl_del)
    ⊎ ((mode : ℕ) × ((mode ≡ i_epoll_read) ⊎ (mode ≡ i_epoll_write))
        × (c
            ≡ ctl_mod
                (record { fd = fd; events = with_mode change_mask mode i_epoll_edge_triggered })))

module _ (k : Kernel) (R : k.World → k.World → Type 0) (R-refl : (w : k.World) → R w w)
    (R-trans : (u v w : k.World) → R u v → R v w → R u w) where
  -- Where `m` returns, its state is related to the one before.
  abbrev pub Keeps : {A : Type 0} → M k.World A → Type 0
  Keeps {A} m =
      (p : Proc k.World) (r : A) (q : Proc k.World) → m p ≡ some (r, q) → R p.world q.world

  pub Keeps-pure : {A : Type 0} (a : A) → Keeps (pure a)
  Keeps-pure a p r q e = let same : p ≡ q = cc in rw (← same) (R-refl p.world)

  pub Keeps-bind :
      {A B : Type 0} {m : M k.World A} {f : A → M k.World B}
      → Keeps m
      → ((a : A) → Keeps (f a))
      → Keeps (m >>= f)
  Keeps-bind {m = m} {f} km kf p r q e = elim (Option-cases (m p)) [
    | inl stuck ↦ ground (arith, e, stuck)
    | inr ((a, s), ran) ↦
        R-trans p.world s.world q.world (km p a s ran) (kf a s r q (ground (arith, e, ran)))
  ]

  pub Keeps-when : (b : Bool) {m : M k.World (Unit {0})} → Keeps m → Keeps (when b m)
  Keeps-when true km = km
  Keeps-when false km = Keeps-pure tt

  pub Keeps-if :
      {A : Type 0} (b : Bool) {m n : M k.World A} → Keeps m → Keeps n → Keeps (if b then m else n)
  Keeps-if true km kn = km
  Keeps-if false km kn = kn

  -- A step that leaves the machine alone.
  Keeps-still :
      {A : Type 0} {m : M k.World A} {a : Proc k.World → A} {f : Proc k.World → Proc k.World}
      → ((p : Proc k.World) → m p ≡ some (a p, f p))
      → ((p : Proc k.World) → (f p).world ≡ p.world)
      → Keeps m
  Keeps-still {f = f} runs same p r q e =
      let end : f p ≡ q = ground (arith, e, runs p) in rw (← end, same p) (R-refl p.world)

  pub Keeps-say : (level : ℕ) (line : Message) → Keeps (say level line)
  Keeps-say level line = Keeps-still (λ p. refl) (λ p. refl)

  pub Keeps-look : {A : Type 0} (f : k.World → A) → Keeps (look f)
  Keeps-look f = Keeps-still (λ p. refl) (λ p. refl)

  pub Keeps-call :
      {A : Type 0} (f : k.World → A × k.World) → ((w : k.World) → R w (f w).1) → Keeps (call f)
  Keeps-call f h p r q e = let end : (f p.world).1 ≡ q.world = cc in rw (← end) (h p.world)

  Keeps-unless :
      {A : Type 0} {again : M k.World A} (r : A)
      → Keeps again
      → Keeps (unless_interrupted k again r)
  Keeps-unless r again p s q e = elim (Bool-cases (k.errno p.world == eintr)) [
    | inl i ↦ again p s q (ground (arith, e, i))
    | inr i ↦ Keeps-pure r p s q (ground (arith, e, i))
  ]

  module _ (fd : ℤ) (keep : (n : ℕ) (w : k.World) → R w (k.recv fd n w).1) where
    after_recv-Keeps :
        {again : ℕ → List ℕ → M k.World (ℕ × List ℕ)} (n : ℕ) (out : List ℕ) (r : Received)
        → ((n : ℕ) (out : List ℕ) → Keeps (again n out))
        → Keeps (after_recv k again n out r)
    after_recv-Keeps n out (got (b ∷ bs)) again = again (n - length (b ∷ bs)) (out ++ b ∷ bs)
    after_recv-Keeps n out (got []) again = Keeps-unless (n, out) (again n out)
    after_recv-Keeps n out failed again = Keeps-unless (n, out) (again n out)

    recvn_loop-Keeps : (fuel n : ℕ) (out : List ℕ) → Keeps (recvn_loop k fuel fd n out)
    unfolding recvn_loop
    recvn_loop-Keeps zero n out p r q e = ground (arith, e)
    recvn_loop-Keeps (suc fuel) n out p r q e = elim (Bool-cases (n == 0)) [
      | inl full ↦ Keeps-pure (n, out) p r q (ground (arith, e, full))
      | inr room ↦
          Keeps-bind (Keeps-call (k.recv fd n) (keep n))
            (λ x. after_recv-Keeps n out x (recvn_loop-Keeps fuel)) p r q (ground (arith, e, room))
    ]

    pub recvn-Keeps : (fuel len : ℕ) → Keeps (recvn k fuel fd len)
    unfolding recvn
    recvn-Keeps fuel len =
        Keeps-if (ltb len (2 ^ 31))
          (Keeps-bind (recvn_loop-Keeps fuel len []) λ r. Keeps-pure (pos (len - r.0), r.1))
          (Keeps-pure (pos 0, []))

  module _ (fd : ℤ) (keep : (bs : List ℕ) (w : k.World) → R w (k.send fd bs w).1) where
    after_send-Keeps :
        {again : ℕ → List ℕ → M k.World ℤ} (n : ℕ) (str : List ℕ) (r : ℤ)
        → ((n : ℕ) (str : List ℕ) → Keeps (again n str))
        → Keeps (after_send k again n str r)
    after_send-Keeps n str (pos (suc m)) again = again (n - suc m) (drop (suc m) str)
    after_send-Keeps n str (pos zero) again = Keeps-unless minus_one (again n str)
    after_send-Keeps n str (negsuc x) again = Keeps-unless minus_one (again n str)

    sendn_loop-Keeps : (fuel len n : ℕ) (str : List ℕ) → Keeps (sendn_loop k fuel fd len n str)
    unfolding sendn_loop
    sendn_loop-Keeps zero len n str p r q e = ground (arith, e)
    sendn_loop-Keeps (suc fuel) len n str p r q e = elim (Bool-cases (n == 0)) [
      | inl done ↦ Keeps-pure (pos (len - n)) p r q (ground (arith, e, done))
      | inr more ↦
          Keeps-bind (Keeps-call (k.send fd (take n str)) (keep (take n str)))
            (λ x. after_send-Keeps n str x (sendn_loop-Keeps fuel len)) p r q
            (ground (arith, e, more))
    ]

    pub sendn-Keeps : (fuel len : ℕ) (str : List ℕ) → Keeps (sendn k fuel fd str len)
    unfolding sendn
    sendn-Keeps fuel len str =
        Keeps-if (ltb len (2 ^ 31)) (sendn_loop-Keeps fuel len len str) (Keeps-pure (pos 0))

  -- What the system calls of the handlers keep on `fd`.
  pub record Calls (epfd fd : ℤ) : Type 0 where
    pub recv : (n : ℕ) (w : k.World) → R w (k.recv fd n w).1
    pub send : (bs : List ℕ) (w : k.World) → R w (k.send fd bs w).1
    pub close : (w : k.World) → R w (k.close fd w).1
    pub time : (w : k.World) → R w (k.gettimeofday_usec w).1
    pub ctl : (c : Ctl) → HandlerCtl fd c → (w : k.World) → R w (k.epoll_ctl epfd c fd w).1

  module _ (fuel : ℕ) (epfd fd : ℤ) where
    abbrev pub Ctls : Type 0
    Ctls = (c : Ctl) → HandlerCtl fd c → (w : k.World) → R w (k.epoll_ctl epfd c fd w).1

    ctl-Keeps :
        (c : Ctl) (line : ℕ → Message)
        → HandlerCtl fd c
        → Ctls
        → Keeps (ctl_or_warn k epfd c fd line)
    ctl-Keeps c line is ctl = Keeps-bind (Keeps-call (k.epoll_ctl epfd c fd) (ctl c is)) λ r.
        Keeps-bind (Keeps-look k.errno)
          λ e. Keeps-bind (Keeps-when (is_neg r) (Keeps-say my_warning (line e))) λ _. Keeps-pure r

    pub change_mode-Keeps :
        (mode : ℕ)
        → (mode ≡ i_epoll_read) ⊎ (mode ≡ i_epoll_write)
        → Ctls
        → Keeps (i_epoll_change_mode k epfd fd mode i_epoll_edge_triggered)
    unfolding i_epoll_change_mode
    change_mode-Keeps mode one ctl =
        ctl-Keeps _ (λ e. epoll_mod_err e fd) (inr (mode, one, refl)) ctl

    del-Keeps : Ctls → Keeps (i_epoll_del k epfd fd)
    unfolding i_epoll_del
    del-Keeps ctl = ctl-Keeps ctl_del (λ e. epoll_del_err e fd) (inl refl) ctl

    pub i_read-Keeps :
        ((n : ℕ) (w : k.World) → R w (k.recv fd n w).1) → Ctls → Keeps (i_read k fuel epfd fd)
    unfolding i_read
    i_read-Keeps recv ctl = Keeps-bind (recvn-Keeps fd recv fuel min_bufsz) λ r.
        Keeps-if (nothing_moved r.0)
          (Keeps-bind (Keeps-say my_warning (recv_err r.0 fd)) λ _. Keeps-pure minus_one)
          (Keeps-bind (Keeps-say my_debug (recv_data r.0 (c_string (filled min_bufsz r.1)))) λ _.
            Keeps-bind (change_mode-Keeps i_epoll_write (inr refl) ctl) λ _. Keeps-pure (pos 0))

    pub i_write-Keeps :
        ((bs : List ℕ) (w : k.World) → R w (k.send fd bs w).1)
        → ((w : k.World) → R w (k.gettimeofday_usec w).1)
        → Ctls
        → Keeps (i_write k fuel epfd fd)
    unfolding i_write
    i_write-Keeps send time ctl = Keeps-bind (Keeps-call k.gettimeofday_usec time) λ usec.
        Keeps-bind (sendn-Keeps fd send fuel (length (greeting fd usec)) (greeting fd usec)) λ r.
          Keeps-if (nothing_moved r)
            (Keeps-bind (Keeps-say my_warning (send_err r fd)) λ _. Keeps-pure minus_one)
            (Keeps-bind (change_mode-Keeps i_epoll_read (inl refl) ctl) λ _. Keeps-pure (pos 0))

    pub i_error-Keeps : Keeps (i_error k fuel epfd fd)
    unfolding i_error
    i_error-Keeps =
        Keeps-bind (Keeps-look k.errno)
          λ e. Keeps-bind (Keeps-say my_warning (event_err e fd)) λ _. Keeps-pure minus_one

    pub i_close-Keeps :
        ((w : k.World) → R w (k.close fd w).1) → Ctls → Keeps (i_close k fuel epfd fd)
    unfolding i_close
    i_close-Keeps close ctl = Keeps-bind (Keeps-say my_debug (client_closed fd)) λ _.
        Keeps-bind (del-Keeps ctl) λ _. Keeps-bind (Keeps-call (k.close fd) close) λ _.
          Keeps-bind {m = atomic_dec k fuel epfd} (Keeps-still (λ p. refl) (λ p. refl)) λ _.
            Keeps-bind {m = get_active_conns k fuel epfd} (Keeps-still (λ p. refl) (λ p. refl))
              λ n. Keeps-bind (Keeps-say my_debug (active_conns n)) λ _. Keeps-pure (pos 0)

  Keeps-on_bit : (b : Bool) {act : M k.World ℤ} (r : ℤ) → Keeps act → Keeps (on_bit b act r)
  Keeps-on_bit true r ka = ka
  Keeps-on_bit false r ka = Keeps-pure r

  -- An event is handled by calls on its own socket.
  pub handle_event-Keeps :
      (fuel : ℕ) (epfd : ℤ) (ev : Event) (r : ℤ)
      → Calls epfd ev.fd
      → Keeps (handle_event k (task_handlers k fuel epfd) ev r)
  unfolding handle_event
  handle_event-Keeps fuel epfd ev r c =
      Keeps-bind (Keeps-on_bit ev.events.readable r (i_read-Keeps fuel epfd ev.fd c.recv c.ctl))
        λ r1.
          Keeps-bind
            (Keeps-on_bit ev.events.writable r1 (i_write-Keeps fuel epfd ev.fd c.send c.time c.ctl))
            λ r2.
              Keeps-bind
                (Keeps-on_bit (ev.events.hangup || ev.events.error || ev.events.rdhangup) r2
                  (i_error-Keeps fuel epfd ev.fd))
                λ r3.
                  Keeps-bind
                    (Keeps-when (is_neg r3)
                      (Keeps-bind (i_close-Keeps fuel epfd ev.fd c.close c.ctl) λ _. Keeps-pure tt))
                    λ _. Keeps-pure r3

  pub handle_events-Keeps :
      (fuel : ℕ) (epfd : ℤ) (evs : List Event) (r : ℤ)
      → All (λ ev. Calls epfd ev.fd) evs
      → Keeps (handle_events k (task_handlers k fuel epfd) evs r)
  unfolding handle_events
  handle_events-Keeps fuel epfd [] r cs = Keeps-pure r
  handle_events-Keeps fuel epfd (ev ∷ evs) r (c, cs) =
      Keeps-bind (handle_event-Keeps fuel epfd ev r c) λ s. handle_events-Keeps fuel epfd evs s cs
