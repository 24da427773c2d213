-- ===== src/Sim.antt =====
-- A small machine, for the tests: one connection, one interest list, a script of events. It meets
-- the laws that the theorems on connections take of the system calls.
use epoll_threads.Base.{
  ℕ, zero, suc, ◌-◌, ◌<◌, ◌≤◌, ◌≡◌, ◌≢◌, refl, sym, ap, true, false, List, [], ◌∷◌, ◌++◌, Option,
  none, some, ℤ, pos, negsuc, minus_one, ◌+ℤ◌, length, take, drop, take_all, length-take_le, arith,
  take-append-drop, ◌==◌,
}
use epoll_threads.Kernel.{Kernel, Atomic, Mask, Event, Received, got, failed, eintr}
use epoll_threads.Proc.{Proc}
use epoll_threads.Socket.Laws.{Stream, Patience, CleanEnd}
use epoll_threads.Epoll.Laws.{EpollSet, wanted}
use epoll_threads.Epoll.Halts.{Shutdown}

pub record Machine : Type 0 where
  pub err : ℕ
  pub inbox : List ℕ
  pub outbox : List ℕ
  pub signals : ℕ
  pub rounds : ℕ
  pub mask : Option Mask
  pub script : List (List Event)

-- The pending signals interrupt first; an empty inbox is the end of the stream.
abbrev recv_at : ℕ → ℕ → Machine → Received × Machine
recv_at (suc s) n w = (failed, record w { err = eintr; signals = s })
recv_at zero n w = (got (take n w.inbox), record w { err = 0; inbox = drop n w.inbox })

abbrev send_at : ℕ → List ℕ → Machine → ℤ × Machine
send_at (suc s) bs w = (minus_one, record w { err = eintr; signals = s })
send_at zero bs w = (pos (length bs), record w { outbox = w.outbox ++ bs })

abbrev next_events : List (List Event) → Option (List Event)
next_events [] = none
next_events (evs ∷ _) = some evs

abbrev rest_of : List (List Event) → List (List Event)
rest_of [] = []
rest_of (_ ∷ more) = more

abbrev pub exact : Atomic
exact = record {
  inc = λ c. c +ℤ pos 1;
  dec = λ c. c +ℤ negsuc 0;
  inc_lem = λ c h. refl;
  dec_lem = λ c h. refl;
}

abbrev pub sim : Kernel
sim = record {
  World = Machine;
  errno = λ w. w.err;
  shutdown = λ w. w.rounds == 0;
  recv = λ fd n w. recv_at w.signals n w;
  send = λ fd bs w. send_at w.signals bs w;
  close = λ fd w. (tt, w);
  gettimeofday_usec = λ w. (7, w);
  sleep_ms = λ n w. (tt, w);
  epoll_create = λ n w. (pos 4, w);
  epoll_ctl = λ e c fd w. (pos 0, record w { mask = wanted c });
  epoll_wait = λ e m w.
      (next_events w.script, record w { script = rest_of w.script; rounds = w.rounds - 1 });
  socket = λ w. (pos 5, w);
  setsockopt = λ fd o w. (tt, w);
  fcntl_get = λ fd w. (some 2, w);
  fcntl_set = λ fd o w. (pos 0, w);
  inet_aton = λ s. none;
  inet_addr = λ s. 0;
  bind = λ fd a w. (pos 0, w);
  listen = λ fd n w. (pos 0, w);
  connect = λ fd a w. (pos 0, w);
  select = λ fd tv w. ((pos 1, true, tv), w);
  accept = λ fd w. (pos 6, w);
  counters = exact;
}

pub recv_got_at :
    (s n : ℕ) (w : Machine) (bs : List ℕ)
    → (recv_at s n w).0 ≡ got bs
    → (length bs ≤ n) × (w.inbox ≡ bs ++ (recv_at s n w).1.inbox)
recv_got_at (suc s) n w bs e = cc
recv_got_at zero n w bs e =
    let same : take n w.inbox ≡ bs = cc in
    rw (← same) (length-take_le n w.inbox, sym (take-append-drop n w.inbox))

pub recv_failed_at :
    (s n : ℕ) (w : Machine) → (recv_at s n w).0 ≡ failed → (recv_at s n w).1.inbox ≡ w.inbox
recv_failed_at (suc s) n w e = refl
recv_failed_at zero n w e = cc

pub recv_lt_at :
    (s n : ℕ) (w : Machine)
    → w.signals ≡ s
    → (recv_at s n w).0 ≡ failed
    → (recv_at s n w).1.signals < w.signals
recv_lt_at (suc s) n w e f = omega arith
recv_lt_at zero n w e f = cc

pub recv_le_at : (s n : ℕ) (w : Machine) → w.signals ≡ s → (recv_at s n w).1.signals ≤ w.signals
recv_le_at (suc s) n w e = omega arith
recv_le_at zero n w e = omega arith

pub recv_clean_at :
    (s n : ℕ) (w : Machine) → (recv_at s n w).0 ≡ got [] → (recv_at s n w).1.err ≢ eintr
recv_clean_at (suc s) n w e = cc
recv_clean_at zero n w e = omega arith

pub send_sent_at :
    (s : ℕ) (bs : List ℕ) (w : Machine) (m : ℕ)
    → (send_at s bs w).0 ≡ pos m
    → (m ≤ length bs) × ((send_at s bs w).1.outbox ≡ w.outbox ++ take m bs)
send_sent_at (suc s) bs w m e = cc
send_sent_at zero bs w m e =
    let same : length bs ≡ m = cc in
    rw (← same) (omega arith, ap (◌++◌ w.outbox) (sym (take_all (length bs) bs (omega arith))))

pub send_failed_at :
    (s : ℕ) (bs : List ℕ) (w : Machine) (x : ℕ)
    → (send_at s bs w).0 ≡ negsuc x
    → (send_at s bs w).1.outbox ≡ w.outbox
send_failed_at (suc s) bs w x e = refl
send_failed_at zero bs w x e = cc

pub send_lt_at :
    (s : ℕ) (bs : List ℕ) (w : Machine) (x : ℕ)
    → w.signals ≡ s
    → (send_at s bs w).0 ≡ negsuc x
    → (send_at s bs w).1.signals < w.signals
send_lt_at (suc s) bs w x e f = omega arith
send_lt_at zero bs w x e f = cc

pub send_le_at :
    (s : ℕ) (bs : List ℕ) (w : Machine) → w.signals ≡ s → (send_at s bs w).1.signals ≤ w.signals
send_le_at (suc s) bs w e = omega arith
send_le_at zero bs w e = omega arith

pub send_ne_zero_at : (s b : ℕ) (bs : List ℕ) (w : Machine) → (send_at s (b ∷ bs) w).0 ≢ pos 0
send_ne_zero_at (suc s) b bs w e = cc
send_ne_zero_at zero b bs w e = cc

pub recv_rounds_at : (s n : ℕ) (w : Machine) → (recv_at s n w).1.rounds ≤ w.rounds
recv_rounds_at (suc s) n w = omega arith
recv_rounds_at zero n w = omega arith

pub send_rounds_at : (s : ℕ) (bs : List ℕ) (w : Machine) → (send_at s bs w).1.rounds ≤ w.rounds
send_rounds_at (suc s) bs w = omega arith
send_rounds_at zero bs w = omega arith

unfoldable pub sim_stream : Stream sim
sim_stream = record {
  incoming = λ w fd. w.inbox;
  outgoing = λ w fd. w.outbox;
  recv_got = λ fd n w bs e. recv_got_at w.signals n w bs e;
  recv_failed = λ fd n w e. recv_failed_at w.signals n w e;
  send_sent = λ fd bs w m e. send_sent_at w.signals bs w m e;
  send_failed = λ fd bs w x e. send_failed_at w.signals bs w x e;
  time_outgoing = λ fd w. refl;
  ctl_outgoing = λ e c s fd w. refl;
  ctl_incoming = λ e c s fd w. refl;
}

abbrev pub sim_patience : Patience sim
sim_patience = record {
  signals = λ w. w.signals;
  steady = record {
    recv_le = λ fd n w. recv_le_at w.signals n w refl;
    send_le = λ fd bs w. send_le_at w.signals bs w refl;
    close_le = λ fd w. omega arith;
    time_le = λ w. omega arith;
    ctl_le = λ e c fd w. omega arith;
    wait_le = λ e m w. omega arith;
  };
  recv_lt = λ fd n w e i. recv_lt_at w.signals n w refl e;
  send_lt = λ fd bs w x e i. send_lt_at w.signals bs w x refl e;
  send_ne_zero = λ fd b bs w e. send_ne_zero_at w.signals b bs w e;
}

pub sim_clean : CleanEnd sim
sim_clean fd n w e = recv_clean_at w.signals n w e

unfoldable pub sim_epoll : EpollSet sim
sim_epoll = record {
  interest = λ w epfd fd. w.mask;
  ctl_done = λ e c fd w m h. refl;
  ctl_refused = λ e c fd w x h. cc;
}

pub wait_lt_at : (r : ℕ) → (r == 0) ≡ false → r - 1 < r
wait_lt_at r h = ground arith

abbrev pub sim_shutdown : Shutdown sim
sim_shutdown = record {
  rounds = λ w. w.rounds;
  steady = record {
    recv_le = λ fd n w. recv_rounds_at w.signals n w;
    send_le = λ fd bs w. send_rounds_at w.signals bs w;
    close_le = λ fd w. omega arith;
    time_le = λ w. omega arith;
    ctl_le = λ e c fd w. omega arith;
    wait_le = λ e m w. omega arith;
  };
  wait_lt = λ e m w h. wait_lt_at w.rounds h;
}

-- Two requests' bytes are in, one signal is pending, and the fourth wait sees the flag.
abbrev pub busy : Machine
busy = record {
  err = 0;
  inbox = 72 ∷ 105 ∷ [];
  outbox = [];
  signals = 1;
  rounds = 3;
  mask = none;
  script = [];
}

abbrev pub busy_proc : Proc Machine
busy_proc = record { world = busy; log = []; active = pos 2 }
