-- ===== src/Slot.antt =====
-- A machine with room for one descriptor, for the tests of Setup and ListenThread.
use epoll_threads.Base.{
  ℕ, zero, suc, ◌+◌, ◌≤◌, ◌<◌, ◌≡◌, ◌≢◌, refl, Bool, true, false, ◌&&◌, [], none, some, ℤ, pos,
  negsuc, minus_one, is_minus_one, arith, ◌==◌,
}
use epoll_threads.Kernel.{Kernel, got}
use epoll_threads.Proc.{Proc}
use epoll_threads.Sim.{exact}
use epoll_threads.Setup.Opened.{Same, Opens, Closes, OpenFds}
use epoll_threads.Setup.Keeps.{Waiting}
use epoll_threads.Epoll.Laws.{EpollSet}
use epoll_threads.ListenThread.Serve.{Handing}

pub record Slot : Type 0 where
  pub taken : Bool
  pub listens : Bool
  pub rounds : ℕ
  pub waited : ℕ

abbrev is_five : ℤ → Bool
is_five (pos n) = n == 5
is_five (negsuc n) = false

abbrev open_at : Bool → Slot → ℤ × Slot
open_at true w = (minus_one, w)
open_at false w = (pos 5, record w { taken = true })

abbrev close_at : Bool → Slot → Slot
close_at true w = record w { taken = false }
close_at false w = w

-- The second wait from the end times out; the last one finds a client.
abbrev select_at : ℕ → ℕ → Slot → (ℤ × Bool × ℕ) × Slot
select_at zero tv w = ((pos 1, true, tv), w)
select_at (suc zero) tv w = ((pos 1, true, tv), record w { rounds = 0 })
select_at (suc (suc n)) tv w =
    ((pos 0, false, 0), record w { rounds = suc n; waited = w.waited + tv })

abbrev pub one_slot : Kernel
one_slot = record {
  World = Slot;
  errno = λ w. 111;
  shutdown = λ w. w.rounds == 0;
  recv = λ fd n w. (got [], w);
  send = λ fd bs w. (minus_one, w);
  close = λ fd w. (tt, close_at (is_five fd) w);
  gettimeofday_usec = λ w. (0, w);
  sleep_ms = λ n w. (tt, w);
  epoll_create = λ n w. open_at w.taken w;
  epoll_ctl = λ e c fd w. (minus_one, w);
  epoll_wait = λ e m w. (none, w);
  socket = λ w. open_at w.taken w;
  setsockopt = λ fd o w. (tt, w);
  fcntl_get = λ fd w. (some 2, w);
  fcntl_set = λ fd o w. (pos 0, w);
  inet_aton = λ s. none;
  inet_addr = λ s. 0;
  bind = λ fd a w. (pos 0, w);
  listen = λ fd n w. (pos 0, record w { listens = true });
  connect = λ fd a w. (minus_one, w);
  select = λ fd tv w. select_at w.rounds tv w;
  accept = λ fd w. open_at w.taken w;
  counters = exact;
}

abbrev pub opened_at : Slot → ℤ → Bool
opened_at w fd = is_five fd && w.taken

other_fd : (fd : ℤ) (b : Bool) → fd ≢ pos 5 → (is_five fd && b) ≡ false
other_fd (pos n) b ne = ground (arith, λ (e : n ≡ 5). ne cc)
other_fd (negsuc n) b ne = refl

pub open-Opens :
    (b : Bool) (w : Slot)
    → w.taken ≡ b
    → is_minus_one (open_at b w).0 ≡ false
    → Opens opened_at (open_at b w).0 w (open_at b w).1
open-Opens true w e h = cc
open-Opens false w e h = record {
  fresh = e;
  now = refl;
  others = λ fd ne. rw (other_fd fd true ne, other_fd fd w.taken ne) refl;
}

pub open_fails :
    (b : Bool) (w : Slot) → is_minus_one (open_at b w).0 ≡ true → Same opened_at w (open_at b w).1
open_fails true w h = λ fd. refl
open_fails false w h = cc

pub close_at-Closes :
    (fd : ℤ) (b : Bool) (w : Slot) → is_five fd ≡ b → Closes opened_at fd w (close_at b w)
close_at-Closes (pos n) true w e = record {
  now = ground arith;
  others = λ fd' ne.
      let same : n ≡ 5 = ground (arith, e) in
      rw (other_fd fd' false (rw (← same) ne), other_fd fd' w.taken (rw (← same) ne)) refl;
}
close_at-Closes (negsuc n) true w e = cc
close_at-Closes fd false w e = record { now = rw e refl; others = λ fd' ne. refl }

pub select_opened : (n tv : ℕ) (w : Slot) → Same opened_at w (select_at n tv w).1
select_opened zero tv w fd = refl
select_opened (suc zero) tv w fd = refl
select_opened (suc (suc n)) tv w fd = refl

pub select_fewer :
    (n tv : ℕ) (w : Slot)
    → w.rounds ≡ n
    → (w.rounds == 0) ≡ false
    → (select_at n tv w).1.rounds < w.rounds
select_fewer zero tv w e h = ground (arith, e)
select_fewer (suc zero) tv w e h = omega arith
select_fewer (suc (suc n)) tv w e h = omega arith

pub select_time :
    (n tv : ℕ) (w : Slot) → (select_at n tv w).1.waited + (select_at n tv w).0.2 ≤ w.waited + tv
select_time zero tv w = omega arith
select_time (suc zero) tv w = omega arith
select_time (suc (suc n)) tv w = omega arith

pub open_rounds : (b : Bool) (w : Slot) → (open_at b w).1.rounds ≤ w.rounds
open_rounds true w = omega arith
open_rounds false w = omega arith

pub open_time : (b : Bool) (w : Slot) → (open_at b w).1.waited ≡ w.waited
open_time true w = refl
open_time false w = refl

unfoldable pub slot_fds : OpenFds one_slot
slot_fds = record {
  opened = opened_at;
  listening = λ w fd. w.listens;
  socket_opens = λ w h. open-Opens w.taken w refl h;
  socket_fails = λ w h. open_fails w.taken w h;
  accept_opens = λ l w h. open-Opens w.taken w refl h;
  accept_fails = λ l w h. open_fails w.taken w h;
  close_closes = λ fd w. close_at-Closes fd (is_five fd) w refl;
  listen_listens = λ fd n w h. refl;
  setsockopt_same = λ fd o w fd'. refl;
  fcntl_get_same = λ fd w fd'. refl;
  fcntl_set_same = λ fd o w fd'. refl;
  bind_same = λ fd a w fd'. refl;
  listen_same = λ fd n w fd'. refl;
  connect_same = λ fd a w fd'. refl;
  select_same = λ fd tv w. select_opened w.rounds tv w;
}

abbrev pub slot_waiting : Waiting one_slot
slot_waiting = record {
  rounds = λ w. w.rounds;
  waited = λ w. w.waited;
  select_lt = λ fd tv w h. select_fewer w.rounds tv w refl h;
  accept_le = λ fd w. open_rounds w.taken w;
  select_waits = λ fd tv w. select_time w.rounds tv w;
  accept_waits = λ fd w. open_time w.taken w;
  setsockopt_waits = λ fd o w. refl;
  fcntl_get_waits = λ fd w. refl;
  fcntl_set_waits = λ fd o w. refl;
  setsockopt_le = λ fd o w. omega arith;
  fcntl_get_le = λ fd w. omega arith;
  fcntl_set_le = λ fd o w. omega arith;
}

abbrev pub idle : Proc Slot
idle = record {
  world = record { taken = false; listens = false; rounds = 2; waited = 0 };
  log = [];
  active = pos 0;
}

-- Nothing can be added to its interest lists.
abbrev pub slot_epoll : EpollSet one_slot
slot_epoll = record {
  interest = λ w epfd fd. none;
  ctl_done = λ e c fd w m h. cc;
  ctl_refused = λ e c fd w x h. refl;
}

pub close_rounds : (b : Bool) (w : Slot) → (close_at b w).rounds ≤ w.rounds
close_rounds true w = omega arith
close_rounds false w = omega arith

abbrev pub slot_handing : Handing one_slot slot_waiting
slot_handing = record {
  ctl_le = λ e c fd w. omega arith;
  close_le = λ fd w. close_rounds (is_five fd) w;
}
