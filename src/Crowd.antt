-- ===== src/Crowd.antt =====
-- A small machine with many connections, for the tests: it meets the laws that keep the sockets of a
-- worker apart.
use epoll_threads.Base.{
  ℕ, ◌-◌, ◌<◌, ◌≤◌, ◌≡◌, ◌≢◌, ◌⊎◌, inl, inr, ◌||◌, All, Bool-cases, refl, sym, ap, Bool, true,
  false, List, [], ◌∷◌, ◌++◌, Option, none, some, ℤ, pos, negsuc, length, take, drop, take_all,
  length-take_le, arith, take-append-drop, ◌==◌, if◌then◌else◌,
}
use epoll_threads.Kernel.{Kernel, Mask, Event, got}
use epoll_threads.Proc.{Proc}
use epoll_threads.Socket.Laws.{Stream, Patience, CleanEnd}
use epoll_threads.Epoll.Laws.{EpollSet, wanted}
use epoll_threads.Sim.{sim}
use epoll_threads.Task.Conversation.{TwoWays}
use epoll_threads.Task.Batch.{Separate}
use epoll_threads.Epoll.Halts.{Shutdown}
use epoll_threads.Task.Interest.{ReportedBy, Reporting}

abbrev pub same : ℤ → ℤ → Bool
same (pos m) (pos n) = m == n
same (negsuc m) (negsuc n) = m == n
same (pos m) (negsuc n) = false
same (negsuc m) (pos n) = false

pub same_refl : (a : ℤ) → same a a ≡ true
same_refl (pos n) = ground arith
same_refl (negsuc n) = ground arith

same_apart : (a b : ℤ) → a ≢ b → same a b ≡ false
same_apart (pos m) (pos n) ne = ground (arith, λ (e : m ≡ n). ne (ap pos e))
same_apart (negsuc m) (negsuc n) ne = ground (arith, λ (e : m ≡ n). ne (ap negsuc e))
same_apart (pos m) (negsuc n) ne = refl
same_apart (negsuc m) (pos n) ne = refl

abbrev pub put {ℓ} : {A : Type ℓ} → ℤ → A → (ℤ → A) → ℤ → A
put fd a f x = if same x fd then a else f x

pub record Crowd : Type 0 where
  pub inbox : ℤ → List ℕ
  pub outbox : ℤ → List ℕ
  pub mask : ℤ → Option Mask
  pub rounds : ℕ

-- What is reported of a socket: all that it is asked for.
abbrev report : ℤ → Option Mask → List Event
report fd none = []
report fd (some m) =
    if m.readable || m.writable
    then record {
      fd = fd;
      events = record {
        readable = m.readable;
        writable = m.writable;
        error = false;
        hangup = false;
        rdhangup = false;
        edge = false;
      };
    }
      ∷ []
    else []

-- Nothing fails, and an empty inbox is the end of the stream.
abbrev pub crowd : Kernel
crowd = record {
  World = Crowd;
  errno = λ w. 0;
  shutdown = λ w. w.rounds == 0;
  recv = λ fd n w.
      (got (take n (w.inbox fd)), record w { inbox = put fd (drop n (w.inbox fd)) w.inbox });
  send = λ fd bs w. (pos (length bs), record w { outbox = put fd (w.outbox fd ++ bs) w.outbox });
  close = λ fd w. (tt, record w { inbox = put fd [] w.inbox });
  gettimeofday_usec = λ w. (7, w);
  sleep_ms = λ n w. (tt, w);
  epoll_create = λ n w. (pos 4, w);
  epoll_ctl = λ e c fd w. (pos 0, record w { mask = put fd (wanted c) w.mask });
  epoll_wait = λ e m w. (
    some (report (pos 6) (w.mask (pos 6)) ++ report (pos 7) (w.mask (pos 7))),
    record w { rounds = w.rounds - 1 },
  );
  socket = λ w. (pos 5, w);
  setsockopt = λ fd o w. (tt, w);
  fcntl_get = λ fd w. (some 2, w);
  fcntl_set = λ fd o w. (pos 0, w);
  inet_aton = λ s. none;
  inet_addr = λ s. 0;
  bind = λ fd a w. (pos 0, w);
  listen = λ fd n w. (pos 0, w);
  connect = λ fd a w. (pos 0, w);
  select = λ fd tv w. ((pos 1, true, tv), w);
  accept = λ fd w. (pos 6, w);
  counters = sim.counters;
}

pub recv_got_at :
    (fd : ℤ) (n : ℕ) (w : Crowd) (bs : List ℕ)
    → (crowd.recv fd n w).0 ≡ got bs
    → (length bs ≤ n) × (w.inbox fd ≡ bs ++ (crowd.recv fd n w).1.inbox fd)
recv_got_at fd n w bs e =
    let all : take n (w.inbox fd) ≡ bs = cc in
    rw (← all, same_refl fd) (length-take_le n (w.inbox fd), sym (take-append-drop n (w.inbox fd)))

pub send_sent_at :
    (fd : ℤ) (bs : List ℕ) (w : Crowd) (m : ℕ)
    → (crowd.send fd bs w).0 ≡ pos m
    → (m ≤ length bs) × ((crowd.send fd bs w).1.outbox fd ≡ w.outbox fd ++ take m bs)
send_sent_at fd bs w m e =
    let all : length bs ≡ m = cc in
    rw (← all, same_refl fd)
      (omega arith, ap (◌++◌ (w.outbox fd)) (sym (take_all (length bs) bs (omega arith))))

unfoldable pub crowd_stream : Stream crowd
crowd_stream = record {
  incoming = λ w fd. w.inbox fd;
  outgoing = λ w fd. w.outbox fd;
  recv_got = recv_got_at;
  recv_failed = λ fd n w e. absurd cc;
  send_sent = send_sent_at;
  send_failed = λ fd bs w x e. absurd cc;
  time_outgoing = λ fd w. refl;
  ctl_outgoing = λ e c s fd w. refl;
  ctl_incoming = λ e c s fd w. refl;
}

unfoldable pub crowd_patience : Patience crowd
crowd_patience = record {
  signals = λ w. 0;
  steady = record {
    recv_le = λ fd n w. omega arith;
    send_le = λ fd bs w. omega arith;
    close_le = λ fd w. omega arith;
    time_le = λ w. omega arith;
    ctl_le = λ e c fd w. omega arith;
    wait_le = λ e m w. omega arith;
  };
  recv_lt = λ fd n w e i. absurd cc;
  send_lt = λ fd bs w x e i. absurd cc;
  send_ne_zero = λ fd b bs w e. cc;
}

pub crowd_clean : CleanEnd crowd
crowd_clean fd n w e i = cc

unfoldable pub crowd_epoll : EpollSet crowd
crowd_epoll = record {
  interest = λ w epfd fd. w.mask fd;
  ctl_done = λ e c fd w m h. rw (same_refl fd) refl;
  ctl_refused = λ e c fd w x h. absurd cc;
}

pub report-Reported :
    (fd : ℤ) (asked : Option Mask) (f : ℤ → Option Mask)
    → f fd ≡ asked
    → All (λ ev. ReportedBy (f ev.fd) ev.events) (report fd asked)
report-Reported fd none f e = tt
report-Reported fd (some m) f e = elim (Bool-cases (m.readable || m.writable)) [
  | inl some_way ↦ rw (some_way, e) ((ground arith, way m.readable, way m.writable), tt)
  | inr neither ↦ rw neither tt
]
  where
    way : (b : Bool) → (b ≡ false) ⊎ (b ≡ true)
    way true = inr refl
    way false = inl refl

All-append : (P : Event → Type 0) (xs ys : List Event) → All P xs → All P ys → All P (xs ++ ys)
All-append P [] ys a b = b
All-append P (x ∷ xs) ys (p, a) b = (p, All-append P xs ys a b)

pub crowd_reporting : Reporting crowd crowd_epoll (pos 4)
unfolding crowd_epoll
crowd_reporting = record {
  reported = reports;
  wait_admits = λ n w o. inl refl;
  recv_admits = λ fd n w o. inl refl;
  send_admits = λ fd bs w o. inl refl;
  close_admits = λ fd w o. inl refl;
  time_admits = λ w o. inl refl;
  ctl_admits = λ c fd w o ne. inl (rw (same_apart o fd ne) refl);
}
  where
    reports :
        (n : ℤ) (w : Crowd) (evs : List Event)
        → (crowd.epoll_wait (pos 4) n w).0 ≡ some evs
        → All (λ ev. ReportedBy (w.mask ev.fd) ev.events) evs
    reports n w evs e =
        let all : report (pos 6) (w.mask (pos 6)) ++ report (pos 7) (w.mask (pos 7)) ≡ evs = cc in
        rw (← all) (
          All-append (λ ev. ReportedBy (w.mask ev.fd) ev.events) (report (pos 6) (w.mask (pos 6)))
            (report (pos 7) (w.mask (pos 7))) (report-Reported (pos 6) (w.mask (pos 6)) w.mask refl)
            (report-Reported (pos 7) (w.mask (pos 7)) w.mask refl))

pub rounds_lt : (r : ℕ) → (r == 0) ≡ false → r - 1 < r
rounds_lt r h = ground arith

unfoldable pub crowd_shutdown : Shutdown crowd
crowd_shutdown = record {
  rounds = λ w. w.rounds;
  steady = record {
    recv_le = λ fd n w. omega arith;
    send_le = λ fd bs w. omega arith;
    close_le = λ fd w. omega arith;
    time_le = λ w. omega arith;
    ctl_le = λ e c fd w. omega arith;
    wait_le = λ e m w. omega arith;
  };
  wait_lt = λ e m w h. rounds_lt w.rounds h;
}

pub crowd_ways : TwoWays crowd crowd_stream
unfolding crowd_stream
crowd_ways = record {
  recv_outgoing = λ fd n w. refl;
  send_incoming = λ fd bs w. refl;
  time_incoming = λ fd w. refl;
}

pub crowd_apart : Separate crowd crowd_stream
unfolding crowd_stream
crowd_apart = record {
  recv_other = λ fd o n w ne. rw (same_apart o fd ne) refl;
  send_other = λ fd o bs w ne. rw (same_apart o fd ne) refl;
  close_other = λ fd o w ne. rw (same_apart o fd ne) refl;
}

-- Client 6 sent "Hi", client 7 nothing.
abbrev pub two_clients : Crowd
two_clients = record {
  inbox = put (pos 6) (72 ∷ 105 ∷ []) (λ fd. []);
  outbox = λ fd. [];
  mask = λ fd. none;
  rounds = 3;
}

abbrev pub two_clients_proc : Proc Crowd
two_clients_proc = record { world = two_clients; log = []; active = pos 2 }
