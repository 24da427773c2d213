-- ===== src/Session/Pair.antt =====
-- A machine with one connection between a worker and a client, and the laws that it meets.
use epoll_threads.Base.{
  ℕ, zero, suc, ◌≤◌, ◌<◌, ◌≡◌, refl, sym, ap, ◌∙◌, true, false, List, [], ◌∷◌, ◌++◌, Option, none,
  some, inl, ℤ, pos, negsuc, length, take, drop, take_all, length-take_le, take-append-drop,
  append_assoc, arith, ◌==◌, if◌then◌else◌,
}
use epoll_threads.Kernel.{Kernel, Mask, Received, got, failed}
use epoll_threads.Socket.Laws.{Stream, Patience, CleanEnd}
use epoll_threads.Socket.Prompt.{Prompt}
use epoll_threads.Epoll.Laws.{EpollSet, wanted}
use epoll_threads.Sim.{exact}
use epoll_threads.Crowd.{put, same_refl}
use epoll_threads.Client.Talk.{Nap}
use epoll_threads.Session.Prompt.{CtlWorks}
use epoll_threads.Session.Ends.{End}
use epoll_threads.Session.Alive.{Wire}

pub record Pair : Type 0 where
  pub inbox : ℤ → List ℕ
  pub taken : ℤ → List ℕ
  pub mask : ℤ → Option Mask

-- The worker has socket 6, and the client socket 7.
abbrev peer : ℤ → ℤ
peer (pos n) = if n == 6 then pos 7 else if n == 7 then pos 6 else pos n
peer (negsuc n) = negsuc n

abbrev recv_from : List ℕ → ℤ → ℕ → Pair → Received × Pair
recv_from [] fd n w = (failed, w)
recv_from (b ∷ bs) fd n w = (
  got (take n (b ∷ bs)),
  record w {
    inbox = put fd (drop n (b ∷ bs)) w.inbox;
    taken = put fd (w.taken fd ++ take n (b ∷ bs)) w.taken;
  },
)

-- `recv` would block on an empty inbox: EAGAIN.
abbrev pub pair : Kernel
pair = record {
  World = Pair;
  errno = λ w. 11;
  shutdown = λ w. false;
  recv = λ fd n w. recv_from (w.inbox fd) fd n w;
  send = λ fd bs w.
      (pos (length bs), record w { inbox = put (peer fd) (w.inbox (peer fd) ++ bs) w.inbox });
  close = λ fd w. (tt, w);
  gettimeofday_usec = λ w. (7, w);
  sleep_ms = λ n w. (tt, w);
  epoll_create = λ n w. (pos 4, w);
  epoll_ctl = λ e c fd w. (pos 0, record w { mask = put fd (wanted c) w.mask });
  epoll_wait = λ e m w. (none, w);
  socket = λ w. (pos 5, w);
  setsockopt = λ fd o w. (tt, w);
  fcntl_get = λ fd w. (some 2, w);
  fcntl_set = λ fd o w. (pos 0, w);
  inet_aton = λ s. none;
  inet_addr = λ s. 0;
  bind = λ fd a w. (pos 0, w);
  listen = λ fd n w. (pos 0, w);
  connect = λ fd a w. (pos 0, w);
  select = λ fd tv w. ((pos 1, true, tv), w);
  accept = λ fd w. (pos 6, w);
  counters = exact;
}

pub recv_from-got :
    (xs : List ℕ) (fd : ℤ) (n : ℕ) (w : Pair) (bs : List ℕ)
    → w.inbox fd ≡ xs
    → (recv_from xs fd n w).0 ≡ got bs
    → (length bs ≤ n) × (w.inbox fd ≡ bs ++ (recv_from xs fd n w).1.inbox fd)
recv_from-got [] fd n w bs e g = cc
recv_from-got (x ∷ xs) fd n w bs e g =
    let all : take n (x ∷ xs) ≡ bs = cc in
    rw (← all, same_refl fd) (length-take_le n (x ∷ xs), e ∙ sym (take-append-drop n (x ∷ xs)))

pub recv_from-failed :
    (xs : List ℕ) (fd : ℤ) (n : ℕ) (w : Pair)
    → (recv_from xs fd n w).0 ≡ failed
    → (recv_from xs fd n w).1.inbox fd ≡ w.inbox fd
recv_from-failed [] fd n w g = refl
recv_from-failed (x ∷ xs) fd n w g = cc

pub send_sent_at :
    (fd : ℤ) (bs : List ℕ) (w : Pair) (m : ℕ)
    → (pair.send fd bs w).0 ≡ pos m
    → (m ≤ length bs)
      × (w.taken (peer fd) ++ (pair.send fd bs w).1.inbox (peer fd)
          ≡ (w.taken (peer fd) ++ w.inbox (peer fd)) ++ take m bs)
send_sent_at fd bs w m e =
    let all : length bs ≡ m = cc in
    rw (← all, same_refl (peer fd))
      (
        omega arith,
        sym (
            append_assoc (w.taken (peer fd)) (w.inbox (peer fd)) (take (length bs) bs)
            ∙ ap (λ xs. w.taken (peer fd) ++ (w.inbox (peer fd) ++ xs))
                (take_all (length bs) bs (omega arith))),
      )

-- What an end was sent is what the other has taken and what is on the way.
abbrev pub pair_stream : Stream pair
pair_stream = record {
  incoming = λ w fd. w.inbox fd;
  outgoing = λ w fd. w.taken (peer fd) ++ w.inbox (peer fd);
  recv_got = λ fd n w bs g. recv_from-got (w.inbox fd) fd n w bs refl g;
  recv_failed = λ fd n w g. recv_from-failed (w.inbox fd) fd n w g;
  send_sent = send_sent_at;
  send_failed = λ fd bs w x e. absurd cc;
  time_outgoing = λ fd w. refl;
  ctl_outgoing = λ e c s fd w. refl;
  ctl_incoming = λ e c s fd w. refl;
}

pub again_ne_eintr : ◌≡◌ {A = ℕ} 11 4 → ⊥
again_ne_eintr e = omega arith

abbrev pub pair_patience : Patience pair
pair_patience = record {
  signals = λ w. 0;
  steady = record {
    recv_le = λ fd n w. omega arith;
    send_le = λ fd bs w. omega arith;
    close_le = λ fd w. omega arith;
    time_le = λ w. omega arith;
    ctl_le = λ e c fd w. omega arith;
    wait_le = λ e m w. omega arith;
  };
  recv_lt = λ fd n w e i. absurd (again_ne_eintr i);
  send_lt = λ fd bs w x e i. absurd cc;
  send_ne_zero = λ fd b bs w e. cc;
}

pub pair_clean : CleanEnd pair
pair_clean fd n w e i = again_ne_eintr i

recv_from-prompt :
    (xs : List ℕ) (fd : ℤ) (n : ℕ) (w : Pair)
    → 0 < n
    → 0 < length xs
    → (b : ℕ) × (bs : List ℕ) × ((recv_from xs fd n w).0 ≡ got (b ∷ bs))
recv_from-prompt [] fd n w room some_in = absurd (omega arith)
recv_from-prompt (x ∷ xs) fd zero w room some_in = absurd (omega arith)
recv_from-prompt (x ∷ xs) fd (suc n) w room some_in = (x, take n xs, refl)

send_some : (bs : List ℕ) → 0 < length bs → (m : ℕ) × (pos (length bs) ≡ pos (suc m))
send_some [] h = absurd (omega arith)
send_some (b ∷ bs) h = (length bs, refl)

pub pair_prompt : Prompt pair pair_stream
pair_prompt = record {
  recv_prompt = λ fd n w room some_in. inl (recv_from-prompt (w.inbox fd) fd n w room some_in);
  send_prompt = λ fd bs w some_out. inl (send_some bs some_out);
}

abbrev pub pair_epoll : EpollSet pair
pair_epoll = record {
  interest = λ w epfd fd. w.mask fd;
  ctl_done = λ e c fd w m h. rw (same_refl fd) refl;
  ctl_refused = λ e c fd w x h. absurd cc;
}

pub pair_ctl : CtlWorks pair
pair_ctl epfd c fd w = refl

pub pair_nap : Nap pair pair_stream pair_patience
pair_nap = record { sleep_outgoing = λ ms fd w. refl; sleep_le = λ ms w. omega arith }

abbrev pub server : End
server = record { epfd = pos 4; fd = pos 6 }

abbrev pub client : End
client = record { epfd = pos 5; fd = pos 7 }

recv_from-server :
    (xs : List ℕ) (n : ℕ) (w : Pair)
    → (w.mask (pos 7) ≡ (recv_from xs (pos 6) n w).1.mask (pos 7))
      × ((recv_from xs (pos 6) n w).1.taken (pos 7) ≡ w.taken (pos 7))
recv_from-server [] n w = (refl, refl)
recv_from-server (x ∷ xs) n w = (refl, refl)

recv_from-client :
    (xs : List ℕ) (n : ℕ) (w : Pair)
    → (w.mask (pos 6) ≡ (recv_from xs (pos 7) n w).1.mask (pos 6))
      × ((recv_from xs (pos 7) n w).1.taken (pos 6) ≡ w.taken (pos 6))
recv_from-client [] n w = (refl, refl)
recv_from-client (x ∷ xs) n w = (refl, refl)

abbrev pub pair_taken : Pair → ℤ → List ℕ
pair_taken w fd = w.taken fd

pub pair_wire : Wire pair pair_stream pair_epoll pair_patience server client
pair_wire = record {
  taken = pair_taken;
  to_client = λ w. refl;
  to_server = λ w. refl;
  recv_server = λ n w.
      let (m, t) = recv_from-server (w.inbox (pos 6)) n w in
      record { entry = sym m; took = t; calm = omega arith };
  recv_client = λ n w.
      let (m, t) = recv_from-client (w.inbox (pos 7)) n w in
      record { entry = sym m; took = t; calm = omega arith };
  send_server = λ bs w. record { entry = refl; took = refl; calm = omega arith };
  send_client = λ bs w. record { entry = refl; took = refl; calm = omega arith };
  ctl_server = λ c w. record { entry = refl; took = refl; calm = omega arith };
  ctl_client = λ c w. record { entry = refl; took = refl; calm = omega arith };
  time = λ e w. record { entry = refl; took = refl; calm = omega arith };
  sleep = λ ms e w. record { entry = refl; took = refl; calm = omega arith };
}
