-- ===== src/Client/Many.antt =====
-- A machine with many descriptors, of which each opened one is the next, and main of Test.cpp on it.
use epoll_threads.Base.{
  ℕ_discrete, ℕ, zero, suc, ◌^◌, ◌%◌, ◌≡◌, ◌≢◌, refl, Bool, true, false, List, [], ◌∷◌, none, some,
  ◌⊎◌, inl, inr, All, ℤ, pos, negsuc, minus_one, is_minus_one, set_at, arith, ◌==◌, if◌then◌else◌,
}
use epoll_threads.Kernel.{Kernel, got}
use epoll_threads.Proc.{Proc, my_warning, connect_err, epoll_add_err, connect_server_err}
use epoll_threads.Sim.{exact}
use epoll_threads.Text.{codes}
use epoll_threads.Epoll.Laws.{EpollSet}
use epoll_threads.Setup.Opened.{Same, Opens, Closes, OpenFds}
use epoll_threads.Lifetime.Construction.{CreateOpens}
use epoll_threads.Process.{Process, default_action}
use epoll_threads.Task.Switch.{logged}
use epoll_threads.Epoll.{i_epoll_create, i_epoll_add}
use epoll_threads.Setup.{connect_socket, set_non_block}
use epoll_threads.Lifetime.{new_epoll}
use epoll_threads.Client.Deleted.{
  AnyClient, HasClientArray, IsClientUnset, Restored, start_clients-delete_clients,
}
use epoll_threads.Client.Launch.{
  ClientObject, start_client, new_client_object, client_connect, add_epoll_events, start_clients,
  delete_clients, ClientOption, ip_option, port_option, threads_option, Arguments, ClientHost,
}
use epoll_threads.Client.Start.{CtlKeepsFds}

record Files : Type 0 where
  next : ℕ
  in_use : ℕ → Bool

abbrev open_next : Bool → Files → ℤ × Files
open_next true w = (minus_one, w)
open_next false w =
    (pos w.next, record w { next = suc w.next; in_use = set_at w.next true w.in_use })

abbrev close_one : ℤ → Files → Files
close_one (pos n) w = record w { in_use = set_at n false w.in_use }
close_one (negsuc n) w = w

abbrev opened_in : Files → ℤ → Bool
opened_in w (pos n) = w.in_use n
opened_in w (negsuc n) = false

-- Only descriptor 4 is let in.
abbrev files : Kernel
files = record {
  World = Files;
  errno = λ w. 111;
  shutdown = λ w. true;
  recv = λ fd n w. (got [], w);
  send = λ fd bs w. (minus_one, w);
  close = λ fd w. (tt, close_one fd w);
  gettimeofday_usec = λ w. (0, w);
  sleep_ms = λ n w. (tt, w);
  epoll_create = λ n w. open_next (w.in_use w.next) w;
  epoll_ctl = λ e c fd w. (minus_one, w);
  epoll_wait = λ e m w. (none, w);
  socket = λ w. open_next (w.in_use w.next) w;
  setsockopt = λ fd o w. (tt, w);
  fcntl_get = λ fd w. (some 2, w);
  fcntl_set = λ fd o w. (pos 0, w);
  inet_aton = λ s. none;
  inet_addr = λ s. 0;
  bind = λ fd a w. (pos 0, w);
  listen = λ fd n w. (minus_one, w);
  connect = λ fd a w. (if w.next == 5 then pos 0 else minus_one, w);
  select = λ fd tv w. ((pos 1, true, tv), w);
  accept = λ fd w. open_next (w.in_use w.next) w;
  counters = exact;
}

open_next-Opens :
    (b : Bool) (w : Files)
    → w.in_use w.next ≡ b
    → is_minus_one (open_next b w).0 ≡ false
    → Opens opened_in (open_next b w).0 w (open_next b w).1
open_next-Opens true w e h = cc
open_next-Opens false w e h = record {
  fresh = e;
  now = ground arith;
  others = λ fd ne. other fd ne;
}
  where
    other : (fd : ℤ) → fd ≢ pos w.next → opened_in (open_next false w).1 fd ≡ opened_in w fd
    other (pos n) ne = ground (arith, λ (e : w.next ≡ n). ne cc)
    other (negsuc n) ne = refl

open_next-fails :
    (b : Bool) (w : Files)
    → is_minus_one (open_next b w).0 ≡ true
    → Same opened_in w (open_next b w).1
open_next-fails true w h fd = refl
open_next-fails false w h fd = cc

close_one-Closes : (fd : ℤ) (w : Files) → Closes opened_in fd w (close_one fd w)
close_one-Closes (pos n) w = record { now = ground arith; others = other }
  where
    other : (fd : ℤ) → fd ≢ pos n → opened_in (close_one (pos n) w) fd ≡ opened_in w fd
    other (pos m) ne = ground (arith, λ (e : n ≡ m). ne cc)
    other (negsuc m) ne = refl
close_one-Closes (negsuc n) w = record { now = refl; others = λ fd ne. refl }

abbrev files_open : OpenFds files
files_open = record {
  opened = opened_in;
  listening = λ w fd. false;
  socket_opens = λ w h. open_next-Opens (w.in_use w.next) w refl h;
  socket_fails = λ w h. open_next-fails (w.in_use w.next) w h;
  accept_opens = λ l w h. open_next-Opens (w.in_use w.next) w refl h;
  accept_fails = λ l w h. open_next-fails (w.in_use w.next) w h;
  close_closes = λ fd w. close_one-Closes fd w;
  listen_listens = λ fd n w h. absurd cc;
  setsockopt_same = λ fd o w fd'. refl;
  fcntl_get_same = λ fd w fd'. refl;
  fcntl_set_same = λ fd o w fd'. refl;
  bind_same = λ fd a w fd'. refl;
  listen_same = λ fd n w fd'. refl;
  connect_same = λ fd a w fd'. refl;
  select_same = λ fd tv w fd'. refl;
}

files_create : CreateOpens files files_open
files_create = record {
  create_opens = λ n w h. open_next-Opens (w.in_use w.next) w refl h;
  create_fails = λ n w h. open_next-fails (w.in_use w.next) w h;
}

files_epoll : EpollSet files
files_epoll = record {
  interest = λ w epfd fd. none;
  ctl_done = λ e c fd w m h. cc;
  ctl_refused = λ e c fd w x h. refl;
}

files_ctl : CtlKeepsFds files files_open
files_ctl = record { ctl_same = λ e c fd w fd'. refl }

abbrev host : ClientHost
host = record { program = codes "client"; rlim_cur = 1024; strtoul = λ s. 2 }

abbrev options : List ClientOption
options = ip_option (codes "127.0.0.1") ∷ port_option (codes "2") ∷ threads_option (codes "2") ∷ []

abbrev arguments : Arguments
arguments = record { ip = codes "127.0.0.1"; port = 2; threads = pos 2 }

abbrev at_start : Process
at_start = record {
  files = λ fd. none;
  dispositions = λ s. default_action;
  pid_file = none;
  errors = [];
}

-- The standard files are open.
abbrev idle : Proc Files
idle = record {
  world = record { next = 3; in_use = set_at 2 true (set_at 1 true (set_at 0 true (λ fd. false))) };
  log = [];
  active = pos 0;
}

abbrev first_client : ClientObject
first_client = record {
  epoll = record { epfd = pos 3; maxevents = pos 10; events = some (pos 10) };
  sockfd = pos 4;
}

abbrev second_client : ClientObject
second_client = record {
  epoll = record { epfd = pos 5; maxevents = pos 10; events = some (pos 10) };
  sockfd = pos 6;
}

-- The second one is left with a socket that is not connected, and `epoll_ctl` failed for the first.
abbrev both_started : Proc Files
both_started = record idle {
  world = record {
    next = 7;
    in_use = set_at 6 true (set_at 5 true (set_at 4 true (set_at 3 true (idle.world.in_use))));
  };
  log =
      logged my_warning (connect_server_err 1 (codes "127.0.0.1") 2)
      ∷ logged my_warning (connect_err 111)
      ∷ logged my_warning (epoll_add_err 111 (pos 4))
      ∷ [];
}

start-both :
    start_clients files (pos 10) (codes "127.0.0.1") 2 0 2 idle
    ≡ some ((first_client ∷ second_client ∷ [], true), both_started)
unfolding start_clients start_client new_client_object new_epoll i_epoll_create client_connect
    connect_socket set_non_block add_epoll_events i_epoll_add ℕ_discrete
start-both = refl

start_clients-delete_clients_example :
    (s' : Proc Files) × ((All HasClientArray (first_client ∷ second_client ∷ [])
        × (delete_clients files (first_client ∷ second_client ∷ []) both_started
            ≡ some (some tt, s'))
        × Restored files files_open files_epoll idle.world s'.world)
      ⊎ (AnyClient IsClientUnset (first_client ∷ second_client ∷ [])
          × (delete_clients files (first_client ∷ second_client ∷ []) both_started
              ≡ some (none, s'))))
start_clients-delete_clients_example =
    start_clients-delete_clients files files_open files_epoll files_create files_ctl (pos 10)
      (codes "127.0.0.1") 2 2 (first_client ∷ second_client ∷ []) true idle both_started
      both_started start-both (λ fd. inr refl)
