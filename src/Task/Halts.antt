-- ===== src/Task/Halts.antt =====
-- TaskThread::Run (TaskThread.cpp): how its loop ends.
use epoll_threads.Base.{
  List, Bool, ◌≤ℤ◌, ℕ, ◌+◌, ◌<◌, ◌≤◌, ◌≡◌, refl, Bool, true, false, List, some, ℤ, pos, minus_one,
  is_neg, length, arith, if◌then◌else◌,
}
use epoll_threads.Kernel.{Kernel, Ctl, ctl_del}
use epoll_threads.Config.{Server}
use epoll_threads.Log.Blocking.{CanWrite}
use epoll_threads.Log.Calls.{Passes, debug-Passes}
use epoll_threads.Proc.{
  Message, min_bufsz, M, Proc, Message, my_debug, my_warning, recv_err, recv_data, send_err,
  event_err, client_closed, epoll_mod_err, epoll_del_err, active_conns, call, look, say,
}
use epoll_threads.Text.{c_string, filled}
use epoll_threads.Socket.{recvn, sendn}
use epoll_threads.Socket.Laws.{Stream, Patience, CleanEnd}
use epoll_threads.Socket.Recv.{recvn_lem}
use epoll_threads.Socket.Send.{sendn_lem}
use epoll_threads.Epoll.{
  i_epoll_read, i_epoll_write, i_epoll_edge_triggered, ctl_or_warn, i_epoll_change_mode,
  i_epoll_del, i_epoll_wait,
}
use epoll_threads.Epoll.Halts.{Shutdown, Done, Done-pure, Done-bind, Done-when, wait_loop-returns}
use epoll_threads.Task.Reply.{length-greeting}
use epoll_threads.Task.{
  greeting, get_active_conns, nothing_moved, i_read, i_write, i_error, i_close, task_handlers,
  atomic_dec, run,
}

module _ (k : Kernel) (st : Stream k) (pt : Patience k) (clean : CleanEnd k) (sd : Shutdown k)
    (fuel : ℕ) where
  open pt use {signals}
  open sd use {rounds}

  -- The fuel is enough for a full buffer and the interruptions to come.
  abbrev pub Good : k.World → Type 0
  Good w = min_bufsz + signals w < fuel

  abbrev pub Ends : {A : Type 0} → M k.World A → Type 0
  Ends m = Done k sd Good m

  pub call-Ends :
      {A : Type 0} (f : k.World → A × k.World)
      → ((w : k.World) → (signals (f w).1 ≤ signals w) × (rounds (f w).1 ≤ rounds w))
      → Ends (call f)
  call-Ends f h = record {
    returns = λ p g.
        let (a, b) = h p.world in
        ((f p.world).0, record p { world = (f p.world).1 }, refl, omega arith, b);
  }

  pub say-Ends : (level : ℕ) (m : Message) → Ends (say level m)
  say-Ends level m = record { returns = λ p g. (tt, _, refl, g, omega arith) }

  pub look-Ends : {A : Type 0} (f : k.World → A) → Ends (look f)
  look-Ends f = record { returns = λ p g. (f p.world, p, refl, g, omega arith) }

  pub recvn-Ends : (fd : ℤ) → Ends (recvn k fuel fd min_bufsz)
  recvn-Ends fd = record {
    returns = λ p g.
        let (out, q, run, _, _, quiet) =
          recvn_lem k st fd pt clean fuel min_bufsz p (omega arith) g in
        (
          (pos (length out), out),
          q,
          run,
          omega (arith, quiet.falls signals pt.steady),
          quiet.falls rounds sd.steady,
        );
  }

  pub sendn-Ends :
      (fd : ℤ) (msg : List ℕ) → length msg ≤ min_bufsz → Ends (sendn k fuel fd msg (length msg))
  sendn-Ends fd msg small = record {
    returns = λ p g.
        let (r, q, run, _, quiet) =
          sendn_lem k st pt fd (length msg) fuel msg p (omega arith) (omega arith) (omega arith) in
        (r, q, run, omega (arith, quiet.falls signals pt.steady), quiet.falls rounds sd.steady);
  }

  ctl-Ends :
      (epfd : ℤ) (c : Ctl) (fd : ℤ) (line : ℕ → Message) → Ends (ctl_or_warn k epfd c fd line)
  ctl-Ends epfd c fd line =
      Done-bind k sd Good
        (call-Ends (k.epoll_ctl epfd c fd)
          (λ w. (pt.ctl_le epfd c fd w, sd.steady.ctl_le epfd c fd w)))
        λ r. Done-bind k sd Good (look-Ends k.errno) λ e.
          Done-bind k sd Good (Done-when k sd Good (is_neg r) (say-Ends my_warning (line e)))
            λ _. Done-pure k sd Good r

  pub if-Ends :
      {A : Type 0} (b : Bool) {m n : M k.World A} → Ends m → Ends n → Ends (if b then m else n)
  if-Ends true dm dn = dm
  if-Ends false dm dn = dn

  pub change_mode-Ends :
      (epfd fd : ℤ) (mode behavior : ℕ) → Ends (i_epoll_change_mode k epfd fd mode behavior)
  unfolding i_epoll_change_mode
  change_mode-Ends epfd fd mode behavior = ctl-Ends epfd _ fd (λ e. epoll_mod_err e fd)

  pub del-Ends : (epfd fd : ℤ) → Ends (i_epoll_del k epfd fd)
  unfolding i_epoll_del
  del-Ends epfd fd = ctl-Ends epfd ctl_del fd (λ e. epoll_del_err e fd)

  i_read-Ends : (epfd fd : ℤ) → Ends (i_read k fuel epfd fd)
  unfolding i_read
  i_read-Ends epfd fd = Done-bind k sd Good (recvn-Ends fd) λ r.
      if-Ends (nothing_moved r.0)
        (Done-bind k sd Good (say-Ends my_warning (recv_err r.0 fd))
          λ _. Done-pure k sd Good minus_one)
        (Done-bind k sd Good (say-Ends my_debug (recv_data r.0 (c_string (filled min_bufsz r.1))))
          λ _.
            Done-bind k sd Good (change_mode-Ends epfd fd i_epoll_write i_epoll_edge_triggered)
              λ _. Done-pure k sd Good (pos 0))

  i_write-Ends : (epfd fd : ℤ) → Ends (i_write k fuel epfd fd)
  unfolding i_write
  i_write-Ends epfd fd =
      Done-bind k sd Good (call-Ends k.gettimeofday_usec (λ w. (pt.time_le w, sd.steady.time_le w)))
        λ usec.
          Done-bind k sd Good
            (sendn-Ends fd (greeting fd usec) (omega (arith, (length-greeting fd usec).1)))
            λ r.
              if-Ends (nothing_moved r)
                (Done-bind k sd Good (say-Ends my_warning (send_err r fd))
                  λ _. Done-pure k sd Good minus_one)
                (Done-bind k sd Good (change_mode-Ends epfd fd i_epoll_read i_epoll_edge_triggered)
                  λ _. Done-pure k sd Good (pos 0))

  i_error-Ends : (epfd fd : ℤ) → Ends (i_error k fuel epfd fd)
  unfolding i_error
  i_error-Ends epfd fd = Done-bind k sd Good (look-Ends k.errno) λ e.
      Done-bind k sd Good (say-Ends my_warning (event_err e fd)) λ _. Done-pure k sd Good minus_one

  atomic_dec-Ends : (epfd : ℤ) → Ends (atomic_dec k fuel epfd)
  atomic_dec-Ends epfd = record { returns = λ p g. (tt, _, refl, g, omega arith) }

  get_active_conns-Ends : (epfd : ℤ) → Ends (get_active_conns k fuel epfd)
  get_active_conns-Ends epfd = record { returns = λ p g. (p.active, p, refl, g, omega arith) }

  i_close-Ends : (epfd fd : ℤ) → Ends (i_close k fuel epfd fd)
  unfolding i_close
  i_close-Ends epfd fd = Done-bind k sd Good (say-Ends my_debug (client_closed fd)) λ _.
      Done-bind k sd Good (del-Ends epfd fd) λ _.
        Done-bind k sd Good
          (call-Ends (k.close fd) (λ w. (pt.close_le fd w, sd.steady.close_le fd w)))
          λ _. Done-bind k sd Good (atomic_dec-Ends epfd) λ _.
            Done-bind k sd Good (get_active_conns-Ends epfd) λ n.
              Done-bind k sd Good (say-Ends my_debug (active_conns n))
                λ _. Done-pure k sd Good (pos 0)

  -- If no value EINTR stands in `errno` when `recv` returns 0, with fuel for a full buffer and the
  -- interruptions to come, with more rounds than calls of `epoll_wait` before the shutdown flag is
  -- seen, and at the verbosity `debug` with a log that can be written: `TaskThread::Run` returns 0
  -- with the flag up, whatever events it gets on the way, and none of its calls of `myepollLog` waits
  -- for a mutex that one of them has kept.
  pub run_returns :
      (text : Message → List ℕ) (can_open : List ℕ → Bool) (server : Server) (n : ℕ)
      (epfd maxevents : ℤ) (p : Proc k.World)
      → server.verbosity ≤ℤ pos 0
      → CanWrite can_open server
      → min_bufsz + signals p.world < fuel
      → rounds p.world < n
      → (q : Proc k.World) × (run k fuel epfd n maxevents p ≡ some (pos 0, q))
        × (k.shutdown q.world ≡ true)
        × Passes text can_open server q.log
  unfolding run i_epoll_wait
  run_returns text can_open server n epfd maxevents p low can g lt =
      let (q, ran, up) =
        wait_loop-returns k sd Good (task_handlers k fuel epfd)
          (record {
            read = i_read-Ends epfd;
            write = i_write-Ends epfd;
            error = i_error-Ends epfd;
            close = i_close-Ends epfd;
          })
          (λ e m w h. omega (arith, pt.wait_le e m w)) n epfd maxevents minus_one p g lt in
      (q, ran, up, debug-Passes text can_open server low can q.log)
