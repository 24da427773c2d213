-- ===== src/Client/Halts.antt =====
-- Test::Run (Test.cpp): how its loop ends.
use epoll_threads.Base.{ℕ, ◌+◌, ◌<◌, ◌≤◌, ◌≡◌, true, some, ℤ, pos, minus_one, arith}
use epoll_threads.Kernel.{Kernel}
use epoll_threads.Proc.{
  min_bufsz, Proc, my_debug, my_warning, recv_err, recv_data_from, send_err, event_err,
  server_closed,
}
use epoll_threads.Text.{c_string, filled}
use epoll_threads.Socket.Laws.{Stream, Patience, CleanEnd}
use epoll_threads.Epoll.{i_epoll_read, i_epoll_write, i_epoll_edge_triggered, i_epoll_wait}
use epoll_threads.Epoll.Halts.{Shutdown, Done-pure, Done-bind, wait_loop-returns}
use epoll_threads.Task.{nothing_moved}
use epoll_threads.Task.Halts.{
  Good, Ends, call-Ends, say-Ends, look-Ends, recvn-Ends, sendn-Ends, if-Ends, change_mode-Ends,
  del-Ends,
}
use epoll_threads.Client.{
  client_greeting, client_read, client_write, client_error, client_close, client_handlers,
  client_run,
}
use epoll_threads.Client.Talk.{length-client_greeting}

-- The wait of a second brings neither an interruption nor a call of `epoll_wait` that was not to come.
pub record ShortNap (k : Kernel) (pt : Patience k) (sd : Shutdown k) : Type 0 where
  pub sleep_le :
      (ms : ℕ) (w : k.World)
      → (pt.signals (k.sleep_ms ms w).1 ≤ pt.signals w)
        × (sd.rounds (k.sleep_ms ms w).1 ≤ sd.rounds w)

module _ (k : Kernel) (st : Stream k) (pt : Patience k) (clean : CleanEnd k) (sd : Shutdown k)
    (nap : ShortNap k pt sd) (fuel : ℕ) where
  open pt use {signals}
  open sd use {rounds}

  abbrev Fueled : k.World → Type 0
  Fueled = Good k st pt clean sd fuel

  client_read-Ends : (epfd fd : ℤ) → Ends k st pt clean sd fuel (client_read k fuel epfd fd)
  unfolding client_read
  client_read-Ends epfd fd = Done-bind k sd Fueled (recvn-Ends k st pt clean sd fuel fd) λ r.
      if-Ends k st pt clean sd fuel (nothing_moved r.0)
        (Done-bind k sd Fueled (say-Ends k st pt clean sd fuel my_warning (recv_err r.0 fd))
          λ _. Done-pure k sd Fueled minus_one)
        (Done-bind k sd Fueled
          (say-Ends k st pt clean sd fuel my_debug
            (recv_data_from r.0 (c_string (filled min_bufsz r.1)) fd))
          λ _.
            Done-bind k sd Fueled
              (change_mode-Ends k st pt clean sd fuel epfd fd i_epoll_write i_epoll_edge_triggered)
              λ _. Done-pure k sd Fueled (pos 0))

  client_write-Ends : (epfd fd : ℤ) → Ends k st pt clean sd fuel (client_write k fuel epfd fd)
  unfolding client_write
  client_write-Ends epfd fd =
      Done-bind k sd Fueled
        (call-Ends k st pt clean sd fuel k.gettimeofday_usec
          (λ w. (pt.time_le w, sd.steady.time_le w)))
        λ usec.
          Done-bind k sd Fueled
            (call-Ends k st pt clean sd fuel (k.sleep_ms 1000) (nap.sleep_le 1000))
            λ _.
              Done-bind k sd Fueled
                (sendn-Ends k st pt clean sd fuel fd (client_greeting fd usec)
                  (omega (arith, (length-client_greeting fd usec).1)))
                λ r.
                  if-Ends k st pt clean sd fuel (nothing_moved r)
                    (Done-bind k sd Fueled
                      (say-Ends k st pt clean sd fuel my_warning (send_err r fd))
                      λ _. Done-pure k sd Fueled minus_one)
                    (Done-bind k sd Fueled
                      (change_mode-Ends k st pt clean sd fuel epfd fd i_epoll_read
                        i_epoll_edge_triggered)
                      λ _. Done-pure k sd Fueled (pos 0))

  client_error-Ends : (epfd fd : ℤ) → Ends k st pt clean sd fuel (client_error k fuel epfd fd)
  unfolding client_error
  client_error-Ends epfd fd = Done-bind k sd Fueled (look-Ends k st pt clean sd fuel k.errno) λ e.
      Done-bind k sd Fueled (say-Ends k st pt clean sd fuel my_warning (event_err e fd))
        λ _. Done-pure k sd Fueled minus_one

  client_close-Ends : (epfd fd : ℤ) → Ends k st pt clean sd fuel (client_close k fuel epfd fd)
  unfolding client_close
  client_close-Ends epfd fd =
      Done-bind k sd Fueled (say-Ends k st pt clean sd fuel my_debug server_closed) λ _.
        Done-bind k sd Fueled (del-Ends k st pt clean sd fuel epfd fd) λ _.
          Done-bind k sd Fueled
            (call-Ends k st pt clean sd fuel (k.close fd)
              (λ w. (pt.close_le fd w, sd.steady.close_le fd w)))
            λ _. Done-pure k sd Fueled (pos 0)

  -- With fuel for a full buffer and the interruptions to come, and with more rounds than calls of
  -- `epoll_wait` before the shutdown flag is seen, the client's `Run` returns 0 with the flag up,
  -- whatever events it gets on the way.
  pub client_run_returns :
      (n : ℕ) (epfd maxevents : ℤ) (p : Proc k.World)
      → min_bufsz + signals p.world < fuel
      → rounds p.world < n
      → (q : Proc k.World) × (client_run k fuel epfd n maxevents p ≡ some (pos 0, q))
        × (k.shutdown q.world ≡ true)
  unfolding client_run i_epoll_wait
  client_run_returns n epfd maxevents p g lt =
      wait_loop-returns k sd Fueled (client_handlers k fuel epfd)
        (record {
          read = client_read-Ends epfd;
          write = client_write-Ends epfd;
          error = client_error-Ends epfd;
          close = client_close-Ends epfd;
        })
        (λ e m w h. omega (arith, pt.wait_le e m w)) n epfd maxevents minus_one p g lt
