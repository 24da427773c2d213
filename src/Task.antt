-- ===== src/Task.antt =====
-- TaskThread.cpp: the handlers of a worker thread.
pub mod Switch
pub mod Reply
pub mod Request
pub mod Close
pub mod Halts
pub mod Frame
pub mod Conversation
pub mod Turns
pub mod Batch
pub mod Interest
pub mod Life
pub mod Pooled
use epoll_threads.Base.{
  ℕ, zero, ◌^◌, Bool, not, List, [], ◌∷◌, ◌++◌, ℤ, pos, minus_one, ltb_ℤ, length, if◌then◌else◌,
}
use epoll_threads.Kernel.{Kernel, Atomic}
use epoll_threads.Proc.{
  M, Proc, pure, ◌>>=◌, ◌>>◌, call, look, say, my_debug, my_warning, recv_err, recv_data, send_err,
  event_err, client_closed, active_conns, min_bufsz,
}
use epoll_threads.Text.{codes, decimal, c_string, filled}
use epoll_threads.Socket.{recvn, sendn}
use epoll_threads.Epoll.{
  Handlers, i_epoll_read, i_epoll_write, i_epoll_edge_triggered, i_epoll_del, i_epoll_change_mode,
  i_epoll_wait,
}

-- sprintf(sBuf, "Hi %d welcome %d", sockfd, usec)
unfoldable pub greeting : ℤ → ℕ → List ℕ
greeting sockfd usec = codes "Hi " ++ (decimal sockfd ++ (codes " welcome " ++ decimal (pos usec)))

-- `bytes <= 0`
abbrev pub nothing_moved : ℤ → Bool
nothing_moved bytes = not (ltb_ℤ (pos 0) bytes)

module _ (k : Kernel) (fuel : ℕ) (epfd : ℤ) where
  open k use {World, errno, close, gettimeofday_usec}

  unfoldable pub i_read : ℤ → M World ℤ
  i_read sockfd = do
    (bytes, out) ← recvn k fuel sockfd min_bufsz
    if nothing_moved bytes then (say my_warning (recv_err bytes sockfd) >> pure minus_one) else (do
      say my_debug (recv_data bytes (c_string (filled min_bufsz out)))
      i_epoll_change_mode k epfd sockfd i_epoll_write i_epoll_edge_triggered
      pure (pos 0))

  unfoldable pub i_write : ℤ → M World ℤ
  i_write sockfd = do
    usec ← call gettimeofday_usec
    let buf = greeting sockfd usec
    bytes ← sendn k fuel sockfd buf (length buf)
    if nothing_moved bytes then (say my_warning (send_err bytes sockfd) >> pure minus_one) else (do
      i_epoll_change_mode k epfd sockfd i_epoll_read i_epoll_edge_triggered
      pure (pos 0))

  unfoldable pub i_error : ℤ → M World ℤ
  i_error sockfd = do e ← look errno; say my_warning (event_err e sockfd); pure minus_one

  -- `atomic_dec(&m_ActiveConns)`
  abbrev pub atomic_dec : M World (Unit {0})
  atomic_dec p = pure tt (record p { active = k.counters.dec p.active })

  -- `m_ActiveConns.counter`
  abbrev pub get_active_conns : M World ℤ
  get_active_conns p = pure p.active p

  unfoldable pub i_close : ℤ → M World ℤ
  i_close sockfd = do
    say my_debug (client_closed sockfd)
    i_epoll_del k epfd sockfd
    call (close sockfd)
    atomic_dec
    n ← get_active_conns
    say my_debug (active_conns n)
    pure (pos 0)

  abbrev pub task_handlers : Handlers World
  task_handlers = record {
    i_read = i_read;
    i_write = i_write;
    i_error = i_error;
    i_close = i_close;
  }

  -- `Run`, with `rounds` calls of `epoll_wait` at most.
  unfoldable pub run : ℕ → ℤ → M World ℤ
  run rounds maxevents = i_epoll_wait k task_handlers rounds epfd maxevents
