-- ===== src/Client.antt =====
-- Test.cpp: the client, a subclass of iEpoll with one connection and handlers of its own.
pub mod Launch
pub mod Start
pub mod Launched
pub mod Deleted
mod Many
pub mod Talk
pub mod Leave
pub mod Frame
pub mod Halts
mod Tests
use epoll_threads.Base.{
  ℕ, zero, suc, ◌+◌, ◌%◌, ◌^◌, Bool, List, ◌++◌, Option, none, some, ℤ, pos, negsuc, minus_one,
  ◌-ℤ◌, ◌+ℤ◌, signed32, length, if◌then◌else◌,
}
use epoll_threads.Kernel.{Kernel}
use epoll_threads.Proc.{
  M, pure, ◌>>=◌, ◌>>◌, call, look, say, my_debug, my_warning, min_bufsz, recv_err, recv_data_from,
  send_err, event_err, server_closed,
}
use epoll_threads.Text.{codes, decimal, c_string, filled}
use epoll_threads.Socket.{recvn, sendn}
use epoll_threads.Epoll.{
  Handlers, i_epoll_read, i_epoll_write, i_epoll_edge_triggered, i_epoll_del, i_epoll_change_mode,
  i_epoll_wait,
}
use epoll_threads.Task.{nothing_moved}
use epoll_threads.ListenThread.{quotient}

-- sprintf(sBuf, "Hi server, i'am %d %d", sockfd, usec)
unfoldable pub client_greeting : ℤ → ℕ → List ℕ
client_greeting sockfd usec =
    codes "Hi server, i'am " ++ (decimal sockfd ++ (codes " " ++ decimal (pos usec)))

-- Test.cpp's own `GetWorkerCapacity`, for a `threads` whose sums fit an `int`; `none` is the division
-- by zero for no threads.
unfoldable pub client_capacity : ℕ → ℤ → Option ℤ
client_capacity rlim_cur (pos zero) = none
client_capacity rlim_cur (pos (suc n)) =
    some (quotient (quotient (signed32 (rlim_cur % 2 ^ 32) -ℤ pos (suc n + 1)) 2) (suc n))
client_capacity rlim_cur (negsuc n) =
    some
      (pos 0 -ℤ quotient (quotient (signed32 (rlim_cur % 2 ^ 32) -ℤ (negsuc n +ℤ pos 1)) 2) (suc n))

module _ (k : Kernel) where
  open k use {World, errno, close, gettimeofday_usec, sleep_ms}

  module _ (fuel : ℕ) (epfd : ℤ) where
    unfoldable pub client_read : ℤ → M World ℤ
    client_read sockfd = do
      (bytes, out) ← recvn k fuel sockfd min_bufsz
      if nothing_moved bytes
          then (say my_warning (recv_err bytes sockfd) >> pure minus_one)
          else (do
            say my_debug (recv_data_from bytes (c_string (filled min_bufsz out)) sockfd)
            i_epoll_change_mode k epfd sockfd i_epoll_write i_epoll_edge_triggered
            pure (pos 0))

    unfoldable pub client_write : ℤ → M World ℤ
    client_write sockfd = do
      usec ← call gettimeofday_usec
      call (sleep_ms 1000)
      let buf = client_greeting sockfd usec
      bytes ← sendn k fuel sockfd buf (length buf)
      if nothing_moved bytes
          then (say my_warning (send_err bytes sockfd) >> pure minus_one)
          else (do
            i_epoll_change_mode k epfd sockfd i_epoll_read i_epoll_edge_triggered
            pure (pos 0))

    unfoldable pub client_error : ℤ → M World ℤ
    client_error sockfd = do e ← look errno; say my_warning (event_err e sockfd); pure minus_one

    unfoldable pub client_close : ℤ → M World ℤ
    client_close sockfd = do
      say my_debug server_closed
      i_epoll_del k epfd sockfd
      call (close sockfd)
      pure (pos 0)

    abbrev pub client_handlers : Handlers World
    client_handlers = record {
      i_read = client_read;
      i_write = client_write;
      i_error = client_error;
      i_close = client_close;
    }

    -- `Test::Run`, with `rounds` calls of `epoll_wait` at most.
    unfoldable pub client_run : ℕ → ℤ → M World ℤ
    client_run rounds maxevents = i_epoll_wait k client_handlers rounds epfd maxevents
