-- ===== src/Client/Frame.antt =====
-- The handlers of Test.cpp that move data: a relation that every system call of a handler keeps is kept
-- by the handler.
use epoll_threads.Base.{ℕ, List, length, inl, inr, refl, ℤ, pos, minus_one}
use epoll_threads.Kernel.{Kernel}
use epoll_threads.Proc.{my_debug, my_warning, recv_err, recv_data_from, send_err, min_bufsz}
use epoll_threads.Text.{c_string, filled}
use epoll_threads.Epoll.{i_epoll_read, i_epoll_write}
use epoll_threads.Task.{nothing_moved}
use epoll_threads.Task.Frame.{
  Keeps, Keeps-pure, Keeps-bind, Keeps-if, Keeps-say, Keeps-call, recvn-Keeps, sendn-Keeps, Ctls,
  change_mode-Keeps,
}
use epoll_threads.Client.{client_greeting, client_read, client_write}

module _ (k : Kernel) (R : k.World → k.World → Type 0) (R-refl : (w : k.World) → R w w)
    (R-trans : (u v w : k.World) → R u v → R v w → R u w) (fuel : ℕ) (epfd fd : ℤ) where
  pub client_read-Keeps :
      ((n : ℕ) (w : k.World) → R w (k.recv fd n w).1)
      → Ctls k R R-refl R-trans fuel epfd fd
      → Keeps k R R-refl R-trans (client_read k fuel epfd fd)
  unfolding client_read
  client_read-Keeps recv ctl =
      Keeps-bind k R R-refl R-trans (recvn-Keeps k R R-refl R-trans fd recv fuel min_bufsz) λ r.
        Keeps-if k R R-refl R-trans (nothing_moved r.0)
          (Keeps-bind k R R-refl R-trans (Keeps-say k R R-refl R-trans my_warning (recv_err r.0 fd))
            λ _. Keeps-pure k R R-refl R-trans minus_one)
          (Keeps-bind k R R-refl R-trans
            (Keeps-say k R R-refl R-trans my_debug
              (recv_data_from r.0 (c_string (filled min_bufsz r.1)) fd))
            λ _.
              Keeps-bind k R R-refl R-trans
                (change_mode-Keeps k R R-refl R-trans fuel epfd fd i_epoll_write (inr refl) ctl)
                λ _. Keeps-pure k R R-refl R-trans (pos 0))

  pub client_write-Keeps :
      ((bs : List ℕ) (w : k.World) → R w (k.send fd bs w).1)
      → ((w : k.World) → R w (k.gettimeofday_usec w).1)
      → ((ms : ℕ) (w : k.World) → R w (k.sleep_ms ms w).1)
      → Ctls k R R-refl R-trans fuel epfd fd
      → Keeps k R R-refl R-trans (client_write k fuel epfd fd)
  unfolding client_write
  client_write-Keeps send time sleep ctl =
      Keeps-bind k R R-refl R-trans (Keeps-call k R R-refl R-trans k.gettimeofday_usec time) λ usec.
        Keeps-bind k R R-refl R-trans (Keeps-call k R R-refl R-trans (k.sleep_ms 1000) (sleep 1000))
          λ _.
            Keeps-bind k R R-refl R-trans
              (sendn-Keeps k R R-refl R-trans fd send fuel (length (client_greeting fd usec))
                (client_greeting fd usec))
              λ r.
                Keeps-if k R R-refl R-trans (nothing_moved r)
                  (Keeps-bind k R R-refl R-trans
                    (Keeps-say k R R-refl R-trans my_warning (send_err r fd))
                    λ _. Keeps-pure k R R-refl R-trans minus_one)
                  (Keeps-bind k R R-refl R-trans
                    (change_mode-Keeps k R R-refl R-trans fuel epfd fd i_epoll_read (inl refl) ctl)
                    λ _. Keeps-pure k R R-refl R-trans (pos 0))
