-- ===== src/Task/Conversation.antt =====
-- The conversation of a worker with its clients (TaskThread.cpp under iEpoll::i_epoll_wait of
-- iEpoll.cpp): one turn of it for each event.
use epoll_threads.Base.{
  ℕ, ◌≤◌, ◌<◌, ◌≡◌, refl, sym, ap, ◌∙◌, Bool, true, false, List, [], ◌∷◌, ◌++◌, ◌⊎◌, inl, inr, ℤ,
  pos, length, take, take_all, arith, append-nil,
}
use epoll_threads.Kernel.{Kernel, Event, ctl_del}
use epoll_threads.Proc.{Proc, min_bufsz, my_debug, recv_data}
use epoll_threads.Text.{c_string, filled}
use epoll_threads.Socket.Laws.{Stream}
use epoll_threads.Epoll.{i_epoll_read, i_epoll_write}
use epoll_threads.Epoll.Laws.{EpollSet}
use epoll_threads.Epoll.Dispatch.{is_handled}
use epoll_threads.Task.{greeting}
use epoll_threads.Task.Switch.{logged, Switched}

-- Reading a socket leaves what it is sent alone, and writing what it has sent.
pub record TwoWays (k : Kernel) (st : Stream k) : Type 0 where
  pub recv_outgoing :
      (fd : ℤ) (n : ℕ) (w : k.World) → st.outgoing (k.recv fd n w).1 fd ≡ st.outgoing w fd
  pub send_incoming :
      (fd : ℤ) (bs : List ℕ) (w : k.World) → st.incoming (k.send fd bs w).1 fd ≡ st.incoming w fd
  pub time_incoming :
      (fd : ℤ) (w : k.World) → st.incoming (k.gettimeofday_usec w).1 fd ≡ st.incoming w fd

-- What epoll reports of a socket in read mode or in write mode: never both directions at once.
abbrev pub OneWay : Event → Type 0
OneWay ev =
    (is_handled ev.events ≡ true) × ((ev.events.readable ≡ false) ⊎ (ev.events.writable ≡ false))

module _ (k : Kernel) (st : Stream k) (es : EpollSet k) (epfd : ℤ) where
  open st use {incoming, outgoing}

  -- A turn that the conversation goes on after: a request is taken, and the socket is to wait for
  -- room; or a reply is sent whole, and the socket is to wait for the next request.
  pub data Exchange (fd : ℤ) (p q : Proc k.World) : Type 0 where
    request :
        (out : List ℕ)
        → (0 < length out) × (length out ≤ min_bufsz)
        → incoming p.world fd ≡ out ++ incoming q.world fd
        → outgoing q.world fd ≡ outgoing p.world fd
        → Switched k st es epfd fd i_epoll_write
            (logged my_debug (recv_data (pos (length out)) (c_string (filled min_bufsz out)))
              ∷ p.log)
            q
        → Exchange fd p q
    reply :
        (usec : ℕ)
        → outgoing q.world fd ≡ outgoing p.world fd ++ greeting fd usec
        → incoming q.world fd ≡ incoming p.world fd
        → Switched k st es epfd fd i_epoll_read p.log q
        → Exchange fd p q

  -- What the streams of a socket may have gone through in one turn, up to its end.
  pub record Part (fd : ℤ) (p : Proc k.World) (w : k.World) : Type 0 where
    pub bytes : List ℕ
    pub usec : ℕ
    pub sent : ℕ
    pub taken : incoming p.world fd ≡ bytes ++ incoming w fd
    pub given : outgoing w fd ≡ outgoing p.world fd ++ take sent (greeting fd usec)
    pub one_way : (bytes ≡ []) ⊎ (sent ≡ 0)

  -- A turn on `fd`: `true` where it ends the conversation. Then the socket is out of the interest
  -- list and closed, and the client has been sent no more than a part of a reply, and one
  -- `atomic_dec` of the counter is made.
  pub data Turn (fd : ℤ) (p : Proc k.World) : Bool → Proc k.World → Type 0 where
    goes_on : {q : Proc k.World} → Exchange fd p q → q.active ≡ p.active → Turn fd p false q
    ends :
        {q : Proc k.World} (w : k.World)
        → Part fd p w
        → q.world ≡ (k.close fd (k.epoll_ctl epfd ctl_del fd w).1).1
        → q.active ≡ k.counters.dec p.active
        → Turn fd p true q

  pub Exchange-Part : (fd : ℤ) (p q : Proc k.World) → Exchange fd p q → Part fd p q.world
  Exchange-Part fd p q (request out size i o s) = record {
    bytes = out;
    usec = 0;
    sent = 0;
    taken = i;
    given = o ∙ sym (append-nil (outgoing p.world fd));
    one_way = inr refl;
  }
  Exchange-Part fd p q (reply usec o i s) = record {
    bytes = [];
    usec = usec;
    sent = length (greeting fd usec);
    taken = sym i;
    given =
        o
        ∙ ap (◌++◌ (outgoing p.world fd))
            (sym (take_all (length (greeting fd usec)) (greeting fd usec) (omega arith)));
    one_way = inl refl;
  }

  pub Part-nothing : (fd : ℤ) (p : Proc k.World) → Part fd p p.world
  Part-nothing fd p = record {
    bytes = [];
    usec = 0;
    sent = 0;
    taken = refl;
    given = sym (append-nil (outgoing p.world fd));
    one_way = inl refl;
  }
