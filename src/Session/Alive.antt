-- ===== src/Session/Alive.antt =====
-- A worker and its client (TaskThread.cpp, Test.cpp) never wait for each other.
use epoll_threads.Base.{ℕ, ◌<◌, ◌≡◌, Bool, true, List, ◌++◌, some, ◌⊎◌, ℤ, length}
use epoll_threads.Kernel.{Kernel, Event, Ctl}
use epoll_threads.Proc.{Proc, LogCall}
use epoll_threads.Socket.Laws.{Stream, Patience, CleanEnd}
use epoll_threads.Socket.Prompt.{Prompt}
use epoll_threads.Epoll.{handle_event}
use epoll_threads.Epoll.Laws.{EpollSet}
use epoll_threads.Task.{task_handlers}
use epoll_threads.Client.{client_handlers}
use epoll_threads.Client.Talk.{Nap}
use epoll_threads.Session.Prompt.{CtlWorks}
use epoll_threads.Session.Ends.{End, In, Due, Fueled, Leaves}

-- The two ends of one connection: `taken` is what an end has received of the other's bytes. A call on
-- one end leaves alone the entry of the other in its epoll set, and what that has taken.
pub record Wire (k : Kernel) (st : Stream k) (es : EpollSet k) (pt : Patience k)
    (server client : End) : Type 0 where
  pub taken : k.World → ℤ → List ℕ
  pub to_client :
      (w : k.World) → st.outgoing w server.fd ≡ taken w client.fd ++ st.incoming w client.fd
  pub to_server :
      (w : k.World) → st.outgoing w client.fd ≡ taken w server.fd ++ st.incoming w server.fd
  pub recv_server : (n : ℕ) (w : k.World) → Leaves k es pt taken client w (k.recv server.fd n w).1
  pub recv_client : (n : ℕ) (w : k.World) → Leaves k es pt taken server w (k.recv client.fd n w).1
  pub send_server :
      (bs : List ℕ) (w : k.World) → Leaves k es pt taken client w (k.send server.fd bs w).1
  pub send_client :
      (bs : List ℕ) (w : k.World) → Leaves k es pt taken server w (k.send client.fd bs w).1
  pub ctl_server :
      (c : Ctl) (w : k.World)
      → Leaves k es pt taken client w (k.epoll_ctl server.epfd c server.fd w).1
  pub ctl_client :
      (c : Ctl) (w : k.World)
      → Leaves k es pt taken server w (k.epoll_ctl client.epfd c client.fd w).1
  pub time : (e : End) (w : k.World) → Leaves k es pt taken e w (k.gettimeofday_usec w).1
  pub sleep : (ms : ℕ) (e : End) (w : k.World) → Leaves k es pt taken e w (k.sleep_ms ms w).1

module _ (k : Kernel) (st : Stream k) (es : EpollSet k) (pt : Patience k) (clean : CleanEnd k)
    (pr : Prompt k st) (cw : CtlWorks k) (nap : Nap k st pt) (fuel : ℕ) (server client : End)
    (wire : Wire k st es pt server client) where
  open wire use {taken}

  abbrev Spares : End → k.World → k.World → Type 0
  Spares = Leaves k es pt taken

  -- The machine that both ends run on, with the log and the counter of each thread.
  pub record Session : Type 0 where
    pub world : k.World
    pub server_log : List LogCall
    pub server_active : ℤ
    pub client_log : List LogCall
    pub client_active : ℤ

  abbrev pub server_proc : Session → Proc k.World
  server_proc s = record { world = s.world; log = s.server_log; active = s.server_active }

  abbrev pub client_proc : Session → Proc k.World
  client_proc s = record { world = s.world; log = s.client_log; active = s.client_active }

  -- One of the two threads handles an event that is due, whatever `nRet` it has from before.
  pub data Step (s : Session) : Session → Type 0 where
    server_turn :
        (ev : Event) (ret r : ℤ) (q : Proc k.World)
        → Due k st es pt fuel server s.world ev
        → handle_event k (task_handlers k fuel server.epfd) ev ret (server_proc s) ≡ some (r, q)
        → Step s (record s { world = q.world; server_log = q.log; server_active = q.active })
    client_turn :
        (ev : Event) (ret r : ℤ) (q : Proc k.World)
        → Due k st es pt fuel client s.world ev
        → handle_event k (client_handlers k fuel client.epfd) ev ret (client_proc s) ≡ some (r, q)
        → Step s (record s { world = q.world; client_log = q.log; client_active = q.active })

  pub data Steps (s : Session) : Session → Type 0 where
    at_start : Steps s s
    then_step : {t u : Session} → Steps s t → Step t u → Steps s u

  -- Each end asks for one direction, and one of them is to write or has bytes to read.
  pub record Talks (s : Session) : Type 0 where
    pub server_writes : Bool
    pub client_writes : Bool
    pub server_in : In k st es pt fuel server s.world server_writes
    pub client_in : In k st es pt fuel client s.world client_writes
    pub fueled : Fueled k st es pt fuel s.world
    pub alive :
        ((server_writes ≡ true) ⊎ (0 < length (st.incoming s.world client.fd)))
        ⊎ ((client_writes ≡ true) ⊎ (0 < length (st.incoming s.world server.fd)))
