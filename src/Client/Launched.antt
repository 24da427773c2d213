-- ===== src/Client/Launched.antt =====
-- main of Test.cpp: the clients that it has started when it gets to its `poll`.
use epoll_threads.Base.{
  Bool, true, false, ◌≤◌, ◌≡◌, ◌≢◌, true, List, [], ◌∷◌, some, ◌⊎◌, All, ℤ, is_minus_one, pos_part,
  length,
}
use epoll_threads.Kernel.{Kernel}
use epoll_threads.Proc.{Proc, my_notice, clients_running}
use epoll_threads.Epoll.Laws.{EpollSet}
use epoll_threads.Task.Switch.{logged}
use epoll_threads.Setup.Opened.{OpenFds}
use epoll_threads.Process.{Process, ignored, sigterm_handled, sigpipe, sigterm, sighup}
use epoll_threads.Client.Launch.{
  ClientObject, ClientOption, Arguments, ClientHost, running, terminated, ClientEnding, client_main,
}
use epoll_threads.Client.Start.{Launched}

module _ (k : Kernel) (op : OpenFds k) (es : EpollSet k) where
  open op use {opened}

  -- No socket, or one that is open.
  abbrev pub IsOpen : k.World → ClientObject → Type 0
  IsOpen w o = (is_minus_one o.sockfd ≡ true) ⊎ (opened w o.sockfd ≡ true)

  -- No socket, or another than `fd`.
  abbrev pub IsApart : ℤ → ClientObject → Type 0
  IsApart fd o = (is_minus_one o.sockfd ≡ true) ⊎ (o.sockfd ≢ fd)

  -- No two clients have the same socket.
  abbrev pub Apart : List ClientObject → Type 0
  Apart [] = Unit {0}
  Apart (o ∷ os) = ((is_minus_one o.sockfd ≡ true) ⊎ All (IsApart o.sockfd) os) × Apart os

  -- The end of the client's `main`: its `poll`, with all clients; or the SIGTERM behind the first
  -- `Connect` that failed, with those up to that one, and nothing else on the way.
  abbrev pub Ends :
      Arguments → Bool → List ClientObject → ClientEnding → Proc k.World → Proc k.World → Type 0
  Ends a b os ending q q' =
      ((b ≡ false)
        × (length os ≡ pos_part a.threads)
        × (ending ≡ running os)
        × (q' ≡ record q { log = logged my_notice clients_running ∷ q.log }))
      ⊎ ((b ≡ true) × (length os ≤ pos_part a.threads) × (ending ≡ terminated os) × (q' ≡ q))

  abbrev pub Runs : ClientHost → List ClientOption → Arguments → Process → Proc k.World → Type 0
  Runs h opts a proc p =
      (os : List ClientObject) × (b : Bool) × (ending : ClientEnding) × (proc' : Process)
      × (q : Proc k.World) × (q' : Proc k.World) × (client_main k h 7 opts proc p
          ≡ some (ending, proc', q'))
      × Launched k op es a.ip a.port 0 os b p q
      × Ends a b os ending q q'
      × All (IsOpen q.world) os
      × Apart os
      × (proc'.dispositions sigpipe ≡ ignored)
      × (proc'.dispositions sigterm ≡ sigterm_handled)
      × (proc'.dispositions sighup ≡ sigterm_handled)
