-- ===== src/Session/Tests.antt =====
-- A worker and a client on the machine of Pair, from the start of their conversation.
use epoll_threads.Base.{[], some, pos}
use epoll_threads.Epoll.{i_epoll_read, i_epoll_write, i_epoll_edge_triggered, with_mode, add_mask}
use epoll_threads.Crowd.{put}
use epoll_threads.Session.Alive.{Session, Talks}
use epoll_threads.Session.Pair.{
  pair, pair_stream, pair_epoll, pair_patience, pair_clean, pair_prompt, pair_ctl, pair_nap, server,
  client, pair_wire,
}

abbrev Talk : Type 0
Talk =
    Session pair pair_stream pair_epoll pair_patience pair_clean pair_prompt pair_ctl pair_nap 1100
      server client pair_wire

-- As AssignTask and AddEpollEvents leave them: nothing is said yet.
abbrev connected : Talk
connected = record {
  world = record {
    inbox = λ fd. [];
    taken = λ fd. [];
    mask =
        put (pos 6) (some (with_mode add_mask i_epoll_write i_epoll_edge_triggered))
          (λ fd. some (with_mode add_mask i_epoll_read i_epoll_edge_triggered));
  };
  server_log = [];
  server_active = pos 1;
  client_log = [];
  client_active = pos 0;
}

abbrev PairTalks : Talk → Type 0
PairTalks =
    Talks pair pair_stream pair_epoll pair_patience pair_clean pair_prompt pair_ctl pair_nap 1100
      server client pair_wire
