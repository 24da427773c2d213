-- ===== src/Setup/Tests.antt =====
-- The set-up of sockets (iSocket.cpp) on the machine of `Slot`.
use epoll_threads.Base.{◌≡◌, refl, true, [], ◌∷◌, none, some, ℤ, pos, minus_one, arith}
use epoll_threads.Proc.{Proc, connect_err, new_client}
use epoll_threads.Setup.{
  bind_socket, listen_socket, listen_loop, connect_socket, set_non_block, one_second,
}
use epoll_threads.Setup.Bind.{Binds, bind_socket_lem}
use epoll_threads.Setup.Listen.{Accepts, listen_socket_lem}
use epoll_threads.Slot.{Slot, one_slot, slot_fds, slot_waiting, idle}

bind_socket_lem_example :
    (r : ℤ × ℤ) × (q : Proc Slot) × (bind_socket one_slot none 8090 idle ≡ some (r, q))
    × Binds one_slot slot_fds idle.world idle r q
bind_socket_lem_example = bind_socket_lem one_slot slot_fds none 8090 idle

listen_socket_lem_example :
    (r : ℤ × ℤ) × (q : Proc Slot) × (listen_socket one_slot 3 (pos 3) minus_one idle ≡ some (r, q))
    × Accepts one_slot slot_fds slot_waiting idle one_second r q
listen_socket_lem_example =
    listen_socket_lem one_slot slot_fds slot_waiting 3 (pos 3) minus_one idle (omega arith)

-- The connection is refused, and the socket stays open.
connect-refused :
    connect_socket one_slot [] 8090 idle
    ≡ some (
      (minus_one, pos 5),
      record idle {
        world = record (idle.world) { taken = true };
        log = record { level = 3; message = connect_err 111 } ∷ [];
      },
    )
unfolding connect_socket
connect-refused = refl

-- The first wait times out after the whole second, the next one finds a client.
listen-accepts :
    listen_socket one_slot 3 (pos 3) minus_one idle
    ≡ some (
      (pos 0, pos 5),
      record idle {
        world = record (idle.world) { taken = true; rounds = 0; waited = 1000000 };
        log = record { level = 0; message = new_client } ∷ [];
      },
    )
unfolding listen_socket listen_loop set_non_block
listen-accepts = refl
