-- ===== src/Setup.antt =====
-- iSocket.cpp: `setNonBlock`, `Bind`, `Listen` and `Connect`, which open sockets and set them up. A
-- function with an `int &sockfd` gives its result and the `sockfd` that it leaves.
pub mod Opened
pub mod Bind
pub mod Keeps
pub mod Listen
pub mod Connect
mod Tests
use Prim.Native.Nat.{bit_or}
use epoll_threads.Base.{
  ℕ, zero, suc, ◌^◌, Bool, true, false, List, Option, none, some, ℤ, pos, negsuc, minus_one, is_neg,
  is_minus_one, ◌==◌, if◌then◌else◌,
}
use epoll_threads.Kernel.{
  Kernel, SocketOption, reuse_addr, recv_buffer, send_buffer, linger, Address, eintr,
}
use epoll_threads.Proc.{
  M, Proc, Message, pure, ◌>>=◌, ◌>>◌, call, look, say, my_debug, my_warning, fcntl_err, socket_err,
  address_err, bind_err, listen_err, select_err, accept_err, connect_err, new_client,
}

-- O_NONBLOCK of Linux.
abbrev pub o_nonblock : ℕ
o_nonblock = 2 ^ 11

-- LISTEN_POOL_SZ (Define.h).
abbrev pub listen_pool_sz : ℕ
listen_pool_sz = 1024

-- `rcvbufsize` and `sndbufsize`
abbrev pub buffer_size : ℕ
buffer_size = 12288000

-- The timeout of one second that `Listen` starts with, in microseconds.
abbrev pub one_second : ℕ
one_second = 1000000

-- The address that `Bind` asks for: any, unless a string is given, which must be an address.
abbrev pub bind_ip : (List ℕ → Option ℕ) → Option (List ℕ) → Option ℕ
bind_ip inet_aton none = some 0
bind_ip inet_aton (some bindaddr) = inet_aton bindaddr

abbrev pub shown : Option (List ℕ) → List ℕ
shown none = List.[]
shown (some bindaddr) = bindaddr

module _ (k : Kernel) where
  open k use {
    World, errno, shutdown, close, socket, setsockopt, fcntl_get, fcntl_set, inet_aton, inet_addr,
    bind, listen, connect, select, accept,
  }

  -- The failure of a step: a warning, with `errno`, and the result.
  abbrev pub fail_with : {A : Type 0} → (ℕ → Message) → A → M World A
  fail_with line r = do e ← look errno; say my_warning (line e); pure r

  abbrev pub after_getfl : ℤ → Option ℕ → M World ℤ
  after_getfl sockfd none = fail_with (λ e. fcntl_err) minus_one
  after_getfl sockfd (some opts) = do
    r ← call (fcntl_set sockfd (bit_or opts o_nonblock))
    if is_neg r then fail_with (λ e. fcntl_err) minus_one else pure (pos 0)

  unfoldable pub set_non_block : ℤ → M World ℤ
  set_non_block sockfd = do opts ← call (fcntl_get sockfd); after_getfl sockfd opts

  -- `close(sockfd); return -1;` behind the warning.
  abbrev pub give_up : ℤ → (ℕ → Message) → M World (ℤ × ℤ)
  give_up sockfd line = do fail_with line tt; call (close sockfd); pure (minus_one, sockfd)

  -- `Bind`, once the socket is open.
  abbrev pub bind_address : Option ℕ → Option (List ℕ) → ℕ → ℤ → M World (ℤ × ℤ)
  bind_address none bindaddr port sockfd = give_up sockfd (λ e. address_err (shown bindaddr))
  bind_address (some ip) bindaddr port sockfd = do
    r ← call (bind sockfd (record { ip = ip; port = port }))
    if is_minus_one r then give_up sockfd bind_err else (do
      r' ← call (listen sockfd listen_pool_sz)
      if is_minus_one r' then give_up sockfd listen_err else pure (pos 0, sockfd))

  -- `bindaddr` is `none` for NULL.
  unfoldable pub bind_socket : Option (List ℕ) → ℕ → M World (ℤ × ℤ)
  bind_socket bindaddr port = do
    sockfd ← call socket
    if is_minus_one sockfd then fail_with socket_err (minus_one, sockfd) else (do
      call (setsockopt sockfd (reuse_addr 1))
      bind_address (bind_ip inet_aton bindaddr) bindaddr port sockfd)

  -- What `Listen` does to a socket that it accepted.
  abbrev pub set_up_client : ℤ → M World (ℤ × ℤ)
  set_up_client sockfd = do
    call (setsockopt sockfd (recv_buffer buffer_size))
    call (setsockopt sockfd (send_buffer buffer_size))
    call (setsockopt sockfd (linger 1 0))
    set_non_block sockfd
    say my_debug new_client
    pure (pos 0, sockfd)

  -- What follows the `accept`; `again` is the next round.
  abbrev pub after_accept : (ℤ → M World (ℤ × ℤ)) → ℤ → M World (ℤ × ℤ)
  after_accept again sockfd =
      if is_minus_one sockfd
      then (do
        e ← look errno
        if e == eintr then again sockfd else fail_with accept_err (minus_one, sockfd))
      else set_up_client sockfd

  -- `if (FD_ISSET(…))`
  abbrev pub if_set : (ℤ → M World (ℤ × ℤ)) → ℤ → ℤ → Bool → M World (ℤ × ℤ)
  if_set again lsockfd sockfd false = again sockfd
  if_set again lsockfd sockfd true = do fd ← call (accept lsockfd); after_accept again fd

  -- What follows a `select` that left `left` of the timeout.
  abbrev pub after_select : (ℕ → ℤ → M World (ℤ × ℤ)) → ℤ → ℤ → ℤ × Bool × ℕ → M World (ℤ × ℤ)
  after_select again lsockfd sockfd (pos zero, is_set, left) = again left sockfd
  after_select again lsockfd sockfd (pos (suc n), is_set, left) =
      if_set (again left) lsockfd sockfd is_set
  after_select again lsockfd sockfd (negsuc zero, is_set, left) =
      fail_with select_err (minus_one, sockfd)
  after_select again lsockfd sockfd (negsuc (suc n), is_set, left) =
      if_set (again left) lsockfd sockfd is_set

  -- The loop of `Listen`: `tv` is what is left of the timeout, which is not set again.
  unfoldable pub listen_loop : ℕ → ℤ → ℕ → ℤ → M World (ℤ × ℤ)
  listen_loop zero lsockfd tv sockfd p = none
  listen_loop (suc fuel) lsockfd tv sockfd p =
      let round =
        (call (select lsockfd tv) >>= after_select (listen_loop fuel lsockfd) lsockfd sockfd) p in
      if shutdown p.world then some ((minus_one, sockfd), p) else round

  unfoldable pub listen_socket : ℕ → ℤ → ℤ → M World (ℤ × ℤ)
  listen_socket fuel lsockfd sockfd = listen_loop fuel lsockfd one_second sockfd

  unfoldable pub connect_socket : List ℕ → ℕ → M World (ℤ × ℤ)
  connect_socket remote_ip port = do
    sockfd ← call socket
    if is_minus_one sockfd then fail_with (λ e. socket_err e) (minus_one, sockfd) else (do
      call (setsockopt sockfd (reuse_addr 1))
      call (setsockopt sockfd (recv_buffer buffer_size))
      call (setsockopt sockfd (send_buffer buffer_size))
      r ← call (connect sockfd (record { ip = inet_addr remote_ip; port = port }))
      if is_neg r then fail_with connect_err (minus_one, sockfd) else (do
        call (setsockopt sockfd (linger 1 0))
        set_non_block sockfd
        pure (pos 0, sockfd)))
