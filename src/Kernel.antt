-- ===== src/Kernel.antt =====
-- What the program takes from outside. First the counters of iAtomic.h, a copy of the ALSA header
-- that the sources only call.
use epoll_threads.Base.{
  Bool, List, Option, ℕ, ◌^◌, ◌<◌, ◌≡◌, ℤ, pos, negsuc, pos_part, neg_part, ◌+ℤ◌,
}

-- The header guarantees 24 bits of an `atomic_t`.
abbrev pub InRange : ℤ → Type 0
InRange c = (pos_part c < 2 ^ 23) × (neg_part c < 2 ^ 23)

-- `atomic_inc` and `atomic_dec` with what the header documents of them.
pub record Atomic : Type 0 where
  pub inc : ℤ → ℤ
  pub dec : ℤ → ℤ
  pub inc_lem : (c : ℤ) → InRange c → inc c ≡ c +ℤ pos 1
  pub dec_lem : (c : ℤ) → InRange c → dec c ≡ c +ℤ negsuc 0

-- An epoll mask, as the bits that the code names: EPOLLIN, EPOLLOUT, EPOLLERR, EPOLLHUP, EPOLLRDHUP
-- and EPOLLET.
pub record Mask : Type 0 where
  pub readable : Bool
  pub writable : Bool
  pub error : Bool
  pub hangup : Bool
  pub rdhangup : Bool
  pub edge : Bool

-- `struct epoll_event` with `data.fd`.
pub record Event : Type 0 where
  pub fd : ℤ
  pub events : Mask

-- The operation of an `epoll_ctl`, with the event it is given.
pub data Ctl : Type 0 where
  ctl_add ctl_mod : Event → Ctl
  ctl_del : Ctl

-- The result of `recv`: the bytes it wrote, whose number it returns, or -1.
pub data Received : Type 0 where
  got : List ℕ → Received
  failed : Received

-- errno.h
abbrev pub eintr : ℕ
eintr = 4

-- The options that the code passes to `setsockopt`, and their values.
pub data SocketOption : Type 0 where
  reuse_addr recv_buffer send_buffer : ℕ → SocketOption
  linger : ℕ → ℕ → SocketOption

-- `struct sockaddr_in` of AF_INET; the address is in host order, with 0 for INADDR_ANY.
pub record Address : Type 0 where
  pub ip : ℕ
  pub port : ℕ

-- The system calls that the sources make, over a state of the machine that they do not look into.
-- `shutdown` is `g_Server.shutdown`, which a signal handler sets behind the back of the threads.
-- `select` waits for one socket to be readable and gives its result, whether the socket is in the
-- set, and what it left of the timeout, in microseconds. A result that no caller reads is left out.
pub record Kernel : Type 1 where
  pub World : Type 0
  pub errno : World → ℕ
  pub shutdown : World → Bool
  pub recv : ℤ → ℕ → World → Received × World
  pub send : ℤ → List ℕ → World → ℤ × World
  pub close : ℤ → World → Unit {0} × World
  pub gettimeofday_usec : World → ℕ × World
  pub sleep_ms : ℕ → World → Unit {0} × World
  pub epoll_create : ℤ → World → ℤ × World
  pub epoll_ctl : ℤ → Ctl → ℤ → World → ℤ × World
  pub epoll_wait : ℤ → ℤ → World → Option (List Event) × World
  pub socket : World → ℤ × World
  pub setsockopt : ℤ → SocketOption → World → Unit {0} × World
  pub fcntl_get : ℤ → World → Option ℕ × World
  pub fcntl_set : ℤ → ℕ → World → ℤ × World
  pub inet_aton : List ℕ → Option ℕ
  pub inet_addr : List ℕ → ℕ
  pub bind : ℤ → Address → World → ℤ × World
  pub listen : ℤ → ℕ → World → ℤ × World
  pub connect : ℤ → Address → World → ℤ × World
  pub select : ℤ → ℕ → World → (ℤ × Bool × ℕ) × World
  pub accept : ℤ → World → ℤ × World
  pub counters : Atomic
