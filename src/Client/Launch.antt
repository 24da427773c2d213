-- ===== src/Client/Launch.antt =====
-- Test.cpp: the objects of the clients, and main. The threads and their SIGUSR1 are left out.
use epoll_threads.Base.{
  ℕ, zero, suc, ◌+◌, ◌%◌, ◌^◌, Bool, true, false, List, [], ◌∷◌, ◌++◌, Option, none, some, ℤ, pos,
  minus_one, is_minus_one, pos_part, signed32, length, ltb, ◌==◌, if◌then◌else◌,
}
use epoll_threads.Kernel.{Kernel}
use epoll_threads.Proc.{
  M, Proc, pure, ◌>>=◌, ◌>>◌, call, say, my_notice, my_warning, clients_running, connect_server_err,
}
use epoll_threads.Text.{codes}
use epoll_threads.Epoll.{i_epoll_read, i_epoll_edge_triggered, i_epoll_add}
use epoll_threads.Setup.{connect_socket}
use epoll_threads.Lifetime.{EpollObject, new_epoll, delete_epoll, go_on_deleting}
use epoll_threads.Process.{Process, init_server}
use epoll_threads.Client.{client_capacity}

-- The base class, and `m_sockfd`.
pub record ClientObject : Type 0 where
  pub epoll : EpollObject
  pub sockfd : ℤ

-- What `getopt` returns: an option with its argument, or anything else.
pub data ClientOption : Type 0 where
  ip_option port_option threads_option : List ℕ → ClientOption
  unknown : ClientOption

-- The variables of `main` that the options set.
pub record Arguments : Type 0 where
  pub ip : List ℕ
  pub port : ℕ
  pub threads : ℤ

-- The loop over the options: what it has set, the usage, or an argument that does not fit `ip[32]`.
pub data ClientOptions : Type 0 where
  parsed : Arguments → ClientOptions
  usage : ClientOptions
  overrun : ClientOptions

-- What `main` is told by the system: `argv[0]`, the limit of descriptors, and the results of the C
-- library's `strtoul` with base 0.
pub record ClientHost : Type 0 where
  pub program : List ℕ
  pub rlim_cur : ℕ
  pub strtoul : List ℕ → ℕ

-- How `main` ends, or gets to its `poll`, with its clients; or the SIGTERM that it has sent to itself,
-- with the clients that the handler deletes.
pub data ClientEnding : Type 0 where
  returned : ℤ → ClientEnding
  overflowed : ClientEnding
  divided_by_zero : ClientEnding
  running : List ClientObject → ClientEnding
  terminated : List ClientObject → ClientEnding

-- `help`
unfoldable pub client_help : List ℕ → Process → Process
client_help program p = record p {
  errors =
      p.errors
      ++ (codes "Usage: " ++ (program ++ (codes " [-i ip] [-p port] [-t threads]" ++ 10 ∷ [])));
}

-- As `main` declares them.
abbrev pub no_arguments : Arguments
no_arguments = record { ip = []; port = 0; threads = pos 0 }

module _ (h : ClientHost) where
  unfoldable pub parse_client_options : List ClientOption → Arguments → ClientOptions
  parse_client_options [] a = parsed a
  parse_client_options (unknown ∷ opts) a = usage
  parse_client_options (ip_option arg ∷ opts) a =
      let rest = parse_client_options opts (record a { ip = arg }) in
      if ltb (length arg) 32 then rest else overrun
  parse_client_options (port_option arg ∷ opts) a =
      parse_client_options opts (record a { port = h.strtoul arg % 2 ^ 16 })
  parse_client_options (threads_option arg ∷ opts) a =
      parse_client_options opts (record a { threads = signed32 (h.strtoul arg % 2 ^ 32) })

module _ (k : Kernel) where
  open k use {World}

  -- `Test::Test`
  unfoldable pub new_client_object : ℤ → M World ClientObject
  new_client_object capacity = do
    o ← new_epoll k capacity
    pure (record { epoll = o; sockfd = minus_one })

  -- `Test::~Test`, which ends with that of `iEpoll`
  unfoldable pub delete_client : ClientObject → M World (Option (Unit {0}))
  delete_client o = call (k.close o.sockfd) >> delete_epoll k o.epoll

  -- The loop of `sigtermHandler` over the clients.
  unfoldable pub delete_clients : List ClientObject → M World (Option (Unit {0}))
  delete_clients [] = pure (some tt)
  delete_clients (o ∷ os) = delete_client o >>= go_on_deleting k (delete_clients os)

  -- `Test::Connect`, with the object behind it
  unfoldable pub client_connect : ClientObject → List ℕ → ℕ → M World (ℤ × ClientObject)
  client_connect o ip port = do r ← connect_socket k ip port; pure (r.0, record o { sockfd = r.1 })

  -- `Test::AddEpollEvents`
  unfoldable pub add_epoll_events : ClientObject → ℕ → ℕ → M World ℤ
  add_epoll_events o init_mode behavior = i_epoll_add k o.epoll.epfd o.sockfd init_mode behavior

  -- The body of the loop of `main`, up to the SIGTERM that it sends to itself if `Connect` fails; and
  -- whether it has sent one. `main` is the thread that takes it, in the handler, which ends the process.
  unfoldable pub start_client : ℕ → ℤ → List ℕ → ℕ → M World (ClientObject × Bool)
  start_client i capacity ip port = do
    o ← new_client_object capacity
    (r, o') ← client_connect o ip port
    if is_minus_one r
        then (say my_warning (connect_server_err i ip port) >> pure (o', true))
        else (add_epoll_events o' i_epoll_read i_epoll_edge_triggered >> pure (o', false))

  abbrev pub unless_killed :
      Bool → ClientObject → M World (List ClientObject × Bool) → M World (List ClientObject × Bool)
  unless_killed true o rest = pure (o ∷ [], true)
  unless_killed false o rest = do (os, killed) ← rest; pure (o ∷ os, killed)

  -- The loop from `i` on, with `n` clients to go: the clients, and whether a SIGTERM was sent.
  unfoldable pub start_clients : ℤ → List ℕ → ℕ → ℕ → ℕ → M World (List ClientObject × Bool)
  start_clients capacity ip port i zero = pure ([], false)
  start_clients capacity ip port i (suc n) = do
    (o, failed) ← start_client i capacity ip port
    unless_killed failed o (start_clients capacity ip port (i + 1) n)

  module _ (h : ClientHost) where
    abbrev pub ClientMain : Type 0
    ClientMain = Option (ClientEnding × Process × Proc World)

    abbrev pub after_start : List ClientObject → Bool → M World ClientEnding
    after_start os true = pure (terminated os)
    after_start os false = say my_notice clients_running >> pure (running os)

    -- Behind `GetWorkerCapacity`.
    abbrev pub after_capacity : Option ℤ → Arguments → Process → Proc World → ClientMain
    after_capacity none a proc p = some (divided_by_zero, proc, p)
    after_capacity (some capacity) a proc p =
        elim ((do
          r ← start_clients capacity a.ip a.port 0 (pos_part a.threads)
          after_start r.0 r.1)
          p) [ none ↦ none | some (ending, q) ↦ some (ending, proc, q) ]

    abbrev pub after_client_options : ClientOptions → Process → Proc World → ClientMain
    after_client_options usage proc p = some (returned minus_one, client_help h.program proc, p)
    after_client_options overrun proc p = some (overflowed, proc, p)
    after_client_options (parsed a) proc p =
        after_capacity (client_capacity h.rlim_cur a.threads) a (init_server proc) p

    unfoldable pub client_main : ℕ → List ClientOption → Process → Proc World → ClientMain
    unfolding parse_client_options
    client_main argc opts proc p =
        if argc == 7
        then after_client_options (parse_client_options h opts no_arguments) proc p
        else some (returned minus_one, client_help h.program proc, p)
