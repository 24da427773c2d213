-- ===== src/Proc.antt =====
-- The state that one thread of the program reads and writes, and the monad of its functions. A
-- function that waits or retries runs on fuel; `none` is fuel that ran out.
use epoll_threads.Base.{ℕ, Bool, true, false, List, ◌∷◌, Option, none, some, ℤ}

-- Define.h: the size of most buffers, and the log levels.
abbrev pub min_bufsz : ℕ
min_bufsz = 1024

abbrev pub my_debug : ℕ
my_debug = 0

abbrev pub my_verbose : ℕ
my_verbose = 1

abbrev pub my_notice : ℕ
my_notice = 2

abbrev pub my_warning : ℕ
my_warning = 3

-- What the loader logs, with the number of the line.
pub data Complaint : Type 0 where
  missing_argument : ℕ → Complaint
  not_yes_or_no : ℕ → Complaint
  invalid_port : ℕ → Complaint
  invalid_timeout : ℕ → Complaint
  not_a_level : ℕ → Complaint
  cannot_open_config : Complaint
  cannot_open_log : List ℕ → Complaint
  invalid_max_clients : ℕ → Complaint
  invalid_max_threads : ℕ → Complaint
  invalid_argument : ℕ → Complaint

-- The messages of `myepollLog` in the thread and socket classes, with the values they print.
pub data Message : Type 0 where
  recv_err : (bytes sockfd : ℤ) → Message
  recv_data : (bytes : ℤ) (shown : Option (List ℕ)) → Message
  send_err : (bytes sockfd : ℤ) → Message
  event_err : (errno : ℕ) (sockfd : ℤ) → Message
  client_closed : (sockfd : ℤ) → Message
  active_conns : (count : ℤ) → Message
  epoll_create_err : Message
  epoll_add_err epoll_del_err epoll_mod_err : (errno : ℕ) (sockfd : ℤ) → Message
  max_clients : (limit : ℤ) → Message
  bind_port_err : (port : ℤ) → Message
  fcntl_err : Message
  socket_err : (errno : ℕ) → Message
  address_err : (bindaddr : List ℕ) → Message
  bind_err listen_err select_err accept_err connect_err : (errno : ℕ) → Message
  new_client : Message
  server_closed : Message
  server_running : Message
  clients_running : Message
  connect_server_err : (i : ℕ) (ip : List ℕ) (port : ℕ) → Message
  loader : Complaint → Message
  recv_data_from : (bytes : ℤ) (shown : Option (List ℕ)) (sockfd : ℤ) → Message

pub record LogCall : Type 0 where
  pub level : ℕ
  pub message : Message

-- A complaint of the loader: an unknown option is a notice, all others are warnings.
abbrev pub loader_call : Complaint → LogCall
loader_call (invalid_argument line) = record {
  level = my_notice;
  message = loader (invalid_argument line);
}
loader_call c = record { level = my_warning; message = loader c }

-- `log` holds the calls of `myepollLog`, the last one first; `active` is the `m_ActiveConns.counter`
-- of the thread.
pub record Proc (W : Type 0) : Type 0 where
  pub world : W
  pub log : List LogCall
  pub active : ℤ

abbrev pub M : Type 0 → Type 0 → Type 0
M W A = Proc W → Option (A × Proc W)

module _ {W : Type 0} where
  abbrev pub pure : {A : Type 0} → A → M W A
  pure a p = some (a, p)

  infixl 5 ◌>>=◌ ◌>>◌
  abbrev pub ◌>>=◌ : {A B : Type 0} → M W A → (A → M W B) → M W B
  ◌>>=◌ m f p = elim (m p) [ none ↦ none | some (a, q) ↦ f a q ]

  abbrev pub ◌>>◌ : {A B : Type 0} → M W A → M W B → M W B
  m >> n = m >>= λ _. n

  -- A system call.
  abbrev pub call : {A : Type 0} → (W → A × W) → M W A
  call f p = let r = f p.world in some (r.0, record p { world = r.1 })

  -- A look at the state of the machine.
  abbrev pub look : {A : Type 0} → (W → A) → M W A
  look f p = some (f p.world, p)

  -- A call of `myepollLog`, which is noted. Whether it waits for the mutex of the log hangs on the
  -- verbosity and on all calls before it, and is said in `Log.Calls`.
  abbrev pub say : ℕ → Message → M W (Unit {0})
  say level m p = some (tt, record p { log = record { level = level; message = m } ∷ p.log })

  abbrev pub when : Bool → M W (Unit {0}) → M W (Unit {0})
  when true m = m
  when false m = pure tt
