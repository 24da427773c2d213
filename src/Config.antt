-- ===== src/Config.antt =====
-- The configuration (Define.h and main.cpp): the global SERVER record, its defaults, and the file
-- that `loadServerConfig` reads line by line. A line is the string that one `fgets` left in `buffer`,
-- its newline included; `can_open` is whether `fopen(…, "a")` succeeds.
pub mod Words
pub mod Lines
pub mod Rules
pub mod Ranges
pub mod Buffers
pub mod Loading
pub mod Numbers
pub mod Fgets
pub mod Printing
pub mod Rereading
pub mod Reference
mod Tests
use epoll_threads.Base.{
  ℕ, zero, suc, ◌+◌, ◌-◌, ◌*◌, ◌^◌, ◌%◌, Bool, true, false, ◌&&◌, ◌||◌, List, [], ◌∷◌, Option, none,
  some, ℤ, pos, negsuc, minus_one, is_neg, ltb_ℤ, signed32, length, take, ltb, leb, ◌==◌,
  if◌then◌else◌,
}
use epoll_threads.Proc.{
  my_debug, my_verbose, my_notice, my_warning, Complaint, missing_argument, not_yes_or_no,
  invalid_port, invalid_timeout, not_a_level, cannot_open_config, cannot_open_log,
  invalid_max_clients, invalid_max_threads, invalid_argument,
}
use epoll_threads.Text.{codes}
use Words.{is_blank, is_space, skip_leading, break_at, trim_index, starts_comment, same_word, atoi}

-- `SERVER`, without its `shutdown` flag; a `char` array is the string it holds.
pub record Server : Type 0 where
  pub pidfile : List ℕ
  pub port : ℤ
  pub bindaddr : List ℕ
  pub verbosity : ℤ
  pub maxidletime : ℤ
  pub daemonize : ℤ
  pub logfile : List ℕ
  pub maxclients : ℤ
  pub maxthreads : ℤ

-- `initServerConfig`: the record is zeroed, then these are set.
unfoldable pub init_server_config : Server
init_server_config = record {
  pidfile = codes "/var/run/myepoll.pid";
  port = pos 8090;
  bindaddr = [];
  verbosity = pos my_debug;
  maxidletime = pos 0;
  daemonize = pos 0;
  logfile = [];
  maxclients = pos 10000;
  maxthreads = pos 10;
}

-- `g_Server` and the loader's log, the last entry first.
pub record Progress : Type 0 where
  pub server : Server
  pub complaints : List Complaint

-- The end of a round of the loop: on to the next line, or `nRet = -1` and `break`.
pub data Round : Type 0 where
  go_on stop : Progress → Round

-- A line, once it is taken apart.
pub data Line : Type 0 where
  skipped : Line
  missing : Line
  option : (name value : List ℕ) → Line

-- The value behind the blank that ended the name: leading blanks, trailing blanks and newline cut.
unfoldable pub take_value : List ℕ → List ℕ → Line
take_value name rest =
    let value = skip_leading rest in
    let i = trim_index value (length value) in
    if i == 0 then missing else option name (take i value)

unfoldable pub take_option : List ℕ → Line
unfolding take_value
take_option buff = elim (break_at buff) [
  | none ↦ missing
  | some (name, rest) ↦ take_value name rest
]

unfoldable pub read_line : List ℕ → Line
unfolding take_option
read_line buffer =
    let buff = skip_leading buffer in
    if leb (length buff) 2 || starts_comment buff then skipped else take_option buff

abbrev pub complain : Progress → Complaint → Progress
complain p c = record p { complaints = c ∷ p.complaints }

-- The assignments of the branches; those that check a number store it first.
unfoldable pub set_daemonize : List ℕ → ℕ → Progress → Round
set_daemonize value line p =
    if same_word value (codes "yes")
    then go_on (record p { server = record (p.server) { daemonize = pos 1 } })
    else if same_word value (codes "no")
    then go_on (record p { server = record (p.server) { daemonize = pos 0 } })
    else stop (complain p (not_yes_or_no line))

unfoldable pub set_port : List ℕ → ℕ → Progress → Round
set_port value line p =
    let n = atoi value in
    let p' : Progress = record p { server = record (p.server) { port = n } } in
    if is_neg n || ltb_ℤ (pos 65535) n then stop (complain p' (invalid_port line)) else go_on p'

unfoldable pub set_timeout : List ℕ → ℕ → Progress → Round
set_timeout value line p =
    let n = atoi value in
    let p' : Progress = record p { server = record (p.server) { maxidletime = n } } in
    if is_neg n then stop (complain p' (invalid_timeout line)) else go_on p'

unfoldable pub set_loglevel : List ℕ → ℕ → Progress → Round
set_loglevel value line p =
    if same_word value (codes "debug")
    then at my_debug
    else if same_word value (codes "verbose")
    then at my_verbose
    else if same_word value (codes "notice")
    then at my_notice
    else if same_word value (codes "warning")
    then at my_warning
    else stop (complain p (not_a_level line))
  where
    at : ℕ → Round
    at level = go_on (record p { server = record (p.server) { verbosity = pos level } })

unfoldable pub set_logfile : (List ℕ → Bool) → List ℕ → Progress → Round
set_logfile can_open value p =
    let p' : Progress = record p { server = record (p.server) { logfile = value } } in
    if same_word value (codes "stdout")
    then go_on p
    else if can_open value
    then go_on p'
    else stop (complain p' (cannot_open_log value))

unfoldable pub set_maxclients : List ℕ → ℕ → Progress → Round
set_maxclients value line p =
    let n = atoi value in
    let p' : Progress = record p { server = record (p.server) { maxclients = n } } in
    if ltb_ℤ n (pos 1) then stop (complain p' (invalid_max_clients line)) else go_on p'

unfoldable pub set_maxthreads : List ℕ → ℕ → Progress → Round
set_maxthreads value line p =
    let n = atoi value in
    let p' : Progress = record p { server = record (p.server) { maxthreads = n } } in
    if ltb_ℤ n (pos 1) then stop (complain p' (invalid_max_threads line)) else go_on p'

abbrev pub load_rest : (ℕ → Progress → ℤ × Progress) → ℕ → Round → ℤ × Progress
load_rest rest line (go_on p) = rest line p
load_rest rest line (stop p) = (minus_one, p)

module _ (can_open : List ℕ → Bool) where
  -- The chain of `strcasecmp` on the name.
  unfoldable pub apply_option : List ℕ → List ℕ → ℕ → Progress → Round
  unfolding set_daemonize set_port set_timeout set_loglevel set_logfile set_maxclients
      set_maxthreads
  apply_option name value line p =
      if same_word name (codes "daemonize")
      then set_daemonize value line p
      else if same_word name (codes "pidfile")
      then go_on (record p { server = record (p.server) { pidfile = value } })
      else if same_word name (codes "port")
      then set_port value line p
      else if same_word name (codes "bind")
      then go_on (record p { server = record (p.server) { bindaddr = value } })
      else if same_word name (codes "timeout")
      then set_timeout value line p
      else if same_word name (codes "loglevel")
      then set_loglevel value line p
      else if same_word name (codes "logfile")
      then set_logfile can_open value p
      else if same_word name (codes "maxclients")
      then set_maxclients value line p
      else if same_word name (codes "maxthreads")
      then set_maxthreads value line p
      else go_on (complain p (invalid_argument line))

  unfoldable pub apply_line : Line → ℕ → Progress → Round
  unfolding apply_option
  apply_line skipped line p = go_on p
  apply_line missing line p = stop (complain p (missing_argument line))
  apply_line (option name value) line p = apply_option name value line p

  -- The `while (fgets(…))` over the lines that are left; `line` counts those read.
  unfoldable pub load_lines : List (List ℕ) → ℕ → Progress → ℤ × Progress
  unfolding apply_line
  load_lines [] line p = (pos 0, p)
  load_lines (buffer ∷ more) line p =
      load_rest (load_lines more) (suc line) (apply_line (read_line buffer) (suc line) p)

  -- `loadServerConfig` on the lines of the file, or on a file that cannot be opened.
  unfoldable pub load_server_config : Option (List (List ℕ)) → Server → ℤ × Progress
  unfolding load_lines
  load_server_config none server =
      (minus_one, record { server = server; complaints = cannot_open_config ∷ [] })
  load_server_config (some file) server =
      load_lines file 0 (record { server = server; complaints = [] })
