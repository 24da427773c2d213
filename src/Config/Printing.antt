-- ===== src/Config/Printing.antt =====
-- A configuration file written from the settings it is to give, against loadServerConfig (main.cpp).
use epoll_threads.Base.{
  not, ◌&&◌, ℕ, suc, ◌≤◌, ◌<◌, ◌^◌, ◌≡◌, refl, sym, subst, Bool, true, false, List, [], ◌∷◌, ◌++◌,
  pos, All, length, arith, ◌==◌, if◌then◌else◌,
}
use epoll_threads.Text.{codes, decimal, length-decimal}
use epoll_threads.Config.Fgets.{is_plain}
use epoll_threads.Config.Words.{is_space, char_at, same_word}
use epoll_threads.Config.Lines.{Solid, read_line_lem, char_at-back}
use epoll_threads.Config.Numbers.{Digit, decimal-Digit, atoi-decimal}
use epoll_threads.Config.{
  Server, Progress, Round, go_on, set_daemonize, set_port, set_timeout, set_loglevel, set_logfile,
  set_maxclients, set_maxthreads, apply_option, apply_line, load_lines,
}

pub data Level : Type 0 where
  debug verbose notice warning : Level

abbrev pub level_name : Level → List ℕ
level_name debug = codes "debug"
level_name verbose = codes "verbose"
level_name notice = codes "notice"
level_name warning = codes "warning"

abbrev pub level_number : Level → ℕ
level_number debug = 0
level_number verbose = 1
level_number notice = 2
level_number warning = 3

-- What a file can ask for.
pub record Settings : Type 0 where
  pub daemonize : Bool
  pub pidfile : List ℕ
  pub port : ℕ
  pub bindaddr : List ℕ
  pub maxidletime : ℕ
  pub level : Level
  pub logfile : List ℕ
  pub maxclients : ℕ
  pub maxthreads : ℕ

abbrev pub server_of : Settings → Server
server_of s = record {
  pidfile = s.pidfile;
  port = pos s.port;
  bindaddr = s.bindaddr;
  verbosity = pos (level_number s.level);
  maxidletime = pos s.maxidletime;
  daemonize = if s.daemonize then pos 1 else pos 0;
  logfile = s.logfile;
  maxclients = pos s.maxclients;
  maxthreads = pos s.maxthreads;
}

-- A name, a blank, a value and a newline.
abbrev pub line_of : List ℕ → List ℕ → List ℕ
line_of name value = name ++ 32 ∷ (value ++ 10 ∷ [])

unfoldable pub print : Settings → List (List ℕ)
print s =
    line_of (codes "daemonize") (if s.daemonize then codes "yes" else codes "no")
    ∷ line_of (codes "pidfile") s.pidfile
    ∷ line_of (codes "port") (decimal (pos s.port))
    ∷ line_of (codes "bind") s.bindaddr
    ∷ line_of (codes "timeout") (decimal (pos s.maxidletime))
    ∷ line_of (codes "loglevel") (level_name s.level)
    ∷ line_of (codes "logfile") s.logfile
    ∷ line_of (codes "maxclients") (decimal (pos s.maxclients))
    ∷ line_of (codes "maxthreads") (decimal (pos s.maxthreads))
    ∷ []

-- A value that survives the cutting of blanks: not empty, with no blank in front, and neither blank nor
-- newline at its end.
abbrev pub Value : List ℕ → Type 0
Value [] = ⊥
Value (c ∷ v) = Solid c × (is_space (char_at (c ∷ v) (length v)) ≡ false)

-- A value that fits a line: no newline, no NUL, and at most 1000 bytes.
abbrev pub FitsLine : List ℕ → Type 0
FitsLine v = (is_plain v ≡ true) × (length v ≤ 1000)

-- Settings that a file can hold, on a machine where the log file can be opened.
pub record IsPrintable (can_open : List ℕ → Bool) (s : Settings) : Type 0 where
  pub pidfile : Value s.pidfile
  pub bindaddr : Value s.bindaddr
  pub logfile : Value s.logfile
  pub pidfile_fits : FitsLine s.pidfile
  pub bindaddr_fits : FitsLine s.bindaddr
  pub logfile_fits : FitsLine s.logfile
  pub not_stdout : same_word s.logfile (codes "stdout") ≡ false
  pub opens : can_open s.logfile ≡ true
  pub port : s.port ≤ 65535
  pub maxidletime : s.maxidletime < 2 ^ 31
  pub maxclients : (1 ≤ s.maxclients) × (s.maxclients < 2 ^ 31)
  pub maxthreads : (1 ≤ s.maxthreads) × (s.maxthreads < 2 ^ 31)

Digit-Solid : (c : ℕ) → Digit c → Solid c
Digit-Solid c h = ground (arith, h)

digits_plain : (v : List ℕ) → All Digit v → is_plain v ≡ true
digits_plain [] h = refl
digits_plain (c ∷ v) h =
    let rest = digits_plain v h.1 in
    let first : (not (c == 10) && not (c == 0)) ≡ true = ground (arith, h.0) in
    ground (arith, rest, first)

pub decimal-FitsLine : (n : ℕ) → FitsLine (decimal (pos n))
decimal-FitsLine n =
    let (c, v, e, digits) = decimal-Digit n in
    (
      subst (λ d. is_plain d ≡ true) (sym e) (digits_plain (c ∷ v) digits),
      omega (arith, length-decimal (pos n)),
    )

Digit-space : (c : ℕ) → Digit c → is_space c ≡ false
Digit-space c h = ground (arith, h)

digits_not_space : (v : List ℕ) → All Digit v → All (λ d. is_space d ≡ false) v
digits_not_space [] h = tt
digits_not_space (c ∷ v) h = (Digit-space c h.0, digits_not_space v h.1)

pub decimal-Value : (n : ℕ) → Value (decimal (pos n))
decimal-Value n =
    let (c, v, e, (first, others)) = decimal-Digit n in
    subst Value (sym e) (
      Digit-Solid c first,
      char_at-back (λ d. is_space d ≡ false) [] (c ∷ v) (length v)
          (Digit-space c first, digits_not_space v others) (omega arith) (omega arith),
    )

module _ (can_open : List ℕ → Bool) where
  pub load_lines-line :
      (d : ℕ) (n value : List ℕ) (more : List (List ℕ)) (line : ℕ) (p q : Progress)
      → All Solid (d ∷ n)
      → (d == 35) ≡ false
      → Value value
      → apply_option can_open (d ∷ n) value (suc line) p ≡ go_on q
      → load_lines can_open (line_of (d ∷ n) value ∷ more) line p
        ≡ load_lines can_open more (suc line) q
  unfolding load_lines apply_line
  load_lines-line d n [] more line p q s comment v applied = elim v [ ]
  load_lines-line d n (c ∷ value) more line p q s comment v applied =
      rw
        (
          read_line_lem [] d n 32 [] c value (10 ∷ []) tt s comment refl tt v.0 v.1 (refl, tt),
          applied,
        )
        refl

  module _ (line : ℕ) (p : Progress) where
    abbrev then_with : Server → Round
    then_with server = go_on (record p { server = server })

    pub daemonize_line :
        (b : Bool)
        → apply_option can_open (codes "daemonize") (if b then codes "yes" else codes "no") line p
          ≡ then_with (record p.server { daemonize = if b then pos 1 else pos 0 })
    unfolding apply_option set_daemonize same_word
    daemonize_line true = refl
    daemonize_line false = refl

    pub pidfile_line :
        (value : List ℕ)
        → apply_option can_open (codes "pidfile") value line p
          ≡ then_with (record p.server { pidfile = value })
    unfolding apply_option same_word
    pidfile_line value = refl

    pub bind_line :
        (value : List ℕ)
        → apply_option can_open (codes "bind") value line p
          ≡ then_with (record p.server { bindaddr = value })
    unfolding apply_option same_word
    bind_line value = refl

    pub port_line :
        (n : ℕ)
        → n ≤ 65535
        → apply_option can_open (codes "port") (decimal (pos n)) line p
          ≡ then_with (record p.server { port = pos n })
    unfolding apply_option set_port same_word
    port_line n h = rw (atoi-decimal n (omega arith)) (ground arith)

    pub timeout_line :
        (n : ℕ)
        → n < 2 ^ 31
        → apply_option can_open (codes "timeout") (decimal (pos n)) line p
          ≡ then_with (record p.server { maxidletime = pos n })
    unfolding apply_option set_timeout same_word
    timeout_line n h = rw (atoi-decimal n h) refl

    pub maxclients_line :
        (n : ℕ)
        → (1 ≤ n) × (n < 2 ^ 31)
        → apply_option can_open (codes "maxclients") (decimal (pos n)) line p
          ≡ then_with (record p.server { maxclients = pos n })
    unfolding apply_option set_maxclients same_word
    maxclients_line n (low, h) = rw (atoi-decimal n h) (ground arith)

    pub maxthreads_line :
        (n : ℕ)
        → (1 ≤ n) × (n < 2 ^ 31)
        → apply_option can_open (codes "maxthreads") (decimal (pos n)) line p
          ≡ then_with (record p.server { maxthreads = pos n })
    unfolding apply_option set_maxthreads same_word
    maxthreads_line n (low, h) = rw (atoi-decimal n h) (ground arith)

    pub level_line :
        (l : Level)
        → apply_option can_open (codes "loglevel") (level_name l) line p
          ≡ then_with (record p.server { verbosity = pos (level_number l) })
    unfolding apply_option set_loglevel same_word
    level_line debug = refl
    level_line verbose = refl
    level_line notice = refl
    level_line warning = refl

    pub logfile_line :
        (value : List ℕ)
        → same_word value (codes "stdout") ≡ false
        → can_open value ≡ true
        → apply_option can_open (codes "logfile") value line p
          ≡ then_with (record p.server { logfile = value })
    unfolding apply_option set_logfile same_word
    logfile_line value h o = rw (h, o) refl
