-- ===== src/Config/Buffers.antt =====
-- loadServerConfig (main.cpp): the strings that it copies and the `char` arrays of SERVER.
use epoll_threads.Base.{
  ℕ, zero, suc, ◌+◌, ◌≤◌, ◌<◌, ◌≡◌, Bool, List, [], ◌∷◌, some, inl, inr, All, length,
  length-take_le, ◌-◌, leb, ◌==◌, ◌||◌, arith, Option-cases,
}
use epoll_threads.Proc.{min_bufsz}
use epoll_threads.Config.Words.{skip_leading, break_at, trim_index, starts_comment}
use epoll_threads.Config.Rules.{if_both, apply_option_rule, Ends, load_lines_rule}
use epoll_threads.Config.{
  Server, init_server_config, Progress, Line, skipped, missing, option, take_value, take_option,
  read_line, set_daemonize, set_port, set_timeout, set_loglevel, set_logfile, set_maxclients,
  set_maxthreads, apply_option, apply_line, load_server_config,
}

-- MY_CONFIGLINE_MAX (Define.h).
abbrev pub my_configline_max : ℕ
my_configline_max = 1024

length-skip_leading : (s : List ℕ) → length (skip_leading s) ≤ length s
unfolding skip_leading
length-skip_leading [] = omega arith
length-skip_leading (c ∷ []) = omega arith
length-skip_leading (c ∷ d ∷ s) = ground (arith, length-skip_leading (d ∷ s))

length-break_at :
    (s before behind : List ℕ)
    → break_at s ≡ some (before, behind)
    → length before + length behind < length s
unfolding break_at
length-break_at [] before behind e = cc
length-break_at (c ∷ s) before behind e = elim (Option-cases (break_at s)) [
  | inl none_left ↦ ground (arith, none_left)
  | inr (r, found) ↦ ground (arith, found, length-break_at s r.0 r.1)
]

length-trim_index : (s : List ℕ) (i : ℕ) → trim_index s i ≤ i
unfolding trim_index
length-trim_index s zero = omega arith
length-trim_index s (suc i) = ground (arith, length-trim_index s i)

-- An option whose value has at most `n` bytes, or no option.
abbrev ValueWithin : ℕ → Line → Type 0
ValueWithin n (option name value) = length value ≤ n
ValueWithin n skipped = Unit
ValueWithin n missing = Unit

take_value-ValueWithin :
    (name rest : List ℕ) (n : ℕ) → length rest ≤ n → ValueWithin n (take_value name rest)
unfolding take_value
take_value-ValueWithin name rest n h =
    let value = skip_leading rest in
    let i = trim_index value (length value) in
    if_both (ValueWithin n) (i == 0) tt (
      omega (
        arith,
        h,
        length-take_le i value,
        length-trim_index value (length value),
        length-skip_leading rest,
      ))

take_option-ValueWithin : (buff : List ℕ) → ValueWithin (length buff) (take_option buff)
unfolding take_option
take_option-ValueWithin buff = elim (Option-cases (break_at buff)) [
  | inl e ↦ rw (e, take_option) tt
  | inr ((name, rest), e) ↦
      rw (e, take_option)
        (take_value-ValueWithin name rest (length buff)
          (omega (arith, length-break_at buff name rest e)))
]

ValueWithin-mono : (l : Line) (m n : ℕ) → m ≤ n → ValueWithin m l → ValueWithin n l
ValueWithin-mono skipped m n h v = tt
ValueWithin-mono missing m n h v = tt
ValueWithin-mono (option name value) m n h v = omega (arith, v)

read_line-ValueWithin : (buffer : List ℕ) → ValueWithin (length buffer) (read_line buffer)
unfolding read_line
read_line-ValueWithin buffer =
    let buff = skip_leading buffer in
    if_both (ValueWithin (length buffer)) (leb (length buff) 2 || starts_comment buff) tt (
      ValueWithin-mono (take_option buff) (length buff) (length buffer) (length-skip_leading buffer)
        (take_option-ValueWithin buff))

-- Each string fits its array with its NUL.
pub record Fits (s : Server) : Type 0 where
  pub pidfile : length s.pidfile < min_bufsz
  pub bindaddr : length s.bindaddr < min_bufsz
  pub logfile : length s.logfile < min_bufsz

module _ (can_open : List ℕ → Bool) where
  apply_option-Fits :
      (name value : List ℕ) (line : ℕ) (p : Progress)
      → length value < min_bufsz
      → Fits p.server
      → Ends can_open Fits (apply_option can_open name value line p)
  unfolding set_daemonize set_port set_timeout set_loglevel set_logfile set_maxclients
      set_maxthreads
  apply_option-Fits name value line p h s =
      apply_option_rule can_open (Ends can_open Fits) name value line p (ground (arith, s))
        (ground (arith, s)) (ground (arith, s)) (ground (arith, s)) (ground (arith, s))
        (ground (arith, s)) (ground (arith, s)) (ground (arith, s)) (ground (arith, s))
        (ground (arith, s))

  apply_line-Fits :
      (l : Line) (line : ℕ) (p : Progress)
      → ValueWithin (my_configline_max - 1) l
      → Fits p.server
      → Ends can_open Fits (apply_line can_open l line p)
  unfolding apply_line
  apply_line-Fits skipped line p h s = s
  apply_line-Fits missing line p h s = s
  apply_line-Fits (option name value) line p h s =
      apply_option-Fits name value line p (omega (arith, h)) s

  -- As long as every line has at most the 1023 bytes that `fgets` can leave in `buffer`, the
  -- strings copied to `pidfile`, `bindaddr` and `logfile` fit their arrays with their NUL at the
  -- end of every load of a file over the defaults, also of one that fails.
  pub load_server_config-Fits :
      (file : List (List ℕ))
      → All (λ buffer. length buffer < my_configline_max) file
      → Fits (load_server_config can_open (some file) init_server_config).1.server
  unfolding load_server_config init_server_config
  load_server_config-Fits file short =
      load_lines_rule can_open Fits (λ buffer. length buffer < my_configline_max)
        (λ buffer line p q h.
          apply_line-Fits (read_line buffer) line p
            (ValueWithin-mono (read_line buffer) (length buffer) _ (omega (arith, q))
              (read_line-ValueWithin buffer))
            h)
        file 0 _ short (omega arith)
