-- ===== src/Config/Ranges.antt =====
-- loadServerConfig (main.cpp): the numbers that a configuration that loads can hold.
use epoll_threads.Base.{ℕ, suc, ◌≡◌, Bool, ◌⊎◌, List, [], ◌∷◌, Option, none, some, pos, ◌≤ℤ◌, arith}
use epoll_threads.Config.Rules.{apply_option_rule}
use epoll_threads.Config.{
  Server, init_server_config, Progress, Round, go_on, stop, Line, skipped, missing, option,
  read_line, set_daemonize, set_port, set_timeout, set_loglevel, set_logfile, set_maxclients,
  set_maxthreads, apply_option, apply_line, load_rest, load_lines, load_server_config,
}

-- The values that the rest of the program relies on.
pub record IsSane (s : Server) : Type 0 where
  pub port : (pos 0 ≤ℤ s.port) × (s.port ≤ℤ pos 65535)
  pub verbosity : (pos 0 ≤ℤ s.verbosity) × (s.verbosity ≤ℤ pos 3)
  pub maxidletime : pos 0 ≤ℤ s.maxidletime
  pub daemonize : (s.daemonize ≡ pos 0) ⊎ (s.daemonize ≡ pos 1)
  pub maxclients : pos 1 ≤ℤ s.maxclients
  pub maxthreads : pos 1 ≤ℤ s.maxthreads

abbrev OnGo : Round → Type 0
OnGo (go_on p) = IsSane p.server
OnGo (stop p) = Unit

module _ (value : List ℕ) (line : ℕ) (p : Progress) (s : IsSane p.server) where
  set_daemonize-OnGo : OnGo (set_daemonize value line p)
  unfolding set_daemonize
  set_daemonize-OnGo = ground (arith, s)

  set_port-OnGo : OnGo (set_port value line p)
  unfolding set_port
  set_port-OnGo = ground (arith, s)

  set_timeout-OnGo : OnGo (set_timeout value line p)
  unfolding set_timeout
  set_timeout-OnGo = ground (arith, s)

  set_loglevel-OnGo : OnGo (set_loglevel value line p)
  unfolding set_loglevel
  set_loglevel-OnGo = ground (arith, s)

  set_logfile-OnGo : (can_open : List ℕ → Bool) → OnGo (set_logfile can_open value p)
  unfolding set_logfile
  set_logfile-OnGo can_open = ground (arith, s)

  set_maxclients-OnGo : OnGo (set_maxclients value line p)
  unfolding set_maxclients
  set_maxclients-OnGo = ground (arith, s)

  set_maxthreads-OnGo : OnGo (set_maxthreads value line p)
  unfolding set_maxthreads
  set_maxthreads-OnGo = ground (arith, s)

module _ (can_open : List ℕ → Bool) where
  apply_option-OnGo :
      (name value : List ℕ) (line : ℕ) (p : Progress)
      → IsSane p.server
      → OnGo (apply_option can_open name value line p)
  apply_option-OnGo name value line p s =
      apply_option_rule can_open OnGo name value line p (set_daemonize-OnGo value line p s)
        (ground (arith, s)) (set_port-OnGo value line p s) (ground (arith, s))
        (set_timeout-OnGo value line p s) (set_loglevel-OnGo value line p s) logfile
        (set_maxclients-OnGo value line p s) (set_maxthreads-OnGo value line p s)
        (ground (arith, s))
    where
      logfile : OnGo (set_logfile can_open value p)
      logfile = set_logfile-OnGo value line p s can_open

  apply_line-OnGo :
      (l : Line) (line : ℕ) (p : Progress) → IsSane p.server → OnGo (apply_line can_open l line p)
  unfolding apply_line
  apply_line-OnGo skipped line p s = s
  apply_line-OnGo missing line p s = tt
  apply_line-OnGo (option name value) line p s = apply_option-OnGo name value line p s

  load_lines-IsSane :
      (file : List (List ℕ)) (line : ℕ) (p : Progress)
      → IsSane p.server
      → (load_lines can_open file line p).0 ≡ pos 0
      → IsSane (load_lines can_open file line p).1.server
  unfolding load_lines
  load_lines-IsSane [] line p s e = s
  load_lines-IsSane (buffer ∷ more) line p s e =
      go (apply_line can_open (read_line buffer) (suc line) p)
        (apply_line-OnGo (read_line buffer) (suc line) p s)
        (λ p' s' e'. load_lines-IsSane more (suc line) p' s' e') e
    where
      go :
          (r : Round)
          → OnGo r
          → ((p' : Progress)
              → IsSane p'.server
              → (load_lines can_open more (suc line) p').0 ≡ pos 0
              → IsSane (load_lines can_open more (suc line) p').1.server)
          → (load_rest (load_lines can_open more) (suc line) r).0 ≡ pos 0
          → IsSane (load_rest (load_lines can_open more) (suc line) r).1.server
      go (go_on p') h k e' = k p' h e'
      go (stop p') h k e' = cc

  -- A file that loads (result 0) over the defaults leaves a port from 0 to 65535, a verbosity from
  -- 0 to 3, an idle time that is not negative, a `daemonize` of 0 or 1, and at least one client and
  -- one thread, whatever is in the file.
  pub load_server_config-IsSane :
      (file : Option (List (List ℕ)))
      → (load_server_config can_open file init_server_config).0 ≡ pos 0
      → IsSane (load_server_config can_open file init_server_config).1.server
  unfolding load_server_config init_server_config
  load_server_config-IsSane none e = cc
  load_server_config-IsSane (some file) e = load_lines-IsSane file 0 _ (ground arith) e
