-- ===== src/Config/Rules.antt =====
-- Rules for loadServerConfig (main.cpp): a property of every branch is one of the dispatch on the
-- option's name, and one that every line keeps is one of the whole load.
use epoll_threads.Base.{ℕ, suc, Bool, true, false, List, [], ◌∷◌, All, ℤ, if◌then◌else◌}
use epoll_threads.Text.{codes}
use epoll_threads.Config.Words.{same_word}
use epoll_threads.Proc.{invalid_argument}
use epoll_threads.Config.{
  Server, Progress, Round, go_on, stop, complain, read_line, set_daemonize, set_port, set_timeout,
  set_loglevel, set_logfile, set_maxclients, set_maxthreads, apply_option, apply_line, load_rest,
  load_lines,
}

pub if_both :
    {A : Type 0} {yes_value no_value : A} (Q : A → Type 0) (test : Bool)
    → Q yes_value
    → Q no_value
    → Q (if test then yes_value else no_value)
if_both Q true on_yes on_no = on_yes
if_both Q false on_yes on_no = on_no

module _ (can_open : List ℕ → Bool) where
  pub apply_option_rule :
      (P : Round → Type 0) (name value : List ℕ) (line : ℕ) (p : Progress)
      → P (set_daemonize value line p)
      → P (go_on (record p { server = record (p.server) { pidfile = value } }))
      → P (set_port value line p)
      → P (go_on (record p { server = record (p.server) { bindaddr = value } }))
      → P (set_timeout value line p)
      → P (set_loglevel value line p)
      → P (set_logfile can_open value p)
      → P (set_maxclients value line p)
      → P (set_maxthreads value line p)
      → P (go_on (complain p (invalid_argument line)))
      → P (apply_option can_open name value line p)
  unfolding apply_option
  apply_option_rule P name value line p a b c d e f g h i j =
      if_both P (same_word name (codes "daemonize")) a (
        if_both P (same_word name (codes "pidfile")) b (
          if_both P (same_word name (codes "port")) c (
            if_both P (same_word name (codes "bind")) d (
              if_both P (same_word name (codes "timeout")) e (
                if_both P (same_word name (codes "loglevel")) f (
                  if_both P (same_word name (codes "logfile")) g (
                    if_both P (same_word name (codes "maxclients")) h
                      (if_both P (same_word name (codes "maxthreads")) i j))))))))

  -- What holds of the server at the end of a round, whether it goes on or stops.
  abbrev pub Ends : (Server → Type 0) → Round → Type 0
  Ends P (go_on p) = P p.server
  Ends P (stop p) = P p.server

  load_rest-Ends :
      (P : Server → Type 0) (rest : ℕ → Progress → ℤ × Progress) (line : ℕ) (r : Round)
      → Ends P r
      → ((p : Progress) → P p.server → P (rest line p).1.server)
      → P (load_rest rest line r).1.server
  load_rest-Ends P rest line (go_on p) h k = k p h
  load_rest-Ends P rest line (stop p) h k = h

  -- `Q` is what is known of each line.
  pub load_lines_rule :
      (P : Server → Type 0) (Q : List ℕ → Type 0)
      → ((buffer : List ℕ) (line : ℕ) (p : Progress)
          → Q buffer
          → P p.server
          → Ends P (apply_line can_open (read_line buffer) line p))
      → (file : List (List ℕ)) (line : ℕ) (p : Progress) → All Q file
      → P p.server
      → P (load_lines can_open file line p).1.server
  unfolding load_lines
  load_lines_rule P Q step [] line p q h = h
  load_lines_rule P Q step (buffer ∷ more) line p q h =
      load_rest-Ends P (load_lines can_open more) (suc line) _ (step buffer (suc line) p q.0 h)
        λ p' h'. load_lines_rule P Q step more (suc line) p' q.1 h'
