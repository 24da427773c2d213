-- ===== src/Log/Tests.antt =====
-- myepollLog (main.cpp) on the defaults, and at the verbosity `warning`.
use epoll_threads.Base.{
  ◌≢◌, ℕ, zero, suc, set_at, ℕ_discrete, ◌∙◌, ◌≡◌, refl, Bool, true, false, List, [], ◌∷◌, ◌++◌,
  none, some, pos, arith,
}
use mathlib.Core.Logic.{if_neg}
use epoll_threads.Text.{codes}
use epoll_threads.Config.{Server, init_server_config}
use epoll_threads.Log.{LogState, marked, Colour, myepoll_log_raw, log_all}
use epoll_threads.Log.Threads.{
  Place, outside, inside, unlocking, Callers, write, lock, print, unlock, Reach, here, next,
}
use epoll_threads.Log.Linear.{one_at_a_time, Reach-log_all}
use epoll_threads.Log.Blocking.{lines_onto, log_all_lem, log_all-blocks}

abbrev any : List ℕ → Bool
any s = true

abbrev fresh : LogState
fresh = record { locked = false; written = [] }

abbrev two_calls : List (ℕ × List ℕ)
two_calls = (0, codes "a") ∷ (3, codes "b") ∷ []

log_all_lem_example :
    log_all any init_server_config two_calls fresh
    ≡ some (record { locked = false; written = lines_onto two_calls [] })
unfolding init_server_config
log_all_lem_example = log_all_lem any init_server_config two_calls fresh (omega arith) refl refl

lines-two_calls :
    lines_onto two_calls []
    ≡ marked Colour.red (some b'#') (codes "b") ∷ (marked Colour.plain (some b'.') (codes "a") ∷ [])
lines-two_calls = refl

abbrev quiet_server : Server
quiet_server = record {
  pidfile = [];
  port = pos 8090;
  bindaddr = [];
  verbosity = pos 3;
  maxidletime = pos 0;
  daemonize = pos 0;
  logfile = [];
  maxclients = pos 100;
  maxthreads = pos 2;
}

log_all-blocks_example :
    log_all any quiet_server (two_calls ++ (0, codes "c") ∷ (3, codes "d") ∷ []) fresh ≡ none
log_all-blocks_example =
    log_all-blocks any quiet_server two_calls [] 0 3 (codes "c") (codes "d") fresh (omega arith)

-- Thread 0 logs "a", then thread 1 "b", whose `pthread_mutex_lock` waits for the first.
abbrev begin : Callers
begin = record { place = λ i. outside; log = fresh }

abbrev first_in : Callers
first_in = record {
  place = set_at 0 (inside 2 (codes "a")) begin.place;
  log = record fresh { locked = true };
}

abbrev first_written : Callers
first_written = record {
  place = set_at 0 (unlocking 2 (codes "a")) first_in.place;
  log = write any init_server_config 2 (codes "a") first_in.log;
}

abbrev first_out : Callers
first_out = record {
  place = set_at 0 outside first_written.place;
  log = record (first_written.log) { locked = false };
}

abbrev second_in : Callers
second_in = record {
  place = set_at 1 (inside 3 (codes "b")) first_out.place;
  log = record (first_out.log) { locked = true };
}

first_out-Reach : Reach any init_server_config fresh ((2, codes "a") ∷ []) first_out
unfolding init_server_config epoll_threads.Base.ℕ_discrete
first_out-Reach =
    next (next (next here (lock 0 2 (codes "a") refl refl)) (print 0 2 (codes "a") refl refl))
      (unlock 0 2 (codes "a") refl)

away : (j : ℕ) (p : Place) (f : ℕ → Place) → set_at 0 p f (suc j) ≡ f (suc j)
away j p f = if_neg (ℕ_discrete 0 (suc j)) (λ e. omega (arith, e)) p (f (suc j))

all_out : (j : ℕ) → first_out.place j ≡ outside
unfolding epoll_threads.Base.ℕ_discrete
all_out zero = refl
all_out (suc j) =
    away j outside first_written.place
    ∙ away j (unlocking 2 (codes "a")) first_in.place
    ∙ away j (inside 2 (codes "a")) begin.place

Reach-log_all_example :
    log_all any init_server_config ((2, codes "a") ∷ []) fresh ≡ some first_out.log
Reach-log_all_example = Reach-log_all any init_server_config first_out-Reach all_out

second_in-Reach :
    Reach any init_server_config fresh ((2, codes "a") ∷ (3, codes "b") ∷ []) second_in
unfolding init_server_config myepoll_log_raw epoll_threads.Base.ℕ_discrete
second_in-Reach = next first_out-Reach (lock 1 3 (codes "b") refl refl)

abbrev second : ℕ
second = 1

second_in_call : second_in.place second ≢ outside
unfolding epoll_threads.Base.ℕ_discrete
second_in_call e = cc

one_at_a_time_example : (second ≡ second) × (second_in.log.locked ≡ true)
one_at_a_time_example =
    one_at_a_time any init_server_config second_in-Reach second second second_in_call second_in_call
