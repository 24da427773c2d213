-- ===== src/Log/Blocking.antt =====
-- myepollLog (main.cpp): when the calls are written, and when they block.
use epoll_threads.Base.{
  ℕ, ◌-◌, ◌≡◌, refl, ap, ◌∙◌, Bool, true, false, ◌&&◌, not, List, [], ◌∷◌, ◌++◌, none, some, inl,
  inr, pos, ltb_ℤ, ◌<ℤ◌, ◌≤ℤ◌, take, Bool-cases, Option-cases, arith,
}
use epoll_threads.Config.{Server}
use epoll_threads.Log.{
  LogLine, LogState, level_of, is_empty, log_line, my_max_logmsg_len, myepoll_log_raw, myepoll_log,
  log_all,
}

-- The lines of calls, the last one first, onto those before.
abbrev pub lines_onto : List (ℕ × List ℕ) → List LogLine → List LogLine
lines_onto [] before = before
lines_onto (c ∷ calls) before =
    lines_onto calls (log_line c.0 (take (my_max_logmsg_len - 1) c.1) ∷ before)

module _ (can_open : List ℕ → Bool) (server : Server) where
  -- A log file can be opened, or there is none.
  abbrev pub CanWrite : Type 0
  CanWrite = (not (is_empty server.logfile) && not (can_open server.logfile)) ≡ false

  pub log_all-next :
      (c : ℕ × List ℕ) (calls : List (ℕ × List ℕ)) (s s' : LogState)
      → myepoll_log can_open server c.0 c.1 s ≡ some s'
      → log_all can_open server (c ∷ calls) s ≡ log_all can_open server calls s'
  unfolding log_all
  log_all-next c calls s s' e = rw (log_all, e) refl

  pub log_all-stuck :
      (c : ℕ × List ℕ) (calls : List (ℕ × List ℕ)) (s : LogState)
      → myepoll_log can_open server c.0 c.1 s ≡ none
      → log_all can_open server (c ∷ calls) s ≡ none
  unfolding log_all
  log_all-stuck c calls s e = rw (log_all, e) refl

  locked-stuck :
      (level : ℕ) (msg : List ℕ) (s : LogState)
      → s.locked ≡ true
      → myepoll_log can_open server level msg s ≡ none
  unfolding myepoll_log
  locked-stuck level msg s e = ground (arith, e)

  -- At the lowest verbosity, with a log that can be written and the mutex free, no sequence of
  -- calls of `myepollLog` blocks, whatever the levels: each message is written, in order, cut to
  -- 4095 bytes, and the mutex is free at the end.
  pub log_all_lem :
      (calls : List (ℕ × List ℕ)) (s : LogState)
      → server.verbosity ≤ℤ pos 0
      → CanWrite
      → s.locked ≡ false
      → log_all can_open server calls s
        ≡ some (record { locked = false; written = lines_onto calls s.written })
  unfolding log_all myepoll_log myepoll_log_raw
  log_all_lem [] s low can free = ap (λ b. some (record s { locked = b })) free
  log_all_lem (c ∷ calls) s low can free =
      let loud : ltb_ℤ (pos (level_of c.0)) server.verbosity ≡ false = ground (arith, low) in
      let s' : LogState = record {
        locked = false;
        written = log_line c.0 (take (my_max_logmsg_len - 1) c.1) ∷ s.written;
      } in
      let step : myepoll_log can_open server c.0 c.1 s ≡ some s' =
        ground (arith, free, loud, can) in
      log_all-next c calls s s' step ∙ log_all_lem calls s' low can refl

  -- A call of `myepollLog` that finds the mutex free and whose level is below the verbosity returns
  -- with the mutex still held, so that any call after it blocks: a sequence that has such a call
  -- anywhere but at its end never gets to its end.
  pub log_all-blocks :
      (before after : List (ℕ × List ℕ)) (level level' : ℕ) (msg msg' : List ℕ) (s : LogState)
      → pos (level_of level) <ℤ server.verbosity
      → log_all can_open server (before ++ (level, msg) ∷ (level', msg') ∷ after) s ≡ none
  unfolding myepoll_log
  log_all-blocks [] after level level' msg msg' s quiet = elim (Bool-cases s.locked) [
    | inl e ↦ log_all-stuck (level, msg) _ s (locked-stuck level msg s e)
    | inr e ↦
        let held : LogState = record s { locked = true } in
        let step : myepoll_log can_open server level msg s ≡ some held = ground (arith, e, quiet) in
        log_all-next (level, msg) _ s held step
        ∙ log_all-stuck (level', msg') after held (locked-stuck level' msg' held refl)
  ]
  log_all-blocks (c ∷ before) after level level' msg msg' s quiet =
      elim (Option-cases (myepoll_log can_open server c.0 c.1 s)) [
        | inl e ↦ log_all-stuck c _ s e
        | inr (s', e) ↦
            log_all-next c _ s s' e ∙ log_all-blocks before after level level' msg msg' s' quiet
      ]
