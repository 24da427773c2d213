-- ===== src/Log.antt =====
-- myepollLog and myepollLogRaw (main.cpp; Test.cpp has a copy): one call after the other, with the
-- mutex that myepollLog takes. The thread id and the time in a line are left out.
pub mod Blocking
pub mod Calls
pub mod Threads
pub mod Linear
mod Tests
use epoll_threads.Base.{
  ℕ, ◌+◌, ◌-◌, ◌/◌, ◌%◌, ◌^◌, Bool, true, false, ◌&&◌, not, List, [], ◌∷◌, ◌++◌, Option, none, some,
  ℤ, pos, ltb_ℤ, get_elem?, take, ◌==◌, if◌then◌else◌,
}
use epoll_threads.Text.{codes}
use epoll_threads.Config.{Server}

pub data Colour : Type 0 where
  plain yellow red : Colour

-- The `switch` on the level.
abbrev pub colour_of : ℕ → Colour
colour_of level =
    if level == 2 then Colour.yellow else if level == 3 then Colour.red else Colour.plain

-- A line of the log: as it is, or with its colour and its mark `c[level]`, where `none` is a read
-- past the NUL of `c`.
pub data LogLine : Type 0 where
  raw : List ℕ → LogLine
  marked : Colour → Option ℕ → List ℕ → LogLine

-- `g_LogFileMutex`, and what was written, the last line first.
pub record LogState : Type 0 where
  pub locked : Bool
  pub written : List LogLine

-- MY_MAX_LOGMSG_LEN (Define.h).
abbrev pub my_max_logmsg_len : ℕ
my_max_logmsg_len = 4096

-- `level & 0xff` and `level & MY_LOG_RAW`
abbrev pub level_of : ℕ → ℕ
level_of level = level % 2 ^ 8

abbrev pub rawmode : ℕ → Bool
rawmode level = (level / 2 ^ 10) % 2 == 1

abbrev pub is_empty : List ℕ → Bool
is_empty [] = true
is_empty (c ∷ s) = false

abbrev pub log_line : ℕ → List ℕ → LogLine
log_line level msg =
    if rawmode level
    then raw msg
    else marked (colour_of (level_of level)) (get_elem? (codes ".-*#" ++ 0 ∷ []) (level_of level))
        msg

-- `can_open` is whether `fopen(…, "a")` succeeds.
module _ (can_open : List ℕ → Bool) (server : Server) where
  unfoldable pub myepoll_log_raw : ℕ → List ℕ → LogState → LogState
  myepoll_log_raw level msg s =
      if ltb_ℤ (pos (level_of level)) server.verbosity
      then s
      else if not (is_empty server.logfile) && not (can_open server.logfile)
      then s
      else record s { written = log_line level msg ∷ s.written }

  -- `none` is a call that waits for a mutex which no call is going to release: every call before it
  -- has returned.
  unfoldable pub myepoll_log : ℕ → List ℕ → LogState → Option LogState
  unfolding myepoll_log_raw
  myepoll_log level msg s =
      if s.locked
      then none
      else if ltb_ℤ (pos (level_of level)) server.verbosity
      then some (record s { locked = true })
      else (let s' =
            myepoll_log_raw level (take (my_max_logmsg_len - 1) msg) (record s { locked = true }) in
          some (record s' { locked = false }))

  -- Calls one after the other.
  unfoldable pub log_all : List (ℕ × List ℕ) → LogState → Option LogState
  unfolding myepoll_log
  log_all [] s = some s
  log_all (c ∷ calls) s = elim (myepoll_log c.0 c.1 s) [ none ↦ none | some s' ↦ log_all calls s' ]
