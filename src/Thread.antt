-- ===== src/Thread.antt =====
-- iThread.cpp, as ListenThread uses it: `Create` starts a thread that waits in `Suspend` for the
-- SIGUSR1 that `Resume` sends. The creator and the thread step in any order. A signal sent to a thread
-- whose mask does not block it takes its default action, which for SIGUSR1 ends the process; one that
-- is blocked stays pending until `sigwait` takes it.
pub mod Wakeup
mod Tests
use epoll_threads.Base.{◌≡◌, Bool, true, false}

-- Where the creator is.
pub data Creator : Type 0 where
  -- before the constructor of `iThread`
  constructing : Creator
  -- behind it, in `Create` before `pthread_create`
  creating : Creator
  -- before `pthread_detach`
  detaching : Creator
  -- `Create` returned, and `Resume` may come; ListenThread does not look at what it returned
  resuming : Creator
  -- behind `Resume`
  resumed : Creator
  -- there is no thread: `m_pid` is undefined, and the model goes no further
  failed : Creator

-- Where the new thread is.
pub data Thread : Type 0 where
  unborn : Thread
  -- `Run` is called, up to the `sigwait` of `Suspend`
  suspended : Thread
  -- behind `Suspend`
  running : Thread

-- `creator_mask` and `thread_mask` are whether SIGUSR1 is blocked, `pending` whether one waits for the
-- thread; `killed` is a process that SIGUSR1 ended.
pub record HandShake : Type 0 where
  pub creator : Creator
  pub thread : Thread
  pub creator_mask : Bool
  pub thread_mask : Bool
  pub pending : Bool
  pub killed : Bool

-- `mask` is whether the creator blocks SIGUSR1 before the constructor.
abbrev pub start_with : Bool → HandShake
start_with mask = record {
  creator = constructing;
  thread = unborn;
  creator_mask = mask;
  thread_mask = false;
  pending = false;
  killed = false;
}

-- `MaskSIGUSR1`
abbrev pub mask_sigusr1 : HandShake → HandShake
mask_sigusr1 s = record s { creator_mask = true }

-- `iThread::iThread`
abbrev pub construct : HandShake → HandShake
construct s = record (mask_sigusr1 s) { creator = creating }

-- A new thread inherits the mask of its creator.
abbrev pub spawn : HandShake → HandShake
spawn s = record s { creator = detaching; thread = suspended; thread_mask = s.creator_mask }

-- `pthread_kill(m_pid, SIGUSR1)`
abbrev pub resume : HandShake → HandShake
resume s = elim s.thread_mask [
  | true ↦ record s { creator = resumed; pending = true }
  | false ↦ record s { creator = resumed; killed = true }
]

pub data Step (s : HandShake) : HandShake → Type 0 where
  construct_step : s.creator ≡ constructing → Step s (construct s)
  -- `pthread_create`
  spawn_step : s.creator ≡ creating → Step s (spawn s)
  spawn_fails : s.creator ≡ creating → Step s (record s { creator = failed })
  -- `pthread_detach`
  detach_step : s.creator ≡ detaching → Step s (record s { creator = resuming })
  detach_fails : s.creator ≡ detaching → Step s (record s { creator = resuming })
  resume_step : s.creator ≡ resuming → Step s (resume s)
  -- `sigwait` takes the pending signal
  wake :
      s.thread ≡ suspended
      → s.pending ≡ true
      → Step s (record s { thread = running; pending = false })

pub data Reach (mask : Bool) : HandShake → Type 0 where
  here : Reach mask (start_with mask)
  next : {s t : HandShake} → Reach mask s → Step s t → Reach mask t
