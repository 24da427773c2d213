-- ===== src/Lifetime.antt =====
-- The constructors and destructors of iEpoll.cpp, TaskThread.cpp and ListenThread.cpp, with the
-- threads themselves left out. A destructor whose result is `none` frees memory that was never given.
pub mod Construction
pub mod Deletion
mod Tests
use epoll_threads.Base.{
  ℕ, zero, suc, Bool, List, [], ◌∷◌, Option, none, some, ℤ, pos, is_minus_one, if◌then◌else◌,
}
use epoll_threads.Kernel.{Kernel}
use epoll_threads.Proc.{M, pure, ◌>>=◌, ◌>>◌, call}
use epoll_threads.Epoll.{i_epoll_create}

-- `m_epfd`, `m_maxevents` and `m_events`: the size of the array, or `none` for a pointer that was never
-- set.
pub record EpollObject : Type 0 where
  pub epfd : ℤ
  pub maxevents : ℤ
  pub events : Option ℤ

-- The base class, and `m_ActiveConns`.
pub record TaskObject : Type 0 where
  pub epoll : EpollObject
  pub active : ℤ

module _ (k : Kernel) where
  open k use {World, close}

  -- `iEpoll::iEpoll`
  unfoldable pub new_epoll : ℤ → M World EpollObject
  new_epoll capacity = do
    r ← i_epoll_create k capacity
    pure (record {
      epfd = r.1;
      maxevents = capacity;
      events = if is_minus_one r.0 then none else some capacity;
    })

  -- `iEpoll::~iEpoll`
  unfoldable pub delete_epoll : EpollObject → M World (Option (Unit {0}))
  delete_epoll o = do
    call (close o.epfd)
    elim o.events [ none ↦ pure none | some size ↦ pure (some tt) ]

  -- `TaskThread::TaskThread`
  unfoldable pub new_task : ℤ → M World TaskObject
  new_task capacity = do o ← new_epoll capacity; pure (record { epoll = o; active = pos 0 })

  -- `TaskThread::~TaskThread`, which ends with that of `iEpoll`
  unfoldable pub delete_task : TaskObject → M World (Option (Unit {0}))
  delete_task t = delete_epoll t.epoll

  -- The loop of `InitTaskThread`, with `n` objects to go.
  unfoldable pub new_tasks : ℤ → ℕ → M World (List TaskObject)
  new_tasks capacity zero = pure []
  new_tasks capacity (suc n) = do t ← new_task capacity; ts ← new_tasks capacity n; pure (t ∷ ts)

  abbrev pub go_on_deleting :
      M World (Option (Unit {0})) → Option (Unit {0}) → M World (Option (Unit {0}))
  go_on_deleting rest none = pure none
  go_on_deleting rest (some _) = rest

  -- `DelTaskThread`
  unfoldable pub del_task_thread : List TaskObject → M World (Option (Unit {0}))
  del_task_thread [] = pure (some tt)
  del_task_thread (t ∷ ts) = delete_task t >>= go_on_deleting (del_task_thread ts)

  -- `ListenThread::~ListenThread`, of the socket `sockfd`
  unfoldable pub delete_listener : ℤ → List TaskObject → M World (Option (Unit {0}))
  delete_listener sockfd tasks = call (close sockfd) >> del_task_thread tasks
