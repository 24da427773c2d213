-- ===== src/Lifetime/Construction.antt =====
-- The construction of the workers (ListenThread.cpp, TaskThread.cpp, iEpoll.cpp).
use epoll_threads.Base.{
  same_or_other, ℕ, zero, suc, ◌≡◌, refl, sym, ap, ◌∙◌, true, false, List, [], ◌∷◌, none, some, ◌⊎◌,
  inl, inr, All, ℤ, pos, is_minus_one, minus_one, Bool-cases, map, arith, if◌then◌else◌,
}
use epoll_threads.Kernel.{Kernel}
use epoll_threads.Proc.{Proc, my_warning, epoll_create_err}
use epoll_threads.Epoll.{i_epoll_create}
use epoll_threads.Setup.Opened.{Opens, Same, OpenFds}
use epoll_threads.ListenThread.{Worker, init_task_thread}
use epoll_threads.ListenThread.Starts.{i_epoll_create-some}
use epoll_threads.Lifetime.{TaskObject, new_epoll, new_task, new_tasks}

-- `epoll_create` opens the descriptor that it gives.
pub record CreateOpens (k : Kernel) (op : OpenFds k) : Type 0 where
  pub create_opens :
      (capacity : ℤ) (w : k.World)
      → is_minus_one (k.epoll_create capacity w).0 ≡ false
      → Opens op.opened (k.epoll_create capacity w).0 w (k.epoll_create capacity w).1
  pub create_fails :
      (capacity : ℤ) (w : k.World)
      → is_minus_one (k.epoll_create capacity w).0 ≡ true
      → Same op.opened w (k.epoll_create capacity w).1

abbrev pub worker_of : TaskObject → Worker
worker_of t = record { epfd = t.epoll.epfd; active = t.active }

-- One of a list has the property.
abbrev pub Any : (TaskObject → Type 0) → List TaskObject → Type 0
Any P [] = ⊥
Any P (t ∷ ts) = P t ⊎ Any P ts

abbrev pub HasArray : TaskObject → Type 0
HasArray t = (n : ℤ) × (t.epoll.events ≡ some n)

abbrev pub IsUnset : TaskObject → Type 0
IsUnset t = t.epoll.events ≡ none

-- The object that a result of `i_epoll_create` leads to.
abbrev made : ℤ → ℤ × ℤ → TaskObject
made capacity r = record {
  epoll = record {
    epfd = r.1;
    maxevents = capacity;
    events = if is_minus_one r.0 then none else some capacity;
  };
  active = pos 0;
}

module _ (k : Kernel) where
  -- The objects that the loop of `InitTaskThread` makes are, as workers, those of
  -- `init_task_thread`, in the same state.
  pub new_tasks-init_task_thread :
      (capacity : ℤ) (n : ℕ) (p : Proc k.World)
      → (ts : List TaskObject) × (q : Proc k.World) × (new_tasks k capacity n p ≡ some (ts, q))
        × (init_task_thread k capacity n p ≡ some (map worker_of ts, q))
  unfolding new_tasks new_task new_epoll init_task_thread
  new_tasks-init_task_thread capacity zero p = ([], p, refl, refl)
  new_tasks-init_task_thread capacity (suc n) p =
      let (r, q, run) = i_epoll_create-some k capacity p in
      let (ts, q', run', same) = new_tasks-init_task_thread capacity n q in
      (made capacity r ∷ ts, q', ground (arith, run, run'), ground (arith, run, same))

  module _ (op : OpenFds k) where
    open op use {opened}

    -- What the workers' construction has done to the descriptors.
    abbrev pub Built : List TaskObject → Proc k.World → Proc k.World → Type 0
    Built ts p q =
        (o : ℤ)
        → (Any (λ t. o ≡ t.epoll.epfd) ts × (opened p.world o ≡ false) × (opened q.world o ≡ true))
          ⊎ (opened q.world o ≡ opened p.world o)

    module _ (co : CreateOpens k op) where
      new_task_lem :
          (capacity : ℤ) (p : Proc k.World)
          → (t : TaskObject) × (q : Proc k.World) × (new_task k capacity p ≡ some (t, q))
            × ((HasArray t × Opens opened t.epoll.epfd p.world q.world)
                ⊎ (IsUnset t × Same opened p.world q.world))
      unfolding new_task new_epoll i_epoll_create
      new_task_lem capacity p =
          let (fd, w) = k.epoll_create capacity p.world in
          elim (Bool-cases (is_minus_one fd)) [
            | inl e ↦ (
              made capacity (minus_one, fd),
              record p {
                world = w;
                log = record { level = my_warning; message = epoll_create_err } ∷ p.log;
              },
              ground (arith, e),
              inr (refl, co.create_fails capacity p.world e),
            )
            | inr e ↦ (
              made capacity (pos 0, fd),
              record p { world = w },
              ground (arith, e),
              inl ((capacity, refl), co.create_opens capacity p.world e),
            )
          ]

      Opens-Built :
          (t : TaskObject) (ts : List TaskObject) (p q r : Proc k.World)
          → Opens opened t.epoll.epfd p.world q.world
          → Built ts q r
          → Built (t ∷ ts) p r
      Opens-Built t ts p q r opens built o = elim (same_or_other o t.epoll.epfd) [
        | inl e ↦ elim (built o) [
          | inl (any, off, on) ↦ absurd (cc (off, ap (opened q.world) e, opens.now))
          | inr same ↦
              inl (
                inl e,
                ap (opened p.world) e ∙ opens.fresh,
                same ∙ ap (opened q.world) e ∙ opens.now,
              )
        ]
        | inr ne ↦ elim (built o) [
          | inl (any, off, on) ↦ inl (inr any, sym (opens.others o ne) ∙ off, on)
          | inr same ↦ inr (same ∙ opens.others o ne)
        ]
      ]

      Same-Built :
          (t : TaskObject) (ts : List TaskObject) (p q r : Proc k.World)
          → Same opened p.world q.world
          → Built ts q r
          → Built (t ∷ ts) p r
      Same-Built t ts p q r same built o = elim (built o) [
        | inl (any, off, on) ↦ inl (inr any, sym (same o) ∙ off, on)
        | inr same' ↦ inr (same' ∙ same o)
      ]

      pub new_tasks_lem :
          (capacity : ℤ) (n : ℕ) (p : Proc k.World)
          → (ts : List TaskObject) × (q : Proc k.World) × (new_tasks k capacity n p ≡ some (ts, q))
            × (All HasArray ts ⊎ Any IsUnset ts)
            × Built ts p q
      unfolding new_tasks
      new_tasks_lem capacity zero p = ([], p, refl, inl tt, λ o. inr refl)
      new_tasks_lem capacity (suc n) p =
          let (t, q, run, kind) = new_task_lem capacity p in
          let (ts, q', run', kinds, built) = new_tasks_lem capacity n q in
          (
            t ∷ ts,
            q',
            ground (arith, run, run'),
            elim kind [
              | inl (array, _) ↦ elim kinds [ inl all ↦ inl (array, all) | inr any ↦ inr (inr any) ]
              | inr (unset, _) ↦ inr (inl unset)
            ],
            elim kind [
              | inl (_, opens) ↦ Opens-Built t ts p q q' opens built
              | inr (_, same) ↦ Same-Built t ts p q q' same built
            ],
          )
