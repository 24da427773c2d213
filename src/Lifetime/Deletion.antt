-- ===== src/Lifetime/Deletion.antt =====
-- The deletion of the listener and its workers (ListenThread.cpp, TaskThread.cpp, iEpoll.cpp) after
-- their construction.
use epoll_threads.Base.{
  same_or_other, ℕ, ◌≡◌, refl, ap, ◌∙◌, false, List, [], ◌∷◌, none, some, ◌⊎◌, inl, inr, All, ℤ,
  Option-cases, arith,
}
use epoll_threads.Kernel.{Kernel}
use epoll_threads.Proc.{Proc}
use epoll_threads.Setup.Opened.{OpenFds}
use epoll_threads.Lifetime.{
  TaskObject, delete_epoll, delete_task, new_tasks, del_task_thread, delete_listener,
}
use epoll_threads.Lifetime.Construction.{CreateOpens, Any, HasArray, IsUnset, Built, new_tasks_lem}

module _ (k : Kernel) where
  module _ (op : OpenFds k) where
    open op use {opened}

    -- What the listener and the workers hold: the socket and the descriptors of the epoll sets.
    abbrev pub Held : ℤ → List TaskObject → ℤ → Type 0
    Held sockfd ts o = (o ≡ sockfd) ⊎ Any (λ t. o ≡ t.epoll.epfd) ts

    -- After the deletion every descriptor that they held is closed, and every other one is as it was.
    pub record Deleted (sockfd : ℤ) (ts : List TaskObject) (s s' : Proc k.World) : Type 0 where
      pub shut : (o : ℤ) → Held sockfd ts o → opened s'.world o ≡ false
      pub others : (o : ℤ) → ¬ (Held sockfd ts o) → opened s'.world o ≡ opened s.world o

    -- The same of the workers alone, which open nothing.
    record Gone (ts : List TaskObject) (s s' : Proc k.World) : Type 0 where
      shut : (o : ℤ) → Any (λ t. o ≡ t.epoll.epfd) ts → opened s'.world o ≡ false
      others : (o : ℤ) → ¬ (Any (λ t. o ≡ t.epoll.epfd) ts) → opened s'.world o ≡ opened s.world o
      down : (o : ℤ) → opened s.world o ≡ false → opened s'.world o ≡ false

    after_close : ℤ → Proc k.World → Proc k.World
    after_close fd s = record s { world = (k.close fd s.world).1 }

    -- A descriptor that is closed stays so under `close`.
    closed-closed :
        (o fd : ℤ) (w : k.World) → opened w o ≡ false → opened (k.close fd w).1 o ≡ false
    closed-closed o fd w off = elim (same_or_other o fd) [
      | inl e ↦ ap (opened (k.close fd w).1) e ∙ (op.close_closes fd w).now
      | inr ne ↦ (op.close_closes fd w).others o ne ∙ off
    ]

    del_task_thread_lem :
        (ts : List TaskObject) (s : Proc k.World)
        → All HasArray ts
        → (s' : Proc k.World) × (del_task_thread k ts s ≡ some (some tt, s')) × Gone ts s s'
    unfolding del_task_thread delete_task delete_epoll after_close
    del_task_thread_lem [] s set = (
      s,
      refl,
      record { shut = λ o any. absurd any; others = λ o no_one. refl; down = λ o off. off },
    )
    del_task_thread_lem (t ∷ ts) s ((n, array), set) =
        let (s', run, gone) = del_task_thread_lem ts (after_close t.epoll.epfd s) set in
        let closes = op.close_closes t.epoll.epfd s.world in
        (
          s',
          ground (arith, run, array),
          record {
            shut = λ o any. elim any [
              | inl e ↦ gone.down o (ap (opened (k.close t.epoll.epfd s.world).1) e ∙ closes.now)
              | inr more ↦ gone.shut o more
            ];
            others = λ o no_one.
                gone.others o (λ any. no_one (inr any)) ∙ closes.others o (λ e. no_one (inl e));
            down = λ o off. gone.down o (closed-closed o t.epoll.epfd s.world off);
          },
        )

    del_task_thread-undefined :
        (ts : List TaskObject) (s : Proc k.World)
        → Any IsUnset ts
        → (s' : Proc k.World) × (del_task_thread k ts s ≡ some (none, s'))
    unfolding del_task_thread delete_task delete_epoll after_close
    del_task_thread-undefined [] s any = elim any [ ]
    del_task_thread-undefined (t ∷ ts) s any = elim (Option-cases t.epoll.events) [
      | inl unset ↦ (after_close t.epoll.epfd s, ground (arith, unset))
      | inr (n, array) ↦ elim any [
        | inl unset ↦ absurd cc
        | inr more ↦
            let (s', run) = del_task_thread-undefined ts (after_close t.epoll.epfd s) more in
            (s', ground (arith, array, run))
      ]
    ]

    module _ (co : CreateOpens k op) where
      -- The workers that the listener constructs, deleted with it in any later state: if each has
      -- its array, then the deletion is defined, and afterwards every descriptor that is the socket
      -- of the listener or that of a worker's epoll set is closed and every other one is as it was;
      -- where one `epoll_create` failed, it frees an array that was never given. The construction
      -- opens no descriptor but those of the epoll sets.
      pub delete_listener_lem :
          (capacity : ℤ) (n : ℕ) (sockfd : ℤ) (p s : Proc k.World)
          → (ts : List TaskObject) × (q : Proc k.World) × (new_tasks k capacity n p ≡ some (ts, q))
            × Built k op ts p q
            × (s' : Proc k.World) × ((All HasArray ts
                  × (delete_listener k sockfd ts s ≡ some (some tt, s'))
                  × Deleted sockfd ts s s')
                ⊎ (Any IsUnset ts × (delete_listener k sockfd ts s ≡ some (none, s'))))
      unfolding delete_listener after_close
      delete_listener_lem capacity n sockfd p s =
          let (ts, q, run, kinds, built) = new_tasks_lem k op co capacity n p in
          elim kinds [
            | inl arrays ↦
                let (s', run', gone) = del_task_thread_lem ts (after_close sockfd s) arrays in
                (
                  ts,
                  q,
                  run,
                  built,
                  s',
                  inl (
                    arrays,
                    ground (arith, run'),
                    record {
                      shut = λ o held. elim held [
                        | inl e ↦ gone.down o (
                            ap (opened (k.close sockfd s.world).1) e
                            ∙ (op.close_closes sockfd s.world).now)
                        | inr any ↦ gone.shut o any
                      ];
                      others = λ o free.
                          gone.others o (λ any. free (inr any))
                          ∙ (op.close_closes sockfd s.world).others o (λ e. free (inl e));
                    },
                  ),
                )
            | inr unset ↦
                let (s', run') = del_task_thread-undefined ts (after_close sockfd s) unset in
                (ts, q, run, built, s', inr (unset, ground (arith, run')))
          ]
