-- ===== src/Client/Deleted.antt =====
-- The deletion of the clients (Test.cpp) that main has started: the loop of sigtermHandler.
use epoll_threads.Base.{
  Bool, same_or_other, ℕ, ◌≡◌, refl, sym, ap, subst, ◌∙◌, false, List, [], ◌∷◌, none, some, ◌⊎◌,
  inl, inr, All, ℤ, is_minus_one, Option-cases, arith,
}
use epoll_threads.Kernel.{Kernel}
use epoll_threads.Proc.{Proc}
use epoll_threads.Epoll.Laws.{EpollSet}
use epoll_threads.Setup.Opened.{OpenFds}
use epoll_threads.Lifetime.{delete_epoll}
use epoll_threads.Lifetime.Construction.{CreateOpens}
use epoll_threads.Client.Launch.{ClientObject, start_clients, delete_client, delete_clients}
use epoll_threads.Client.Start.{
  CtlKeepsFds, failed_at, Started, Grows-fresh, Launched, all_launched, launched, start_clients_lem,
}

abbrev pub AnyClient : (ClientObject → Type 0) → List ClientObject → Type 0
AnyClient P [] = ⊥
AnyClient P (o ∷ os) = P o ⊎ AnyClient P os

-- One of the two descriptors of a client.
abbrev pub Holds : ℤ → ClientObject → Type 0
Holds fd o = (fd ≡ o.epoll.epfd) ⊎ (fd ≡ o.sockfd)

abbrev pub HasClientArray : ClientObject → Type 0
HasClientArray o = (n : ℤ) × (o.epoll.events ≡ some n)

abbrev pub IsClientUnset : ClientObject → Type 0
IsClientUnset o = o.epoll.events ≡ none

module _ (k : Kernel) (op : OpenFds k) (es : EpollSet k) where
  open op use {opened}

  -- The descriptors of the clients that are there were closed before.
  abbrev Fresh : List ClientObject → k.World → Type 0
  Fresh os w = (fd : ℤ) → is_minus_one fd ≡ false → AnyClient (Holds fd) os → opened w fd ≡ false

  -- Other descriptors than those of the clients are the same.
  abbrev pub Only : List ClientObject → k.World → k.World → Type 0
  Only os v w = (fd : ℤ) → AnyClient (Holds fd) os ⊎ (opened w fd ≡ opened v fd)

  module _ (ip : List ℕ) (port : ℕ) where
    Started-Fresh :
        {i : ℕ} {o : ClientObject} {b : Bool} {p q : Proc k.World}
        → Started k op es i ip port o b p q
        → (fd : ℤ) → is_minus_one fd ≡ false
        → Holds fd o
        → opened p.world fd ≡ false
    Started-Fresh {p = p} starts fd real (inl at_epoll) = elim starts.epoll_fresh [
      | inl gone ↦ absurd (cc (gone, real, ap is_minus_one at_epoll))
      | inr off ↦ ap (opened p.world) at_epoll ∙ off
    ]
    Started-Fresh {p = p} starts fd real (inr at_socket) = elim starts.socket [
      | inl (off, _) ↦ ap (opened p.world) at_socket ∙ off
      | inr (_, gone) ↦ absurd (cc (gone, real, ap is_minus_one at_socket))
    ]

    Launched-Fresh :
        {i : ℕ} {m : Bool} {os : List ClientObject} {p q : Proc k.World}
        → Launched k op es ip port i os m p q
        → Fresh os p.world
    Launched-Fresh all_launched fd real any = elim any [ ]
    Launched-Fresh (launched starts rest) fd real (inl mine) = Started-Fresh starts fd real mine
    Launched-Fresh (launched {p = p} {q = q} starts rest) fd real (inr any) =
        Grows-fresh k op es p.world q.world fd starts.grows (Launched-Fresh rest fd real any)
    Launched-Fresh (failed_at starts) fd real (inl mine) = Started-Fresh starts fd real mine
    Launched-Fresh (failed_at starts) fd real (inr any) = absurd any

    Launched-Only :
        {i : ℕ} {m : Bool} {os : List ClientObject} {p q : Proc k.World}
        → Launched k op es ip port i os m p q
        → Only os p.world q.world
    Launched-Only all_launched fd = inr refl
    Launched-Only (launched starts rest) fd = elim (starts.others fd) [
      | inl mine ↦ inl (inl mine)
      | inr same ↦ elim (Launched-Only rest fd) [
        | inl any ↦ inl (inr any)
        | inr same' ↦ inr (same' ∙ same)
      ]
    ]
    Launched-Only (failed_at starts) fd = elim (starts.others fd) [
      | inl mine ↦ inl (inl mine)
      | inr same ↦ inr same
    ]

  closed_at : ℤ → Proc k.World → Proc k.World
  closed_at fd s = record s { world = (k.close fd s.world).1 }

  -- A descriptor that is closed stays so under `close`.
  closed-closed :
      (fd fd' : ℤ) (w : k.World) → opened w fd ≡ false → opened (k.close fd' w).1 fd ≡ false
  closed-closed fd fd' w off = elim (same_or_other fd fd') [
    | inl e ↦ ap (opened (k.close fd' w).1) e ∙ (op.close_closes fd' w).now
    | inr ne ↦ (op.close_closes fd' w).others fd ne ∙ off
  ]

  -- Every descriptor of the clients is closed, every other one as it was, and none is opened.
  record Shut (os : List ClientObject) (v w : k.World) : Type 0 where
    shut : (fd : ℤ) → AnyClient (Holds fd) os → opened w fd ≡ false
    others : Only os v w
    down : (fd : ℤ) → opened v fd ≡ false → opened w fd ≡ false

  -- The state behind the destructor of one client.
  after_client : ClientObject → Proc k.World → Proc k.World
  after_client o s = closed_at o.epoll.epfd (closed_at o.sockfd s)

  after_client-Shut :
      (o : ClientObject) (s : Proc k.World) → Shut (o ∷ []) s.world (after_client o s).world
  unfolding after_client closed_at
  after_client-Shut o s =
      let w = (k.close o.sockfd s.world).1 in
      let first = op.close_closes o.sockfd s.world in
      let second = op.close_closes o.epoll.epfd w in
      record {
        shut = λ fd any. elim any [
          | inl (inl e) ↦ ap (opened (k.close o.epoll.epfd w).1) e ∙ second.now
          | inl (inr e) ↦ closed-closed fd o.epoll.epfd w (ap (opened w) e ∙ first.now)
          | inr void ↦ elim void [ ]
        ];
        others = λ fd. elim (same_or_other fd o.epoll.epfd) [
          | inl e ↦ inl (inl (inl e))
          | inr ne ↦ elim (same_or_other fd o.sockfd) [
            | inl e ↦ inl (inl (inr e))
            | inr ne' ↦ inr (second.others fd ne ∙ first.others fd ne')
          ]
        ];
        down = λ fd off. closed-closed fd o.epoll.epfd w (closed-closed fd o.sockfd s.world off);
      }

  delete_clients_lem :
      (os : List ClientObject) (s : Proc k.World)
      → (s' : Proc k.World) × ((All HasClientArray os
            × (delete_clients k os s ≡ some (some tt, s'))
            × Shut os s.world s'.world)
          ⊎ (AnyClient IsClientUnset os × (delete_clients k os s ≡ some (none, s'))))
  unfolding delete_clients delete_client delete_epoll after_client closed_at
  delete_clients_lem [] s = (
    s,
    inl (
      tt,
      refl,
      record { shut = λ fd any. elim any [ ]; others = λ fd. inr refl; down = λ fd off. off },
    ),
  )
  delete_clients_lem (o ∷ os) s =
      let one = after_client-Shut o s in
      let (s', more) = delete_clients_lem os (after_client o s) in
      elim (Option-cases o.epoll.events) [
        | inl unset ↦ (after_client o s, inr (inl unset, ground (arith, unset)))
        | inr (n, array) ↦ elim more [
          | inr (any, run) ↦ (s', inr (inr any, ground (arith, array, run)))
          | inl (arrays, run, rest) ↦ (
            s',
            inl (
              ((n, array), arrays),
              ground (arith, array, run),
              record {
                shut = λ fd any. elim any [
                  | inl mine ↦ rest.down fd (one.shut fd (inl mine))
                  | inr theirs ↦ rest.shut fd theirs
                ];
                others = λ fd. elim (one.others fd) [
                  | inl (inl mine) ↦ inl (inl mine)
                  | inl (inr void) ↦ elim void [ ]
                  | inr same ↦ elim (rest.others fd) [
                    | inl any ↦ inl (inr any)
                    | inr same' ↦ inr (same' ∙ same)
                  ]
                ];
                down = λ fd off. rest.down fd (one.down fd off);
              },
            ),
          )
        ]
      ]

  -- The descriptors are those of before.
  abbrev pub Restored : k.World → k.World → Type 0
  Restored v w = (fd : ℤ) → is_minus_one fd ≡ false → opened w fd ≡ opened v fd

  -- The clients that the loop of `main` starts, deleted by the handler of SIGTERM in a state in which
  -- other descriptors than theirs are as they were: if every `epoll_create` gave a descriptor, the
  -- deletion is defined, and the open descriptors are those from before the first client was
  -- started; where one failed, an array is freed that was never given.
  pub start_clients-delete_clients :
      (co : CreateOpens k op) (ck : CtlKeepsFds k op) (capacity : ℤ) (ip : List ℕ) (port n : ℕ)
      (os : List ClientObject) (m : Bool) (p q s : Proc k.World)
      → start_clients k capacity ip port 0 n p ≡ some ((os, m), q)
      → Only os q.world s.world
      → (s' : Proc k.World) × ((All HasClientArray os
            × (delete_clients k os s ≡ some (some tt, s'))
            × Restored p.world s'.world)
          ⊎ (AnyClient IsClientUnset os × (delete_clients k os s ≡ some (none, s'))))
  start_clients-delete_clients co ck capacity ip port n os m p q s run later =
      let (os', m', q', run', len, launched') =
        start_clients_lem k op es co ck capacity ip port 0 n p in
      let starts : Launched k op es ip port 0 os m p q =
        subst
          (λ (r : (List ClientObject × Bool) × Proc k.World).
            Launched k op es ip port 0 r.0.0 r.0.1 p r.1)
          (cc (run, run')) launched' in
      let (s', ended) = delete_clients_lem os s in
      elim ended [
        | inr undefined ↦ (s', inr undefined)
        | inl (arrays, run'', gone) ↦ (
          s',
          inl (
            arrays,
            run'',
            λ fd real.
                let closed : AnyClient (Holds fd) os → opened s'.world fd ≡ opened p.world fd =
                  λ any. gone.shut fd any ∙ sym (Launched-Fresh ip port starts fd real any) in
                elim (gone.others fd) [
                  | inl any ↦ closed any
                  | inr same ↦ elim (later fd) [
                    | inl any ↦ closed any
                    | inr same' ↦ elim (Launched-Only ip port starts fd) [
                      | inl any ↦ closed any
                      | inr same'' ↦ same ∙ same' ∙ same''
                    ]
                  ]
                ],
          ),
        )
      ]
