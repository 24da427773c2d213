-- ===== src/Log/Linear.antt =====
-- The calls of myepollLog (main.cpp) by several threads, against the same calls one after the other.
use epoll_threads.Base.{
  ℕ, ◌≡◌, ◌≢◌, refl, sym, ap, ◌∙◌, subst, Bool, true, false, List, [], ◌∷◌, ◌++◌, Option, some, inl,
  inr, pos, ltb_ℤ, set_at, Option-cases, arith, ℕ_discrete,
}
use mathlib.Core.Logic.{if_pos, if_neg}
use epoll_threads.Config.{Server}
use epoll_threads.Log.Blocking.{log_all-next, log_all-stuck}
use epoll_threads.Log.{LogState, level_of, myepoll_log_raw, myepoll_log, log_all}
use epoll_threads.Log.Threads.{
  Place, outside, inside, unlocking, Callers, write, Step, lock, leave, print, unlock, begun, Reach,
  here, next,
}

module _ (can_open : List ℕ → Bool) (server : Server) where
  log_all-one :
      (c : ℕ × List ℕ) (s : LogState)
      → log_all can_open server (c ∷ []) s ≡ myepoll_log can_open server c.0 c.1 s
  unfolding log_all
  log_all-one c s = elim (Option-cases (myepoll_log can_open server c.0 c.1 s)) [
    | inl stuck ↦ log_all-stuck can_open server c [] s stuck ∙ sym stuck
    | inr (s', ran) ↦ log_all-next can_open server c [] s s' ran ∙ sym ran
  ]

  log_all-nil : (s base : LogState) → log_all can_open server [] s ≡ some base → s ≡ base
  unfolding log_all
  log_all-nil s base e = cc

  log_all-snoc :
      (calls : List (ℕ × List ℕ)) (c : ℕ × List ℕ) (s base : LogState)
      → log_all can_open server calls s ≡ some base
      → log_all can_open server (calls ++ c ∷ []) s ≡ myepoll_log can_open server c.0 c.1 base
  log_all-snoc [] c s base e =
      let same : s ≡ base = log_all-nil s base e in
      log_all-one c s ∙ ap (myepoll_log can_open server c.0 c.1) same
  log_all-snoc (d ∷ calls) c s base e =
      elim (Option-cases (myepoll_log can_open server d.0 d.1 s)) [
        | inl stuck ↦
            let never = log_all-stuck can_open server d calls s stuck in absurd (cc (never, e))
        | inr (s', ran) ↦
            log_all-next can_open server d (calls ++ c ∷ []) s s' ran
            ∙ log_all-snoc calls c s' base (sym (log_all-next can_open server d calls s s' ran) ∙ e)
      ]

  -- What the thread in the call `c` has done to the log that the calls before it left.
  abbrev At : Place → ℕ × List ℕ → LogState → LogState → Type 0
  At outside c base log = ⊥
  At (inside level msg) c base log = ((level, msg) ≡ c) × (log ≡ record base { locked = true })
  At (unlocking level msg) c base log =
      ((level, msg) ≡ c)
      × (log ≡ write can_open server level msg (record base { locked = true }))
      × (ltb_ℤ (pos (level_of level)) server.verbosity ≡ false)

  -- All threads but `i` are in no call.
  abbrev pub Others : ℕ → Callers → Type 0
  Others i s = (j : ℕ) → j ≢ i → s.place j ≡ outside

  data Inv (first : LogState) : List (ℕ × List ℕ) → Callers → Type 0 where
    free :
        {calls : List (ℕ × List ℕ)} {s : Callers}
        → ((j : ℕ) → s.place j ≡ outside)
        → log_all can_open server calls first ≡ some s.log
        → Inv first calls s
    held :
        {s : Callers} (i : ℕ) (calls : List (ℕ × List ℕ)) (c : ℕ × List ℕ) (base : LogState)
        → Others i s
        → log_all can_open server calls first ≡ some base
        → base.locked ≡ false
        → At (s.place i) c base s.log
        → Inv first (calls ++ c ∷ []) s

  set_at-here {ℓ} : {A : Type ℓ} (i : ℕ) (a : A) (f : ℕ → A) → set_at i a f i ≡ a
  set_at-here i a f = if_pos (ℕ_discrete i i) refl a (f i)

  set_at-there {ℓ} : {A : Type ℓ} (i j : ℕ) (a : A) (f : ℕ → A) → j ≢ i → set_at i a f j ≡ f j
  set_at-there i j a f ne = if_neg (ℕ_discrete i j) (λ e. ne (sym e)) a (f j)

  -- A thread in a call is the one that holds the mutex.
  holder : (s : Callers) (i j : ℕ) → Others i s → s.place j ≢ outside → j ≡ i
  holder s i j others busy = elim (ℕ_discrete j i) [
    | yes e ↦ e
    | no ne ↦ absurd (busy (others j ne))
  ]

  all_outside : (s : Callers) (i : ℕ) → Others i s → (j : ℕ) → set_at i outside s.place j ≡ outside
  all_outside s i others j = elim (ℕ_discrete j i) [
    | yes e ↦ rw e (set_at-here i outside s.place)
    | no ne ↦ set_at-there i j outside s.place ne ∙ others j ne
  ]

  write-locked :
      (level : ℕ) (msg : List ℕ) (log : LogState)
      → (write can_open server level msg log).locked ≡ log.locked
  unfolding myepoll_log_raw
  write-locked level msg log = ground arith

  At-locked :
      (p : Place) (c : ℕ × List ℕ) (base log : LogState) → At p c base log → log.locked ≡ true
  At-locked outside c base log at = elim at [ ]
  At-locked (inside level msg) c base log (_, at) = ap (λ l. l.locked) at
  At-locked (unlocking level msg) c base log (_, at, loud) =
      ap (λ l. l.locked) at ∙ write-locked level msg (record base { locked = true })

  myepoll_log-quiet :
      (level : ℕ) (msg : List ℕ) (base : LogState)
      → base.locked ≡ false
      → ltb_ℤ (pos (level_of level)) server.verbosity ≡ true
      → myepoll_log can_open server level msg base ≡ some (record base { locked = true })
  unfolding myepoll_log
  myepoll_log-quiet level msg base idle quiet = ground (arith, idle, quiet)

  myepoll_log-loud :
      (level : ℕ) (msg : List ℕ) (base : LogState)
      → base.locked ≡ false
      → ltb_ℤ (pos (level_of level)) server.verbosity ≡ false
      → myepoll_log can_open server level msg base
        ≡ some (record (write can_open server level msg (record base { locked = true })) {
          locked = false;
        })
  unfolding myepoll_log
  myepoll_log-loud level msg base idle loud = ground (arith, idle, loud)

  -- The thread in a call, as a record of what is known of it.
  record Held (first : LogState) (all : List (ℕ × List ℕ)) (s : Callers) (i : ℕ) (p : Place)
      : Type 0 where
    calls : List (ℕ × List ℕ)
    call : ℕ × List ℕ
    base : LogState
    last : all ≡ calls ++ call ∷ []
    others : Others i s
    run : log_all can_open server calls first ≡ some base
    idle : base.locked ≡ false
    at : At p call base s.log

  Inv-Held :
      (first : LogState) (all : List (ℕ × List ℕ)) (s : Callers) (i : ℕ) (p : Place)
      → Inv first all s
      → s.place i ≡ p
      → p ≢ outside
      → Held first all s i p
  Inv-Held first all s i p (free out run) e busy = absurd (busy (sym e ∙ out i))
  Inv-Held first _ s i p (held i' calls c base others run fr at) e busy =
      let same : i ≡ i' = holder s i' i others (λ o. busy (sym e ∙ o)) in
      record {
        calls = calls;
        call = c;
        base = base;
        last = refl;
        others = subst (λ x. Others x s) (sym same) others;
        run = run;
        idle = fr;
        at =
            subst (λ x. At x c base s.log) e
              (subst (λ x. At (s.place x) c base s.log) (sym same) at);
      }

  abbrev released : LogState → LogState
  released l = record l { locked = false }

  log_all-empty : (log : LogState) → log_all can_open server [] log ≡ some log
  unfolding log_all
  log_all-empty log = refl

  Step-Inv :
      (first : LogState) (all : List (ℕ × List ℕ)) (s : Callers) (c : Option (ℕ × List ℕ))
      (t : Callers)
      → Inv first all s
      → Step can_open server s c t
      → Inv first (begun can_open server all c) t
  Step-Inv first all s _ t (free out run) (lock i level msg e f) =
      held i all (level, msg) s.log (λ j ne. set_at-there i j (inside level msg) s.place ne ∙ out j)
        run f (rw (set_at-here i (inside level msg) s.place) (refl, refl))
  Step-Inv first _ s _ t (held h calls c base others run fr at) (lock i level msg e f) =
      absurd (cc (At-locked (s.place h) c base s.log at, f))
  Step-Inv first all s _ t v (leave i level msg e quiet) =
      let h = Inv-Held first all s i (inside level msg) v e (λ x. cc) in
      let (same, log) = h.at in
      free (all_outside s i h.others) (
        ap (λ xs. log_all can_open server xs first)
          (h.last ∙ ap (λ c. h.calls ++ c ∷ []) (sym same))
        ∙ log_all-snoc h.calls (level, msg) first h.base h.run
        ∙ myepoll_log-quiet level msg h.base h.idle quiet
        ∙ ap some (sym log))
  Step-Inv first all s _ t v (print i level msg e loud) =
      let h = Inv-Held first all s i (inside level msg) v e (λ x. cc) in
      let (same, log) = h.at in
      subst (λ xs. Inv first xs t) (sym h.last)
        (held i h.calls h.call h.base
          (λ j ne. set_at-there i j (unlocking level msg) s.place ne ∙ h.others j ne) h.run h.idle
          (rw (set_at-here i (unlocking level msg) s.place)
            (same, ap (write can_open server level msg) log, loud)))
  Step-Inv first all s _ t v (unlock i level msg e) =
      let h = Inv-Held first all s i (unlocking level msg) v e (λ x. cc) in
      let (same, log, loud) = h.at in
      free (all_outside s i h.others) (
        ap (λ xs. log_all can_open server xs first)
          (h.last ∙ ap (λ c. h.calls ++ c ∷ []) (sym same))
        ∙ log_all-snoc h.calls (level, msg) first h.base h.run
        ∙ myepoll_log-loud level msg h.base h.idle loud
        ∙ ap (λ l. some (released l)) (sym log))

  Reach-Inv :
      (first : LogState) (calls : List (ℕ × List ℕ)) (s : Callers)
      → Reach can_open server first calls s
      → Inv first calls s
  Reach-Inv first _ s here = free (λ j. refl) (log_all-empty first)
  Reach-Inv first _ t (next {calls = calls} {c = c} {s = s} r st) =
      Step-Inv first calls s c t (Reach-Inv first calls s r) st

  module _ {first : LogState} {calls : List (ℕ × List ℕ)} {s : Callers}
      (r : Reach can_open server first calls s) where
    -- However the threads interleave: no two of them are between the lock and the unlock, or the
    -- `return`, of a call at once, and the mutex is held while one is.
    pub one_at_a_time :
        (i j : ℕ) → s.place i ≢ outside → s.place j ≢ outside → (i ≡ j) × (s.log.locked ≡ true)
    one_at_a_time i j a b = go calls s (Reach-Inv first calls s r) a b
      where
        go :
            (calls : List (ℕ × List ℕ)) (s : Callers)
            → Inv first calls s
            → s.place i ≢ outside
            → s.place j ≢ outside
            → (i ≡ j) × (s.log.locked ≡ true)
        go _ s (free out run) a b = absurd (a (out i))
        go _ s (held h calls c base others run fr at) a b = (
          holder s h i others a ∙ sym (holder s h j others b),
          At-locked (s.place h) c base s.log at,
        )

    -- However the threads interleave, where none is in a call, the log and the mutex are as the
    -- calls leave them that were made, one after the other in the order of their locks.
    pub Reach-log_all :
        ((j : ℕ) → s.place j ≡ outside) → log_all can_open server calls first ≡ some s.log
    Reach-log_all out = go calls s (Reach-Inv first calls s r) out
      where
        go :
            (calls : List (ℕ × List ℕ)) (s : Callers)
            → Inv first calls s
            → ((j : ℕ) → s.place j ≡ outside)
            → log_all can_open server calls first ≡ some s.log
        go _ s (free _ run) out = run
        go _ s (held h calls c base others run fr at) out =
            elim (subst (λ p. At p c base s.log) (out h) at) [ ]
