-- ===== src/Thread/Wakeup.antt =====
-- Suspend and Resume (iThread.cpp) over every order of the steps.
use epoll_threads.Base.{◌≡◌, ◌≢◌, refl, subst, Bool, true, false, ◌⊎◌, inl, inr, arith}
use epoll_threads.Thread.{
  Creator, constructing, creating, detaching, resuming, resumed, failed, Thread, unborn, suspended,
  running, HandShake, Step, construct_step, spawn_step, spawn_fails, detach_step, detach_fails,
  resume_step, wake, Reach, here, next,
}

-- What each place of the creator goes with: the thread's place, the two masks, the pending signal.
abbrev pub Fits : Creator → Thread → Bool → Bool → Bool → Type 0
Fits constructing t cm tm p = (t ≡ unborn) × (p ≡ false)
Fits creating t cm tm p = (t ≡ unborn) × (cm ≡ true) × (p ≡ false)
Fits detaching t cm tm p = (t ≡ suspended) × (tm ≡ true) × (p ≡ false)
Fits resuming t cm tm p = (t ≡ suspended) × (tm ≡ true) × (p ≡ false)
Fits resumed t cm tm p =
    (tm ≡ true) × (((t ≡ suspended) × (p ≡ true)) ⊎ ((t ≡ running) × (p ≡ false)))
Fits failed t cm tm p = (t ≢ running) × (p ≡ false)

pub record Inv (s : HandShake) : Type 0 where
  pub fits : Fits s.creator s.thread s.creator_mask s.thread_mask s.pending
  pub alive : s.killed ≡ false

Step-Inv : {s t : HandShake} → Step s t → Inv s → Inv t
Step-Inv (construct_step e) v = ground (arith, v, e)
Step-Inv (spawn_step e) v = ground (arith, v, e)
Step-Inv (spawn_fails e) v = ground (arith, v, e)
Step-Inv (detach_step e) v = ground (arith, v, e)
Step-Inv (detach_fails e) v = ground (arith, v, e)
Step-Inv (resume_step e) v = ground (arith, v, e)
Step-Inv (wake e p) v = ground (arith, v, e, p)

pub Reach-Inv : {mask : Bool} {s : HandShake} → Reach mask s → Inv s
Reach-Inv here = record { fits = (refl, refl); alive = refl }
Reach-Inv (next r st) = Step-Inv st (Reach-Inv r)

-- In whatever order the creator and the thread step, and whether or not SIGUSR1 was blocked at first:
-- the signal of `Resume` never ends the process, and the thread does not get out of `Suspend` before
-- `Resume`.
pub suspend_holds :
    {mask : Bool} {s : HandShake}
    → Reach mask s
    → (s.killed ≡ false) × ((s.thread ≢ running) ⊎ (s.creator ≡ resumed))
suspend_holds {s = s} r =
    let v = Reach-Inv r in
    (v.alive, go s.creator s.thread s.creator_mask s.thread_mask s.pending v.fits)
  where
    go :
        (c : Creator) (t : Thread) (cm tm p : Bool)
        → Fits c t cm tm p
        → (t ≢ running) ⊎ (c ≡ resumed)
    go resumed t cm tm p v = inr refl
    go c unborn cm tm p v = inl (λ e. cc)
    go c suspended cm tm p v = inl (λ e. cc)
    go constructing running cm tm p v = ground arith
    go creating running cm tm p v = ground arith
    go detaching running cm tm p v = ground arith
    go resuming running cm tm p v = ground arith
    go failed running cm tm p v = absurd (v.0 refl)

-- The signal of `Resume` is not lost, also where it comes before the thread waits: once it is sent,
-- the thread is out of `Suspend`, or it has a step that takes it out.
pub resume_wakes :
    {mask : Bool} {s : HandShake}
    → Reach mask s
    → s.creator ≡ resumed
    → (s.thread ≡ running) ⊎ ((t : HandShake) × Step s t × (t.thread ≡ running))
resume_wakes {s = s} r e =
    let fits =
      subst (λ c. Fits c s.thread s.creator_mask s.thread_mask s.pending) e (Reach-Inv r).fits in
    elim fits.1 [
      | inl (waits, sent) ↦ inr (_, wake waits sent, refl)
      | inr (runs, taken) ↦ inl runs
    ]
