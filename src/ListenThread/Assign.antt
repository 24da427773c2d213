-- ===== src/ListenThread/Assign.antt =====
-- ListenThread::AssignTask (ListenThread.cpp): the worker that its loop picks.
use epoll_threads.Base.{
  ℕ, suc, ◌+◌, ◌≤◌, ◌≡◌, refl, sym, ap, ◌∙◌, List, [], ◌∷◌, some, inl, inr, ℤ, pos, ◌+ℤ◌, ◌≤ℤ◌,
  ◌<ℤ◌, ltb_ℤ, length, get_elem?, Bool-cases, int_laws, arith, if◌then◌else◌,
}
use epoll_threads.ListenThread.{Worker, scan_loop}

-- `activeConns` at the end of a loop over `ws` that starts at `n`.
abbrev pub total_from : ℤ → List Worker → ℤ
total_from n [] = n
total_from n (w ∷ ws) = total_from (n +ℤ w.active) ws

-- A worker whose counter is at most that of every worker of `ws`.
abbrev pub Least : List Worker → Worker → Type 0
Least [] t = Unit
Least (w ∷ ws) t = (t.active ≤ℤ w.active) × Least ws t

Least-trans : (ws : List Worker) (s t : Worker) → s.active ≤ℤ t.active → Least ws t → Least ws s
Least-trans [] s t h l = tt
Least-trans (w ∷ ws) s t h l = (omega (int_laws, h, l.0), Least-trans ws s t h l.1)

pub scan_loop-next :
    (workers rest : List Worker) (w t : Worker) (i target : ℕ) (n : ℤ)
    → get_elem? workers target ≡ some t
    → scan_loop workers (w ∷ rest) i target n
      ≡ scan_loop workers rest
          (i + 1)
          (if ltb_ℤ w.active t.active then i else target)
          (n +ℤ w.active)
unfolding scan_loop
scan_loop-next workers rest w t i target n at = rw (scan_loop, at) refl

-- The loop ends, at a worker that is no busier than the one it starts with and those it passes.
scan_loop-Least :
    (workers rest : List Worker) (i target : ℕ) (n : ℤ) (t : Worker)
    → get_elem? workers target ≡ some t
    → ((j : ℕ) → get_elem? rest j ≡ get_elem? workers (i + j))
    → (target' : ℕ) × (t' : Worker) × (scan_loop workers rest i target n
        ≡ some (target', total_from n rest))
      × (get_elem? workers target' ≡ some t')
      × (t'.active ≤ℤ t.active)
      × Least rest t'
unfolding scan_loop
scan_loop-Least workers [] i target n t at same = (target, t, refl, at, omega arith, tt)
scan_loop-Least workers (w ∷ rest) i target n t at same =
    let here : get_elem? workers i ≡ some w = ap (get_elem? workers) (omega arith) ∙ sym (same 0) in
    let later : (j : ℕ) → get_elem? rest j ≡ get_elem? workers (i + 1 + j) =
      λ j. same (suc j) ∙ ap (get_elem? workers) (omega arith) in
    elim (Bool-cases (ltb_ℤ w.active t.active)) [
      | inl less ↦
          let (target', t', run, at', le, least) =
            scan_loop-Least workers rest (i + 1) i (n +ℤ w.active) w here later in
          let less' : w.active <ℤ t.active = ground (arith, less) in
          (
            target',
            t',
            scan_loop-next workers rest w t i target n at ∙ rw less run,
            at',
            omega (int_laws, le, less'),
            (le, least),
          )
      | inr more ↦
          let (target', t', run, at', le, least) =
            scan_loop-Least workers rest (i + 1) target (n +ℤ w.active) t at later in
          let more' : t.active ≤ℤ w.active = ground (arith, more) in
          (
            target',
            t',
            scan_loop-next workers rest w t i target n at ∙ rw more run,
            at',
            le,
            (omega (int_laws, le, more'), least),
          )
    ]

-- With two workers or more, the loop ends with the sum of all counters and one, and with the index
-- of a worker that is no busier than any other.
pub scan_loop_lem :
    (workers : List Worker)
    → 2 ≤ length workers
    → (target : ℕ) × (t : Worker) × (scan_loop workers workers 0 1 (pos 1)
        ≡ some (target, total_from (pos 1) workers))
      × (get_elem? workers target ≡ some t)
      × Least workers t
scan_loop_lem [] h = absurd (omega arith)
scan_loop_lem (a ∷ []) h = absurd (omega arith)
scan_loop_lem (a ∷ b ∷ ws) h =
    let (target, t, run, at, le, least) =
      scan_loop-Least (a ∷ b ∷ ws) (a ∷ b ∷ ws) 0 1 (pos 1) b refl
        λ j. ap (get_elem? (a ∷ b ∷ ws)) (omega arith) in
    (target, t, run, at, least)
