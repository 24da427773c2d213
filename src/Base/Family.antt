-- ===== src/Base/Family.antt =====
-- Families over the worker index: one entry changed, and the sum of the first `n` entries.
use Prim.Native.Nat.{ℕ, zero, suc, ◌+◌, ◌≤◌, ◌<◌}
use mathlib.Core.Path.{◌≡◌, refl}
use mathlib.Core.Logic.{ite, ◌≢◌}
use native.Mathlib.Decide.{dec_lt, ℕ_discrete}
use native.Mathlib.Omega.{arith}

abbrev pub set_at {ℓ} : {A : Type ℓ} → ℕ → A → (ℕ → A) → ℕ → A
set_at i a f j = ite (ℕ_discrete i j) a (f j)

pub sum_below : ℕ → (ℕ → ℕ) → ℕ
sum_below zero f = 0
sum_below (suc n) f = sum_below n f + f n

pub sum_below-zero : (f : ℕ → ℕ) → sum_below 0 f ≡ 0
unfolding sum_below
sum_below-zero f = refl

pub sum_below-suc : (n : ℕ) (f : ℕ → ℕ) → sum_below (suc n) f ≡ sum_below n f + f n
unfolding sum_below
sum_below-suc n f = refl

-- Pointwise equality and order below `n` carry over to the sums.
pub sum_below-ext :
    (n : ℕ) (f g : ℕ → ℕ) → ((i : ℕ) → i < n → f i ≡ g i) → sum_below n f ≡ sum_below n g
unfolding sum_below
sum_below-ext zero f g h = refl
sum_below-ext (suc n) f g h =
    omega (arith, h n (omega arith), sum_below-ext n f g (λ i lt. h i (omega arith)))

pub sum_below_mono :
    (n : ℕ) (f g : ℕ → ℕ) → ((i : ℕ) → i < n → f i ≤ g i) → sum_below n f ≤ sum_below n g
unfolding sum_below
sum_below_mono zero f g h = omega arith
sum_below_mono (suc n) f g h =
    omega (arith, h n (omega arith), sum_below_mono n f g (λ i lt. h i (omega arith)))

-- A family that exceeds another by one at `i`, and agrees elsewhere, has a sum greater by one.
pub sum_below-bump :
    (n : ℕ) (f g : ℕ → ℕ) (i : ℕ)
    → i < n
    → g i ≡ f i + 1
    → ((j : ℕ) → j < n → i ≢ j → g j ≡ f j)
    → sum_below n g ≡ sum_below n f + 1
unfolding sum_below
sum_below-bump zero f g i lt e h = absurd (omega arith)
sum_below-bump (suc n) f g i lt e h = elim (dec_lt i n) [
  | yes low ↦ omega (
    arith,
    h n (omega arith) (omega arith),
    sum_below-bump n f g i low e (λ j l ne. h j (omega arith) ne),
  )
  | no top ↦
      let last : i ≡ n = omega arith in
      let here : g n ≡ f n + 1 = rw last at e in
      omega (arith, here, sum_below-ext n g f (λ j l. h j (omega arith) (omega arith)))
]

pub le-sum_below : (n : ℕ) (f : ℕ → ℕ) (i : ℕ) → i < n → f i ≤ sum_below n f
unfolding sum_below
le-sum_below zero f i lt = absurd (omega arith)
le-sum_below (suc n) f i lt = elim (dec_lt i n) [
  | yes low ↦ omega (arith, le-sum_below n f i low)
  | no top ↦ let last : i ≡ n = omega arith in rw last (omega arith)
]

-- What a family loses, it loses at least as much of in all of the sum as in the first part.
pub sum_below-loss :
    (n i : ℕ) (f g : ℕ → ℕ)
    → i ≤ n
    → ((j : ℕ) → g j ≤ f j)
    → sum_below n g + sum_below i f ≤ sum_below n f + sum_below i g
unfolding sum_below
sum_below-loss zero i f g le h = let first : i ≡ 0 = omega arith in rw first (omega arith)
sum_below-loss (suc n) i f g le h = elim (dec_lt n i) [
  | yes all ↦ let last : i ≡ suc n = omega arith in rw (last, sum_below) (omega arith)
  | no part ↦ omega (arith, h n, sum_below-loss n i f g (omega arith) h)
]

pub sum_below-prefix : (n i : ℕ) (f : ℕ → ℕ) → i ≤ n → sum_below i f ≤ sum_below n f
unfolding sum_below
sum_below-prefix zero i f le = let first : i ≡ 0 = omega arith in rw first (omega arith)
sum_below-prefix (suc n) i f le = elim (dec_lt n i) [
  | yes all ↦ let last : i ≡ suc n = omega arith in rw (last, sum_below) (omega arith)
  | no part ↦ omega (arith, sum_below-prefix n i f (omega arith))
]
