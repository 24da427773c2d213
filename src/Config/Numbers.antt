-- ===== src/Config/Numbers.antt =====
-- `%d` and `atoi`: a number that fits an `int` is read back as it was printed.
use epoll_threads.Base.{
  ℕ, zero, suc, ◌+◌, ◌-◌, ◌*◌, ◌/◌, ◌%◌, ◌^◌, ◌<◌, ◌≡◌, refl, sym, ap, ◌∙◌, true, List, [], ◌∷◌,
  inl, inr, All, pos, ◌==◌, arith, Bool-cases,
}
use epoll_threads.Text.{digits_onto, decimal}
use epoll_threads.Config.Words.{is_digit, digits_from, atoi_sign, atoi}

abbrev pub Digit : ℕ → Type 0
Digit c = is_digit c ≡ true

digit : (n : ℕ) → Digit (48 + n % 10)
digit n = ground arith

digits_from-digit :
    (a n : ℕ) (acc : List ℕ)
    → digits_from a ((48 + n % 10) ∷ acc) ≡ digits_from (a * 10 + n % 10) acc
unfolding digits_from
digits_from-digit a n acc =
    let value : a * 10 + ((48 + n % 10) - 48) ≡ a * 10 + n % 10 = omega arith in
    rw (digit n, value) refl

-- With a round for each digit, reading the digits that are put before `acc` gives the number.
digits_from-digits_onto :
    (fuel n : ℕ) (acc : List ℕ)
    → n < 10 ^ fuel
    → digits_from 0 (digits_onto fuel n acc) ≡ digits_from n acc
unfolding digits_onto
digits_from-digits_onto zero n acc small = ap (λ m. digits_from m acc) (omega arith)
digits_from-digits_onto (suc fuel) n acc small =
    let split : n / 10 * 10 + n % 10 ≡ n = omega arith in
    elim (Bool-cases (n / 10 == 0)) [
      | inl last ↦
          let whole : 0 * 10 + n % 10 ≡ n = ground (arith, last) in
          rw last (digits_from-digit 0 n acc ∙ ap (λ m. digits_from m acc) whole)
      | inr left ↦
          let fits : n / 10 < 10 ^ fuel = omega arith in
          rw left (
            digits_from-digits_onto fuel (n / 10) ((48 + n % 10) ∷ acc) fits
            ∙ digits_from-digit (n / 10) n acc
            ∙ ap (λ m. digits_from m acc) split)
    ]

digits_onto-cons :
    (fuel n c : ℕ) (v : List ℕ)
    → All Digit (c ∷ v)
    → (d : ℕ) × (w : List ℕ) × (digits_onto fuel n (c ∷ v) ≡ d ∷ w) × All Digit (d ∷ w)
unfolding digits_onto
digits_onto-cons zero n c v h = (c, v, refl, h)
digits_onto-cons (suc fuel) n c v h = elim (Bool-cases (n / 10 == 0)) [
  | inl last ↦ (48 + n % 10, c ∷ v, rw last refl, (digit n, h))
  | inr left ↦
      let (d, w, e, h') = digits_onto-cons fuel (n / 10) (48 + n % 10) (c ∷ v) (digit n, h) in
      (d, w, rw left e, h')
]

digits_onto-Digit :
    (fuel n : ℕ)
    → (d : ℕ) × (w : List ℕ) × (digits_onto (suc fuel) n [] ≡ d ∷ w) × All Digit (d ∷ w)
unfolding digits_onto
digits_onto-Digit fuel n = elim (Bool-cases (n / 10 == 0)) [
  | inl last ↦ (48 + n % 10, [], rw last refl, (digit n, tt))
  | inr left ↦
      let (d, w, e, h) = digits_onto-cons fuel (n / 10) (48 + n % 10) [] (digit n, tt) in
      (d, w, rw left e, h)
]

-- `%d` of a number prints digits only, and one at least.
pub decimal-Digit : (n : ℕ) → (c : ℕ) × (v : List ℕ) × (decimal (pos n) ≡ c ∷ v) × All Digit (c ∷ v)
unfolding decimal
decimal-Digit n = digits_onto-Digit 9 n

atoi-digits :
    (c : ℕ) (v : List ℕ) (n : ℕ)
    → Digit c
    → digits_from 0 (c ∷ v) ≡ n
    → n < 2 ^ 31
    → atoi (c ∷ v) ≡ pos n
unfolding atoi atoi_sign
atoi-digits c v n d e small = ground (arith, d, e)

digits_from-decimal : (n : ℕ) → n < 2 ^ 31 → digits_from 0 (decimal (pos n)) ≡ n
unfolding decimal digits_from
digits_from-decimal n small = digits_from-digits_onto 10 n [] (omega arith)

pub atoi-decimal : (n : ℕ) → n < 2 ^ 31 → atoi (decimal (pos n)) ≡ pos n
atoi-decimal n small =
    let (c, v, e, digits) = decimal-Digit n in
    ap atoi e
    ∙ atoi-digits c v n digits.0 (ap (digits_from 0) (sym e) ∙ digits_from-decimal n small) small
