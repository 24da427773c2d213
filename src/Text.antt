-- ===== src/Text.antt =====
-- The C library's text, over bytes: literals, `%d`, and the string that a buffer holds.
use Prim.Native.Char.{code}
use Prim.Native.String.{String}
use mathlib.Core.Option
use epoll_threads.Base.{
  ℕ, zero, suc, ◌+◌, ◌-◌, ◌/◌, ◌%◌, ◌≤◌, ◌≡◌, refl, List, [], ◌∷◌, ◌++◌, Option, none, some, ℤ, pos,
  negsuc, length, replicate, arith, ◌==◌, if◌then◌else◌,
}

-- The bytes of an ASCII literal.
abbrev pub codes : String → List ℕ
codes String.[] = []
codes (String.◌∷◌ c s) = code c ∷ codes s

-- The decimal digits of `n` before `acc`; ten rounds are enough for 32 bits.
unfoldable pub digits_onto : ℕ → ℕ → List ℕ → List ℕ
digits_onto zero n acc = acc
digits_onto (suc fuel) n acc =
    let rest = digits_onto fuel (n / 10) ((48 + n % 10) ∷ acc) in
    if n / 10 == 0 then (48 + n % 10) ∷ acc else rest

-- `%d` of an `int`.
unfoldable pub decimal : ℤ → List ℕ
unfolding digits_onto
decimal (pos n) = digits_onto 10 n []
decimal (negsuc n) = b'-' ∷ digits_onto 10 (suc n) []

-- The C string at the start of a buffer, without its NUL; `none` where the buffer holds no NUL, so
-- that a reader runs past its end.
unfoldable pub c_string : List ℕ → Option (List ℕ)
c_string [] = none
c_string (zero ∷ bs) = some []
c_string (suc c ∷ bs) = Option.map (λ s. suc c ∷ s) (c_string bs)

-- A buffer of `size` bytes that was all NUL, once `bs` is written to its start.
abbrev pub filled : ℕ → List ℕ → List ℕ
filled size bs = bs ++ replicate (size - length bs) 0

length-digits_onto :
    (fuel n : ℕ) (acc : List ℕ) → length (digits_onto fuel n acc) ≤ length acc + fuel
unfolding digits_onto
length-digits_onto zero n acc = omega arith
length-digits_onto (suc fuel) n acc =
    ground (arith, length-digits_onto fuel (n / 10) ((48 + n % 10) ∷ acc))

-- `%d` prints at most 11 characters.
pub length-decimal : (a : ℤ) → length (decimal a) ≤ 11
unfolding decimal
length-decimal (pos n) = omega (arith, length-digits_onto 10 n [])
length-decimal (negsuc n) = omega (arith, length-digits_onto 10 (suc n) [])

twelve : decimal (negsuc 119) ≡ codes "-120"
unfolding decimal
twelve = refl
