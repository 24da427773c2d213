-- ===== src/Config/Reference.antt =====
-- The index loops of loadServerConfig (main.cpp) against a definition by words: what a line means,
-- without its newline.
use epoll_threads.Base.{
  ℕ, zero, suc, ◌≤◌, ◌≡◌, refl, ap, ◌∙◌, Bool, not, ◌||◌, List, [], ◌∷◌, ◌++◌, Option, none, some,
  inl, inr, length, length-append, take, leb, ◌==◌, arith, Bool-cases, if◌then◌else◌,
}
use mathlib.Core.Option
use epoll_threads.Config.Words.{
  is_blank, is_space, skip_leading, break_at, char_at, trim_index, starts_comment,
}
use epoll_threads.Config.{Line, skipped, missing, option, take_value, take_option, read_line}

abbrev pub drop_while : (ℕ → Bool) → List ℕ → List ℕ
drop_while f [] = []
drop_while f (c ∷ s) = if f c then drop_while f s else c ∷ s

abbrev pub take_while : (ℕ → Bool) → List ℕ → List ℕ
take_while f [] = []
take_while f (c ∷ s) = if f c then c ∷ take_while f s else []

abbrev pub is_solid : ℕ → Bool
is_solid c = not (is_blank c)

-- Without the spaces at its end.
abbrev pub onto : ℕ → List ℕ → List ℕ
onto c [] = if is_space c then [] else c ∷ []
onto c (d ∷ r) = c ∷ d ∷ r

abbrev pub strip : List ℕ → List ℕ
strip [] = []
strip (c ∷ s) = onto c (strip s)

abbrev pub option_or_missing : List ℕ → List ℕ → Line
option_or_missing name [] = missing
option_or_missing name (c ∷ v) = option name (c ∷ v)

abbrev pub value_line : List ℕ → List ℕ → Line
value_line name [] = missing
value_line name (b ∷ rest) = option_or_missing name (strip (drop_while is_blank rest))

-- A line is its first word and what follows, both stripped; it is skipped if it has less than two
-- characters or starts with #.
unfoldable pub reference_line : List ℕ → Line
reference_line s =
    let t = drop_while is_blank s in
    if leb (length t) 1 || starts_comment t
    then skipped
    else value_line (take_while is_solid t) (drop_while is_solid t)

abbrev newline : List ℕ
newline = 10 ∷ []

skip_leading-newline : (s : List ℕ) → skip_leading (s ++ newline) ≡ drop_while is_blank s ++ newline
unfolding skip_leading
skip_leading-newline [] = refl
skip_leading-newline (c ∷ []) = elim (Bool-cases (is_blank c)) [
  | inl b ↦ rw b refl
  | inr b ↦ rw b refl
]
skip_leading-newline (c ∷ d ∷ s) = elim (Bool-cases (is_blank c)) [
  | inl b ↦ rw b (skip_leading-newline (d ∷ s))
  | inr b ↦ rw b refl
]

abbrev found : List ℕ → List ℕ → Option (List ℕ × List ℕ)
found name [] = none
found name (b ∷ rest) = some (name, rest ++ newline)

found-Option_map :
    (c : ℕ) (name rest : List ℕ)
    → Option.map (λ r. (c ∷ r.0, r.1)) (found name rest) ≡ found (c ∷ name) rest
found-Option_map c name [] = refl
found-Option_map c name (b ∷ rest) = refl

break_at-newline :
    (t : List ℕ) → break_at (t ++ newline) ≡ found (take_while is_solid t) (drop_while is_solid t)
unfolding break_at
break_at-newline [] = refl
break_at-newline (c ∷ t) = elim (Bool-cases (is_blank c)) [
  | inl b ↦ rw b refl
  | inr b ↦
      rw (b, break_at-newline t)
        (found-Option_map c (take_while is_solid t) (drop_while is_solid t))
]

-- The index for one character more in front.
abbrev one_more : ℕ → ℕ → ℕ
one_more c zero = if is_space c then 0 else 1
one_more c (suc i) = suc (suc i)

trim_index-front :
    (c : ℕ) (s : List ℕ) (i : ℕ) → trim_index (c ∷ s) (suc i) ≡ one_more c (trim_index s i)
unfolding trim_index
trim_index-front c s zero = refl
trim_index-front c s (suc i) = elim (Bool-cases (is_space (char_at s i))) [
  | inl b ↦ rw b (trim_index-front c s i)
  | inr b ↦ rw b refl
]

take-one_more :
    (c : ℕ) (s : List ℕ) (i : ℕ) → i ≤ length s → take (one_more c i) (c ∷ s) ≡ onto c (take i s)
take-one_more c s zero h = elim (Bool-cases (is_space c)) [ inl b ↦ rw b refl | inr b ↦ rw b refl ]
take-one_more c [] (suc i) h = absurd (omega arith)
take-one_more c (d ∷ s) (suc i) h = refl

trim_index-le : (s : List ℕ) (i : ℕ) → trim_index s i ≤ i
unfolding trim_index
trim_index-le s zero = omega arith
trim_index-le s (suc i) = elim (Bool-cases (is_space (char_at s i))) [
  | inl b ↦ rw b (omega (arith, trim_index-le s i))
  | inr b ↦ rw b (omega arith)
]

take-trim_index : (s : List ℕ) → take (trim_index s (length s)) s ≡ strip s
unfolding trim_index
take-trim_index [] = refl
take-trim_index (c ∷ s) =
    ap (λ i. take i (c ∷ s)) (trim_index-front c s (length s))
    ∙ take-one_more c s (trim_index s (length s)) (trim_index-le s (length s))
    ∙ ap (onto c) (take-trim_index s)

strip-newline : (s : List ℕ) → strip (s ++ newline) ≡ strip s
strip-newline [] = refl
strip-newline (c ∷ s) = ap (onto c) (strip-newline s)

starts_comment-newline : (t : List ℕ) → starts_comment (t ++ newline) ≡ starts_comment t
starts_comment-newline [] = refl
starts_comment-newline (c ∷ t) = refl

-- The value is missing exactly if nothing is left of it.
missing-cases :
    (name v : List ℕ) (i : ℕ)
    → i ≤ length v
    → (if i == 0 then missing else option name (take i v)) ≡ option_or_missing name (take i v)
missing-cases name v zero h = refl
missing-cases name [] (suc i) h = absurd (omega arith)
missing-cases name (c ∷ v) (suc i) h = ground arith

take_value-newline :
    (name rest : List ℕ)
    → take_value name (rest ++ newline) ≡ option_or_missing name (strip (drop_while is_blank rest))
unfolding take_value
take_value-newline name rest =
    let v = drop_while is_blank rest ++ newline in
    rw (skip_leading-newline rest) (
      missing-cases name v (trim_index v (length v)) (trim_index-le v (length v))
      ∙ ap (option_or_missing name) (take-trim_index v ∙ strip-newline (drop_while is_blank rest)))

take_found :
    (name rest : List ℕ)
    → elim (found name rest) [ none ↦ missing | some (n, r) ↦ take_value n r ]
      ≡ value_line name rest
take_found name [] = refl
take_found name (b ∷ rest) = take_value-newline name rest

take_option-newline :
    (t : List ℕ)
    → take_option (t ++ newline) ≡ value_line (take_while is_solid t) (drop_while is_solid t)
unfolding take_option
take_option-newline t =
    rw (take_option, break_at-newline t)
      (take_found (take_while is_solid t) (drop_while is_solid t))

-- Every line that ends in a newline is read as the reference says: the loops over indices, with their
-- `strlen - 1`, take apart exactly the first word and the stripped rest.
pub read_line-reference_line : (s : List ℕ) → read_line (s ++ 10 ∷ []) ≡ reference_line s
unfolding read_line reference_line
read_line-reference_line s =
    let t = drop_while is_blank s in
    let short : leb (length (t ++ newline)) 2 ≡ leb (length t) 1 =
      ground (arith, length-append t newline) in
    rw (skip_leading-newline s, short, starts_comment-newline t, take_option-newline t) refl
