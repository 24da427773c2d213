-- ===== src/Config/Lines.antt =====
-- loadServerConfig (main.cpp): how a line of the file is taken apart.
use epoll_threads.Base.{
  ℕ, zero, suc, ◌+◌, ◌≤◌, ◌<◌, ◌≡◌, refl, ap, ◌∙◌, true, false, List, [], ◌∷◌, ◌++◌, none, some,
  All, length, length-append, take, leb, ◌==◌, arith, dec_lt,
}
use epoll_threads.Config.Words.{is_blank, is_space, skip_leading, break_at, char_at, trim_index}
use epoll_threads.Config.{skipped, missing, option, take_value, take_option, read_line}

abbrev pub Blank : ℕ → Type 0
Blank c = is_blank c ≡ true

abbrev pub Space : ℕ → Type 0
Space c = is_space c ≡ true

abbrev pub Solid : ℕ → Type 0
Solid c = is_blank c ≡ false

skip_leading_stays : (c : ℕ) (t : List ℕ) → Solid c → skip_leading (c ∷ t) ≡ c ∷ t
unfolding skip_leading
skip_leading_stays c [] h = refl
skip_leading_stays c (d ∷ t) h = rw h

-- `s` is not empty, so one more blank before it is skipped.
skip_leading-Blank :
    (b c : ℕ) (t : List ℕ) → Blank b → skip_leading (b ∷ c ∷ t) ≡ skip_leading (c ∷ t)
unfolding skip_leading
skip_leading-Blank b c t h = rw h

skip_leading-append :
    (bs : List ℕ) (c : ℕ) (t : List ℕ) → All Blank bs → Solid c → skip_leading (bs ++ c ∷ t) ≡ c ∷ t
skip_leading-append [] c t a h = skip_leading_stays c t h
skip_leading-append (b ∷ []) c t a h = skip_leading-Blank b c t a.0 ∙ skip_leading_stays c t h
skip_leading-append (b ∷ b' ∷ bs) c t a h =
    skip_leading-Blank b b' (bs ++ c ∷ t) a.0 ∙ skip_leading-append (b' ∷ bs) c t a.1 h

break_at-append :
    (name : List ℕ) (b : ℕ) (rest : List ℕ)
    → All Solid name
    → Blank b
    → break_at (name ++ b ∷ rest) ≡ some (name, rest)
unfolding break_at
break_at-append [] b rest a h = rw h
break_at-append (c ∷ name) b rest a h = rw (a.0, break_at-append name b rest a.1 h)

break_at-Solid : (name : List ℕ) → All Solid name → break_at name ≡ none
unfolding break_at
break_at-Solid [] a = refl
break_at-Solid (c ∷ name) a = rw (a.0, break_at-Solid name a.1)

char_at-front : (xs ys : List ℕ) (j : ℕ) → j < length xs → char_at (xs ++ ys) j ≡ char_at xs j
char_at-front [] ys j h = absurd (omega arith)
char_at-front (x ∷ xs) ys zero h = refl
char_at-front (x ∷ xs) ys (suc j) h = char_at-front xs ys j (omega arith)

pub char_at-back :
    (P : ℕ → Type 0) (xs ys : List ℕ) (j : ℕ)
    → All P ys
    → length xs ≤ j
    → j < length xs + length ys
    → P (char_at (xs ++ ys) j)
char_at-back P [] [] j a g h = absurd (omega arith)
char_at-back P [] (y ∷ ys) zero a g h = a.0
char_at-back P [] (y ∷ ys) (suc j) a g h = char_at-back P [] ys j a.1 (omega arith) (omega arith)
char_at-back P (x ∷ xs) ys zero a g h = absurd (omega arith)
char_at-back P (x ∷ xs) ys (suc j) a g h = char_at-back P xs ys j a (omega arith) (omega arith)

-- Nothing but spaces from `n` up to `i`, and none just before `n`.
trim_index_stops :
    (s : List ℕ) (n i : ℕ)
    → n < i
    → is_space (char_at s n) ≡ false
    → ((j : ℕ) → n < j → j < i → Space (char_at s j))
    → trim_index s i ≡ suc n
unfolding trim_index
trim_index_stops s n zero g h k = absurd (omega arith)
trim_index_stops s n (suc i) g h k = elim (dec_lt n i) [
  | yes lt ↦ rw (k i lt (omega arith)) (trim_index_stops s n i lt h λ j a b. k j a (omega arith))
  | no ge ↦ let same : n ≡ i = omega (arith, ge) in rw (← same, h)
]

trim_index_none :
    (s : List ℕ) (i : ℕ) → ((j : ℕ) → j < i → Space (char_at s j)) → trim_index s i ≡ 0
unfolding trim_index
trim_index_none s zero k = refl
trim_index_none s (suc i) k = rw (k i (omega arith)) (trim_index_none s i λ j a. k j (omega arith))

take-append : (xs ys : List ℕ) → take (length xs) (xs ++ ys) ≡ xs
take-append [] ys = refl
take-append (x ∷ xs) ys = ap (◌∷◌ x) (take-append xs ys)

take_value_lem :
    (name between : List ℕ) (c : ℕ) (v after : List ℕ)
    → All Blank between
    → Solid c
    → is_space (char_at (c ∷ v) (length v)) ≡ false
    → All Space after
    → take_value name (between ++ c ∷ (v ++ after)) ≡ option name (c ∷ v)
unfolding take_value
take_value_lem name between c v after b h last a =
    let value = c ∷ (v ++ after) in
    let trimmed : trim_index value (length value) ≡ suc (length v) =
      trim_index_stops value (length v) (length value) (omega (arith, length-append v after))
        (ap is_space (char_at-front (c ∷ v) after (length v) (omega arith)) ∙ last)
        λ j x y.
          char_at-back Space (c ∷ v) after j a (omega arith)
            (omega (arith, length-append v after)) in
    let positive : (suc (length v) == 0) ≡ false = ground arith in
    rw (skip_leading-append between c (v ++ after) b h, trimmed, positive)
      (ap (option name) (take-append (c ∷ v) after))

-- A line `name value` with blanks (spaces and tabs) before the name, at least one between the two,
-- and blanks or newlines behind the value is read as that name and that value, where the name has
-- no blank and does not start with '#', and the value neither starts with a blank nor ends with a
-- blank or newline; blanks within the value stay.
pub read_line_lem :
    (before : List ℕ) (d : ℕ) (n : List ℕ) (b : ℕ) (between : List ℕ) (c : ℕ) (v after : List ℕ)
    → All Blank before
    → All Solid (d ∷ n)
    → (d == 35) ≡ false
    → Blank b
    → All Blank between
    → Solid c
    → is_space (char_at (c ∷ v) (length v)) ≡ false
    → All Space after
    → read_line (before ++ d ∷ (n ++ b ∷ (between ++ c ∷ (v ++ after)))) ≡ option (d ∷ n) (c ∷ v)
unfolding read_line take_option
read_line_lem before d n b between c v after h s comment hb hs hc last ha =
    let rest = between ++ c ∷ (v ++ after) in
    let buff = d ∷ (n ++ b ∷ rest) in
    let long : leb (length buff) 2 ≡ false =
      ground (arith, length-append n (b ∷ rest), length-append between (c ∷ (v ++ after))) in
    rw
      (
        skip_leading-append before d (n ++ b ∷ rest) h s.0,
        long,
        comment,
        take_option,
        break_at-append (d ∷ n) b rest s hb,
      )
      (take_value_lem (d ∷ n) between c v after hs hc last ha)

-- A line whose first character behind its blanks is '#' is skipped, whatever follows.
pub read_line-comment :
    (before rest : List ℕ) → All Blank before → read_line (before ++ 35 ∷ rest) ≡ skipped
unfolding read_line
read_line-comment before rest h = rw (skip_leading-append before 35 rest h refl) (ground arith)

-- A name of more than two characters with no blank behind it, the newline counted as part of it, is
-- an option without its argument.
pub read_line-missing :
    (before : List ℕ) (d : ℕ) (n : List ℕ)
    → All Blank before
    → All Solid (d ∷ n)
    → (d == 35) ≡ false
    → 2 < length (d ∷ n)
    → read_line (before ++ d ∷ n) ≡ missing
unfolding read_line take_option
read_line-missing before d n h s comment long =
    let long' : leb (length (d ∷ n)) 2 ≡ false = ground (arith, long) in
    rw (skip_leading-append before d n h s.0, long', comment, take_option, break_at-Solid (d ∷ n) s)
      refl
