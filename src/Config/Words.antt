-- ===== src/Config/Words.antt =====
-- The C library's string functions, as loadServerConfig (main.cpp) uses them, and its index loops.
use Prim.Native.Nat.{min}
use epoll_threads.Base.{
  ℕ, zero, suc, ◌+◌, ◌-◌, ◌*◌, ◌^◌, ◌%◌, Bool, true, false, ◌&&◌, ◌||◌, List, [], ◌∷◌, Option, none,
  some, ℤ, signed32, leb, ◌==◌, if◌then◌else◌,
}
use mathlib.Core.Option

-- ' ' or '\t'
abbrev pub is_blank : ℕ → Bool
is_blank c = (c == 32) || (c == 9)

-- ' ', '\t' or '\n'
abbrev pub is_space : ℕ → Bool
is_space c = is_blank c || (c == 10)

-- for (i = 0; i < strlen(s) - 1 && is_blank(s[i]); i++); s += i;
unfoldable pub skip_leading : List ℕ → List ℕ
skip_leading [] = []
skip_leading (c ∷ []) = c ∷ []
skip_leading (c ∷ d ∷ s) = let rest = skip_leading (d ∷ s) in if is_blank c then rest else c ∷ d ∷ s

-- `strpbrk(s, " \t")`: what stands before the blank, which is overwritten by a NUL, and behind it.
unfoldable pub break_at : List ℕ → Option (List ℕ × List ℕ)
break_at [] = none
break_at (c ∷ s) =
    if is_blank c then some ([], s) else Option.map (λ r. (c ∷ r.0, r.1)) (break_at s)

-- `s[i]`, with the NUL behind the string.
abbrev pub char_at : List ℕ → ℕ → ℕ
char_at [] i = 0
char_at (c ∷ s) zero = c
char_at (c ∷ s) (suc i) = char_at s i

-- for (i = strlen(s); i >= 1 && is_space(s[i-1]); i--);
unfoldable pub trim_index : List ℕ → ℕ → ℕ
trim_index s zero = 0
trim_index s (suc i) = let rest = trim_index s i in if is_space (char_at s i) then rest else suc i

-- `s[0] == '#'`
abbrev pub starts_comment : List ℕ → Bool
starts_comment [] = false
starts_comment (c ∷ s) = c == b'#'

abbrev to_lower : ℕ → ℕ
to_lower c = if leb b'A' c && leb c b'Z' then c + 32 else c

-- `0 == strcasecmp(s, t)`
unfoldable pub same_word : List ℕ → List ℕ → Bool
same_word [] [] = true
same_word [] (d ∷ t) = false
same_word (c ∷ s) [] = false
same_word (c ∷ s) (d ∷ t) = (to_lower c == to_lower d) && same_word s t

abbrev pub is_digit : ℕ → Bool
is_digit c = leb b'0' c && leb c b'9'

unfoldable pub digits_from : ℕ → List ℕ → ℕ
digits_from acc [] = acc
digits_from acc (c ∷ s) =
    let rest = digits_from (acc * 10 + (c - 48)) s in if is_digit c then rest else acc

-- glibc's `(int)strtol(s, NULL, 10)`: the `long` saturates, and the `int` is its low 32 bits.
unfoldable pub atoi_sign : List ℕ → ℤ
unfolding digits_from
atoi_sign [] = signed32 0
atoi_sign (c ∷ s) =
    if c == b'-'
    then signed32 ((2 ^ 64 - min (digits_from 0 s) (2 ^ 63)) % 2 ^ 32)
    else if c == b'+'
    then signed32 (min (digits_from 0 s) (2 ^ 63 - 1) % 2 ^ 32)
    else signed32 (min (digits_from 0 (c ∷ s)) (2 ^ 63 - 1) % 2 ^ 32)

unfoldable pub atoi : List ℕ → ℤ
unfolding atoi_sign
atoi [] = signed32 0
atoi (c ∷ s) =
    let rest = atoi s in if (c == 32) || (leb 9 c && leb c 13) then rest else atoi_sign (c ∷ s)
