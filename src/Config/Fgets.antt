-- ===== src/Config/Fgets.antt =====
-- The lines that `fgets(buffer, MY_CONFIGLINE_MAX, fp)` makes of the bytes of a file (main.cpp).
use epoll_threads.Base.{
  ℕ, zero, suc, ◌<◌, ◌≡◌, refl, sym, ap, ◌∙◌, Bool, true, false, not, ◌&&◌, List, [], ◌∷◌, ◌++◌,
  All, ◌||◌, ◌-◌, length, append_assoc, leb, arith, ◌==◌, if◌then◌else◌, map,
}

-- The string in a buffer ends at a NUL.
abbrev pub until_nul : List ℕ → List ℕ
until_nul [] = []
until_nul (zero ∷ s) = []
until_nul (suc c ∷ s) = suc c ∷ until_nul s

-- What `acc` holds is in the buffer already, which has `room` for more bytes before its NUL; the last
-- piece may be without a newline.
abbrev pub flush : List ℕ → List (List ℕ)
flush [] = []
flush (c ∷ acc) = (c ∷ acc) ∷ []

unfoldable pub pieces : ℕ → List ℕ → List ℕ → List (List ℕ)
pieces room acc [] = flush acc
pieces room acc (c ∷ s) =
    let full = (acc ++ c ∷ []) ∷ pieces 1023 [] s in
    let more = pieces (room - 1) (acc ++ c ∷ []) s in if (c == 10) || leb room 1 then full else more

unfoldable pub fgets_lines : List ℕ → List (List ℕ)
unfolding pieces
fgets_lines bytes = map until_nul (pieces 1023 [] bytes)

abbrev pub join : List (List ℕ) → List ℕ
join [] = []
join (l ∷ ls) = l ++ join ls

-- No newline and no NUL.
abbrev pub is_plain : List ℕ → Bool
is_plain [] = true
is_plain (c ∷ s) = not (c == 10) && not (c == 0) && is_plain s

pub is_plain-append :
    (s t : List ℕ) → is_plain s ≡ true → is_plain t ≡ true → is_plain (s ++ t) ≡ true
is_plain-append [] t h g = g
is_plain-append (c ∷ s) t h g =
    let rest = is_plain-append s t (ground (arith, h)) g in ground (arith, h, rest)

pieces-line :
    (room : ℕ) (acc body rest : List ℕ)
    → length body < room
    → is_plain body ≡ true
    → pieces room acc (body ++ 10 ∷ rest) ≡ (acc ++ (body ++ 10 ∷ [])) ∷ pieces 1023 [] rest
unfolding pieces
pieces-line room acc [] rest small plain = refl
pieces-line room acc (c ∷ body) rest small plain =
    let ordinary : ((c == 10) || leb room 1) ≡ false = ground (arith, plain, small) in
    let later =
      pieces-line (room - 1) (acc ++ c ∷ []) body rest (omega arith) (ground (arith, plain)) in
    rw ordinary
      (later ∙ ap (λ l. l ∷ pieces 1023 [] rest) (append_assoc acc (c ∷ []) (body ++ 10 ∷ [])))

until_nul-plain :
    (body : List ℕ) → is_plain body ≡ true → until_nul (body ++ 10 ∷ []) ≡ body ++ 10 ∷ []
until_nul-plain [] plain = refl
until_nul-plain (zero ∷ body) plain = absurd (ground (arith, plain))
until_nul-plain (suc c ∷ body) plain =
    ap (◌∷◌ (suc c)) (until_nul-plain body (ground (arith, plain)))

-- A line that `fgets` reads whole.
pub record IsLine (l : List ℕ) : Type 0 where
  pub body : List ℕ
  pub ends : l ≡ body ++ 10 ∷ []
  pub plain : is_plain body ≡ true
  pub short : length body < 1023

pub fgets_lines-join : (ls : List (List ℕ)) → All IsLine ls → fgets_lines (join ls) ≡ ls
unfolding fgets_lines pieces
fgets_lines-join [] all = refl
fgets_lines-join (l ∷ ls) (line, all) =
    ap (λ x. fgets_lines (x ++ join ls)) line.ends
    ∙ ap fgets_lines (append_assoc line.body (10 ∷ []) (join ls))
    ∙ ap (map until_nul) (pieces-line 1023 [] line.body (join ls) line.short line.plain)
    ∙ ap (λ x. x ∷ fgets_lines (join ls)) (until_nul-plain line.body line.plain ∙ sym line.ends)
    ∙ ap (◌∷◌ l) (fgets_lines-join ls all)
