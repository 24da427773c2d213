-- ===== src/Config/Loading.antt =====
-- loadServerConfig (main.cpp): the file as a sequence of lines, up to the first that is in error.
use epoll_threads.Base.{
  ℕ, suc, ◌+◌, ◌≡◌, refl, Bool, ◌⊎◌, inl, inr, List, [], ◌∷◌, ◌++◌, some, ℤ, pos, minus_one, length,
  arith, ap,
}
use epoll_threads.Config.{
  Server, Progress, Round, go_on, stop, read_line, apply_line, load_rest, load_lines,
  load_server_config,
}

module _ (can_open : List ℕ → Bool) where
  -- What a load of `xs` says of one of `xs ++ ys`.
  abbrev pub Continues : List (List ℕ) → ℕ → ℤ × Progress → ℤ × Progress → Type 0
  Continues ys line first whole =
      ((first.0 ≡ minus_one) × (whole ≡ first))
      ⊎ ((first.0 ≡ pos 0) × (whole ≡ load_lines can_open ys line first.1))

  load_lines-append :
      (xs ys : List (List ℕ)) (line : ℕ) (p : Progress)
      → Continues ys
          (line + length xs)
          (load_lines can_open xs line p)
          (load_lines can_open (xs ++ ys) line p)
  unfolding load_lines
  load_lines-append [] ys line p = inr (refl, ap (λ n. load_lines can_open ys n p) (omega arith))
  load_lines-append (x ∷ xs) ys line p =
      go (apply_line can_open (read_line x) (suc line) p)
        λ q. rw (← count) (load_lines-append xs ys (suc line) q)
    where
      count : suc line + length xs ≡ line + suc (length xs)
      count = omega arith

      go :
          (r : Round)
          → ((q : Progress)
              → Continues ys
                  (line + suc (length xs))
                  (load_lines can_open xs (suc line) q)
                  (load_lines can_open (xs ++ ys) (suc line) q))
          → Continues ys
              (line + suc (length xs))
              (load_rest (load_lines can_open xs) (suc line) r)
              (load_rest (load_lines can_open (xs ++ ys)) (suc line) r)
      go (go_on q) k = k q
      go (stop q) k = inl (refl, refl)

  -- A load of a file that starts with the lines `xs` is, if the load of `xs` alone fails, that load:
  -- no later line is read; and else, it goes on from what `xs` left, with the lines counted on.
  pub load_server_config-append :
      (xs ys : List (List ℕ)) (s : Server)
      → Continues ys
          (length xs)
          (load_server_config can_open (some xs) s)
          (load_server_config can_open (some (xs ++ ys)) s)
  unfolding load_server_config
  load_server_config-append xs ys s =
      let p : Progress = record { server = s; complaints = [] } in
      let start : 0 + length xs ≡ length xs = omega arith in
      rw (← start) (load_lines-append xs ys 0 p)
