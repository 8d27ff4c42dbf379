-- ===== src/FilePath/Tests.antt =====
-- The theorem on the file names of log.c at a concrete name.
use fast_http.Prelude.{
  ℕ, ◌≡◌, ◌⊎◌, refl, true, some, List, [], ◌∷◌, ◌++◌, arith, length, ◌<◌, ◌≢◌, get_or,
}
use fast_http.FilePath.{
  path_sep, get_basename, get_fielpath, log_strcpy, name_end, before_sep, after_sep,
}
use fast_http.FilePath.Split.{written, get_fielpath-get_basename}

-- `a/b`
get_fielpath-get_basename_example :
    (front back : List ℕ) × (get_fielpath true 10 (some (b'a' ∷ b'/' ∷ b'b' ∷ []))
      ≡ (written front, some (length front)))
    × (get_basename true 10 (some (b'a' ∷ b'/' ∷ b'b' ∷ []))
        ≡ (some (back ++ 0 ∷ []), some (length back)))
    × ((b'a' ∷ b'/' ∷ b'b' ∷ [] ≡ front ++ path_sep ∷ back)
        ⊎ ((front ≡ []) × (b'a' ∷ b'/' ∷ b'b' ∷ [] ≡ back)))
    × ((i : ℕ) → i < length back → get_or back i 0 ≢ path_sep)
get_fielpath-get_basename_example =
    get_fielpath-get_basename (b'a') (b'/' ∷ b'b' ∷ []) 10 (λ e. absurd (omega (arith, e)))
      (omega arith)

-- Of `a/b/` the parts are `a/b` and `b`.
trailing :
    (get_fielpath true 10 (some (b'a' ∷ b'/' ∷ b'b' ∷ b'/' ∷ []))
      ≡ (some (b'a' ∷ b'/' ∷ b'b' ∷ 0 ∷ []), some 3))
    × (get_basename true 10 (some (b'a' ∷ b'/' ∷ b'b' ∷ b'/' ∷ []))
        ≡ (some (b'b' ∷ 0 ∷ []), some 1))
unfolding get_fielpath get_basename name_end before_sep after_sep
trailing = (refl, refl)

copied : log_strcpy (b'o' ∷ b'k' ∷ []) ≡ (b'o' ∷ b'k' ∷ 0 ∷ [], 2)
unfolding log_strcpy
copied = refl
