-- ===== src/FilePath/Split.antt =====
-- The two parts of a file name in log.c.
use fast_http.Prelude.{
  ℕ, zero, suc, ◌-◌, ◌≤◌, ◌<◌, ◌≡◌, ◌≢◌, ◌⊎◌, inl, inr, refl, sym, ap, ap₂, ◌∙◌, Bool, true, false,
  Option, none, some, List, [], ◌∷◌, ◌++◌, arith, ltb, leb, ◌==◌, if◌then◌else◌, length, take, drop,
  get_or, take-all, length-drop, length-take, take-zero, ℕ_discrete, ◌+◌, subst,
}
use fast_http.FilePath.{path_sep, name_end, after_sep, before_sep, get_basename, get_fielpath}

-- The last separator is one place in front of what lies behind it.
before_sep-after_sep : (name : List ℕ) (k : ℕ) → before_sep name k ≡ after_sep name (suc k) - 1
unfolding before_sep after_sep
before_sep-after_sep name zero = choose (get_or name 0 0 == path_sep)
  where
    choose : (b : Bool) → 0 ≡ (if b then 1 else 0) - 1
    choose true = refl
    choose false = refl
before_sep-after_sep name (suc k) =
    ap (λ n. if get_or name (suc k) 0 == path_sep then suc k else n) (before_sep-after_sep name k)
    ∙ choose (get_or name (suc k) 0 == path_sep) (after_sep name (suc k))
  where
    choose : (b : Bool) (n : ℕ) → (if b then suc k else n - 1) ≡ (if b then suc (suc k) else n) - 1
    choose true n = omega arith
    choose false n = refl

past_end : (name : List ℕ) → get_or name (length name) 0 ≡ 0
past_end [] = refl
past_end (c ∷ name) = past_end name

-- What lies behind the last separator begins in the name, and a separator stands in front of it.
after_sep_lem :
    (name : List ℕ) (k : ℕ)
    → (after_sep name k ≤ k)
      × ((after_sep name k ≡ 0)
          ⊎ ((0 < after_sep name k) × (get_or name (after_sep name k - 1) 0 ≡ path_sep)))
unfolding after_sep
after_sep_lem name zero = (omega arith, inl refl)
after_sep_lem name (suc k) = elim (ℕ_discrete (get_or name k 0) path_sep) [
  | yes here ↦
      let test : (get_or name k 0 == path_sep) ≡ true = ground arith in
      rw test (
        omega arith,
        inr (omega arith, ap (λ n. get_or name n 0) {x = suc k - 1} {y = k} (omega arith) ∙ here),
      )
  | no other ↦
      let test : (get_or name k 0 == path_sep) ≡ false = ground arith in
      let (low, rest) = after_sep_lem name k in rw test (omega (arith, low), rest)
]

-- No separator stands in the name from there on.
behind_sep : (name : List ℕ) (k j : ℕ) → after_sep name k ≤ j → j < k → get_or name j 0 ≢ path_sep
unfolding after_sep
behind_sep name zero j low high = absurd (omega arith)
behind_sep name (suc k) j low high = elim (ℕ_discrete (get_or name k 0) path_sep) [
  | yes here ↦
      let test : (get_or name k 0 == path_sep) ≡ true = ground arith in
      absurd (ground (arith, test, low, high))
  | no other ↦
      let test : (get_or name k 0 == path_sep) ≡ false = ground arith in
      elim (ℕ_discrete j k) [
        | yes last ↦ subst (λ i. get_or name i 0 ≢ path_sep) (sym last) other
        | no before ↦ behind_sep name k j (ground (arith, test, low)) (omega arith)
      ]
]

get_or-drop :
    (pos : ℕ) (name : List ℕ) (i : ℕ) → get_or (drop pos name) i 0 ≡ get_or name (pos + i) 0
get_or-drop zero name i = ap (λ k. get_or name k 0) {x = i} {y = 0 + i} (omega arith)
get_or-drop (suc pos) [] i = refl
get_or-drop (suc pos) (c ∷ name) i =
    get_or-drop pos name i
    ∙ ap (λ k. get_or (c ∷ name) k 0) {x = suc (pos + i)} {y = suc pos + i} (omega arith)

cut_at :
    (name : List ℕ) (n : ℕ)
    → n < length name
    → name ≡ take n name ++ get_or name n 0 ∷ drop (suc n) name
cut_at [] n h = absurd (omega arith)
cut_at (c ∷ name) zero h = refl
cut_at (c ∷ name) (suc n) h = ap (λ l. c ∷ l) (cut_at name n (omega arith))

no_sep : (name : List ℕ) → get_or name (length name - 1) 0 ≢ path_sep → name_end name ≡ length name
unfolding name_end
no_sep name h =
    let test : (get_or name (length name - 1) 0 == path_sep) ≡ false = ground arith in rw test refl

end_same : (name : List ℕ) → after_sep name (suc (length name)) ≡ after_sep name (length name)
unfolding after_sep
end_same name =
    let test : (get_or name (length name) 0 == path_sep) ≡ false = ground (arith, past_end name) in
    rw test refl

basename-returns :
    (c : ℕ) (rest : List ℕ) (dstlen e pos : ℕ)
    → name_end (c ∷ rest) ≡ e
    → after_sep (c ∷ rest) e ≡ pos
    → pos ≤ e
    → e ≡ length (c ∷ rest)
    → e < dstlen
    → get_basename true dstlen (some (c ∷ rest))
      ≡ (some (drop pos (c ∷ rest) ++ 0 ∷ []), some (e - pos))
unfolding get_basename
basename-returns c rest dstlen e pos e0 e1 low whole room =
    let count : (if ltb pos e then e - pos else 0) ≡ e - pos = ground arith in
    let fits : leb dstlen (e - pos) ≡ false = ground arith in
    rw (e0, e1, count, fits)
      (ap (λ l. (some (l ++ 0 ∷ []), some (e - pos)))
        (take-all (e - pos) (drop pos (c ∷ rest))
          (omega (arith, length-drop pos (c ∷ rest), whole))))

-- What `get_fielpath` writes for a first part.
abbrev pub written : List ℕ → Option (List ℕ)
written [] = none
written (c ∷ front) = some (c ∷ front ++ 0 ∷ [])

fielpath-returns :
    (c : ℕ) (rest : List ℕ) (dstlen e front : ℕ)
    → name_end (c ∷ rest) ≡ e
    → before_sep (c ∷ rest) e ≡ front
    → front ≤ length (c ∷ rest)
    → front < dstlen
    → get_fielpath true dstlen (some (c ∷ rest)) ≡ (written (take front (c ∷ rest)), some front)
unfolding get_fielpath
fielpath-returns c rest dstlen e zero e0 e1 low room = rw (e0, e1) refl
fielpath-returns c rest dstlen e (suc front) e0 e1 low room =
    let fits : leb dstlen (suc front) ≡ false = ground arith in
    let some_front : (suc front == 0) ≡ false = ground arith in rw (e0, e1, fits, some_front) refl

-- Of a name that does not end in a separator, into destinations with room for it, `get_fielpath` writes what
-- stands in front of the last separator, if there is anything, and `get_basename` what stands behind it:
-- the name is the two with the separator between, or is the second alone, and no separator stands in the
-- second.
pub get_fielpath-get_basename :
    (c : ℕ) (rest : List ℕ) (dstlen : ℕ)
    → get_or (c ∷ rest) (length rest) 0 ≢ path_sep
    → length (c ∷ rest) < dstlen
    → (front back : List ℕ) × (get_fielpath true dstlen (some (c ∷ rest))
        ≡ (written front, some (length front)))
      × (get_basename true dstlen (some (c ∷ rest)) ≡ (some (back ++ 0 ∷ []), some (length back)))
      × ((c ∷ rest ≡ front ++ path_sep ∷ back) ⊎ ((front ≡ []) × (c ∷ rest ≡ back)))
      × ((i : ℕ) → i < length back → get_or back i 0 ≢ path_sep)
get_fielpath-get_basename c rest dstlen h room =
    let name : List ℕ = c ∷ rest in
    let n = length name in
    let pos = after_sep name n in
    let (low, seam) = after_sep_lem name n in
    let end =
      no_sep name
        (λ e. h (ap (λ k. get_or name k 0) {x = length rest} {y = n - 1} (omega arith) ∙ e)) in
    let before : before_sep name n ≡ pos - 1 =
      before_sep-after_sep name n ∙ ap (λ k. k - 1) (end_same name) in
    let front_size : length (take (pos - 1) name) ≡ pos - 1 =
      omega (arith, length-take (pos - 1) name, low) in
    let back_size : length (drop pos name) ≡ n - pos = length-drop pos name in
    (
      take (pos - 1) name,
      drop pos name,
      fielpath-returns c rest dstlen n (pos - 1) end before (omega (arith, low))
            (omega (arith, low))
          ∙ ap (λ k. (written (take (pos - 1) name), some k)) (sym front_size),
      basename-returns c rest dstlen n pos end refl low refl room
          ∙ ap (λ k. (some (drop pos name ++ 0 ∷ []), some k)) (sym back_size),
      parts name pos low seam,
      λ i inside e.
          behind_sep name n (pos + i) (omega arith) (omega (arith, inside, back_size, low))
            (sym (get_or-drop pos name i) ∙ e),
    )
  where
    parts :
        (name : List ℕ) (pos : ℕ)
        → pos ≤ length name
        → (pos ≡ 0) ⊎ ((0 < pos) × (get_or name (pos - 1) 0 ≡ path_sep))
        → (name ≡ take (pos - 1) name ++ path_sep ∷ drop pos name)
          ⊎ ((take (pos - 1) name ≡ []) × (name ≡ drop pos name))
    parts name zero low seam = inr (take-zero (0 - 1) name (omega arith), refl)
    parts name (suc k) low (inl e) = absurd (omega arith)
    parts name (suc k) low (inr (some_pos, sep)) =
        let back_one : suc k - 1 ≡ k = omega arith in
        inl (
          cut_at name k (omega arith)
          ∙ ap₂ (λ j x. take j name ++ x ∷ drop (suc k) name) (sym back_one)
              (ap (λ j. get_or name j 0) (sym back_one) ∙ sep))
