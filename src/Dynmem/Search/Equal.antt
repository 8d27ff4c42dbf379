-- ===== src/Dynmem/Search/Equal.antt =====
-- `dynmem_equal` against an equation on the bytes of the range.
use mathlib.Core.List.{flatten}
use fast_http.Prelude.{
  ℕ, zero, suc, ◌+◌, ◌^◌, ◌≤◌, ◌<◌, ◌≡◌, refl, sym, subst, ap, ◌∙◌, ◌↔◌, Bool, false, true, Option,
  none, some, List, [], ◌∷◌, ◌++◌, arith, u32, leb, ltb, ◌==◌, ◌&&◌, ◌||◌, if◌then◌else◌, length,
  take, drop, slice, drop-drop, length-take, length-drop, length-append, Bool-cases, inl, inr, ◌⊎◌,
  dec_lt, dec_le,
}
use fast_http.Dynmem.{Dynmem}
use fast_http.Dynmem.Foreach.{foreach, memcmp_eq, on_equal, equal}
use fast_http.Dynmem.Walk.{flat, AllNonempty, run}
use fast_http.Dynmem.Sizes.{IsValid, contents}
use fast_http.Dynmem.Sizes.Growth.{length-flat-pages}
use fast_http.Dynmem.Bytes.{foreach-zero, foreach-Cut}
use fast_http.Dynmem.Bytes.Read.{slice-contents}

-- The text begins with the bytes.
abbrev pub begins : List ℕ → List ℕ → Bool
begins [] text = true
begins (b ∷ bs) [] = false
begins (b ∷ bs) (t ∷ text) = b == t && begins bs text

pub begins_iff :
    (bytes text : List ℕ) → (begins bytes text ≡ true) ↔ (bytes ≡ take (length bytes) text)
begins_iff [] text = (λ _. refl, λ _. refl)
begins_iff (b ∷ bs) [] = (λ e. cc, λ e. cc)
begins_iff (b ∷ bs) (t ∷ text) = ground (arith, begins_iff bs text)

begins-append :
    (xs ys text : List ℕ)
    → begins (xs ++ ys) text ≡ (begins xs text && begins ys (drop (length xs) text))
begins-append [] ys text = refl
begins-append (x ∷ xs) ys [] = refl
begins-append (x ∷ xs) ys (t ∷ text) = ground (arith, begins-append xs ys text)

memcmp_eq-begins :
    (bytes text : List ℕ)
    → length bytes ≤ length text
    → memcmp_eq bytes text ≡ some (begins bytes text)
unfolding memcmp_eq
memcmp_eq-begins [] text h = refl
memcmp_eq-begins (b ∷ bs) [] h = absurd (omega arith)
memcmp_eq-begins (b ∷ bs) (t ∷ text) h = ground (arith, memcmp_eq-begins bs text (omega arith))

on_equal-keeps :
    (s s' : Option (List ℕ)) (c piece : List ℕ) (ret : ℕ)
    → on_equal s c ≡ some (s', piece, ret)
    → length piece ≡ length c
unfolding on_equal
on_equal-keeps none s' c piece ret e = cc
on_equal-keeps (some text) s' c piece ret e = ground arith

-- The argument at the end: the rest of the text, or NULL after a difference.
abbrev verdict : List ℕ → List ℕ → Option (List ℕ)
verdict bytes text = if begins bytes text then some (drop (length bytes) text) else none

run-on_equal :
    (cs : List (List ℕ)) (text : List ℕ)
    → AllNonempty cs
    → length (flatten cs) ≤ length text
    → run on_equal cs (some text) ≡ some (flatten cs, verdict (flatten cs) text)
unfolding run on_equal flatten
run-on_equal [] text ne h = refl
run-on_equal (c ∷ cs) text ne h = elim (Bool-cases (begins c text)) [
  | inl same ↦
      let total = length-append c (flatten cs) in
      let more : (length c == 0) ≡ false = ground (arith, ne.0) in
      rw
        (
          memcmp_eq-begins c text (omega (arith, total)),
          same,
          more,
          run-on_equal cs (drop (length c) text) ne.1
              (omega (arith, total, length-drop (length c) text)),
          begins-append c (flatten cs) text,
          same,
          drop-drop (length (flatten cs)) (length c) (length (c ++ flatten cs)) text
              (omega (arith, total)),
        )
        refl
  | inr differs ↦
      rw
        (
          memcmp_eq-begins c text (omega (arith, length-append c (flatten cs))),
          differs,
          begins-append c (flatten cs) text,
          differs,
        )
        refl
]

foreach-equal :
    {m : Dynmem} (off len : ℕ) (text : List ℕ)
    → IsValid m
    → off + len ≤ m.cap
    → len ≤ length text
    → (m' : Dynmem) × (foreach on_equal m off len (some text)
        ≡ some (len, m', verdict (slice off len (flat m.pages)) text))
foreach-equal {m} off zero text v fits enough =
    (m, foreach-zero on_equal m off (some text) fits v.cap_small)
foreach-equal {m} off (suc len) text v fits enough =
    let cut = foreach-Cut off (suc len) v (omega arith) fits in
    let total : length (flatten cut.parts) ≤ suc len =
      subst (λ l. length l ≤ suc len) (sym cut.whole)
        (omega (arith, length-take (suc len) (drop off (flat m.pages)))) in
    let visited =
      cut.visits on_equal on_equal-keeps (some text) _ _
        (run-on_equal cut.parts text cut.nonempty (omega (arith, total, enough))) in
    (
      record m { pages = visited.out },
      visited.returns
          ∙ ap (λ l. some (suc len, record m { pages = visited.out }, verdict l text)) cut.whole,
    )

equal-inside :
    {m : Dynmem} (off len : ℕ) (text : List ℕ)
    → IsValid m
    → off < m.len
    → off + len ≤ m.len
    → len ≤ length text
    → equal m off len text ≡ some (begins (slice off len (contents m)) text)
unfolding equal
equal-inside {m} off len text v inside fits enough =
    let (m', e) = foreach-equal off len text v (omega (arith, v.len_in)) enough in
    let same : slice off len (contents m) ≡ slice off len (flat m.pages) =
      slice-contents off len v ∙ ap (λ n. slice off n (flat m.pages)) (omega arith) in
    let tests : (leb m.len off || ltb m.len (u32 (off + len))) ≡ false =
      ground (arith, v.len_in, v.cap_small) in
    rw (tests, e, same)
      (elim (Bool-cases (begins (slice off len (flat m.pages)) text)) [
        | inl yes_it_is ↦ rw yes_it_is refl
        | inr it_is_not ↦ rw it_is_not refl
      ])

equal-outside :
    (m : Dynmem) (off len : ℕ) (text : List ℕ)
    → (m.len ≤ off) ⊎ (m.len < off + len)
    → off + len < 2 ^ 32
    → equal m off len text ≡ some false
unfolding equal
equal-outside m off len text outside fits = ground arith

-- In a well-formed buffer, `dynmem_equal` with a text of at least that length returns, for every range that fits a
-- `uint32_t`, and says true exactly where the range begins below the length, ends within it and
-- holds the first bytes of the text.
pub equal_lem :
    {m : Dynmem} (off len : ℕ) (text : List ℕ)
    → IsValid m
    → off + len < 2 ^ 32
    → len ≤ length text
    → (answer : Bool) × (equal m off len text ≡ some answer)
      × ((answer ≡ true)
          ↔ ((off < m.len) × (off + len ≤ m.len) × (slice off len (contents m) ≡ take len text)))
equal_lem {m} off len text v fits enough = elim (dec_lt off m.len) [
  | no far ↦ (
    false,
    equal-outside m off len text (inl (omega arith)) fits,
    (λ e. cc, λ e. absurd (far e.0)),
  )
  | yes near ↦ elim (dec_le (off + len) m.len) [
    | no far ↦ (
      false,
      equal-outside m off len text (inr (omega arith)) fits,
      (λ e. cc, λ e. absurd (far e.1)),
    )
    | yes inside ↦
        let bytes = slice off len (contents m) in
        let whole : length bytes ≡ len = omega (
          arith,
          length-take len (drop off (contents m)),
          length-drop off (contents m),
          length-take m.len (flat m.pages),
          length-flat-pages v,
          v.len_in,
        ) in
        (
          begins bytes text,
          equal-inside off len text v near inside enough,
          (
            λ e. (near, inside, (begins_iff bytes text).0 e ∙ ap (λ n. take n text) whole),
            λ e. (begins_iff bytes text).1 (e.2 ∙ ap (λ n. take n text) (sym whole)),
          ),
        )
  ]
]
