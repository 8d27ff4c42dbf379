-- ===== src/Dynmem/Search.antt =====
-- `dynmem_chr` against `memchr` on the bytes of the range.
pub mod Equal
use mathlib.Core.List.{flatten}
use fast_http.Prelude.{
  ℕ, zero, suc, ◌+◌, ◌-◌, ◌^◌, ◌≤◌, ◌<◌, ◌≡◌, refl, sym, subst, ap, ap₂, ◌∙◌, ◌↔◌, ◌≢◌, Bool, false,
  true, Option, none, some, List, [], ◌∷◌, ◌++◌, append-nil, arith, u32, u32_max, leb, ltb, ◌==◌,
  ◌&&◌, ◌||◌, if◌then◌else◌, ◌>>=◌, length, take, drop, slice, take-all, length-take, length-drop,
  length-append, Bool-cases, inl, inr, Option-cases,
}
use fast_http.Dynmem.{Page, Dynmem, check_len, getpage}
use fast_http.Dynmem.Foreach.{Callback, foreach, memchr, ChrArg, on_find_char, chr}
use fast_http.Dynmem.Walk.{flat, AllNonempty, run}
use fast_http.Dynmem.Sizes.{IsValid, contents}
use fast_http.Dynmem.Sizes.Growth.{length-flat-pages}
use fast_http.Dynmem.Bytes.{Visited, foreach-zero, foreach-Cut}

-- Where a search from `pos` on ends: at the character, or behind the bytes.
abbrev pub find_from : ℕ → ℕ → List ℕ → ℕ
find_from ch pos bytes = elim (memchr ch bytes) [ none ↦ pos + length bytes | some i ↦ pos + i ]

find_from-nil : (ch pos : ℕ) → find_from ch pos [] ≡ pos
unfolding memchr
find_from-nil ch pos = omega arith

pub find_from-none :
    (ch pos : ℕ) (bytes : List ℕ)
    → memchr ch bytes ≡ none
    → find_from ch pos bytes ≡ pos + length bytes
find_from-none ch pos bytes e = ground (arith, e)

pub find_from-some :
    (ch pos i : ℕ) (bytes : List ℕ) → memchr ch bytes ≡ some i → find_from ch pos bytes ≡ pos + i
find_from-some ch pos i bytes e = ground (arith, e)

on_find_char-keeps :
    (s s' : ChrArg) (c piece : List ℕ) (ret : ℕ)
    → on_find_char s c ≡ some (s', piece, ret)
    → length piece ≡ length c
unfolding on_find_char
on_find_char-keeps s s' c piece ret e = ground arith

pub memchr-lt : (ch : ℕ) (bytes : List ℕ) (i : ℕ) → memchr ch bytes ≡ some i → i < length bytes
unfolding memchr
memchr-lt ch [] i e = cc
memchr-lt ch (b ∷ bs) i e = ground (arith, memchr-lt ch bs (i - 1))

memchr-append :
    (ch : ℕ) (xs ys : List ℕ)
    → memchr ch (xs ++ ys) ≡ elim (memchr ch xs) [
      | none ↦ (memchr ch ys >>= λ i. some (length xs + i))
      | some i ↦ some i
    ]
unfolding memchr
memchr-append ch [] ys = elim (Option-cases (memchr ch ys)) [
  | inl e ↦ rw e refl
  | inr (i, e) ↦ rw e (ap some (omega arith))
]
memchr-append ch (x ∷ xs) ys = ground (arith, memchr-append ch xs ys)

on_find_char-none :
    (arg : ChrArg) (c : List ℕ)
    → memchr arg.ch c ≡ none
    → on_find_char arg c ≡ some (record arg { pos = u32 (arg.pos + length c) }, c, length c)
unfolding on_find_char
on_find_char-none arg c e = ground (arith, e)

on_find_char-some :
    (arg : ChrArg) (c : List ℕ) (i : ℕ)
    → memchr arg.ch c ≡ some i
    → on_find_char arg c ≡ some (record arg { pos = u32 (arg.pos + i) }, c, 0)
unfolding on_find_char
on_find_char-some arg c i e = ground (arith, e)

run-on_find_char :
    (cs : List (List ℕ)) (arg : ChrArg)
    → AllNonempty cs
    → arg.pos + length (flatten cs) < 2 ^ 32
    → run on_find_char cs arg
      ≡ some (flatten cs, record arg { pos = find_from arg.ch arg.pos (flatten cs) })
unfolding run flatten
run-on_find_char [] arg ne h =
    ap (λ p. some ([], record arg { pos = p })) (sym (find_from-nil arg.ch arg.pos))
run-on_find_char (c ∷ cs) arg ne h = elim (Option-cases (memchr arg.ch c)) [
  | inl missing ↦
      let total = length-append c (flatten cs) in
      let moved : u32 (arg.pos + length c) ≡ arg.pos + length c = omega (arith, total) in
      let more : (length c == 0) ≡ false = ground (arith, ne.0) in
      rw
        (
          on_find_char-none arg c missing,
          moved,
          more,
          run-on_find_char cs (record arg { pos = arg.pos + length c }) ne.1 (omega (arith, total)),
        )
        (ap (λ p. some (c ++ flatten cs, record arg { pos = p })) (next missing total))
  | inr (i, there) ↦
      let stop : u32 (arg.pos + i) ≡ arg.pos + i =
        omega (arith, memchr-lt arg.ch c i there, length-append c (flatten cs)) in
      rw (on_find_char-some arg c i there, stop)
        (ap (λ p. some (c ++ flatten cs, record arg { pos = p })) (sym (found i there)))
]
  where
    found :
        (i : ℕ)
        → memchr arg.ch c ≡ some i
        → find_from arg.ch arg.pos (c ++ flatten cs) ≡ arg.pos + i
    found i e =
        find_from-some arg.ch arg.pos i (c ++ flatten cs)
          (memchr-append arg.ch c (flatten cs) ∙ rw e refl)

    next :
        memchr arg.ch c ≡ none
        → length (c ++ flatten cs) ≡ length c + length (flatten cs)
        → find_from arg.ch (arg.pos + length c) (flatten cs)
          ≡ find_from arg.ch arg.pos (c ++ flatten cs)
    next e total = elim (Option-cases (memchr arg.ch (flatten cs))) [
      | inl q ↦
          find_from-none arg.ch (arg.pos + length c) (flatten cs) q
          ∙ (omega (arith, total)
              ∙ sym (
                  find_from-none arg.ch arg.pos (c ++ flatten cs)
                    (memchr-append arg.ch c (flatten cs) ∙ rw (e, q) refl)))
      | inr (i, q) ↦
          find_from-some arg.ch (arg.pos + length c) i (flatten cs) q
          ∙ (omega arith
              ∙ sym (
                  find_from-some arg.ch arg.pos (length c + i) (c ++ flatten cs)
                    (memchr-append arg.ch c (flatten cs) ∙ rw (e, q) refl)))
    ]

foreach-find_char :
    {m : Dynmem} (off len ch : ℕ)
    → IsValid m
    → off + len ≤ m.cap
    → (m' : Dynmem) × (foreach on_find_char m off len (record { ch = ch; pos = off })
        ≡ some (len, m', record { ch = ch; pos = find_from ch off (slice off len (flat m.pages)) }))
foreach-find_char {m} off zero ch v fits = (
  m,
  foreach-zero on_find_char m off _ fits v.cap_small
      ∙ ap (λ p. some (0, m, record { ch = ch; pos = p })) (sym (find_from-nil ch off)),
)
foreach-find_char {m} off (suc len) ch v fits =
    let cut = foreach-Cut off (suc len) v (omega arith) fits in
    let total : length (flatten cut.parts) ≤ suc len =
      subst (λ l. length l ≤ suc len) (sym cut.whole)
        (omega (arith, length-take (suc len) (drop off (flat m.pages)))) in
    let visited =
      cut.visits on_find_char on_find_char-keeps (record { ch = ch; pos = off }) _ _
        (run-on_find_char cut.parts (record { ch = ch; pos = off }) cut.nonempty
          (omega (arith, total, fits, v.cap_small))) in
    (
      record m { pages = visited.out },
      visited.returns
          ∙ ap
              (λ l. some (
                suc len,
                record m { pages = visited.out },
                record { ch = ch; pos = find_from ch off l },
              ))
              cut.whole,
    )

check_len-clip :
    (cap off len : ℕ)
    → off ≤ cap
    → cap < off + len
    → off + len < 2 ^ 32
    → check_len cap off len ≡ check_len cap off (cap - off)
unfolding check_len
check_len-clip cap off len h past fits = ground arith

chr-returns :
    (m m' : Dynmem) (off len n ch p : ℕ)
    → off < m.len
    → foreach on_find_char m off len (record { ch = ch; pos = off })
      ≡ some (n, m', record { ch = ch; pos = p })
    → chr m off len ch ≡ some (if ltb p (u32 (off + len)) then p else u32_max)
unfolding chr
chr-returns m m' off len n ch p inside e = rw e (ground arith)

-- A range that goes past the capacity is walked up to it.
foreach-clip :
    {S : Type 0} (callback : Callback S) (m : Dynmem) (off len : ℕ) (s : S)
    → off ≤ m.cap
    → m.cap < off + len
    → off + len < 2 ^ 32
    → foreach callback m off len s ≡ foreach callback m off (m.cap - off) s
unfolding foreach
foreach-clip callback m off len s h past fits = rw (check_len-clip m.cap off len h past fits) refl

-- In a well-formed buffer, `dynmem_chr` on a range that begins below the length and ends within the
-- capacity finds the first place of the character in it, and
-- returns -1 exactly where it is not there.
pub chr_lem :
    {m : Dynmem} (off len ch : ℕ)
    → IsValid m
    → off < m.len
    → off + len ≤ m.cap
    → chr m off len ch
      ≡ some (elim (memchr ch (slice off len (flat m.pages))) [ none ↦ u32_max | some i ↦ off + i ])
chr_lem {m} off len ch v inside fits =
    let (m', e) = foreach-find_char off len ch v fits in
    chr-returns m m' off len len ch (find_from ch off bytes) inside e
    ∙ elim (Option-cases (memchr ch bytes)) [
      | inl missing ↦ rw missing (ground (arith, find_from-none ch off bytes missing, in_range))
      | inr (i, there) ↦ rw there (
          ground (
            arith,
            find_from-some ch off i bytes there,
            memchr-lt ch bytes i there,
            in_range,
            v.cap_small,
          ))
    ]
  where
    bytes : List ℕ
    bytes = slice off len (flat m.pages)

    in_range : length bytes ≡ len
    in_range = omega (
      arith,
      length-take len (drop off (flat m.pages)),
      length-drop off (flat m.pages),
      length-flat-pages v,
      v.len_in,
    )

-- In a well-formed buffer, where the range begins below the length and goes past the capacity, fits a
-- `uint32_t`, and the character is not in the rest of the pages, `dynmem_chr` returns the capacity, not -1.
pub chr_past_capacity :
    {m : Dynmem} (off len ch : ℕ)
    → IsValid m
    → off < m.len
    → m.cap < off + len
    → off + len < 2 ^ 32
    → memchr ch (drop off (flat m.pages)) ≡ none
    → chr m off len ch ≡ some m.cap
chr_past_capacity {m} off len ch v inside past fits missing =
    let rest : ℕ = m.cap - off in
    let (m', e) = foreach-find_char off rest ch v (omega (arith, v.len_in)) in
    let all_of_it : slice off rest (flat m.pages) ≡ drop off (flat m.pages) =
      take-all rest (drop off (flat m.pages))
        (omega (arith, length-drop off (flat m.pages), length-flat-pages v)) in
    let ends : find_from ch off (slice off rest (flat m.pages)) ≡ m.cap =
      find_from-none ch off _ (ap (memchr ch) all_of_it ∙ missing)
      ∙ omega (
        arith,
        ap length all_of_it,
        length-drop off (flat m.pages),
        length-flat-pages v,
        v.len_in,
      ) in
    chr-returns m m' off len rest ch m.cap inside (
      foreach-clip on_find_char m off len _ (omega (arith, v.len_in)) past fits
      ∙ (e ∙ ap (λ p. some (rest, m', record { ch = ch; pos = p })) ends))
    ∙ ground (arith, fits, past)
