-- ===== src/HttpContext/Header.antt =====
-- Finding a header of the request by its name, whatever the case of its letters.
use mathlib.Core.List.{flatten}
use fast_http.Prelude.{
  ℕ, zero, suc, dec_lt, ◌+◌, ◌%◌, ◌≤◌, ◌<◌, ◌≡◌, refl, sym, ap, ◌∙◌, Bool, true, false, ◌&&◌,
  Option, none, some, List, [], ◌∷◌, append-nil, arith, leb, ◌==◌, if◌then◌else◌, length, drop,
  slice, get_or, every_below, every_below_passes, ==_iff, Bool-cases, inl, inr, length-take,
  length-drop, subst,
}
use fast_http.Dynmem.{Dynmem}
use fast_http.Dynmem.Walk.{flat, run}
use fast_http.Dynmem.Sizes.{IsValid}
use fast_http.Dynmem.Sizes.Growth.{length-flat-pages}
use fast_http.Dynmem.Bytes.{foreach-Cut}
use fast_http.Dynmem.Search.Equal.{begins}
use fast_http.HttpContext.{
  HttpValue, HttpHeader, EqualParam, char_ignore_case_map, stricmpx, on_equal_ignore_case,
  equal_ignore_case, get_http_header,
}

-- The letters from A to Z made small, any other byte as it is; what is not a byte counts as 0.
abbrev pub lower : ℕ → ℕ
lower ch = if leb 256 ch then 0 else if leb 65 ch && leb ch 90 then ch + 32 else ch

lower_table : every_below (λ ch. get_or char_ignore_case_map ch 0 == lower ch) 256 ≡ true
unfolding every_below
lower_table = refl

past_table : (xs : List ℕ) (n : ℕ) → length xs ≤ n → get_or xs n 0 ≡ 0
past_table [] n h = refl
past_table (x ∷ xs) zero h = absurd (omega arith)
past_table (x ∷ xs) (suc n) h = past_table xs n (omega arith)

-- The table of the code makes the letters from A to Z small and changes no other byte.
pub char_ignore_case_map-lower : (ch : ℕ) → get_or char_ignore_case_map ch 0 ≡ lower ch
char_ignore_case_map-lower ch = elim (dec_lt ch 256) [
  | yes byte ↦ (==_iff _ _).0 (every_below_passes _ 256 lower_table byte)
  | no beyond ↦
      let test : leb 256 ch ≡ true = ground arith in
      rw test (past_table char_ignore_case_map ch (omega arith))
]

-- A text with small letters only.
abbrev pub folded : List ℕ → List ℕ
folded [] = []
folded (c ∷ cs) = lower c ∷ folded cs

stricmpx-begins :
    (src dst : List ℕ)
    → length src ≤ length dst
    → stricmpx src dst (length src) ≡ some (begins (folded src) (folded dst))
unfolding stricmpx
stricmpx-begins [] dst h = refl
stricmpx-begins (s ∷ src) [] h = absurd (omega arith)
stricmpx-begins (s ∷ src) (d ∷ dst) h =
    let left = char_ignore_case_map-lower s in
    let right = char_ignore_case_map-lower d in
    elim (Bool-cases (lower s == lower d)) [
      | inl e ↦ rw (left, right, e) (stricmpx-begins src dst (omega arith))
      | inr e ↦ rw (left, right, e) refl
    ]

keeps :
    (s s' : EqualParam) (c piece : List ℕ) (ret : ℕ)
    → on_equal_ignore_case s c ≡ some (s', piece, ret)
    → length piece ≡ length c
unfolding on_equal_ignore_case
keeps s s' c piece ret e = ground arith

run-on_equal_ignore_case :
    (c text : List ℕ)
    → 0 < length c
    → length c ≤ length text
    → run on_equal_ignore_case (c ∷ []) (record { text = text; ret = false })
      ≡ some (c, record { text = text; ret = begins (folded c) (folded text) })
unfolding run on_equal_ignore_case flatten
run-on_equal_ignore_case c text some_bytes fits =
    let more : (length c == 0) ≡ false = ground arith in
    elim (Bool-cases (begins (folded c) (folded text))) [
      | inl e ↦ rw (stricmpx-begins c text fits, e, more, append-nil) refl
      | inr e ↦ rw (stricmpx-begins c text fits, e, append-nil) refl
    ]

-- A value that stands in one page is compared with all of a text of its length, and only the case of
-- letters is forgotten.
pub equal_ignore_case_lem :
    {m : Dynmem} (val : HttpValue) (text : List ℕ)
    → IsValid m
    → 0 < length text
    → val.pos + length text ≤ m.cap
    → val.pos % m.page + length text ≤ m.page
    → equal_ignore_case m val text (length text)
      ≡ some (begins (folded (slice val.pos (length text) (flat m.pages))) (folded text))
unfolding equal_ignore_case flatten
equal_ignore_case_lem {m} val text v some_text fits one =
    let cut = foreach-Cut val.pos (length text) v some_text fits in
    let (c, single) = cut.one_page one in
    let piece : c ≡ slice val.pos (length text) (flat m.pages) =
      sym (append-nil c) ∙ ap flatten (sym single) ∙ cut.whole in
    let size : length c ≡ length text =
      ap length piece
      ∙ omega (
        arith,
        length-take (length text) (drop val.pos (flat m.pages)),
        length-drop val.pos (flat m.pages),
        length-flat-pages v,
      ) in
    let visited =
      cut.visits on_equal_ignore_case keeps (record { text = text; ret = false }) _ _
        (ap (λ ps. run on_equal_ignore_case ps (record { text = text; ret = false })) single
          ∙ run-on_equal_ignore_case c text (omega (arith, size)) (omega (arith, size))) in
    rw visited.returns (ap (λ l. some (begins (folded l) (folded text))) piece)

-- The first header of that name in the bytes of the buffer, capital and small letters being the same.
abbrev pub find_header : List HttpHeader → List ℕ → List ℕ → Option HttpValue
find_header [] bytes field = none
find_header (h ∷ hs) bytes field =
    if h.field.len == length field
      && begins (folded (slice h.field.pos (length field) bytes)) (folded field)
    then some h.value
    else find_header hs bytes field

-- Every name stands in one page.
abbrev pub AllInPage : Dynmem → List HttpHeader → Type 0
AllInPage m [] = Unit
AllInPage m (h ∷ hs) =
    ((h.field.pos + h.field.len ≤ m.cap) × (h.field.pos % m.page + h.field.len ≤ m.page))
    × AllInPage m hs

-- `get_http_header` finds the first header whose name in the buffer has the length of the text and its
-- bytes, the letters from A to Z being equal to the small ones, and says so if there is none, where the
-- buffer is well formed, the name is not empty and every name of the request stands in one page.
pub get_http_header_lem :
    {m : Dynmem} (hs : List HttpHeader) (field : List ℕ)
    → IsValid m
    → 0 < length field
    → AllInPage m hs
    → get_http_header hs m field ≡ some (find_header hs (flat m.pages) field)
unfolding get_http_header
get_http_header_lem [] field v some_text placed = refl
get_http_header_lem {m} (h ∷ hs) field v some_text (here, placed) =
    elim (Bool-cases (h.field.len == length field)) [
      | inl same ↦
          let size : h.field.len ≡ length field = (==_iff _ _).0 same in
          let tested =
            equal_ignore_case_lem h.field field v some_text
              (subst (λ n. h.field.pos + n ≤ m.cap) size here.0)
              (subst (λ n. h.field.pos % m.page + n ≤ m.page) size here.1) in
          rw (same, tested)
            (next (begins (folded (slice h.field.pos (length field) (flat m.pages))) (folded field))
              (get_http_header_lem hs field v some_text placed))
      | inr other ↦ rw other (get_http_header_lem hs field v some_text placed)
    ]
  where
    next :
        (found : Bool) {rest : Option (Option HttpValue)} {spec : Option HttpValue}
        → rest ≡ some spec
        → (if found then some (some h.value) else rest)
          ≡ some (if found then some h.value else spec)
    next true e = refl
    next false e = e
