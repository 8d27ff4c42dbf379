-- ===== src/HttpServer/Answer/Piece.antt =====
-- What a `uv_buf_t` of httpserver.c that points into the buffer stands for.
use native.Mathlib.Nat.{div-add-mod, mul-mod_left, mul-le-mul_right, div-lt_iff_lt-mul}
use fast_http.Prelude.{
  ℕ, ◌+◌, ◌*◌, ◌/◌, ◌%◌, ◌≤◌, ◌<◌, ◌≡◌, refl, sym, ap, ◌∙◌, true, false, Option, none, some, List,
  [], ◌∷◌, ◌++◌, arith, leb, ◌>>=◌, ◌>>◌, require, length, take, drop, slice, length-drop, take-add,
  drop-drop, take-append_le, drop-append_le, drop-append_ge,
}
use fast_http.Dynmem.{Dynmem, Pointer, null, place, get, in_page, surplus}
use fast_http.Dynmem.Walk.{flat, length-flat, flat-append, getpage-Split, Split}
use fast_http.Dynmem.Sizes.{IsValid, page_bounds, in_page-eq-mod, surplus_lem}
use fast_http.HttpServer.Answer.{UvBuf}

-- What `uv_write` reads through a piece; behind the end of the page it is a fault.
unfoldable pub piece_bytes : UvBuf → Option (List ℕ)
piece_bytes b = elim b.base [
  | null ↦ none
  | place n i ↦ require (leb (i + b.len) (length n.bytes)) >> some (slice i b.len n.bytes)
]

-- The bytes of all the pieces.
unfoldable pub sent_bytes : List UvBuf → Option (List ℕ)
unfolding piece_bytes
sent_bytes [] = some []
sent_bytes (b ∷ bufs) = piece_bytes b >>= λ first. sent_bytes bufs >>= λ rest. some (first ++ rest)

abbrev pub sum_len : List UvBuf → ℕ
sum_len [] = 0
sum_len (b ∷ bufs) = b.len + sum_len bufs

pub slice-add :
    {A : Type 0} (off a b : ℕ) (xs : List A)
    → slice off a xs ++ slice (off + a) b xs ≡ slice off (a + b) xs
slice-add off a b xs =
    ap (λ l. slice off a xs ++ take b l) (sym (drop-drop a off (off + a) xs (omega arith)))
    ∙ sym (take-add a b (a + b) (drop off xs) refl)

-- A range inside of a page is that range of the page.
slice-node :
    (m : Dynmem) (off n : ℕ)
    → (s : Split m.page off m.pages) → off % m.page + n ≤ m.page
    → slice (off % m.page) n s.node.bytes ≡ slice off n (flat m.pages)
slice-node m off n s fits =
    let size = length-flat m.page s.before s.sized_before in
    sym (
      ap (slice off n) (ap flat s.whole ∙ flat-append s.before (s.node ∷ s.behind))
      ∙ ap (take n) (
          drop-append_ge off (off % m.page) (flat s.before) (s.node.bytes ++ flat s.behind)
            (omega (arith, s.at_offset, size))
          ∙ drop-append_le (off % m.page) s.node.bytes (flat s.behind)
              (omega (arith, s.sized_behind.0)))
      ∙ take-append_le n (drop (off % m.page) s.node.bytes) (flat s.behind)
          (omega (arith, length-drop (off % m.page) s.node.bytes, s.sized_behind.0)))

-- The piece at an offset.
pub piece_at :
    {m : Dynmem} (off n : ℕ)
    → IsValid m
    → off < m.cap
    → off % m.page + n ≤ m.page
    → (p : Pointer) × (get m off ≡ some p)
      × (piece_bytes (record { base = p; len = n }) ≡ some (slice off n (flat m.pages)))
unfolding get piece_bytes
piece_at {m} off n v inside fits =
    let s =
      getpage-Split m.page off m.pages (page_bounds v).0 v.sized (omega (arith, v.cap_pages)) in
    let near : leb m.cap off ≡ false = ground arith in
    let at : in_page m off ≡ off % m.page = in_page-eq-mod off v in
    let whole : leb (in_page m off + n) (length s.node.bytes) ≡ true =
      ground (arith, at, s.sized_behind.0) in
    (
      place s.node (in_page m off),
      rw (near, s.found) refl,
      rw whole (ap some (ap (λ i. slice i n s.node.bytes) at ∙ slice-node m off n s fits)),
    )

pub next_page : (p off s : ℕ) → 0 < p → s + off % p ≡ p → (off + s) % p ≡ 0
next_page p off s pos h =
    ap (λ (x : ℕ). x % p) {x = off + s} {y = (off / p + 1) * p} (omega (arith, div-add-mod off p))
    ∙ mul-mod_left (off / p + 1) p

-- The page of an offset lies in the buffer.
pub page_end :
    {m : Dynmem} (offset : ℕ) → IsValid m → offset < m.cap → offset + surplus m offset ≤ m.cap
page_end {m} offset v inside =
    let below : offset / m.page < length m.pages =
      (div-lt_iff_lt-mul (page_bounds v).0).1 (omega (arith, v.cap_pages)) in
    let count : offset / m.page + 1 ≤ length m.pages = omega arith in
    omega (
      arith,
      surplus_lem offset v,
      div-add-mod offset m.page,
      mul-le-mul_right m.page count,
      v.cap_pages,
    )
