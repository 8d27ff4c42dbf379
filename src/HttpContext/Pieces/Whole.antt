-- ===== src/HttpContext/Pieces/Whole.antt =====
-- A header that the parser hands over to `on_header_field` and `on_header_value` of httpctx.c in pieces
-- of the first page, where `dynmem_offset` gives the place in the buffer.
use fast_http.Prelude.{
  ℕ, ◌+◌, ◌-◌, ◌%◌, ◌^◌, ◌≤◌, ◌<◌, ◌≡◌, ◌≢◌, refl, sym, ap, ap₂, ◌∙◌, true, ◌&&◌, some, List, [],
  ◌∷◌, ◌++◌, arith, u32, leb, ltb, ◌>>=◌, length, take, drop, slice, drop-drop, take-add,
  take-append_le, drop-append_le, length-drop, take-zero, subst,
}
use fast_http.Dynmem.{Page, Dynmem, offset_in, offset}
use fast_http.Dynmem.Walk.{flat, Sized}
use fast_http.Dynmem.Sizes.{IsValid, page_bounds}
use fast_http.HttpContext.{HttpValue, HttpHeader, p_head_field, p_head_value, Request}
use fast_http.HttpContext.Callbacks.{on_header_field, on_header_value}
use fast_http.HttpContext.Pieces.{total, feed_some, stored, header-pieces}

-- Each piece begins where the one before it ends.
abbrev pub Adjacent : ℕ → List (ℕ × ℕ) → Type 0
Adjacent next [] = Unit
Adjacent next ((at, size) ∷ ps) = (at ≡ next) × Adjacent (at + size) ps

-- The bytes of the pieces, which stand in a page at its address.
abbrev pub delivered : Page → List (ℕ × ℕ) → List ℕ
delivered n [] = []
delivered n ((at, size) ∷ ps) = slice (at - n.addr) size n.bytes ++ delivered n ps

-- Adjacent pieces that begin in the page and end in it.
pub record InPage (page : ℕ) (n : Page) (at size : ℕ) (ps : List (ℕ × ℕ)) : Type 0 where
  pub begins_in : n.addr ≤ at
  pub not_behind : at < n.addr + page
  pub ends_in : at + size + total ps ≤ n.addr + page
  pub adjacent : Adjacent (at + size) ps

-- Adjacent pieces are one range of the page.
delivered-Adjacent :
    (n : Page) (at size : ℕ) (ps : List (ℕ × ℕ))
    → n.addr ≤ at
    → Adjacent (at + size) ps
    → delivered n ((at, size) ∷ ps) ≡ slice (at - n.addr) (size + total ps) n.bytes
delivered-Adjacent n at size [] low h = sym (
    take-add size 0 (size + 0) (drop (at - n.addr) n.bytes) refl
    ∙ ap (λ l. take size (drop (at - n.addr) n.bytes) ++ l)
        (take-zero 0 (drop size (drop (at - n.addr) n.bytes)) refl))
delivered-Adjacent n at size ((next, more) ∷ ps) low (same, h) =
    ap (λ l. slice (at - n.addr) size n.bytes ++ l)
      (delivered-Adjacent n next more ps (omega (arith, same)) h
        ∙ ap (take (more + total ps))
            (sym (drop-drop size (at - n.addr) (next - n.addr) n.bytes (omega (arith, same)))))
    ∙ sym (
        take-add size (more + total ps) (size + (more + total ps)) (drop (at - n.addr) n.bytes)
          refl)

-- In the first page `dynmem_offset` gives the place in the buffer.
offset-first :
    (m : Dynmem) (n : Page) (ns : List Page) (at : ℕ)
    → m.pages ≡ n ∷ ns
    → m.page < 2 ^ 32
    → m.page ≤ n.addr
    → n.addr + m.page ≤ 2 ^ 64
    → n.addr ≤ at
    → at < n.addr + m.page
    → offset m at ≡ at - n.addr
unfolding offset offset_in
offset-first m n ns at first small high low begins_in not_behind =
    let inside : (leb n.addr at && ltb ((at + 2 ^ 64 - m.page) % 2 ^ 64) n.addr) ≡ true =
      ground arith in
    rw (first, inside) (omega arith)

-- A value that is stored for pieces of the first page names their bytes.
stored-delivered :
    (m : Dynmem) (n : Page) (ns : List Page) (at size : ℕ) (ps : List (ℕ × ℕ))
    → m.pages ≡ n ∷ ns
    → length n.bytes ≡ m.page
    → m.page < 2 ^ 32
    → m.page ≤ n.addr
    → n.addr + m.page ≤ 2 ^ 64
    → InPage m.page n at size ps
    → (v : HttpValue) × (stored m at (size + total ps) ≡ v)
      × (slice v.pos v.len (flat m.pages) ≡ delivered n ((at, size) ∷ ps))
stored-delivered m n ns at size ps first sized small high low h =
    let pos = offset-first m n ns at first small high low h.begins_in h.not_behind in
    let len : u32 (size + total ps) ≡ size + total ps = omega (arith, h.ends_in, h.begins_in) in
    let k = at - n.addr in
    let inside : k + (size + total ps) ≤ length n.bytes =
      omega (arith, h.ends_in, h.begins_in, sized) in
    (
      record { pos = k; len = size + total ps },
      ap₂ (λ (p l : ℕ). record { pos = p; len = l }) pos len,
      ap (λ ns'. slice k (size + total ps) (flat ns')) first
          ∙ (ap (take (size + total ps))
                (drop-append_le k n.bytes (flat ns) (omega (arith, inside)))
              ∙ (take-append_le (size + total ps) (drop k n.bytes) (flat ns)
                    (omega (arith, inside, length-drop k n.bytes))
                  ∙ sym (delivered-Adjacent n at size ps h.begins_in h.adjacent))),
    )

-- If name and value of a header each come in adjacent pieces that lie in the first page of a well-formed
-- buffer, which stands below 2 ^ 64 and not in the lowest page of memory, and the parser is not inside a
-- name, then the calls of `on_header_field` for the pieces of the name and of `on_header_value` for those
-- of the value return, one header stands behind the others, the bytes of the buffer that its name and
-- its value stand for are all those of the pieces, and nothing else of the request but the state has
-- changed, whatever the memory of the pool held before.
pub on_header_value-on_header_field :
    (blank : HttpHeader) (req : Request) (n : Page) (ns : List Page) (at size : ℕ)
    (ps : List (ℕ × ℕ)) (at' size' : ℕ) (ps' : List (ℕ × ℕ))
    → IsValid req.buffer
    → req.buffer.pages ≡ n ∷ ns
    → req.buffer.page ≤ n.addr
    → n.addr + req.buffer.page ≤ 2 ^ 64
    → InPage req.buffer.page n at size ps
    → InPage req.buffer.page n at' size' ps'
    → req.parser_state ≢ p_head_field
    → (h : HttpHeader) × ((feed_some (on_header_field blank) req ((at, size) ∷ ps) >>= λ r.
          feed_some on_header_value r ((at', size') ∷ ps'))
        ≡ some (record req { parser_state = p_head_value; headers = req.headers ++ h ∷ [] }))
      × (slice h.field.pos h.field.len (flat req.buffer.pages) ≡ delivered n ((at, size) ∷ ps))
      × (slice h.value.pos h.value.len (flat req.buffer.pages) ≡ delivered n ((at', size') ∷ ps'))
on_header_value-on_header_field blank req n ns at size ps at' size' ps' v first high low name value
      outside =
    let sized : length n.bytes ≡ req.buffer.page =
      (subst (λ l. Sized req.buffer.page l) first v.sized).0 in
    let small : req.buffer.page < 2 ^ 32 = omega (arith, (page_bounds v).1) in
    let (f, f_at, f_bytes) =
      stored-delivered req.buffer n ns at size ps first sized small high low name in
    let (w, w_at, w_bytes) =
      stored-delivered req.buffer n ns at' size' ps' first sized small high low value in
    (
      record { field = f; value = w },
      header-pieces blank req at size ps at' size' ps' outside
          ∙ ap₂
              (λ (a b : HttpValue). some (record req {
                parser_state = p_head_value;
                headers = req.headers ++ record { field = a; value = b } ∷ [];
              }))
              f_at w_at,
      f_bytes,
      w_bytes,
    )
