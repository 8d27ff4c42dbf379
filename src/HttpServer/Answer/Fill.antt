-- ===== src/HttpServer/Answer/Fill.antt =====
-- The pieces that `fill_uv_buf_ts` of httpserver.c makes of a range of the buffer.
use fast_http.Prelude.{
  ℕ, zero, suc, ◌+◌, ◌-◌, ◌*◌, ◌%◌, ◌≤◌, ◌<◌, ◌≡◌, refl, sym, ap, ◌∙◌, true, Option, some, List, [],
  ◌∷◌, arith, u32, ltb, if◌then◌else◌, length, drop, slice, dec_lt, take-zero,
}
use fast_http.Dynmem.{Dynmem, Pointer, get, surplus}
use fast_http.Dynmem.Walk.{flat}
use fast_http.Dynmem.Sizes.{IsValid, page_bounds, surplus_lem}
use fast_http.HttpServer.Answer.{UvBuf, fill_loop, fill_uv_buf_ts}
use fast_http.HttpServer.Answer.Piece.{
  sent_bytes, sum_len, slice-add, piece_at, next_page, page_end,
}

-- What the loop makes from `offset` on.
record Filled (m : Dynmem) (omax offset len : ℕ) (result : Option (List UvBuf)) : Type 0 where
  bufs : List UvBuf
  returns : result ≡ some bufs
  bytes : sent_bytes bufs ≡ some (slice offset (sum_len bufs) (flat m.pages))
  covers : omax ≤ offset + sum_len bufs
  done : omax ≤ offset → bufs ≡ []
  enough : offset < omax → omax - offset + offset % m.page ≤ length bufs * m.page
  least : offset < omax → length bufs * m.page < omax - offset + offset % m.page + m.page
  one : offset < omax → offset % m.page + len ≤ m.page → sum_len bufs ≡ len
  whole : offset < omax → m.page ≤ len → sum_len bufs + offset % m.page ≡ length bufs * m.page

fill-done :
    {m : Dynmem} (fuel omax offset len : ℕ)
    → omax ≤ offset
    → Filled m omax offset len (fill_loop (suc fuel) m omax offset len)
unfolding fill_loop sent_bytes
fill-done {m} fuel omax offset len past = record {
  bufs = [];
  returns = ground arith;
  bytes = ap some (sym (take-zero 0 (drop offset (flat m.pages)) refl));
  covers = omega arith;
  done = λ _. refl;
  enough = λ h. absurd (omega arith);
  least = λ h. absurd (omega arith);
  one = λ h _. absurd (omega arith);
  whole = λ h _. absurd (omega arith);
}

loop-returns :
    (m : Dynmem) (fuel omax offset len next : ℕ) (n : ℕ) (p : Pointer) (bufs : List UvBuf)
    → ltb offset omax ≡ true
    → (if ltb (surplus m offset) len then surplus m offset else len) ≡ n
    → u32 (offset + n) ≡ next
    → get m offset ≡ some p
    → fill_loop fuel m omax next len ≡ some bufs
    → fill_loop (suc fuel) m omax offset len ≡ some (record { base = p; len = n } ∷ bufs)
unfolding fill_loop
loop-returns m fuel omax offset len next n p bufs e0 e1 e2 e3 e4 = rw (e0, e1, e2, e3, e4) refl

-- One more piece of `n` bytes in front of the others, `s` bytes before the end of a page of `p`, `o`
-- bytes behind its start; `k` pieces with `total` bytes follow.
module _ (omax offset len n s o p o' k total : ℕ) (more : offset < omax) (split : s + o ≡ p)
    (cut : (if ltb s len then s else len) ≡ n) (reach : omax ≤ offset + len) (room : 0 < s)
    (last : omax ≤ offset + n → (k ≡ 0) × (total ≡ 0))
    (next : offset + n < omax → n ≡ s → o' ≡ 0) where
  enough_pieces :
      (offset + n < omax → omax - (offset + n) + o' ≤ k * p) → omax - offset + o ≤ (k + 1) * p
  enough_pieces rest = elim (dec_lt (offset + n) omax) [
    | yes on ↦ ground (arith, rest on, next on)
    | no off ↦ rw ((last (omega arith)).0) (ground arith)
  ]

  least_pieces :
      (offset + n < omax → k * p < omax - (offset + n) + o' + p)
      → (k + 1) * p < omax - offset + o + p
  least_pieces rest = elim (dec_lt (offset + n) omax) [
    | yes on ↦ ground (arith, rest on, next on)
    | no off ↦ rw ((last (omega arith)).0) (ground arith)
  ]

  one_piece : o + len ≤ p → n + total ≡ len
  one_piece fits = ground (arith, last)

  whole_pieces : (offset + n < omax → total + o' ≡ k * p) → p ≤ len → n + total + o ≡ (k + 1) * p
  whole_pieces rest large = elim (dec_lt (offset + n) omax) [
    | yes on ↦ ground (arith, rest on, next on)
    | no off ↦ rw ((last (omega arith)).0) (ground (arith, (last (omega arith)).1))
  ]

-- One more piece in front.
Filled-piece :
    {m : Dynmem} (fuel omax offset len n : ℕ)
    → IsValid m
    → offset < omax
    → omax ≤ m.cap
    → omax ≤ offset + len
    → 0 < len
    → (if ltb (surplus m offset) len then surplus m offset else len) ≡ n
    → Filled m omax (offset + n) len (fill_loop fuel m omax (offset + n) len)
    → Filled m omax offset len (fill_loop (suc fuel) m omax offset len)
unfolding sent_bytes
Filled-piece {m} fuel omax offset len n v more inside reach some_len cut r =
    let room = surplus_lem offset v in
    let small : n ≤ surplus m offset = ground arith in
    let wrap : u32 (offset + n) ≡ offset + n =
      omega (arith, page_end offset v (omega arith), small, v.cap_small) in
    let last = λ (h : omax ≤ offset + n). none_left r.bufs (r.done h) in
    let next = λ (_ : offset + n < omax) (e : n ≡ surplus m offset).
      next_page m.page offset n (page_bounds v).0 (omega (arith, room, e)) in
    let count = suc-eq (length r.bufs) m.page in
    let (p, at, bytes) = piece_at offset n v (omega arith) (omega (arith, room, small)) in
    record {
      bufs = record { base = p; len = n } ∷ r.bufs;
      returns =
          loop-returns m fuel omax offset len (offset + n) n p r.bufs (ground arith) cut wrap at
            r.returns;
      bytes = rw (bytes, r.bytes) (ap some (slice-add offset n (sum_len r.bufs) (flat m.pages)));
      covers = omega (arith, r.covers);
      done = λ h. absurd (omega arith);
      enough = λ h. omega (
        arith,
        count,
        enough_pieces omax offset len n (surplus m offset) (offset % m.page) m.page
            ((offset + n) % m.page) (length r.bufs) (sum_len r.bufs) more room.0 cut reach room.1
            last next r.enough,
      );
      least = λ h. omega (
        arith,
        count,
        least_pieces omax offset len n (surplus m offset) (offset % m.page) m.page
            ((offset + n) % m.page) (length r.bufs) (sum_len r.bufs) more room.0 cut reach room.1
            last next r.least,
      );
      one = λ _.
          one_piece omax offset len n (surplus m offset) (offset % m.page) m.page
            ((offset + n) % m.page) (length r.bufs) (sum_len r.bufs) more room.0 cut reach room.1
            last next;
      whole = λ h large.
          whole_pieces omax offset len n (surplus m offset) (offset % m.page) m.page
            ((offset + n) % m.page) (length r.bufs) (sum_len r.bufs) more room.0 cut reach room.1
            last next (λ on. r.whole on large) large
          ∙ sym count;
    }
  where
    none_left : (bufs : List UvBuf) → bufs ≡ [] → (length bufs ≡ 0) × (sum_len bufs ≡ 0)
    none_left bufs e = (ap length e, ap sum_len e)

    suc-eq : (k p : ℕ) → suc k * p ≡ (k + 1) * p
    suc-eq k p = omega arith

fill_loop-Filled :
    {m : Dynmem} (fuel omax offset len : ℕ)
    → IsValid m
    → omax ≤ m.cap
    → omax ≤ offset + len
    → 0 < len
    → omax - offset < fuel
    → Filled m omax offset len (fill_loop fuel m omax offset len)
fill_loop-Filled {m} zero omax offset len v inside reach some_len enough = absurd (omega arith)
fill_loop-Filled {m} (suc fuel) omax offset len v inside reach some_len enough =
    elim (dec_lt offset omax) [
      | yes more ↦
          let n = if ltb (surplus m offset) len then surplus m offset else len in
          let moves : 0 < n = ground (arith, surplus_lem offset v) in
          Filled-piece fuel omax offset len n v more inside reach some_len refl (
            fill_loop-Filled fuel omax (offset + n) len v inside (omega arith) some_len
              (omega arith))
      | no done ↦ fill-done fuel omax offset len (omega arith)
    ]

-- In a well-formed buffer, `fill_uv_buf_ts` cuts a nonempty range within the capacity into as many
-- pieces as it touches pages. Each lies in its page, and together they are the bytes from the start
-- of the range on, at least the range: exactly the range if that lies in one page, and all the bytes
-- up to the end of its last page if it is at least a page long.
pub fill_uv_buf_ts_lem :
    {m : Dynmem} (offset len : ℕ)
    → IsValid m
    → 0 < len
    → offset + len ≤ m.cap
    → (bufs : List UvBuf) × (fill_uv_buf_ts m offset len ≡ some bufs)
      × (sent_bytes bufs ≡ some (slice offset (sum_len bufs) (flat m.pages)))
      × (len ≤ sum_len bufs)
      × (offset % m.page + len ≤ length bufs * m.page)
      × (length bufs * m.page < offset % m.page + len + m.page)
      × (offset % m.page + len ≤ m.page → sum_len bufs ≡ len)
      × (m.page ≤ len → sum_len bufs + offset % m.page ≡ length bufs * m.page)
unfolding fill_uv_buf_ts
fill_uv_buf_ts_lem {m} offset len v some_len inside =
    let omax : u32 (offset + len) ≡ offset + len = omega (arith, v.cap_small) in
    let r =
      fill_loop-Filled (suc len) (offset + len) offset len v inside (omega arith) some_len
        (omega arith) in
    (
      r.bufs,
      ap (λ (x : ℕ). fill_loop (suc len) m x offset len) omax ∙ r.returns,
      r.bytes,
      omega (arith, r.covers),
      omega (arith, r.enough (omega arith)),
      omega (arith, r.least (omega arith)),
      r.one (omega arith),
      r.whole (omega arith),
    )
