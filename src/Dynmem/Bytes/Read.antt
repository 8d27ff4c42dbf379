-- ===== src/Dynmem/Bytes/Read.antt =====
-- `dynmem_read`: what arrives at the destination, also after a write.
use mathlib.Core.List.{flatten}
use fast_http.Prelude.{
  ℕ, zero, suc, ◌+◌, ◌-◌, ◌^◌, ◌≤◌, ◌<◌, ◌≡◌, refl, sym, ap, ap₂, ◌∙◌, false, true, some, List, [],
  ◌∷◌, ◌++◌, append_assoc, append-nil, arith, u32, leb, ltb, ◌==◌, if◌then◌else◌, length, take,
  drop, slice, take-take, drop-take, take-append_ge, drop-append_ge, take-zero, length-take, dec_le,
  min,
}
use fast_http.Dynmem.{Dynmem, Malloc}
use fast_http.Dynmem.Foreach.{foreach, on_read, read, write}
use fast_http.Dynmem.Walk.{flat, AllNonempty, run}
use fast_http.Dynmem.Sizes.{IsValid, contents}
use fast_http.Dynmem.Sizes.Growth.{length-flat-pages}
use fast_http.Dynmem.Bytes.{foreach-zero, foreach-Cut}
use fast_http.Dynmem.Bytes.Write.{write_lem}

on_read-keeps :
    (s s' c piece : List ℕ) (ret : ℕ)
    → on_read s c ≡ some (s', piece, ret)
    → length piece ≡ length c
unfolding on_read
on_read-keeps s s' c piece ret e = ap length (sym same)
  where
    same : c ≡ piece
    same = cc

run-on_read :
    (cs : List (List ℕ)) (dst : List ℕ)
    → AllNonempty cs
    → run on_read cs dst ≡ some (flatten cs, dst ++ flatten cs)
unfolding run on_read flatten
run-on_read [] dst ne = rw append-nil refl
run-on_read (c ∷ cs) dst ne =
    let more : (length c == 0) ≡ false = ground (arith, ne.0) in
    rw (more, run-on_read cs (dst ++ c) ne.1, append_assoc) refl

foreach-read :
    {m : Dynmem} (off len : ℕ)
    → IsValid m
    → off + len ≤ m.cap
    → (m' : Dynmem) × (foreach on_read m off len [] ≡ some (len, m', slice off len (flat m.pages)))
foreach-read {m} off zero v fits = (m, foreach-zero on_read m off [] fits v.cap_small)
foreach-read {m} off (suc len) v fits =
    let cut = foreach-Cut off (suc len) v (omega arith) fits in
    let visited =
      cut.visits on_read on_read-keeps [] (flatten cut.parts) (flatten cut.parts)
        (run-on_read cut.parts [] cut.nonempty) in
    (
      record m { pages = visited.out },
      visited.returns
          ∙ ap (λ bytes. some (suc len, record m { pages = visited.out }, bytes)) cut.whole,
    )

-- What lies below the length, in all the bytes.
pub slice-contents :
    {m : Dynmem} (off len : ℕ)
    → IsValid m
    → slice off len (contents m) ≡ slice off (min len (m.len - off)) (flat m.pages)
slice-contents {m} off len v =
    ap (take len) (drop-take off m.len (flat m.pages)) ∙ take-take len (m.len - off) _

-- In a well-formed buffer, `dynmem_read` returns, for every range that fits a `uint32_t`, the part of the range that lies
-- below the length, and its length: no byte behind the length, whatever the pages.
pub read_lem :
    {m : Dynmem} (off len : ℕ)
    → IsValid m
    → off + len < 2 ^ 32
    → read m off len ≡ some (min len (m.len - off), slice off len (contents m))
unfolding read
read_lem {m} off len v fits = elim (dec_le m.len off) [
  | yes past ↦
      let outside : leb m.len off ≡ true = ground arith in
      rw outside (
        ap₂ (λ n l. some (n, l)) {x = 0} (omega arith)
          (sym (
            slice-contents off len v
            ∙ take-zero (min len (m.len - off)) (drop off (flat m.pages)) (omega arith))))
  | no inside ↦
      let within : leb m.len off ≡ false = ground arith in
      let clipped : (if ltb m.len (u32 (off + len)) then m.len - off else len)
          ≡ min len (m.len - off) =
        ground arith in
      let (m', e) = foreach-read off (min len (m.len - off)) v (omega (arith, v.len_in)) in
      rw (within, clipped, e)
        (ap (λ l. some (min len (m.len - off), l)) (sym (slice-contents off len v)))
]

-- In a well-formed buffer, if the range and a page fit a `uint32_t` and the source has that length:
-- what `dynmem_write` stores at or before the end, `dynmem_read` gives back from the same place,
-- across any page boundaries.
pub read-write :
    (mem : Malloc) {m : Dynmem} (off : ℕ) (src : List ℕ) (len : ℕ)
    → IsValid m
    → off ≤ m.len
    → off + len + m.page < 2 ^ 32
    → len ≤ length src
    → (m' : Dynmem) × (write mem m off src len ≡ some (len, m'))
      × (read m' off len ≡ some (len, take len src))
read-write mem {m} off src len v at_end fits enough =
    let (m', e, v', l, c) = write_lem mem off src len v at_end fits enough in
    let before : length (take off (contents m)) ≡ off = omega (
      arith,
      length-take off (contents m),
      length-take m.len (flat m.pages),
      length-flat-pages v,
      v.len_in,
    ) in
    let stored : slice off len (contents m') ≡ take len src =
      ap (slice off len) c
      ∙ ap (take len) (drop-append_ge off 0 (take off (contents m)) _ (omega (arith, before)))
      ∙ take-append_ge len 0 (take len src) _ (omega (arith, length-take len src, enough))
      ∙ append-nil (take len src) in
    (m', e, read_lem off len v' (omega arith) ∙ ap₂ (λ n b. some (n, b)) (omega (arith, l)) stored)
