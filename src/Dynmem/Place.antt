-- ===== src/Dynmem/Place.antt =====
-- Where `dynmem_get` points to.
use native.Mathlib.Nat.{mod-lt}
use fast_http.Prelude.{
  ℕ, ◌%◌, ◌<◌, ◌≡◌, refl, sym, ap, ◌∙◌, false, some, ◌∷◌, ◌++◌, arith, leb, get_elem?,
  get_elem?-append_ge, get_elem?-append_le,
}
use fast_http.Dynmem.{Dynmem, Pointer, place, deref, in_page, get}
use fast_http.Dynmem.Walk.{flat, length-flat, flat-append, getpage-Split}
use fast_http.Dynmem.Sizes.{IsValid, page_bounds, in_page-eq-mod}

-- In a well-formed buffer, `dynmem_get` below the capacity gives a pointer to the byte at that offset.
pub get_lem :
    {m : Dynmem} (off : ℕ)
    → IsValid m
    → off < m.cap
    → (p : Pointer) × (get m off ≡ some p) × (deref p ≡ get_elem? (flat m.pages) off)
unfolding get deref
get_lem {m} off v inside =
    let s =
      getpage-Split m.page off m.pages (page_bounds v).0 v.sized (omega (arith, v.cap_pages)) in
    let near : leb m.cap off ≡ false = ground arith in
    let in_node = mod-lt off (page_bounds v).0 in
    (
      place s.node (in_page m off),
      rw (near, s.found) refl,
      ap (get_elem? s.node.bytes) (in_page-eq-mod off v)
          ∙ sym (
              ap (λ l. get_elem? l off) (ap flat s.whole ∙ flat-append s.before (s.node ∷ s.behind))
              ∙ (get_elem?-append_ge (flat s.before) (s.node.bytes ++ flat s.behind) off
                    (off % m.page)
                    (omega (arith, s.at_offset, length-flat m.page s.before s.sized_before))
                  ∙ get_elem?-append_le s.node.bytes (flat s.behind) (off % m.page)
                      (omega (arith, s.sized_behind.0, in_node)))),
    )
