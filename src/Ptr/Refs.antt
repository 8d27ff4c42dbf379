-- ===== src/Ptr/Refs.antt =====
-- When `ptr_free` of ptr.h gives a block back.
use fast_http.Prelude.{
  ℕ, zero, suc, ◌+◌, ◌^◌, ◌<◌, ◌≡◌, ◌≢◌, refl, ap, ◌∙◌, true, false, Option, none, some, [], ◌∷◌,
  arith, u32, ◌==◌, ◌>>=◌, length, set, get_elem?-set_self,
}
use fast_http.Ptr.{Block, Heap, block_at, ptr_addref, ptr_free}

pub addrefs : ℕ → ℕ → Heap → Option Heap
addrefs zero p h = some h
addrefs (suc n) p h = ptr_addref p h >>= addrefs n p

pub frees : ℕ → ℕ → Heap → Option Heap
frees zero p h = some h
frees (suc n) p h = ptr_free p h >>= frees n p

free-shared :
    (p : ℕ) (h : Heap) (b : Block) → block_at h p ≡ some b → b.ref ≢ 1 → ptr_free p h ≡ some h
unfolding ptr_free
free-shared p h b at shared = let test : (b.ref == 1) ≡ false = ground arith in rw (at, test) refl

frees-shared :
    (n p : ℕ) (h : Heap) (b : Block) → block_at h p ≡ some b → b.ref ≢ 1 → frees n p h ≡ some h
unfolding frees
frees-shared zero p h b at shared = refl
frees-shared (suc n) p h b at shared =
    rw (free-shared p h b at shared) (frees-shared n p h b at shared)

block-get : (h : Heap) (p : ℕ) (b : Block) → block_at h p ≡ some b → p < length h
unfolding block_at
block-get [] p b e = absurd (cc e)
block-get (x ∷ h) zero b e = omega arith
block-get (x ∷ h) (suc p) b e = omega (arith, block-get h p b e)

block-set : (h : Heap) (p : ℕ) (o : Option Block) → p < length h → block_at (set h p o) p ≡ o
unfolding block_at
block-set h p o low = rw (get_elem?-set_self h p o low) refl

addrefs-count :
    (n p : ℕ) (h : Heap) (b : Block)
    → block_at h p ≡ some b
    → b.ref + n < 2 ^ 32
    → (h' : Heap) × (addrefs n p h ≡ some h')
      × (block_at h' p ≡ some (record b { ref = b.ref + n }))
unfolding addrefs ptr_addref
addrefs-count zero p h b at fits =
    (h, refl, at ∙ ap (λ (k : ℕ). some (record b { ref = k })) {x = b.ref} (omega arith))
addrefs-count (suc n) p h b at fits =
    let next : Block = record b { ref = u32 (b.ref + 1) } in
    let stored = block-set h p (some next) (block-get h p b at) in
    let (h', e, there) =
      addrefs-count n p (set h p (some next)) next stored (omega (arith, fits)) in
    (
      h',
      rw at e,
      there ∙ ap (λ (k : ℕ). some (record b { ref = k })) {x = u32 (b.ref + 1) + n} (omega arith),
    )

-- `ptr_free` of a block with one reference gives it back. A block that has one reference and gets more,
-- fewer than 2 ^ 32 in all, is never given back, however often `ptr_free` is called: the calls leave
-- all blocks, and the count, as they are.
pub ptr_free-shared :
    (h : Heap) (p n m : ℕ) (b : Block)
    → block_at h p ≡ some b
    → b.ref ≡ 1
    → suc n + 1 < 2 ^ 32
    → ((h1 : Heap) × (ptr_free p h ≡ some h1) × (block_at h1 p ≡ none))
      × ((h2 : Heap) × (addrefs (suc n) p h ≡ some h2)
          × (frees m p h2 ≡ some h2)
          × (block_at h2 p ≡ some (record b { ref = suc n + 1 })))
unfolding ptr_free
ptr_free-shared h p n m b at one fits =
    let test : (b.ref == 1) ≡ true = ground arith in
    let (h2, e, there) = addrefs-count (suc n) p h b at (omega arith) in
    (
      (set h p none, rw (at, test) refl, block-set h p none (block-get h p b at)),
      (
        h2,
        e,
        frees-shared m p h2 _ there (λ bad. absurd (omega (arith, bad))),
        there ∙ ap (λ (k : ℕ). some (record b { ref = k })) {x = b.ref + suc n} (omega arith),
      ),
    )
