-- ===== src/Ptr/Tests.antt =====
-- ptr.h at concrete blocks.
use fast_http.Prelude.{ℕ, ◌≡◌, refl, none, some, List, [], ◌∷◌, arith, replicate, ◌>>=◌}
use fast_http.Ptr.{Block, Heap, block_at, ptr_addref, ptr_free, ptr_append}
use fast_http.Ptr.Refs.{addrefs, frees, ptr_free-shared}

abbrev junk : ℕ → List ℕ
junk n = replicate n 0xcd

abbrev two_bytes : Block
two_bytes = record { ref = 1; len = 2; data_bytes = 5 ∷ 6 ∷ [] }

-- The second of two blocks; the first is gone.
abbrev blocks : Heap
blocks = none ∷ some two_bytes ∷ []

-- An append past the end moves the block, which grows by the new length and not up to it.
appended :
    ptr_append junk 1 1 (7 ∷ 8 ∷ []) 2 blocks
    ≡ some (
      2,
      none
          ∷ none
          ∷ some (record { ref = 1; len = 5; data_bytes = 5 ∷ 7 ∷ 8 ∷ 0xcd ∷ 0xcd ∷ [] })
          ∷ [],
    )
unfolding ptr_append
appended = refl

-- With a second reference the old block stays behind with the old bytes.
appended_shared :
    (ptr_addref 1 blocks >>= ptr_append junk 1 1 (7 ∷ 8 ∷ []) 2)
    ≡ some (
      2,
      none
          ∷ some (record { ref = 2; len = 2; data_bytes = 5 ∷ 6 ∷ [] })
          ∷ some (record { ref = 1; len = 5; data_bytes = 5 ∷ 7 ∷ 8 ∷ 0xcd ∷ 0xcd ∷ [] })
          ∷ [],
    )
unfolding ptr_append ptr_addref
appended_shared = refl

ptr_free-shared_example :
    ((h1 : Heap) × (ptr_free 1 blocks ≡ some h1) × (block_at h1 1 ≡ none))
    × ((h2 : Heap) × (addrefs 1 1 blocks ≡ some h2)
        × (frees 2 1 h2 ≡ some h2)
        × (block_at h2 1 ≡ some (record two_bytes { ref = 2 })))
unfolding block_at
ptr_free-shared_example = ptr_free-shared blocks 1 0 2 two_bytes refl refl (omega arith)
