-- ===== src/Buffer/Blocks.antt =====
-- The bytes of a buffer of buffer.c, block after block.
use fast_http.Prelude.{
  ℕ, zero, suc, ◌+◌, ◌-◌, ◌/◌, ◌%◌, ◌≤◌, ◌<◌, ◌≡◌, refl, sym, ap, ap₂, subst, ◌∙◌, Option, none,
  some, List, [], ◌∷◌, ◌++◌, arith, length, take, drop, set, length-append, length-take,
  length-drop, take-append_le, take-append_ge, drop-append_le, drop-append_ge, drop-drop,
  append_assoc, take-all, dec_lt,
}
use fast_http.Buffer.{block_at}

-- The blocks up to the first pointer that was never set.
unfoldable pub flat : List (Option (List ℕ)) → List ℕ
flat [] = []
flat (none ∷ array) = []
flat (some b ∷ array) = b ++ flat array

-- Those blocks have 1024 bytes.
unfoldable pub AllBlocks : List (Option (List ℕ)) → Type 0
AllBlocks [] = Unit
AllBlocks (none ∷ array) = Unit
AllBlocks (some b ∷ array) = (length b ≡ 1024) × AllBlocks array

-- `new` in place of the elements from `off` on.
abbrev pub overwrite {ℓ} : {A : Type ℓ} → List A → ℕ → List A → List A
overwrite xs off new = take off xs ++ (new ++ drop (off + length new) xs)

module _ {ℓ} {A : Type ℓ} where
  pub length-overwrite :
      (xs : List A) (off : ℕ) (new : List A)
      → off + length new ≤ length xs
      → length (overwrite xs off new) ≡ length xs
  length-overwrite xs off new h = omega (
    arith,
    length-append (take off xs) (new ++ drop (off + length new) xs),
    length-append new (drop (off + length new) xs),
    length-take off xs,
    length-drop (off + length new) xs,
  )

  -- Two overwrites next to each other are one.
  pub overwrite-overwrite :
      (xs : List A) (off off' : ℕ) (new more : List A)
      → off + length new ≤ length xs
      → off' ≡ off + length new
      → overwrite (overwrite xs off new) off' more ≡ overwrite xs off (new ++ more)
  overwrite-overwrite xs off off' new more h e =
      let behind = drop (off + length new) xs in
      let head : take off' (overwrite xs off new) ≡ take off xs ++ new =
        take-append_ge off' (length new) (take off xs) (new ++ behind)
          (omega (arith, length-take off xs))
        ∙ ap (λ l. take off xs ++ l)
            (take-append_le (length new) new behind (omega arith)
              ∙ take-all (length new) new (omega arith)) in
      let tail : drop (off' + length more) (overwrite xs off new)
          ≡ drop (off + length (new ++ more)) xs =
        drop-append_ge (off' + length more) (length new + length more) (take off xs) (new ++ behind)
          (omega (arith, length-take off xs))
        ∙ (drop-append_ge (length new + length more) (length more) new behind refl
            ∙ drop-drop (length more) (off + length new) (off + length (new ++ more)) xs
                (omega (arith, length-append new more))) in
      ap₂ (λ a b. a ++ (more ++ b)) head tail
      ∙ (append_assoc (take off xs) new (more ++ drop (off + length (new ++ more)) xs)
          ∙ ap (λ l. take off xs ++ l)
              (sym (append_assoc new more (drop (off + length (new ++ more)) xs))))

  -- To overwrite by what is there changes nothing.
  pub overwrite_same :
      (xs : List A) (off n : ℕ) → off + n ≤ length xs → overwrite xs off (take n (drop off xs)) ≡ xs
  overwrite_same xs off n h =
      let size : length (take n (drop off xs)) ≡ n =
        omega (arith, length-take n (drop off xs), length-drop off xs) in
      ap (λ k. take off xs ++ (take n (drop off xs) ++ drop k xs)) (omega (arith, size))
      ∙ (ap (λ l. take off xs ++ (take n (drop off xs) ++ l))
            (sym (drop-drop n off (off + n) xs (omega arith)))
          ∙ (ap (λ l. take off xs ++ l) (joined n (drop off xs)) ∙ joined off xs))
    where
      joined : (k : ℕ) (l : List A) → take k l ++ drop k l ≡ l
      joined zero l = refl
      joined (suc k) [] = refl
      joined (suc k) (x ∷ l) = ap (λ r. x ∷ r) (joined k l)

-- The byte at `pos` is the one at `off` of block `i`.
pub record Block (array : List (Option (List ℕ))) (pos i off : ℕ) : Type 0 where
  pub bytes : List ℕ
  pub found : block_at array i ≡ some bytes
  pub whole : length bytes ≡ 1024
  pub piece : (n : ℕ) → off + n ≤ 1024 → take n (drop off bytes) ≡ take n (drop pos (flat array))
  pub replaced :
      (new : List ℕ)
      → off + length new ≤ 1024
      → flat (set array i (some (overwrite bytes off new))) ≡ overwrite (flat array) pos new
  pub kept : (bytes' : List ℕ) → length bytes' ≡ 1024 → AllBlocks (set array i (some bytes'))

in_first :
    (b : List ℕ) (array : List (Option (List ℕ))) (pos : ℕ)
    → length b ≡ 1024
    → AllBlocks array
    → pos < 1024
    → Block (some b ∷ array) pos 0 pos
unfolding flat AllBlocks
in_first b array pos size blocks h =
    let rest = flat array in
    record {
      bytes = b;
      found = refl;
      whole = size;
      piece = λ n short. sym (
          ap (take n) (drop-append_le pos b rest (omega (arith, size)))
          ∙ take-append_le n (drop pos b) rest (omega (arith, length-drop pos b, size)));
      replaced = λ new short.
          append_assoc (take pos b) (new ++ drop (pos + length new) b) rest
          ∙ ap₂ (λ x y. x ++ y) (sym (take-append_le pos b rest (omega (arith, size))))
              (append_assoc new (drop (pos + length new) b) rest
                ∙ ap (λ l. new ++ l)
                    (sym (drop-append_le (pos + length new) b rest (omega (arith, size)))));
      kept = λ bytes' size'. (size', blocks);
    }

in_later :
    (b : List ℕ) (array : List (Option (List ℕ))) (pos i off : ℕ)
    → length b ≡ 1024
    → Block array pos i off
    → Block (some b ∷ array) (pos + 1024) (suc i) off
unfolding flat AllBlocks
in_later b array pos i off size w =
    let rest = flat array in
    record {
      bytes = w.bytes;
      found = w.found;
      whole = w.whole;
      piece = λ n short.
          w.piece n short
          ∙ ap (take n) (sym (drop-append_ge (pos + 1024) pos b rest (omega (arith, size))));
      replaced = λ new short.
          ap (λ l. b ++ l) (w.replaced new short)
          ∙ (sym (append_assoc b (take pos rest) (new ++ drop (pos + length new) rest))
              ∙ ap₂ (λ x y. x ++ (new ++ y))
                  (sym (take-append_ge (pos + 1024) pos b rest (omega (arith, size))))
                  (sym (
                    drop-append_ge (pos + 1024 + length new) (pos + length new) b rest
                      (omega (arith, size)))));
      kept = λ bytes' size'. (size, w.kept bytes' size');
    }

pub block_lem :
    (array : List (Option (List ℕ))) (pos : ℕ)
    → AllBlocks array
    → pos < length (flat array)
    → Block array pos (pos / 1024) (pos % 1024)
unfolding flat AllBlocks
block_lem [] pos blocks h = absurd (omega arith)
block_lem (none ∷ array) pos blocks h = absurd (omega arith)
block_lem (some b ∷ array) pos (size, blocks) h = elim (dec_lt pos 1024) [
  | yes here ↦
      subst (λ i. Block (some b ∷ array) pos i (pos % 1024)) {x = 0} {y = pos / 1024} (omega arith)
        (subst (Block (some b ∷ array) pos 0) {x = pos} {y = pos % 1024} (omega arith)
          (in_first b array pos size blocks here))
  | no later ↦
      let before = pos - 1024 in
      let w = block_lem array before blocks (omega (arith, length-append b (flat array))) in
      subst (λ i. Block (some b ∷ array) pos i (pos % 1024)) {x = suc (before / 1024)}
        {y = pos / 1024} (omega arith)
        (subst (Block (some b ∷ array) pos (suc (before / 1024))) {x = before % 1024}
          {y = pos % 1024} (omega arith)
          (subst (λ q. Block (some b ∷ array) q (suc (before / 1024)) (before % 1024))
            {x = before + 1024} {y = pos} (omega arith)
            (in_later b array before (before / 1024) (before % 1024) size w)))
]
