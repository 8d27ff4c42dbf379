-- ===== src/Buffer/Round.antt =====
-- The rounds of `buffer_foreach`, for any callback that goes on.
use fast_http.Prelude.{
  ℕ, suc, ◌+◌, ◌-◌, ◌/◌, ◌%◌, ◌≤◌, ◌<◌, ◌≡◌, refl, sym, ap, ap₂, ◌∙◌, true, false, Option, some,
  List, ◌++◌, arith, length, take, drop, set, bit_and, ltb, leb, ◌==◌, if◌then◌else◌, take-all,
}
use fast_http.Prelude.Bits.{bit_and-low}
use fast_http.Str.{put}
use fast_http.Buffer.{block_at}
use fast_http.Buffer.Walk.{Callback, foreach_loop}
use fast_http.Buffer.Blocks.{flat, AllBlocks, overwrite, length-overwrite, block_lem}

-- How many bytes the loop hands to the callback at `pos`.
abbrev pub next_len : ℕ → ℕ → ℕ
next_len pos end = if ltb (1024 - pos % 1024) (end - pos) then 1024 - pos % 1024 else end - pos

put-overwrite :
    (dst : List ℕ) (off : ℕ) (new : List ℕ) (n : ℕ)
    → length new ≡ n
    → off + n ≤ length dst
    → put dst off new n ≡ some (overwrite dst off new)
unfolding put
put-overwrite dst off new n size room =
    let inside : leb (off + n) (length dst) ≡ true = ground arith in
    let enough : leb n (length new) ≡ true = ground (arith, size) in
    rw (inside, enough)
      (ap₂ (λ a k. some (take off dst ++ (a ++ drop (off + k) dst)))
        (take-all n new (omega (arith, size))) (sym size))

module _ {ℓ} {A : Type ℓ} (on_foreach : Callback A) where
  loop-continues :
      (fuel : ℕ) (array : List (Option (List ℕ))) (arg arg' : A) (pos end off len ret : ℕ)
      (bytes piece bytes' : List ℕ)
      → ltb pos end ≡ true
      → bit_and pos 1023 ≡ off
      → (if ltb (1024 - off) (end - pos) then 1024 - off else end - pos) ≡ len
      → block_at array (pos / 1024) ≡ some bytes
      → leb (off + len) (length bytes) ≡ true
      → on_foreach arg (take len (drop off bytes)) ≡ some (arg', piece, ret)
      → put bytes off piece len ≡ some bytes'
      → (ret == 0) ≡ false
      → foreach_loop on_foreach (suc fuel) array arg pos end
        ≡ foreach_loop on_foreach fuel (set array (pos / 1024) (some bytes')) arg' (pos + len) end
  unfolding foreach_loop
  loop-continues fuel array arg arg' pos end off len ret bytes piece bytes' e0 e1 e2 e3 e4 e5 e6
        e7 =
      rw (e0, e1, e2, e3, e4, e5, e6, e7) refl

  -- One round, for a callback that goes on.
  pub record Round (fuel : ℕ) (array : List (Option (List ℕ))) (arg arg' : A) (pos end : ℕ)
      (piece : List ℕ) : Type ℓ where
    pub array' : List (Option (List ℕ))
    pub blocks : AllBlocks array'
    pub bytes : flat array' ≡ overwrite (flat array) pos piece
    pub continues :
        foreach_loop on_foreach (suc fuel) array arg pos end
        ≡ foreach_loop on_foreach fuel array' arg' (pos + next_len pos end) end

  pub one-Round :
      (fuel : ℕ) (array : List (Option (List ℕ))) (arg arg' : A) (pos end ret : ℕ) (piece : List ℕ)
      → AllBlocks array
      → pos < end
      → end ≤ length (flat array)
      → on_foreach arg (take (next_len pos end) (drop pos (flat array))) ≡ some (arg', piece, ret)
      → length piece ≡ next_len pos end
      → (ret == 0) ≡ false
      → Round fuel array arg arg' pos end piece
  one-Round fuel array arg arg' pos end ret piece blocks more inside call size goes_on =
      let w = block_lem array pos blocks (omega arith) in
      let off = pos % 1024 in
      let len = next_len pos end in
      let short : off + len ≤ 1024 = ground arith in
      record {
        array' = set array (pos / 1024) (some (overwrite w.bytes off piece));
        blocks =
            w.kept (overwrite w.bytes off piece)
              (length-overwrite w.bytes off piece (omega (arith, size, short, w.whole)) ∙ w.whole);
        bytes = w.replaced piece (omega (arith, size, short));
        continues =
            loop-continues fuel array arg arg' pos end off len ret w.bytes piece
              (overwrite w.bytes off piece) (ground arith) (bit_and-low 10 pos) refl w.found
              (ground (arith, w.whole, short)) (ap (on_foreach arg) (w.piece len short) ∙ call)
              (put-overwrite w.bytes off piece len size (omega (arith, w.whole, short))) goes_on;
      }

pub loop-ends {ℓ} :
    {A : Type ℓ} (on_foreach : Callback A) (fuel : ℕ) (array : List (Option (List ℕ))) (arg : A)
    (pos end : ℕ)
    → end ≤ pos
    → foreach_loop on_foreach (suc fuel) array arg pos end ≡ some (array, arg, pos)
unfolding foreach_loop
loop-ends on_foreach fuel array arg pos end h =
    let e : ltb pos end ≡ false = ground arith in rw e refl
