-- ===== src/Pool/Words.antt =====
-- The search of pool.c for a digit that is not set.
use fast_http.Prelude.{
  ℕ, zero, suc, ◌+◌, ◌*◌, ◌^◌, ◌≤◌, ◌<◌, ◌≡◌, ◌≢◌, ◌⊎◌, refl, ap, ◌∙◌, inl, inr, true, false,
  Option, none, some, List, [], ◌∷◌, arith, bit_and, u32, ◌==◌, length, get_or, ℕ_discrete,
}
use native.Mathlib.Nat.{pow-suc, one-le-pow, pow-le-pow_right}
use fast_http.Prelude.Digits.{digit, digit_small, masked, all_ones}
use fast_http.Pool.{free_bit, in_word, find_free}

-- Every word has 32 bits.
abbrev pub AllWords : List ℕ → Type 0
AllWords [] = Unit
AllWords (b ∷ bits) = (b < 2 ^ 32) × AllWords bits

record FreeBit (b j : ℕ) (result : Option (ℕ × ℕ)) : Type 0 where
  at : ℕ
  returns : result ≡ some (at, 2 ^ at)
  low : at < 32
  free : digit b at ≡ 0

pub small_pow : (j : ℕ) → j < 32 → 2 ^ j < 2 ^ 32
small_pow j h = omega (arith, pow-le-pow_right {n = 2} (omega arith) {i = j} {j = 31} (omega arith))

-- The search ends at a free digit, unless there is none.
free_bit_lem :
    (rounds b c j : ℕ)
    → c ≡ u32 (2 ^ j)
    → j + rounds ≡ 32
    → ((k : ℕ) → j ≤ k → k < 32 → digit b k ≡ 1) ⊎ FreeBit b j (free_bit rounds b c j)
unfolding free_bit
free_bit_lem zero b c j mask e = inl (λ k h h'. absurd (omega arith))
free_bit_lem (suc rounds) b c j mask e =
    let c' : c ≡ 2 ^ j = omega (arith, mask, small_pow j (omega arith)) in
    let tested : bit_and b c ≡ digit b j * 2 ^ j = ap (bit_and b) c' ∙ masked b j in
    elim (ℕ_discrete (digit b j) 0) [
      | yes clear ↦
          let test : (bit_and b c == 0) ≡ true =
            ground (arith, tested ∙ ap (λ d. d * 2 ^ j) clear) in
          inr (record {
            at = j;
            returns = rw test (ap (λ m. some (j, m)) c');
            low = omega arith;
            free = clear;
          })
      | no used ↦
          let one : digit b j ≡ 1 = omega (arith, digit_small b j) in
          let test : (bit_and b c == 0) ≡ false =
            ground (arith, tested ∙ ap (λ d. d * 2 ^ j) one, one-le-pow j 2) in
          rw test (
            later one (
              free_bit_lem rounds b (u32 (c * 2)) (j + 1)
                (ap u32 (
                  ap (λ m. m * 2) c'
                  ∙ omega
                      (arith, pow-suc 2 j, ap (λ n. 2 ^ n) {x = j + 1} {y = suc j} (omega arith))))
                (omega arith)))
    ]
  where
    later :
        {r : Option (ℕ × ℕ)}
        → digit b j ≡ 1
        → ((k : ℕ) → j + 1 ≤ k → k < 32 → digit b k ≡ 1) ⊎ FreeBit b (j + 1) r
        → ((k : ℕ) → j ≤ k → k < 32 → digit b k ≡ 1) ⊎ FreeBit b j r
    later one (inl used) = inl (λ k h h'. elim (ℕ_discrete k j) [
      | yes same ↦ ap (digit b) same ∙ one
      | no other ↦ used k (omega arith) h'
    ])
    later one (inr w) = inr (record { at = w.at; returns = w.returns; low = w.low; free = w.free })

-- What the search through the words from the `i`th on finds: word `i + n`, digit `j`.
pub record Found (bits : List ℕ) (i : ℕ) (result : Option (ℕ × ℕ × ℕ)) : Type 0 where
  pub n : ℕ
  pub j : ℕ
  pub returns : result ≡ some (i + n, j, 2 ^ j)
  pub within : n < length bits
  pub low : j < 32
  pub free : digit (get_or bits n 0) j ≡ 0
  pub full_before : (m : ℕ) → m < n → get_or bits m 0 ≡ 0xffff_ffff

pub record NoneFree (bits : List ℕ) (result : Option (ℕ × ℕ × ℕ)) : Type 0 where
  pub returns : result ≡ none
  pub full : (m : ℕ) → m < length bits → get_or bits m 0 ≡ 0xffff_ffff

later_word :
    (b : ℕ) (bits : List ℕ) (i : ℕ) {r : Option (ℕ × ℕ × ℕ)}
    → b ≡ 0xffff_ffff
    → NoneFree bits r ⊎ Found bits (i + 1) r
    → NoneFree (b ∷ bits) r ⊎ Found (b ∷ bits) i r
later_word b bits i e (inl w) = inl (record { returns = w.returns; full = go })
  where
    go : (m : ℕ) → m < suc (length bits) → get_or (b ∷ bits) m 0 ≡ 0xffff_ffff
    go zero h = e
    go (suc m) h = w.full m (omega arith)
later_word b bits i e (inr w) = inr (record {
  n = suc w.n;
  j = w.j;
  returns =
      w.returns
      ∙ ap (λ k. some (k, w.j, 2 ^ w.j)) {x = i + 1 + w.n} {y = i + suc w.n} (omega arith);
  within = omega (arith, w.within);
  low = w.low;
  free = w.free;
  full_before = go;
})
  where
    go : (m : ℕ) → m < suc w.n → get_or (b ∷ bits) m 0 ≡ 0xffff_ffff
    go zero h = e
    go (suc m) h = w.full_before m (omega arith)

in_this_word :
    (b : ℕ) (bits : List ℕ) (i : ℕ) (r : Option (ℕ × ℕ)) (rest : Option (ℕ × ℕ × ℕ))
    → b < 2 ^ 32
    → b ≢ 0xffff_ffff
    → ((k : ℕ) → 0 ≤ k → k < 32 → digit b k ≡ 1) ⊎ FreeBit b 0 r
    → Found (b ∷ bits) i (in_word i r rest)
in_this_word b bits i r rest word h (inl used) =
    absurd (h (all_ones 32 b word (λ k low. used k (omega arith) low)))
in_this_word b bits i r rest word h (inr w) = record {
  n = 0;
  j = w.at;
  returns =
      ap (λ o. in_word i o rest) w.returns
      ∙ ap (λ k. some (k, w.at, 2 ^ w.at)) {x = i} {y = i + 0} (omega arith);
  within = omega arith;
  low = w.low;
  free = w.free;
  full_before = λ m h. absurd (omega arith);
}

pub find_free_lem :
    (bits : List ℕ) (i : ℕ)
    → AllWords bits
    → NoneFree bits (find_free bits i) ⊎ Found bits i (find_free bits i)
unfolding find_free
find_free_lem [] i words = inl (record { returns = refl; full = λ m h. absurd (omega arith) })
find_free_lem (b ∷ bits) i (word, words) = elim (ℕ_discrete b 0xffff_ffff) [
  | yes full ↦
      let test : (b == 0xffff_ffff) ≡ true = ground arith in
      rw test (later_word b bits i full (find_free_lem bits (i + 1) words))
  | no some_free ↦
      let test : (b == 0xffff_ffff) ≡ false = ground arith in
      rw test (
        inr (
          in_this_word b bits i (free_bit 32 b 1 0) (find_free bits (i + 1)) word some_free
            (free_bit_lem 32 b 1 0 refl refl)))
]
