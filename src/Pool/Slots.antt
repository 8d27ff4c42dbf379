-- ===== src/Pool/Slots.antt =====
-- The objects of a pool's block, by number: the digits of the words of pool.c's bitmap.
use fast_http.Prelude.{
  ℕ, zero, suc, ◌+◌, ◌-◌, ◌*◌, ◌/◌, ◌%◌, ◌^◌, ◌<◌, ◌≡◌, ◌≢◌, ◌⊎◌, refl, ap, subst, ◌∙◌, List, [],
  ◌∷◌, arith, bit_and, bit_or, length, get_or, set, ℕ_discrete, length-set,
}
use native.Mathlib.Nat.{pow-suc}
use fast_http.Prelude.Bits.{bit_and-halves, bit_or-halves, bit_and-low}
use fast_http.Prelude.Digits.{
  digit, digit_small, digit_or, digit_and, digit_self, digit_other, digit_not,
}
use fast_http.Pool.Words.{AllWords, small_pow}

bit_or-small : (n a b : ℕ) → a < 2 ^ n → b < 2 ^ n → bit_or a b < 2 ^ n
bit_or-small zero a b h h' =
    let left : bit_or a b ≡ bit_or 0 b = ap (λ k. bit_or k b) {x = a} {y = 0} (omega arith) in
    let right : bit_or 0 b ≡ bit_or 0 0 = ap (bit_or 0) {x = b} {y = 0} (omega arith) in
    omega (arith, left ∙ right)
bit_or-small (suc n) a b h h' = omega (
  arith,
  bit_or-halves a b,
  pow-suc 2 n,
  bit_or-small n (a / 2) (b / 2) (omega (arith, pow-suc 2 n)) (omega (arith, pow-suc 2 n)),
)

bit_and-small : (n a b : ℕ) → b < 2 ^ n → bit_and a b < 2 ^ n
bit_and-small zero a b h =
    let none_left : bit_and a b ≡ bit_and a 0 = ap (bit_and a) {x = b} {y = 0} (omega arith) in
    omega (arith, none_left, bit_and-low 0 a)
bit_and-small (suc n) a b h = omega (
  arith,
  bit_and-halves a b,
  pow-suc 2 n,
  bit_and-small n (a / 2) (b / 2) (omega (arith, pow-suc 2 n)),
)

get_or-set_self : (l : List ℕ) (i v : ℕ) → i < length l → get_or (set l i v) i 0 ≡ v
get_or-set_self [] i v h = absurd (omega arith)
get_or-set_self (x ∷ l) zero v h = refl
get_or-set_self (x ∷ l) (suc i) v h = get_or-set_self l i v (omega arith)

pub get_or-set_ne : (l : List ℕ) (i j v : ℕ) → i ≢ j → get_or (set l i v) j 0 ≡ get_or l j 0
get_or-set_ne [] i j v h = refl
get_or-set_ne (x ∷ l) zero zero v h = absurd (h refl)
get_or-set_ne (x ∷ l) zero (suc j) v h = refl
get_or-set_ne (x ∷ l) (suc i) zero v h = refl
get_or-set_ne (x ∷ l) (suc i) (suc j) v h = get_or-set_ne l i j v (λ e. h (ap suc e))

AllWords-set : (l : List ℕ) (i v : ℕ) → AllWords l → v < 2 ^ 32 → AllWords (set l i v)
AllWords-set [] i v w h = w
AllWords-set (x ∷ l) zero v (a, w) h = (h, w)
AllWords-set (x ∷ l) (suc i) v (a, w) h = (a, AllWords-set l i v w h)

AllWords-get_or : (l : List ℕ) (i : ℕ) → AllWords l → get_or l i 0 < 2 ^ 32
AllWords-get_or [] i w = omega arith
AllWords-get_or (x ∷ l) zero (a, w) = a
AllWords-get_or (x ∷ l) (suc i) (a, w) = AllWords-get_or l i w

-- 1 for an object that is given out.
abbrev pub slot_digit : List ℕ → ℕ → ℕ
slot_digit bits k = digit (get_or bits (k / 32) 0) (k % 32)

-- `bits'` differs from `bits` in object `k` only, where it has the digit `v`.
pub record Differs (bits bits' : List ℕ) (k v : ℕ) : Type 0 where
  pub same_length : length bits' ≡ length bits
  pub words : AllWords bits → AllWords bits'
  pub at_k : slot_digit bits' k ≡ v
  pub elsewhere : (m : ℕ) → m ≢ k → slot_digit bits' m ≡ slot_digit bits m

changed :
    (bits : List ℕ) (i j v new : ℕ)
    → i < length bits
    → j < 32
    → digit new j ≡ v
    → ((k : ℕ) → k < 32 → k ≢ j → digit new k ≡ digit (get_or bits i 0) k)
    → (AllWords bits → new < 2 ^ 32)
    → Differs bits (set bits i new) (i * 32 + j) v
changed bits i j v new h low e keeps small = record {
  same_length = length-set bits i new;
  words = λ w. AllWords-set bits i new w (small w);
  at_k =
      ap (digit (get_or (set bits i new) ((i * 32 + j) / 32) 0)) {x = (i * 32 + j) % 32} {y = j}
        (omega arith)
      ∙ (ap (λ w. digit w j)
            (ap (λ n. get_or (set bits i new) n 0) {x = (i * 32 + j) / 32} {y = i} (omega arith)
              ∙ get_or-set_self bits i new h)
          ∙ e);
  elsewhere = λ m other. elim (ℕ_discrete (m / 32) i) [
    | yes here ↦
        ap (λ w. digit w (m % 32))
          (ap (λ n. get_or (set bits i new) n 0) here ∙ get_or-set_self bits i new h)
        ∙ (keeps (m % 32) (omega arith) (omega arith)
            ∙ ap (λ n. digit (get_or bits n 0) (m % 32)) {x = i} {y = m / 32} (omega (arith, here)))
    | no there ↦
        ap (λ w. digit w (m % 32)) (get_or-set_ne bits i (m / 32) new (λ e. there (omega arith)))
  ];
}

apart : (j k : ℕ) → k ≢ j → (j < k) ⊎ (k < j)
apart j k h = ground arith

-- `bits[i] |= c`
pub taken :
    (bits : List ℕ) (i j : ℕ)
    → i < length bits
    → j < 32
    → Differs bits (set bits i (bit_or (get_or bits i 0) (2 ^ j))) (i * 32 + j) 1
taken bits i j h low =
    let b = get_or bits i 0 in
    changed bits i j 1 (bit_or b (2 ^ j)) h low
      (omega (arith, digit_or b (2 ^ j) j, digit_self j, digit_small b j))
      (λ k in_word other. omega (arith, digit_or b (2 ^ j) k, digit_other j k (apart j k other)))
      (λ w. bit_or-small 32 b (2 ^ j) (AllWords-get_or bits i w) (small_pow j low))

-- `bits[last] &= ~(1 << (i & PM))`
pub given_back :
    (bits : List ℕ) (i : ℕ)
    → i < length bits * 32
    → Differs bits
        (set bits (i / 2 ^ 5) (bit_and (get_or bits (i / 2 ^ 5) 0) (2 ^ 32 - 1 - 2 ^ bit_and i 31)))
        i
        0
given_back bits i h =
    let b = get_or bits (i / 32) 0 in
    let j = i % 32 in
    let mask = 2 ^ 32 - 1 - 2 ^ j in
    let there =
      changed bits (i / 32) j 0 (bit_and b mask) (omega arith) (omega arith)
        (omega (
          arith,
          digit_and b mask j,
          digit_not 32 (2 ^ j) j (small_pow j (omega arith)) (omega arith),
          digit_self j,
        ))
        (λ k in_word other. omega (
          arith,
          digit_and b mask k,
          digit_not 32 (2 ^ j) k (small_pow j (omega arith)) in_word,
          digit_other j k (apart j k other),
          digit_small b k,
        ))
        (λ w. bit_and-small 32 b mask (omega arith)) in
    subst (λ k. Differs bits (set bits (i / 2 ^ 5) (bit_and b (2 ^ 32 - 1 - 2 ^ k))) i 0) {x = j}
      {y = bit_and i 31} (omega (arith, bit_and-low 5 i))
      (subst (λ k. Differs bits (set bits (i / 2 ^ 5) (bit_and b mask)) k 0) {x = i / 32 * 32 + j}
        {y = i} (omega arith) there)
