-- ===== src/Prelude/Digits.antt =====
-- The binary digits of a number: of a union, an intersection, a power of two and a complement.
use fast_http.Prelude.{
  ℕ, zero, suc, ◌-◌, ◌*◌, ◌/◌, ◌%◌, ◌^◌, ◌<◌, min, max, bit_and, bit_or, ◌≡◌, refl, ap, ◌∙◌, arith,
  ◌⊎◌,
}
use native.Mathlib.Nat.{pow-suc, one-le-pow}
use fast_http.Prelude.Bits.{bit_and-halves, bit_or-halves, bit_and-low, double_pow}

unfoldable pub digit : ℕ → ℕ → ℕ
digit a zero = a % 2
digit a (suc k) = digit (a / 2) k

pub digit_small : (a k : ℕ) → digit a k < 2
unfolding digit
digit_small a zero = omega arith
digit_small a (suc k) = digit_small (a / 2) k

pub digit_or : (a b k : ℕ) → digit (bit_or a b) k ≡ max (digit a k) (digit b k)
unfolding digit
digit_or a b zero = omega (arith, bit_or-halves a b)
digit_or a b (suc k) =
    ap (λ c. digit c k) {x = bit_or a b / 2} {y = bit_or (a / 2) (b / 2)}
      (omega (arith, bit_or-halves a b))
    ∙ digit_or (a / 2) (b / 2) k

pub digit_and : (a b k : ℕ) → digit (bit_and a b) k ≡ min (digit a k) (digit b k)
unfolding digit
digit_and a b zero = omega (arith, bit_and-halves a b)
digit_and a b (suc k) =
    ap (λ c. digit c k) {x = bit_and a b / 2} {y = bit_and (a / 2) (b / 2)}
      (omega (arith, bit_and-halves a b))
    ∙ digit_and (a / 2) (b / 2) k

pub digit_zero : (k : ℕ) → digit 0 k ≡ 0
unfolding digit
digit_zero zero = refl
digit_zero (suc k) = digit_zero k

-- The mask of one digit has that digit only.
pub digit_self : (j : ℕ) → digit (2 ^ j) j ≡ 1
unfolding digit
digit_self zero = refl
digit_self (suc j) =
    ap (λ c. digit c j) {x = 2 ^ suc j / 2} {y = 2 ^ j} (omega (arith, pow-suc 2 j)) ∙ digit_self j

pub digit_other : (j k : ℕ) → (j < k) ⊎ (k < j) → digit (2 ^ j) k ≡ 0
unfolding digit
digit_other zero zero h = ground arith
digit_other zero (suc k) h = digit_zero k
digit_other (suc j) zero h = omega (arith, pow-suc 2 j)
digit_other (suc j) (suc k) h =
    ap (λ c. digit c k) {x = 2 ^ suc j / 2} {y = 2 ^ j} (omega (arith, pow-suc 2 j))
    ∙ digit_other j k (ground arith)

-- The complement in `n` digits.
pub digit_not : (n a k : ℕ) → a < 2 ^ n → k < n → digit (2 ^ n - 1 - a) k ≡ 1 - digit a k
unfolding digit
digit_not zero a k small h = absurd (omega arith)
digit_not (suc n) a zero small h = omega (arith, pow-suc 2 n, one-le-pow n 2)
digit_not (suc n) a (suc k) small h =
    ap (λ c. digit c k) {x = (2 ^ suc n - 1 - a) / 2} {y = 2 ^ n - 1 - a / 2}
      (omega (arith, pow-suc 2 n, one-le-pow n 2))
    ∙ digit_not n (a / 2) k (omega (arith, pow-suc 2 n)) (omega arith)

-- A mask of one digit tells that digit.
pub masked : (a j : ℕ) → bit_and a (2 ^ j) ≡ digit a j * 2 ^ j
unfolding digit
masked a zero = omega (arith, bit_and-halves a 1, bit_and-low 0 (a / 2))
masked a (suc j) =
    let halved =
      ap (bit_and (a / 2)) {x = 2 ^ suc j / 2} {y = 2 ^ j} (omega (arith, pow-suc 2 j)) in
    let r : bit_and a (2 ^ suc j) ≡ digit (a / 2) j * 2 ^ suc j = omega (
      arith,
      bit_and-halves a (2 ^ suc j),
      halved,
      masked (a / 2) j,
      double_pow (digit (a / 2) j) j,
      pow-suc 2 j,
    ) in
    r

-- A number whose digits are all 1.
pub all_ones : (n a : ℕ) → a < 2 ^ n → ((k : ℕ) → k < n → digit a k ≡ 1) → a ≡ 2 ^ n - 1
unfolding digit
all_ones zero a small ones = omega arith
all_ones (suc n) a small ones =
    let rest =
      all_ones n (a / 2) (omega (arith, pow-suc 2 n)) (λ k h. ones (suc k) (omega arith)) in
    omega (arith, ones 0 (omega arith), rest, pow-suc 2 n, one-le-pow n 2)
