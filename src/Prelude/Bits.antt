-- ===== src/Prelude/Bits.antt =====
-- `&`, `|` and `^` by the lowest digit, and `&` with a mask of low bits or of high bits.
use Prim.Native.Nat.{
  ℕ, zero, suc, ◌+◌, ◌-◌, ◌*◌, ◌/◌, ◌%◌, ◌^◌, ◌≤◌, ◌<◌, min, max, bit_and, bit_or, bit_xor, differ,
  digits, bit_and-bitwise, bit_or-bitwise, bit_xor-bitwise,
}
use mathlib.Core.Path.{◌≡◌, refl, sym, ap, ◌∙◌}
use native.Mathlib.Nat.{pow-suc, one-le-pow}
use native.Mathlib.Omega.{arith}

-- An operation on the binary digits, with a bound on their number: a larger one changes nothing.
module _ (last : ℕ → ℕ) (f : ℕ → ℕ → ℕ) where
  bound_zero : (n b : ℕ) → digits last f n 0 b ≡ last b
  bound_zero zero b = refl
  bound_zero (suc n) b = refl

  bound-add : (n d a b : ℕ) → a ≤ n → digits last f (d + n) a b ≡ digits last f n a b
  bound-add n d zero b h = bound_zero (d + n) b ∙ sym (bound_zero n b)
  bound-add zero d (suc a) b h = absurd (omega arith)
  bound-add (suc n) d (suc a) b h =
      let below = bound-add n d (suc a / 2) (b / 2) (omega arith) in
      ap (λ k. digits last f k (suc a) b) {x = d + suc n} {y = suc (d + n)} (omega arith)
      ∙ ap (λ rest. rest * 2 + f (suc a % 2) (b % 2)) below

  bound_halved : (a b : ℕ) → digits last f a (suc a / 2) b ≡ digits last f (suc a / 2) (suc a / 2) b
  bound_halved a b =
      ap (λ k. digits last f k (suc a / 2) b) {x = a} {y = (a - suc a / 2) + suc a / 2}
        (omega arith)
      ∙ bound-add (suc a / 2) (a - suc a / 2) (suc a / 2) b (omega arith)

-- The lowest digit apart.
pub bit_and-halves : (a b : ℕ) → bit_and a b ≡ bit_and (a / 2) (b / 2) * 2 + min (a % 2) (b % 2)
bit_and-halves zero b = simp bit_and-bitwise (omega arith)
bit_and-halves (suc a) b = simp bit_and-bitwise (omega (arith, bound_halved (λ _. 0) min a (b / 2)))

pub bit_or-halves : (a b : ℕ) → bit_or a b ≡ bit_or (a / 2) (b / 2) * 2 + max (a % 2) (b % 2)
bit_or-halves zero b = simp bit_or-bitwise (omega arith)
bit_or-halves (suc a) b = simp bit_or-bitwise (omega (arith, bound_halved (λ k. k) max a (b / 2)))

bits_differ : (x y : ℕ) → x < 2 → y < 2 → differ x y ≡ (x + y) % 2
bits_differ zero y p q = omega arith
bits_differ (suc zero) zero p q = refl
bits_differ (suc zero) (suc zero) p q = refl
bits_differ (suc zero) (suc (suc y)) p q = absurd (omega arith)
bits_differ (suc (suc x)) y p q = absurd (omega arith)

pub bit_xor-halves : (a b : ℕ) → bit_xor a b ≡ bit_xor (a / 2) (b / 2) * 2 + (a + b) % 2
bit_xor-halves zero b = simp bit_xor-bitwise (omega arith)
bit_xor-halves (suc a) b = simp bit_xor-bitwise (
    omega (
      arith,
      bound_halved (λ k. k) differ a (b / 2),
      bits_differ (suc a % 2) (b % 2) (omega arith) (omega arith),
    ))

bit_and-none : (a : ℕ) → bit_and a 0 ≡ 0
bit_and-none a = none_left a a (omega arith)
  where
    none_left : (n a : ℕ) → a ≤ n → bit_and a 0 ≡ 0
    none_left n zero h = refl
    none_left zero (suc a) h = absurd (omega arith)
    none_left (suc n) (suc a) h =
        omega (arith, bit_and-halves (suc a) 0, none_left n (suc a / 2) (omega arith))

pub double_pow : (q k : ℕ) → q * 2 ^ suc k ≡ 2 * (q * 2 ^ k)
double_pow q k = omega (arith, ap (λ (t : ℕ). q * t) (pow-suc 2 k))

low_part : (k q r : ℕ) → r < 2 ^ k → bit_and (q * 2 ^ k + r) (2 ^ k - 1) ≡ r
low_part zero q r h = omega (arith, bit_and-none (q * 2 ^ 0 + r))
low_part (suc k) q r h = ground (
  arith,
  bit_and-halves (q * 2 ^ suc k + r) (2 ^ suc k - 1),
  double_pow q k,
  pow-suc 2 k,
  one-le-pow k 2,
  low_part k q (r / 2) (omega (arith, pow-suc 2 k)),
)

-- A mask of the `k` low bits is the remainder by `2 ^ k`.
pub bit_and-low : (k a : ℕ) → bit_and a (2 ^ k - 1) ≡ a % 2 ^ k
bit_and-low k a = ground (arith, one-le-pow k 2, low_part k (a / 2 ^ k) (a % 2 ^ k))

-- In a word of `j + k` bits, a mask of all but the `k` low bits clears those.
pub bit_and-high :
    (k j q r : ℕ)
    → r < 2 ^ k
    → q < 2 ^ j
    → bit_and (q * 2 ^ k + r) (2 ^ j * 2 ^ k - 2 ^ k) ≡ q * 2 ^ k
bit_and-high zero j q r h small = ground (arith, low_part j 0 q small)
bit_and-high (suc k) j q r h small = ground (
  arith,
  bit_and-halves (q * 2 ^ suc k + r) (2 ^ j * 2 ^ suc k - 2 ^ suc k),
  double_pow q k,
  double_pow (2 ^ j) k,
  pow-suc 2 k,
  bit_and-high k j q (r / 2) (omega (arith, pow-suc 2 k)) small,
)

bit_or-none_below : (n a : ℕ) → a ≤ n → bit_or a 0 ≡ a
bit_or-none_below n zero h = refl
bit_or-none_below zero (suc a) h = absurd (omega arith)
bit_or-none_below (suc n) (suc a) h =
    omega (arith, bit_or-halves (suc a) 0, bit_or-none_below n (suc a / 2) (omega arith))

bit_or-none : (a : ℕ) → bit_or a 0 ≡ a
bit_or-none a = bit_or-none_below a a (omega arith)

-- Parts that have no digit in common are added.
pub bit_or-disjoint : (k q r : ℕ) → r < 2 ^ k → bit_or (q * 2 ^ k) r ≡ q * 2 ^ k + r
bit_or-disjoint zero q r h =
    ap (bit_or (q * 2 ^ 0)) {x = r} {y = 0} (omega arith) ∙ omega (arith, bit_or-none (q * 2 ^ 0))
bit_or-disjoint (suc k) q r h = ground (
  arith,
  bit_or-halves (q * 2 ^ suc k) r,
  double_pow q k,
  pow-suc 2 k,
  bit_or-disjoint k q (r / 2) (omega (arith, pow-suc 2 k)),
)
