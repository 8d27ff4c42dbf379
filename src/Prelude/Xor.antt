-- ===== src/Prelude/Xor.antt =====
-- The laws of `^`, digit by digit.
use Prim.Native.Nat.{ℕ, zero, suc, ◌+◌, ◌*◌, ◌/◌, ◌%◌, ◌^◌, ◌≤◌, ◌<◌, bit_xor, bit_xor-bitwise}
use mathlib.Core.Path.{◌≡◌, refl, sym, ap, ◌∙◌}
use native.Mathlib.Nat.{pow-suc, div-div-eq-div-mul}
use native.Mathlib.Omega.{arith}
use fast_http.Prelude.Bits.{bit_xor-halves, double_pow}

-- The halves and the lowest digit of a sum of digits.
pub half-bit_xor : (a b : ℕ) → bit_xor a b / 2 ≡ bit_xor (a / 2) (b / 2)
half-bit_xor a b = omega (arith, bit_xor-halves a b)

pub bit_xor-mod : (a b : ℕ) → bit_xor a b % 2 ≡ (a + b) % 2
bit_xor-mod a b = omega (arith, bit_xor-halves a b)

swap_below :
    (n u v p : ℕ) → u ≤ n → v ≤ n → p ≤ n → bit_xor (bit_xor u v) p ≡ bit_xor (bit_xor u p) v
swap_below zero zero zero zero hu hv hp = refl
swap_below zero zero zero (suc p) hu hv hp = absurd (omega arith)
swap_below zero zero (suc v) p hu hv hp = absurd (omega arith)
swap_below zero (suc u) v p hu hv hp = absurd (omega arith)
swap_below (suc n) u v p hu hv hp = omega (
  arith,
  bit_xor-halves (bit_xor u v) p,
  bit_xor-halves (bit_xor u p) v,
  bit_xor-mod u v,
  bit_xor-mod u p,
  ap (λ k. bit_xor k (p / 2)) (half-bit_xor u v),
  ap (λ k. bit_xor k (v / 2)) (half-bit_xor u p),
  swap_below n (u / 2) (v / 2) (p / 2) (omega arith) (omega arith) (omega arith),
)

-- The order in which two words are added to a third does not matter.
pub bit_xor-swap : (u v p : ℕ) → bit_xor (bit_xor u v) p ≡ bit_xor (bit_xor u p) v
bit_xor-swap u v p = swap_below (u + v + p) u v p (omega arith) (omega arith) (omega arith)

pub zero-bit_xor : (a : ℕ) → bit_xor 0 a ≡ a
zero-bit_xor a = bit_xor-bitwise 0 a

-- Parts that have no digit in common are added.
pub bit_xor-disjoint : (k r q : ℕ) → r < 2 ^ k → bit_xor r (q * 2 ^ k) ≡ q * 2 ^ k + r
bit_xor-disjoint zero r q h =
    ap (λ t. bit_xor t (q * 2 ^ 0)) {x = r} {y = 0} (omega arith)
    ∙ omega (arith, zero-bit_xor (q * 2 ^ 0))
bit_xor-disjoint (suc k) r q h = ground (
  arith,
  bit_xor-halves r (q * 2 ^ suc k),
  double_pow q k,
  pow-suc 2 k,
  bit_xor-disjoint k (r / 2) q (omega (arith, pow-suc 2 k)),
)

bit_xor-none : (a : ℕ) → bit_xor a 0 ≡ a
bit_xor-none a =
    ap (λ k. bit_xor k 0) (sym (zero-bit_xor a)) ∙ (bit_xor-swap 0 a 0 ∙ zero-bit_xor a)

-- A word below `2 ^ k` reaches no digit above.
pub bit_xor-high : (k a b : ℕ) → b < 2 ^ k → bit_xor a b / 2 ^ k ≡ a / 2 ^ k
bit_xor-high zero a b h =
    ap (λ t. bit_xor a t / 2 ^ 0) {x = b} {y = 0} (omega arith)
    ∙ ap (λ t. t / 2 ^ 0) (bit_xor-none a)
bit_xor-high (suc k) a b h =
    halved (bit_xor a b) k
    ∙ ap (λ t. t / 2 ^ k) (half-bit_xor a b)
    ∙ bit_xor-high k (a / 2) (b / 2) (omega (arith, pow-suc 2 k))
    ∙ sym (halved a k)
  where
    halved : (x k : ℕ) → x / 2 ^ suc k ≡ x / 2 / 2 ^ k
    halved x k =
        ap (λ t. x / t) {x = 2 ^ suc k} {y = 2 * 2 ^ k} (omega (arith, pow-suc 2 k))
        ∙ sym (div-div-eq-div-mul x 2 (2 ^ k))
