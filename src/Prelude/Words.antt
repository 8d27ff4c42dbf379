-- ===== src/Prelude/Words.antt =====
-- Fixed-width words as native numbers: the casts, shifts and masks of C.
use Prim.Native.Nat.{ℕ, zero, suc, ◌+◌, ◌-◌, ◌%◌, ◌^◌, ◌<◌}
use mathlib.Core.Path.{◌≡◌}
use mathlib.Core.Bool.{Bool, true, ◌&&◌}
use native.Mathlib.Omega.{arith}

abbrev pub u8 : ℕ → ℕ
u8 n = n % 2 ^ 8

abbrev pub u32 : ℕ → ℕ
u32 n = n % 2 ^ 32

-- `a - b` on a `uint32_t`: it wraps, where `-` on ℕ stops at 0.
abbrev pub sub32 : ℕ → ℕ → ℕ
sub32 a b = (a + 2 ^ 32 - b) % 2 ^ 32

abbrev pub u32_max : ℕ
u32_max = 0xffff_ffff

-- A test that all the numbers below a bound pass, by evaluation.
unfoldable pub every_below : (ℕ → Bool) → ℕ → Bool
every_below test zero = true
every_below test (suc bound) = every_below test bound && test bound

pub every_below_passes :
    (test : ℕ → Bool) {k : ℕ} (bound : ℕ)
    → every_below test bound ≡ true
    → k < bound
    → test k ≡ true
unfolding every_below
every_below_passes test zero passed below = absurd (omega arith)
every_below_passes test {k} (suc bound) passed below =
    ground (arith, passed, every_below_passes test {k = k} bound)
