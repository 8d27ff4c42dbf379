-- ===== src/Crc32/Bitwise.antt =====
-- The checksum of crc32.c against the division by the polynomial, one bit at a time.
use native.Mathlib.Nat.{mod-lt, mod-add-div', one-le-pow}
use fast_http.Prelude.{
  ℕ, zero, suc, ◌*◌, ◌/◌, ◌%◌, ◌^◌, ◌<◌, ◌≡◌, refl, sym, ap, ap₂, ◌∙◌, Bool, true, false, List, [],
  ◌∷◌, arith, bit_xor, ◌==◌, if◌then◌else◌, get_or, every_below, every_below_passes, ==_iff,
}
use fast_http.Prelude.Bits.{bit_and-low, double_pow}
use fast_http.Prelude.Xor.{half-bit_xor, bit_xor-mod, bit_xor-swap, bit_xor-disjoint, bit_xor-high}
use fast_http.Hex.Codec.{AllBytes}
use fast_http.Crc32.{crc32tab, crc_step, crc_loop, crc32}

-- One bit: the word is halved, and the reversed polynomial is added if a 1 falls out.
abbrev pub bit_step : ℕ → ℕ
bit_step c = if c % 2 == 0 then c / 2 else bit_xor (c / 2) 0xedb8_8320

abbrev pub bit_steps : ℕ → ℕ → ℕ
bit_steps zero c = c
bit_steps (suc n) c = bit_steps n (bit_step c)

-- The checksum with a byte added to the register before each eight bits.
abbrev pub by_bits : ℕ → List ℕ → ℕ
by_bits crc [] = crc
by_bits crc (b ∷ bytes) = by_bits (bit_steps 8 (bit_xor crc b)) bytes

table_checked : every_below (λ i. get_or crc32tab i 0 == bit_steps 8 i) 256 ≡ true
unfolding every_below
table_checked = refl

-- An even word passes through a step as its half.
bit_step-even : (a h : ℕ) → bit_step (bit_xor a (2 * h)) ≡ bit_xor (bit_step a) h
bit_step-even a h =
    let parity : bit_xor a (2 * h) % 2 ≡ a % 2 = omega (arith, bit_xor-mod a (2 * h)) in
    let half : bit_xor a (2 * h) / 2 ≡ bit_xor (a / 2) h =
      half-bit_xor a (2 * h) ∙ ap (bit_xor (a / 2)) {x = 2 * h / 2} {y = h} (omega arith) in
    rw (parity, half) (by_parity (a % 2 == 0))
  where
    by_parity :
        (even : Bool)
        → (if even then bit_xor (a / 2) h else bit_xor (bit_xor (a / 2) h) 0xedb8_8320)
          ≡ bit_xor (if even then a / 2 else bit_xor (a / 2) 0xedb8_8320) h
    by_parity true = refl
    by_parity false = bit_xor-swap (a / 2) h 0xedb8_8320

bit_steps-high : (k a h : ℕ) → bit_steps k (bit_xor a (h * 2 ^ k)) ≡ bit_xor (bit_steps k a) h
bit_steps-high zero a h = ap (bit_xor a) {x = h * 2 ^ 0} {y = h} (omega arith)
bit_steps-high (suc k) a h =
    ap (λ t. bit_steps k (bit_step (bit_xor a t))) (double_pow h k)
    ∙ ap (bit_steps k) (bit_step-even a (h * 2 ^ k))
    ∙ bit_steps-high k (bit_step a) h

-- The low digits of a word are divided, the others only shifted.
bit_steps-split : (k x : ℕ) → bit_steps k x ≡ bit_xor (bit_steps k (x % 2 ^ k)) (x / 2 ^ k)
bit_steps-split k x =
    ap (bit_steps k) (
      omega (
        arith,
        mod-add-div' x (2 ^ k),
        bit_xor-disjoint k (x % 2 ^ k) (x / 2 ^ k) (mod-lt x (one-le-pow k 2 (omega arith))),
      ))
    ∙ bit_steps-high k (x % 2 ^ k) (x / 2 ^ k)

crc_step-bit_steps : (crc b : ℕ) → b < 256 → crc_step crc b ≡ bit_steps 8 (bit_xor crc b)
unfolding crc_step
crc_step-bit_steps crc b h =
    let x = bit_xor crc b in
    ap₂ bit_xor
      (ap (λ i. get_or crc32tab i 0) (bit_and-low 8 x)
        ∙ (==_iff _ _).0 (every_below_passes _ {k = x % 2 ^ 8} 256 table_checked (omega arith)))
      (sym (bit_xor-high 8 crc b h))
    ∙ sym (bit_steps-split 8 x)

crc_loop-by_bits :
    (crc : ℕ) (bytes : List ℕ) → AllBytes bytes → crc_loop crc bytes ≡ by_bits crc bytes
unfolding crc_loop
crc_loop-by_bits crc [] h = refl
crc_loop-by_bits crc (b ∷ bytes) h =
    ap (λ c. crc_loop c bytes) (crc_step-bit_steps crc b h.0)
    ∙ crc_loop-by_bits (bit_steps 8 (bit_xor crc b)) bytes h.1

-- `crc32` is the checksum that divides bit by bit by the polynomial 0x04C11DB7, reversed, for every
-- text of bytes.
pub crc32-by_bits :
    (bytes : List ℕ)
    → AllBytes bytes
    → crc32 bytes ≡ bit_xor (by_bits 0xffff_ffff bytes) 0xffff_ffff
unfolding crc32
crc32-by_bits bytes h = ap (λ c. bit_xor c 0xffff_ffff) (crc_loop-by_bits 0xffff_ffff bytes h)
