-- ===== src/Base64/Groups.antt =====
-- Groups of base64.c: what the decoder makes of four characters, of fewer, and of a line break.
use fast_http.Prelude.{
  ℕ, suc, ◌+◌, ◌-◌, ◌*◌, ◌/◌, ◌%◌, ◌<◌, ◌≡◌, refl, ◌∙◌, true, false, some, List, [], ◌∷◌, arith,
  bit_and, bit_or, u8, ltb, ◌==◌, get_elem?,
}
use fast_http.Prelude.Bits.{bit_and-low, bit_or-disjoint}
use fast_http.Base64.Decode.{decode_rest, decode_groups}

module _ (dec : List ℕ) where
  -- Four characters in front of what decodes to `d`.
  pub decode_four :
      {k0 k1 k2 k3 : ℕ} (c0 c1 c2 c3 : ℕ) (rest : List ℕ) (fuel left : ℕ) {d : List ℕ}
      → get_elem? dec c0 ≡ some k0
      → get_elem? dec c1 ≡ some k1
      → get_elem? dec c2 ≡ some k2
      → get_elem? dec c3 ≡ some k3
      → (c0 == b'\r') ≡ false
      → decode_groups dec fuel rest left ≡ some d
      → decode_groups dec (suc fuel) (c0 ∷ c1 ∷ c2 ∷ c3 ∷ rest) (suc (suc (suc (suc left))))
        ≡ some (
            u8 (bit_or (k0 * 4) (k1 / 16))
            ∷ u8 (bit_or (k1 * 16) (k2 / 4))
            ∷ u8 (bit_or (k2 * 64) k3)
            ∷ d)
  unfolding decode_groups
  decode_four c0 c1 c2 c3 rest fuel left e0 e1 e2 e3 same_line h =
      let more : ltb 3 (suc (suc (suc (suc left)))) ≡ true = ground arith in
      let less : suc (suc (suc (suc left))) - 0 - 4 ≡ left = omega arith in
      rw (more, same_line, e0, e1, e2, e3, less, h) refl

  -- Two characters at the end, whatever stands behind them.
  pub decode_two :
      {k0 k1 : ℕ} (c0 c1 : ℕ) (rest : List ℕ) (fuel : ℕ)
      → get_elem? dec c0 ≡ some k0
      → get_elem? dec c1 ≡ some k1
      → decode_groups dec (suc fuel) (c0 ∷ c1 ∷ rest) 2 ≡ some (u8 (bit_or (k0 * 4) (k1 / 16)) ∷ [])
  unfolding decode_groups decode_rest
  decode_two c0 c1 rest fuel e0 e1 = rw (e0, e1) refl

  pub decode_three :
      {k0 k1 k2 : ℕ} (c0 c1 c2 : ℕ) (rest : List ℕ) (fuel : ℕ)
      → get_elem? dec c0 ≡ some k0
      → get_elem? dec c1 ≡ some k1
      → get_elem? dec c2 ≡ some k2
      → decode_groups dec (suc fuel) (c0 ∷ c1 ∷ c2 ∷ rest) 3
        ≡ some (u8 (bit_or (k0 * 4) (k1 / 16)) ∷ u8 (bit_or (k1 * 16) (k2 / 4)) ∷ [])
  unfolding decode_groups decode_rest
  decode_three c0 c1 c2 rest fuel e0 e1 e2 = rw (e0, e1, e2) refl

  -- A line break in front of a group changes nothing.
  pub decode_break :
      (c0 : ℕ) (rest : List ℕ) (fuel left : ℕ)
      → 3 < left
      → (c0 == b'\r') ≡ false
      → decode_groups dec (suc fuel) (b'\r' ∷ b'\n' ∷ c0 ∷ rest) (suc (suc left))
        ≡ decode_groups dec (suc fuel) (c0 ∷ rest) left
  unfolding decode_groups
  decode_break c0 rest fuel left enough same_line =
      let more : ltb 3 (suc (suc left)) ≡ true = ground arith in
      let more' : ltb 3 left ≡ true = ground arith in
      let less : suc (suc left) - 2 - 4 ≡ left - 0 - 4 = omega arith in
      rw (more, more', same_line, less) refl

pub decode_none :
    (dec : List ℕ) (fuel : ℕ) (rest : List ℕ) → decode_groups dec (suc fuel) rest 0 ≡ some []
unfolding decode_groups decode_rest
decode_none dec fuel rest = refl

-- What the encoder looks up, of its three bytes.
abbrev pub second : ℕ → ℕ → ℕ
second s0 s1 = bit_or (bit_and s0 3 * 16) (s1 / 16)

abbrev pub third : ℕ → ℕ → ℕ
third s1 s2 = bit_or (bit_and s1 15 * 4) (s2 / 64)

pub second_lem : (s0 s1 : ℕ) → s1 < 256 → second s0 s1 ≡ s0 % 4 * 16 + s1 / 16
second_lem s0 s1 h =
    bit_or-disjoint 4 (bit_and s0 3) (s1 / 16) (omega arith) ∙ omega (arith, bit_and-low 2 s0)

pub third_lem : (s1 s2 : ℕ) → s2 < 256 → third s1 s2 ≡ s1 % 16 * 4 + s2 / 64
third_lem s1 s2 h =
    bit_or-disjoint 2 (bit_and s1 15) (s2 / 64) (omega arith) ∙ omega (arith, bit_and-low 4 s1)

-- What the decoder puts together.
pub first_byte : (s0 k1 : ℕ) → s0 < 256 → k1 / 16 ≡ s0 % 4 → u8 (bit_or (s0 / 4 * 4) (k1 / 16)) ≡ s0
first_byte s0 k1 h e = omega (arith, bit_or-disjoint 2 (s0 / 4) (k1 / 16) (omega arith))

pub second_byte :
    (s1 k1 k2 : ℕ)
    → s1 < 256
    → k1 % 16 ≡ s1 / 16
    → k2 / 4 ≡ s1 % 16
    → u8 (bit_or (k1 * 16) (k2 / 4)) ≡ s1
second_byte s1 k1 k2 h e e' = omega (arith, bit_or-disjoint 4 k1 (k2 / 4) (omega arith))

pub third_byte :
    (s2 k2 k3 : ℕ) → s2 < 256 → k2 % 4 ≡ s2 / 64 → k3 ≡ s2 % 64 → u8 (bit_or (k2 * 64) k3) ≡ s2
third_byte s2 k2 k3 h e e' = omega (arith, bit_or-disjoint 6 k2 k3 (omega arith))
