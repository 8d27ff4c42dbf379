-- ===== src/Hex/Codec.antt =====
-- `hex_encode` of hex.c against `hex_decode` and against the length computed by hex.h.
use fast_http.Prelude.{
  ℕ, zero, suc, ◌+◌, ◌*◌, ◌/◌, ◌^◌, ◌<◌, ◌≡◌, refl, ap, ◌∙◌, Bool, true, false, ◌&&◌, Option, some,
  List, [], ◌∷◌, ◌++◌, arith, bit_and, u8, leb, ◌==◌, length, get_or, drop, ◌>>=◌, length-append,
  drop-append_ge, drop-all, every_below, every_below_passes, ==_iff, Bool-cases, inl, inr,
}
use fast_http.Hex.{
  digits, enc, digit_value, decode_char_fast, given, encode_rest, encode_plain, encode, encode_len,
  decode_loop, decode,
}

abbrev pub AllBytes : List ℕ → Type 0
AllBytes [] = Unit
AllBytes (b ∷ bs) = (b < 256) × AllBytes bs

digit_table :
    every_below
      (λ ch. decode_char_fast (get_or digits (ch / 16) 0) (get_or digits (bit_and ch 0xf) 0) == ch)
      256
    ≡ true
unfolding every_below decode_char_fast digit_value
digit_table = refl

pub decode-enc :
    (ch : ℕ)
    → ch < 256
    → decode_char_fast (get_or digits (ch / 16) 0) (get_or digits (bit_and ch 0xf) 0) ≡ ch
decode-enc ch h = (==_iff _ ch).0 (every_below_passes _ 256 digit_table h)

-- The plain loop is the general one with both texts empty.
encode_plain-eq : (src : List ℕ) → encode_plain src ≡ encode_rest [] [] src
unfolding encode_plain encode_rest
encode_plain-eq [] = refl
encode_plain-eq (s ∷ src) = ap (λ r. enc s ++ r) (encode_plain-eq src)

nil_of_length : (xs : List ℕ) → (length xs == 0) ≡ true → xs ≡ []
nil_of_length [] e = refl
nil_of_length (x ∷ xs) e = absurd (ground arith)

-- Both ways of encoding are one.
encode_cons :
    (s : ℕ) (src : List ℕ) (pre spec : Option (List ℕ))
    → encode (s ∷ src) pre spec ≡ given pre ++ (enc s ++ encode_rest (given pre) (given spec) src)
unfolding encode encode_rest
encode_cons s src pre spec =
    elim (Bool-cases (length (given pre) == 0 && length (given spec) == 0)) [
      | inl none_given ↦
          let (no_pre, no_spec) = both _ _ none_given in
          rw
            (
              none_given,
              nil_of_length (given pre) no_pre,
              nil_of_length (given spec) no_spec,
              encode_plain-eq (s ∷ src),
            )
            refl
      | inr some_given ↦ rw some_given refl
    ]
  where
    both : (a b : Bool) → (a && b) ≡ true → (a ≡ true) × (b ≡ true)
    both a b e = ground arith

abbrev high_digit : ℕ → ℕ
high_digit ch = get_or digits (ch / 16) 0

abbrev low_digit : ℕ → ℕ
low_digit ch = get_or digits (bit_and ch 0xf) 0

enc_lem : (ch : ℕ) → enc ch ≡ high_digit ch ∷ low_digit ch ∷ []
unfolding enc
enc_lem ch = refl

-- One round, on the two digits of a byte.
decode_loop-step :
    (fuel step ch : ℕ) (rest : List ℕ)
    → ch < 256
    → decode_loop (suc fuel) step (enc ch ++ rest)
      ≡ (decode_loop fuel step (drop step (enc ch ++ rest)) >>= λ d. some (ch ∷ d))
unfolding decode_loop
decode_loop-step fuel step ch rest h =
    let two : leb 2 (suc (suc (length rest))) ≡ true = ground arith in
    rw (enc_lem ch, two, decode-enc ch h) refl

decode_loop-nil : (fuel step : ℕ) → 0 < fuel → decode_loop fuel step [] ≡ some []
unfolding decode_loop
decode_loop-nil zero step h = absurd (omega arith)
decode_loop-nil (suc fuel) step h = refl

-- A step of the decoder leads from one byte to the next.
next_byte :
    (s : ℕ) (pre spec rest : List ℕ)
    → drop (2 + length pre + length spec) (enc s ++ (spec ++ (pre ++ rest))) ≡ rest
next_byte s pre spec rest =
    drop-append_ge (2 + length pre + length spec) (length pre + length spec) (enc s) _
      (rw (enc_lem s) (omega arith))
    ∙ (drop-append_ge (length pre + length spec) (length pre) spec (pre ++ rest) (omega arith)
        ∙ drop-append_ge (length pre) 0 pre rest (omega arith))

-- The walk over what is behind the first text.
decode_loop-encode :
    (fuel s : ℕ) (src pre spec : List ℕ)
    → AllBytes (s ∷ src)
    → length src < fuel
    → decode_loop (suc fuel) (2 + length pre + length spec) (enc s ++ encode_rest pre spec src)
      ≡ some (s ∷ src)
unfolding encode_rest
decode_loop-encode fuel s [] pre spec h f =
    decode_loop-step fuel (2 + length pre + length spec) s [] h.0
    ∙ rw
        (
          drop-all (2 + length pre + length spec) (enc s ++ []) (rw (enc_lem s) (omega arith)),
          decode_loop-nil fuel (2 + length pre + length spec) f,
        )
        refl
decode_loop-encode zero s (s' ∷ src) pre spec h f = absurd (omega arith)
decode_loop-encode (suc fuel) s (s' ∷ src) pre spec h f =
    decode_loop-step (suc fuel) (2 + length pre + length spec) s _ h.0
    ∙ rw
        (
          next_byte s pre spec (enc s' ++ encode_rest pre spec src),
          decode_loop-encode fuel s' src pre spec h.1 (omega arith),
        )
        refl

length-enc : (ch : ℕ) → length (enc ch) ≡ 2
length-enc ch = ap length (enc_lem ch)

length-encode_rest :
    (pre spec src : List ℕ)
    → length (encode_rest pre spec src) ≡ length src * (2 + length pre + length spec)
unfolding encode_rest
length-encode_rest pre spec [] = omega arith
length-encode_rest pre spec (s ∷ src) = omega (
  arith,
  length-append spec (pre ++ (enc s ++ encode_rest pre spec src)),
  length-append pre (enc s ++ encode_rest pre spec src),
  length-append (enc s) (encode_rest pre spec src),
  length-enc s,
  length-encode_rest pre spec src,
)

length-encode_cons :
    (s : ℕ) (src : List ℕ) (pre spec : Option (List ℕ))
    → let step = 2 + length (given pre) + length (given spec) in
      length (encode (s ∷ src) pre spec) ≡ length (given pre) + 2 + length src * step
length-encode_cons s src pre spec =
    ap length (encode_cons s src pre spec)
    ∙ omega (
      arith,
      length-append (given pre) (enc s ++ encode_rest (given pre) (given spec) src),
      length-append (enc s) (encode_rest (given pre) (given spec) src),
      length-enc s,
      length-encode_rest (given pre) (given spec) src,
    )

-- `hex_encode` writes as many bytes as `hex_encode_len` computes, with or without the texts, as long
-- as that number fits a `size_t`.
pub length-encode :
    (src : List ℕ) (pre spec : Option (List ℕ))
    → (2 + length (given pre) + length (given spec)) * length src < 2 ^ 64
    → length (encode src pre spec)
      ≡ encode_len (length src) (length (given pre)) (length (given spec))
unfolding encode_len
length-encode [] pre spec fits = unfold encode in refl
length-encode (s ∷ src) pre spec fits =
    let some_bytes : (suc (length src) == 0) ≡ false = ground arith in
    rw some_bytes (omega (arith, length-encode_cons s src pre spec, fits))

-- `hex_decode` undoes `hex_encode`, whatever text stands before and between the bytes, if a step of
-- the decoder, two digits and both texts, fits its `uint8_t`.
pub decode-encode :
    (src : List ℕ) (pre spec : Option (List ℕ))
    → AllBytes src
    → 2 + length (given pre) + length (given spec) < 256
    → decode (encode src pre spec) (length (given pre)) (length (given spec)) ≡ some src
unfolding decode
decode-encode [] pre spec h small = unfold encode in refl
decode-encode (s ∷ src) pre spec h small =
    let code = enc s ++ encode_rest (given pre) (given spec) src in
    let size = length-encode_cons s src pre spec in
    let two : leb 2 (length (encode (s ∷ src) pre spec)) ≡ true = ground (arith, size) in
    let step : u8 (2 + length (given pre) + length (given spec))
        ≡ 2 + length (given pre) + length (given spec) =
      omega arith in
    let fuel : length (encode (s ∷ src) pre spec) + 1 ≡ suc (length (encode (s ∷ src) pre spec)) =
      omega arith in
    let skipped : drop (length (given pre)) (encode (s ∷ src) pre spec) ≡ code =
      ap (drop (length (given pre))) (encode_cons s src pre spec)
      ∙ drop-append_ge (length (given pre)) 0 (given pre) code (omega arith) in
    rw (two, step, fuel, skipped)
      (decode_loop-encode (length (encode (s ∷ src) pre spec)) s src (given pre) (given spec) h
        (omega (arith, size)))
