-- ===== src/Base64/Roundtrip.antt =====
-- base64.c's decoder on what its encoder writes.
use fast_http.Prelude.{
  ℕ, zero, suc, ◌+◌, ◌*◌, ◌/◌, ◌%◌, ◌≤◌, ◌<◌, ◌≡◌, ◌⊎◌, inl, inr, refl, ap, ◌∙◌, Bool, true, false,
  some, List, [], ◌∷◌, arith, leb, ◌>>=◌, length, dec_le,
}
use fast_http.Hex.Codec.{AllBytes}
use fast_http.Base64.{
  enc_map, url_enc_map, encode_rest, encode_groups, base64_encode_custom, base64_encode,
  base64_url_encode,
}
use fast_http.Base64.Decode.{
  dec_map, url_dec_map, decode_groups, base64_decode_custom, base64_decode, base64_url_decode,
}
use fast_http.Base64.Coded.{
  Inverse, plain_maps, url_maps, Coded, nil-Coded, group-Coded, break-Coded, one-Coded, two-Coded,
  table, nothing,
}
use fast_http.Base64.Stripped.{strip_end-more}

-- The last line, of all the `n` bytes, is the only one, or is full, or has a group of three bytes.
abbrev LastLine : Bool → ℕ → Type 0
LastLine line_break n = line_break ≡ true → (n < 57) ⊎ ((n + 54) % 57 ≤ 54)

-- After a line break what is left is nothing, or has a group.
next_line :
    (count n : ℕ)
    → 76 ≤ count + 4
    → count < 76
    → count % 4 ≡ 0
    → (count / 4 * 3 + suc (suc (suc n)) < 57)
      ⊎ ((count / 4 * 3 + suc (suc (suc n)) + 54) % 57 ≤ 54)
    → (n ≡ 0) ⊎ (3 ≤ n)
next_line count zero full low whole last = inl refl
next_line count (suc n) full low whole (inl h) = absurd (omega arith)
next_line count (suc n) full low whole (inr h) = inr (omega arith)

next_last :
    (count n : ℕ)
    → 76 ≤ count + 4
    → count < 76
    → count % 4 ≡ 0
    → (count / 4 * 3 + suc (suc (suc n)) < 57)
      ⊎ ((count / 4 * 3 + suc (suc (suc n)) + 54) % 57 ≤ 54)
    → (0 / 4 * 3 + n < 57) ⊎ ((0 / 4 * 3 + n + 54) % 57 ≤ 54)
next_last count n full low whole (inl h) = absurd (omega arith)
next_last count n full low whole (inr h) = inr (omega arith)

same_line :
    (count n : ℕ)
    → count % 4 ≡ 0
    → (count / 4 * 3 + suc (suc (suc n)) < 57)
      ⊎ ((count / 4 * 3 + suc (suc (suc n)) + 54) % 57 ≤ 54)
    → ((count + 4) / 4 * 3 + n < 57) ⊎ (((count + 4) / 4 * 3 + n + 54) % 57 ≤ 54)
same_line count n whole (inl h) = inl (omega arith)
same_line count n whole (inr h) = inr (omega arith)

module _ (enc dec : List ℕ) (inverse : Inverse enc dec) (padding : Bool) where
  abbrev Decodes : Bool → ℕ → List ℕ → Type 0
  Decodes line_break count src =
      (w : Coded dec (encode_groups padding line_break enc count src) src) × (3 ≤ length src
        → 3 < w.left)

  broken :
      (src : List ℕ)
      → AllBytes src
      → (length src ≡ 0) ⊎ (3 ≤ length src)
      → Decodes true 0 src
      → Coded dec (b'\r' ∷ b'\n' ∷ encode_groups padding true enc 0 src) src
  unfolding encode_groups encode_rest
  broken [] bytes whole (w, long) =
      nil-Coded dec (b'\r' ∷ b'\n' ∷ [])
        (strip_end-more (b'\r') (b'\n' ∷ []) 1 refl (strip_end-more (b'\n') [] 0 refl (nothing [])))
  broken (a ∷ []) bytes (inl e) (w, long) = absurd (omega arith)
  broken (a ∷ []) bytes (inr e) (w, long) = absurd (omega arith)
  broken (a ∷ b ∷ []) bytes (inl e) (w, long) = absurd (omega arith)
  broken (a ∷ b ∷ []) bytes (inr e) (w, long) = absurd (omega arith)
  broken (a ∷ b ∷ c ∷ src) (ha, (hb, (hc, bytes))) whole (w, long) =
      let t0 = table enc dec {k = a / 4} inverse (omega arith) in
      let (v, more) =
        break-Coded enc dec inverse _ _ (a ∷ b ∷ c ∷ src) (t0.1) w (long (omega arith)) in
      v

  coded :
      (line_break : Bool) (count : ℕ) (src : List ℕ)
      → AllBytes src
      → count < 76
      → count % 4 ≡ 0
      → LastLine line_break (count / 4 * 3 + length src)
      → Decodes line_break count src
  unfolding encode_groups encode_rest
  coded line_break count [] bytes low whole last =
      (nil-Coded dec [] (nothing []), λ h. absurd (omega arith))
  coded line_break count (a ∷ []) (ha, tt) low whole last =
      (one-Coded enc dec inverse a padding ha, λ h. absurd (omega arith))
  coded line_break count (a ∷ b ∷ []) (ha, (hb, tt)) low whole last =
      (two-Coded enc dec inverse a b padding ha hb, λ h. absurd (omega arith))
  coded false count (a ∷ b ∷ c ∷ src) (ha, (hb, (hc, bytes))) low whole last =
      let (w, _) = coded false count src bytes low whole (λ e. cc) in
      let (v, e) = group-Coded enc dec inverse a b c _ src ha hb hc w in (v, λ h. omega (arith, e))
  coded true count (a ∷ b ∷ c ∷ src) (ha, (hb, (hc, bytes))) low whole last =
      elim (dec_le 76 (count + 4)) [
        | yes full ↦
            let test : leb 76 (count + 4) ≡ true = ground arith in
            let rest = broken src bytes (next_line count (length src) full low whole (last refl)) (
              coded true 0 src bytes (omega arith) refl
                (λ e. next_last count (length src) full low whole (last refl))) in
            let (v, e) = group-Coded enc dec inverse a b c _ src ha hb hc rest in
            rw test (v, λ h. omega (arith, e))
        | no room ↦
            let test : leb 76 (count + 4) ≡ false = ground arith in
            let (w, long) =
              coded true (count + 4) src bytes (omega arith) (omega arith)
                (λ e. same_line count (length src) whole (last refl)) in
            let (v, e) = group-Coded enc dec inverse a b c _ src ha hb hc w in
            rw test (v, λ h. omega (arith, e))
      ]

  decode-encode :
      (line_break : Bool) (src : List ℕ)
      → AllBytes src
      → LastLine line_break (0 + length src)
      → base64_decode_custom dec
          (encode_groups padding line_break enc 0 src)
          (length (encode_groups padding line_break enc 0 src))
        ≡ some src
  unfolding base64_decode_custom
  decode-encode line_break src bytes last =
      let (w, _) = coded line_break 0 src bytes (omega arith) refl last in
      ap (λ o. o >>= λ n. decode_groups dec (n + 1) (encode_groups padding line_break enc 0 src) n)
        w.stripped
      ∙ w.decodes (w.left + 1) (omega arith)

-- The decoders give back any bytes that the encoder of the same alphabet wrote, with or without padding,
-- without line breaks or with them, unless the last of several lines would hold one or two bytes only.
pub base64_decode-base64_encode :
    (src : List ℕ) (padding line_break : Bool)
    → AllBytes src
    → (line_break ≡ false) ⊎ ((length src < 57) ⊎ ((length src % 57 ≡ 0) ⊎ (3 ≤ length src % 57)))
    → (base64_decode
          (base64_encode src padding line_break)
          (length (base64_encode src padding line_break))
        ≡ some src)
      × (base64_url_decode
            (base64_url_encode src padding line_break)
            (length (base64_url_encode src padding line_break))
          ≡ some src)
unfolding base64_decode base64_url_decode base64_encode base64_url_encode base64_encode_custom
base64_decode-base64_encode src padding line_break bytes lines =
    let last = last_line lines in
    (
      decode-encode enc_map dec_map plain_maps padding line_break src bytes last,
      decode-encode url_enc_map url_dec_map url_maps padding line_break src bytes last,
    )
  where
    last_line :
        (line_break ≡ false) ⊎ ((length src < 57) ⊎ ((length src % 57 ≡ 0) ⊎ (3 ≤ length src % 57)))
        → LastLine line_break (0 + length src)
    last_line (inl plain) e = cc
    last_line (inr (inl short)) e = inl (omega arith)
    last_line (inr (inr (inl full))) e = inr (omega arith)
    last_line (inr (inr (inr long))) e = inr (omega arith)
