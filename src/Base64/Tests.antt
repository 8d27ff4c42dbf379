-- ===== src/Base64/Tests.antt =====
-- The theorems on base64.c at concrete inputs.
use fast_http.Prelude.{
  ℕ, ◌≤◌, ◌≡◌, refl, true, false, none, some, inr, inl, List, [], ◌∷◌, arith, length, replicate,
}
use fast_http.Base64.{
  base64_encode_len, base64_encode, base64_url_encode, base64_encode_custom, encode_groups,
  encode_rest,
}
use fast_http.Base64.Decode.{
  strip_end, decode_groups, base64_decode, base64_url_decode, base64_decode_len, decode_rest,
  base64_decode_custom,
}
use fast_http.Base64.Roundtrip.{base64_decode-base64_encode}
use fast_http.Base64.Size.{length-base64_encode}

abbrev text : List ℕ
text = 77 ∷ 97 ∷ 110 ∷ 33 ∷ []

length-base64_encode_example :
    (length (base64_encode text true false) ≡ base64_encode_len 4 true false)
    × (length (base64_url_encode text true false) ≡ base64_encode_len 4 true false)
    × (length (base64_encode text true true) ≤ base64_encode_len 4 true true)
    × (length (base64_url_encode text true true) ≤ base64_encode_len 4 true true)
length-base64_encode_example = length-base64_encode text true

base64_decode-base64_encode_example :
    (base64_decode (base64_encode text true true) (length (base64_encode text true true))
      ≡ some text)
    × (base64_url_decode
          (base64_url_encode text true true)
          (length (base64_url_encode text true true))
        ≡ some text)
base64_decode-base64_encode_example =
    base64_decode-base64_encode text true true
      (omega arith, (omega arith, (omega arith, (omega arith, tt)))) (inr (inl (omega arith)))

-- Of a last line with one byte the decoder reads past the end.
short_last_line :
    base64_decode
      (base64_encode (replicate 58 0) false true)
      (length (base64_encode (replicate 58 0) false true))
    ≡ none
unfolding base64_decode base64_encode base64_encode_custom encode_groups encode_rest
    base64_decode_custom strip_end decode_groups decode_rest
short_last_line = refl

-- The length computed for a text with a line break is too small, and that of an empty text is read
-- from in front of it.
decode_len_short : base64_decode_len (base64_encode (replicate 57 0) true true) 78 ≡ some 54
unfolding base64_encode base64_encode_custom encode_groups encode_rest base64_decode_len
decode_len_short = refl

decode_len_empty : base64_decode_len [] 0 ≡ none
unfolding base64_decode_len
decode_len_empty = refl
