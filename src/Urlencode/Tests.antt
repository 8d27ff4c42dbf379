-- ===== src/Urlencode/Tests.antt =====
-- The theorems on urlencode.c at concrete inputs, with a shift that takes its distance modulo 32.
use native.Mathlib.Nat.{mod-eq_of_lt}
use fast_http.Prelude.{ℕ, ◌/◌, ◌%◌, ◌^◌, ◌≡◌, ap, List, [], ◌∷◌, arith, length}
use fast_http.Hex.Codec.{AllBytes}
use fast_http.Urlencode.{
  Shift, url_encode, url_component_encode, url_encode_length, url_component_encode_length,
  url_decode,
}
use fast_http.Urlencode.Codec.{url_decode-url_encode}
use fast_http.Urlencode.Required.{escapes, url_decode-escapes}

abbrev rotating : Shift
rotating = record {
  shift = λ x n. x / 2 ^ (n % 32);
  defined = λ x n h. ap (λ k. x / 2 ^ k) (mod-eq_of_lt h);
}

-- `a b%`
abbrev text : List ℕ
text = 97 ∷ 32 ∷ 98 ∷ 37 ∷ []

text-AllBytes : AllBytes text
text-AllBytes = (omega arith, (omega arith, (omega arith, (omega arith, tt))))

url_decode-url_encode_example :
    (url_decode (url_encode rotating text (url_encode_length rotating text)) 5 ≡ text)
    × (url_decode (url_component_encode rotating text (url_component_encode_length rotating text)) 5
        ≡ text)
url_decode-url_encode_example = url_decode-url_encode rotating text 5 text-AllBytes (omega arith)

url_decode-escapes_example :
    length (url_decode (escapes ((52, 49) ∷ (52, 50) ∷ (52, 51) ∷ [])) 1) ≡ 3
url_decode-escapes_example =
    url_decode-escapes ((52, 49) ∷ (52, 50) ∷ (52, 51) ∷ []) 1 (omega arith)
