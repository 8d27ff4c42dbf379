-- ===== src/Hex/Tests.antt =====
-- The round trip of hex.c at concrete inputs.
use fast_http.Prelude.{ℕ, ◌≡◌, some, List, [], ◌∷◌, arith}
use fast_http.Hex.{encode, decode, given}
use fast_http.Hex.Codec.{AllBytes, decode-encode}

abbrev bytes : List ℕ
bytes = 0 ∷ 127 ∷ 255 ∷ []

bytes-AllBytes : AllBytes bytes
bytes-AllBytes = (omega arith, (omega arith, (omega arith, tt)))

decode-encode_example :
    decode (encode bytes (some (b'x' ∷ [])) (some (b',' ∷ b' ' ∷ []))) 1 2 ≡ some bytes
unfolding given
decode-encode_example =
    decode-encode bytes (some (b'x' ∷ [])) (some (b',' ∷ b' ' ∷ [])) bytes-AllBytes (omega arith)
