-- ===== src/Base64.antt =====
-- base64.c: the encoder and the length that it needs. The destination is the list of the bytes that
-- are written to it, in order.
pub mod Size
pub mod Decode
pub mod Groups
pub mod Stripped
pub mod Coded
pub mod Roundtrip
mod Tests
use fast_http.Prelude.{
  ℕ, zero, suc, ◌+◌, ◌-◌, ◌*◌, ◌/◌, ◌%◌, ◌^◌, Bool, true, false, List, [], ◌∷◌, ◌++◌, bit_and,
  bit_or, leb, ◌==◌, if◌then◌else◌, get_or,
}

-- `ENC_MAP` and `URL_ENC_MAP`
abbrev pub enc_map : List ℕ
enc_map =
    65 ∷ 66 ∷ 67 ∷ 68 ∷ 69 ∷ 70 ∷ 71 ∷ 72 ∷ 73 ∷ 74 ∷ 75 ∷ 76 ∷ 77 ∷ 78 ∷ 79 ∷ 80 ∷ 81 ∷ 82 ∷ 83
    ∷ 84 ∷ 85 ∷ 86 ∷ 87 ∷ 88 ∷ 89 ∷ 90 ∷ 97 ∷ 98 ∷ 99 ∷ 100 ∷ 101 ∷ 102 ∷ 103 ∷ 104 ∷ 105 ∷ 106
    ∷ 107 ∷ 108 ∷ 109 ∷ 110 ∷ 111 ∷ 112 ∷ 113 ∷ 114 ∷ 115 ∷ 116 ∷ 117 ∷ 118 ∷ 119 ∷ 120 ∷ 121 ∷ 122
    ∷ 48 ∷ 49 ∷ 50 ∷ 51 ∷ 52 ∷ 53 ∷ 54 ∷ 55 ∷ 56 ∷ 57 ∷ 43 ∷ 47 ∷ []

abbrev pub url_enc_map : List ℕ
url_enc_map =
    65 ∷ 66 ∷ 67 ∷ 68 ∷ 69 ∷ 70 ∷ 71 ∷ 72 ∷ 73 ∷ 74 ∷ 75 ∷ 76 ∷ 77 ∷ 78 ∷ 79 ∷ 80 ∷ 81 ∷ 82 ∷ 83
    ∷ 84 ∷ 85 ∷ 86 ∷ 87 ∷ 88 ∷ 89 ∷ 90 ∷ 97 ∷ 98 ∷ 99 ∷ 100 ∷ 101 ∷ 102 ∷ 103 ∷ 104 ∷ 105 ∷ 106
    ∷ 107 ∷ 108 ∷ 109 ∷ 110 ∷ 111 ∷ 112 ∷ 113 ∷ 114 ∷ 115 ∷ 116 ∷ 117 ∷ 118 ∷ 119 ∷ 120 ∷ 121 ∷ 122
    ∷ 48 ∷ 49 ∷ 50 ∷ 51 ∷ 52 ∷ 53 ∷ 54 ∷ 55 ∷ 56 ∷ 57 ∷ 45 ∷ 95 ∷ []

unfoldable pub base64_encode_len : ℕ → Bool → Bool → ℕ
base64_encode_len srclen padding line_break =
    let m = srclen % 3 in
    let rest = if m == 0 then 0 else if padding then 4 else if m == 1 then 2 else 3 in
    let c = srclen / 3 * 4 + rest in if line_break then c + c / 76 * 2 else c

module _ (padding line_break : Bool) (map : List ℕ) where
  -- `map[i]`
  abbrev look : ℕ → ℕ
  look i = get_or map i 0

  -- Less than three bytes.
  unfoldable pub encode_rest : List ℕ → List ℕ
  encode_rest [] = []
  encode_rest (s0 ∷ []) =
      look (s0 / 4) ∷ look (bit_and s0 3 * 16) ∷ (if padding then b'=' ∷ b'=' ∷ [] else [])
  encode_rest (s0 ∷ s1 ∷ more) =
      look (s0 / 4)
      ∷ look (bit_and s0 3 * 16 + s1 / 16)
      ∷ look (bit_and s1 15 * 4)
      ∷ (if padding then b'=' ∷ [] else [])

  -- Three bytes at a time; `line_count` is how many are in the line.
  unfoldable pub encode_groups : ℕ → List ℕ → List ℕ
  encode_groups line_count [] = encode_rest []
  encode_groups line_count (s0 ∷ []) = encode_rest (s0 ∷ [])
  encode_groups line_count (s0 ∷ s1 ∷ []) = encode_rest (s0 ∷ s1 ∷ [])
  encode_groups line_count (s0 ∷ s1 ∷ s2 ∷ src) =
      let full = leb 76 (line_count + 4) in
      let broken = b'\r' ∷ b'\n' ∷ encode_groups 0 src in
      let same_line = encode_groups (line_count + 4) src in
      let unbroken = encode_groups line_count src in
      look (s0 / 4)
      ∷ look (bit_or (bit_and s0 3 * 16) (s1 / 16))
      ∷ look (bit_or (bit_and s1 15 * 4) (s2 / 64))
      ∷ look (bit_and s2 0x3f)
      ∷ (if line_break then (if full then broken else same_line) else unbroken)

  unfoldable pub base64_encode_custom : List ℕ → List ℕ
  base64_encode_custom = encode_groups 0

unfoldable pub base64_encode : List ℕ → Bool → Bool → List ℕ
base64_encode src padding line_break = base64_encode_custom padding line_break enc_map src

unfoldable pub base64_url_encode : List ℕ → Bool → Bool → List ℕ
base64_url_encode src padding line_break = base64_encode_custom padding line_break url_enc_map src
