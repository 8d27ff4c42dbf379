-- ===== src/Base64/Size.antt =====
-- How much the encoder writes.
use fast_http.Prelude.{
  ℕ, ◌+◌, ◌*◌, ◌/◌, ◌%◌, ◌≤◌, ◌<◌, ◌≡◌, refl, Bool, true, false, List, [], ◌∷◌, arith, leb, length,
  dec_le,
}
use fast_http.Base64.{
  enc_map, url_enc_map, base64_encode_len, encode_rest, encode_groups, base64_encode_custom,
  base64_encode, base64_url_encode,
}

length-plain :
    (padding : Bool) (map : List ℕ) (count : ℕ) (src : List ℕ)
    → length (encode_groups padding false map count src)
      ≡ base64_encode_len (length src) padding false
unfolding encode_groups encode_rest base64_encode_len
length-plain true map count [] = refl
length-plain true map count (a ∷ []) = refl
length-plain true map count (a ∷ b ∷ []) = refl
length-plain false map count [] = refl
length-plain false map count (a ∷ []) = refl
length-plain false map count (a ∷ b ∷ []) = refl
length-plain true map count (a ∷ b ∷ c ∷ src) = ground (arith, length-plain true map count src)
length-plain false map count (a ∷ b ∷ c ∷ src) = ground (arith, length-plain false map count src)

-- The line breaks, after every 76th of the full groups' characters.
length-broken :
    (padding : Bool) (map : List ℕ) (count : ℕ) (src : List ℕ)
    → count < 76
    → count % 4 ≡ 0
    → length (encode_groups padding true map count src)
      ≡ base64_encode_len (length src) padding false + (count + length src / 3 * 4) / 76 * 2
unfolding encode_groups encode_rest base64_encode_len
length-broken true map count [] small even = ground arith
length-broken true map count (a ∷ []) small even = ground arith
length-broken true map count (a ∷ b ∷ []) small even = ground arith
length-broken false map count [] small even = ground arith
length-broken false map count (a ∷ []) small even = ground arith
length-broken false map count (a ∷ b ∷ []) small even = ground arith
length-broken padding map count (a ∷ b ∷ c ∷ src) small even = elim (dec_le 76 (count + 4)) [
  | yes full ↦
      let e : leb 76 (count + 4) ≡ true = ground arith in
      let rest = length-broken padding map 0 src (omega arith) refl in rw e (ground (arith, rest))
  | no room ↦
      let e : leb 76 (count + 4) ≡ false = ground arith in
      let rest = length-broken padding map (count + 4) src (omega arith) (omega arith) in
      rw e (ground (arith, rest))
]

-- The encoders write as many bytes as `base64_encode_len` computes where no line breaks are asked for,
-- and no more than that where they are, with or without padding.
pub length-base64_encode :
    (src : List ℕ) (padding : Bool)
    → (length (base64_encode src padding false) ≡ base64_encode_len (length src) padding false)
      × (length (base64_url_encode src padding false)
          ≡ base64_encode_len (length src) padding false)
      × (length (base64_encode src padding true) ≤ base64_encode_len (length src) padding true)
      × (length (base64_url_encode src padding true) ≤ base64_encode_len (length src) padding true)
unfolding base64_encode base64_url_encode base64_encode_custom base64_encode_len
length-base64_encode src padding = (
  length-plain padding enc_map 0 src,
  length-plain padding url_enc_map 0 src,
  broken enc_map,
  broken url_enc_map,
)
  where
    more :
        base64_encode_len (length src) padding false + (0 + length src / 3 * 4) / 76 * 2
        ≤ base64_encode_len (length src) padding true
    more = ground arith

    broken :
        (map : List ℕ)
        → length (encode_groups padding true map 0 src)
          ≤ base64_encode_len (length src) padding true
    broken map = omega (arith, length-broken padding map 0 src (omega arith) refl, more)
