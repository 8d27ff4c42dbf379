-- ===== src/Urlencode.antt =====
-- urlencode.c: percent encoding. A source pointer is the list of what is left of the source; a
-- destination pointer is the list of the bytes written through it, in order, with the room that
-- `pmax - p` leaves. What is written behind `pmax` is in the list too, since the code writes it.
--
-- `map[..] >> idx & 7` shifts by `idx`, which C leaves undefined from 32 on: what the shift gives is
-- the parameter `shift`, and nothing is known of it but that it is a shift where C defines it.
mod Tests
pub mod Codec
pub mod Required
use fast_http.Prelude.{
  ℕ, zero, suc, ◌+◌, ◌-◌, ◌*◌, ◌/◌, ◌%◌, ◌^◌, ◌<◌, ◌≡◌, Bool, true, false, ◌||◌, List, [], ◌∷◌,
  bit_and, ltb, leb, ◌==◌, if◌then◌else◌, length, get_or,
}
use fast_http.Hex.{decode_char_fast}

-- `HEX`, with upper-case letters.
abbrev pub digits : List ℕ
digits =
    b'0' ∷ b'1' ∷ b'2' ∷ b'3' ∷ b'4' ∷ b'5' ∷ b'6' ∷ b'7' ∷ b'8' ∷ b'9' ∷ b'A' ∷ b'B' ∷ b'C' ∷ b'D'
    ∷ b'E' ∷ b'F' ∷ []

abbrev pub url_map : List ℕ
url_map = 37 ∷ 0 ∷ 0 ∷ 80 ∷ 0 ∷ 0 ∷ 0 ∷ 120 ∷ 1 ∷ 0 ∷ 0 ∷ 184 ∷ []

abbrev pub url_component_map : List ℕ
url_component_map = 125 ∷ 152 ∷ 0 ∷ 252 ∷ 1 ∷ 0 ∷ 0 ∷ 120 ∷ 1 ∷ 0 ∷ 0 ∷ 184 ∷ []

-- `x >> n` on a 32-bit `int`.
pub record Shift : Type 0 where
  pub shift : ℕ → ℕ → ℕ
  pub defined : (x n : ℕ) → n < 32 → shift x n ≡ x / 2 ^ n

module _ (sh : Shift) (map : List ℕ) where
  unfoldable pub required_encode : ℕ → Bool
  required_encode ch =
      let idx = ch - 32 in
      if ltb ch 32 || ltb 127 ch
      then true
      else bit_and (bit_and (sh.shift (get_or map (idx / 8) 0) idx) 7) 1 == 1

  -- The length that an encoded text has. (NULL or no source is the empty list.)
  unfoldable pub encode_length : List ℕ → ℕ
  encode_length [] = 0
  encode_length (cc ∷ src) = (if required_encode cc then 3 else 1) + encode_length src

  unfoldable pub encode_loop : List ℕ → ℕ → List ℕ
  encode_loop [] room = []
  encode_loop (cc ∷ src) room =
      let coded =
        b'%'
        ∷ get_or digits (cc / 16) 0
        ∷ get_or digits (bit_and cc 0xf) 0
        ∷ encode_loop src (room - 3) in
      let plain = encode_loop src (room - 1) in
      if required_encode cc
      then (if ltb room 3 then [] else coded)
      else cc ∷ (if leb room 1 then [] else plain)

  -- `dst_len` is the size of the destination; the result is what arrives there.
  unfoldable pub encode : List ℕ → ℕ → List ℕ
  encode src dst_len = if dst_len == 0 then [] else encode_loop src dst_len

unfoldable pub url_encode_length : Shift → List ℕ → ℕ
url_encode_length sh = encode_length sh url_map

unfoldable pub url_component_encode_length : Shift → List ℕ → ℕ
url_component_encode_length sh = encode_length sh url_component_map

unfoldable pub url_encode : Shift → List ℕ → ℕ → List ℕ
url_encode sh = encode sh url_map

unfoldable pub url_component_encode : Shift → List ℕ → ℕ → List ℕ
url_component_encode sh = encode sh url_component_map

unfoldable pub url_decode_length : List ℕ → ℕ
url_decode_length [] = 0
url_decode_length (cc ∷ []) = if cc == b'%' then 0 else 1
url_decode_length (cc ∷ a ∷ []) =
    let rest = url_decode_length (a ∷ []) in if cc == b'%' then 0 else suc rest
url_decode_length (cc ∷ a ∷ b ∷ src) =
    let coded = url_decode_length src in
    let plain = url_decode_length (a ∷ b ∷ src) in suc (if cc == b'%' then coded else plain)

-- After a plain byte the loop stops if the destination is full; after a coded one it goes on.
unfoldable pub decode_loop : List ℕ → ℕ → List ℕ
decode_loop [] room = []
decode_loop (cc ∷ []) room = if cc == b'%' then [] else cc ∷ []
decode_loop (cc ∷ a ∷ []) room =
    let plain = decode_loop (a ∷ []) (room - 1) in
    if cc == b'%' then [] else cc ∷ (if leb room 1 then [] else plain)
decode_loop (cc ∷ a ∷ b ∷ src) room =
    let coded = decode_loop src (room - 1) in
    let plain = decode_loop (a ∷ b ∷ src) (room - 1) in
    if cc == b'%' then decode_char_fast a b ∷ coded else cc ∷ (if leb room 1 then [] else plain)

unfoldable pub url_decode : List ℕ → ℕ → List ℕ
url_decode src dst_len = if dst_len == 0 then [] else decode_loop src dst_len
