-- ===== src/Base64/Decode.antt =====
-- base64.c: the decoder and the length that is computed for it. A read outside of the source or of the
-- map is a fault.
use fast_http.Prelude.{
  ℕ, zero, suc, ◌+◌, ◌-◌, ◌*◌, ◌/◌, ◌%◌, Bool, false, ◌||◌, Option, none, some, List, [], ◌∷◌,
  bit_or, u8, ltb, leb, ◌==◌, if◌then◌else◌, ◌>>=◌, get_elem?, drop,
}

-- `DEC_MAP` and `URL_DEC_MAP`
abbrev pub dec_map : List ℕ
dec_map =
    127 ∷ 127 ∷ 127 ∷ 127 ∷ 127 ∷ 127 ∷ 127 ∷ 127 ∷ 127 ∷ 127 ∷ 127 ∷ 127 ∷ 127 ∷ 127 ∷ 127 ∷ 127
    ∷ 127 ∷ 127 ∷ 127 ∷ 127 ∷ 127 ∷ 127 ∷ 127 ∷ 127 ∷ 127 ∷ 127 ∷ 127 ∷ 127 ∷ 127 ∷ 127 ∷ 127 ∷ 127
    ∷ 127 ∷ 127 ∷ 127 ∷ 127 ∷ 127 ∷ 127 ∷ 127 ∷ 127 ∷ 127 ∷ 127 ∷ 127 ∷ 62 ∷ 127 ∷ 127 ∷ 127 ∷ 63
    ∷ 52 ∷ 53 ∷ 54 ∷ 55 ∷ 56 ∷ 57 ∷ 58 ∷ 59 ∷ 60 ∷ 61 ∷ 127 ∷ 127 ∷ 127 ∷ 0 ∷ 127 ∷ 127 ∷ 127 ∷ 0
    ∷ 1 ∷ 2 ∷ 3 ∷ 4 ∷ 5 ∷ 6 ∷ 7 ∷ 8 ∷ 9 ∷ 10 ∷ 11 ∷ 12 ∷ 13 ∷ 14 ∷ 15 ∷ 16 ∷ 17 ∷ 18 ∷ 19 ∷ 20 ∷ 21
    ∷ 22 ∷ 23 ∷ 24 ∷ 25 ∷ 127 ∷ 127 ∷ 127 ∷ 127 ∷ 127 ∷ 127 ∷ 26 ∷ 27 ∷ 28 ∷ 29 ∷ 30 ∷ 31 ∷ 32 ∷ 33
    ∷ 34 ∷ 35 ∷ 36 ∷ 37 ∷ 38 ∷ 39 ∷ 40 ∷ 41 ∷ 42 ∷ 43 ∷ 44 ∷ 45 ∷ 46 ∷ 47 ∷ 48 ∷ 49 ∷ 50 ∷ 51 ∷ 127
    ∷ 127 ∷ 127 ∷ 127 ∷ 127 ∷ []

abbrev pub url_dec_map : List ℕ
url_dec_map =
    127 ∷ 127 ∷ 127 ∷ 127 ∷ 127 ∷ 127 ∷ 127 ∷ 127 ∷ 127 ∷ 127 ∷ 127 ∷ 127 ∷ 127 ∷ 127 ∷ 127 ∷ 127
    ∷ 127 ∷ 127 ∷ 127 ∷ 127 ∷ 127 ∷ 127 ∷ 127 ∷ 127 ∷ 127 ∷ 127 ∷ 127 ∷ 127 ∷ 127 ∷ 127 ∷ 127 ∷ 127
    ∷ 127 ∷ 127 ∷ 127 ∷ 127 ∷ 127 ∷ 127 ∷ 127 ∷ 127 ∷ 127 ∷ 127 ∷ 127 ∷ 127 ∷ 127 ∷ 62 ∷ 127 ∷ 127
    ∷ 52 ∷ 53 ∷ 54 ∷ 55 ∷ 56 ∷ 57 ∷ 58 ∷ 59 ∷ 60 ∷ 61 ∷ 127 ∷ 127 ∷ 127 ∷ 0 ∷ 127 ∷ 127 ∷ 127 ∷ 0
    ∷ 1 ∷ 2 ∷ 3 ∷ 4 ∷ 5 ∷ 6 ∷ 7 ∷ 8 ∷ 9 ∷ 10 ∷ 11 ∷ 12 ∷ 13 ∷ 14 ∷ 15 ∷ 16 ∷ 17 ∷ 18 ∷ 19 ∷ 20 ∷ 21
    ∷ 22 ∷ 23 ∷ 24 ∷ 25 ∷ 127 ∷ 127 ∷ 127 ∷ 127 ∷ 63 ∷ 127 ∷ 26 ∷ 27 ∷ 28 ∷ 29 ∷ 30 ∷ 31 ∷ 32 ∷ 33
    ∷ 34 ∷ 35 ∷ 36 ∷ 37 ∷ 38 ∷ 39 ∷ 40 ∷ 41 ∷ 42 ∷ 43 ∷ 44 ∷ 45 ∷ 46 ∷ 47 ∷ 48 ∷ 49 ∷ 50 ∷ 51 ∷ 127
    ∷ 127 ∷ 127 ∷ 127 ∷ 127 ∷ []

-- A `=` or a line break.
abbrev pub is_end : ℕ → Bool
is_end c = c == b'=' || (c == b'\n' || c == b'\r')

-- The length without the `=` and line breaks at the end.
unfoldable pub strip_end : List ℕ → ℕ → Option ℕ
strip_end src zero = some zero
strip_end src (suc slen) = get_elem? src slen >>= λ c.
    let rest = strip_end src slen in if is_end c then rest else some (suc slen)

module _ (map : List ℕ) where
  -- `map[src[i]]`
  abbrev pub value : List ℕ → ℕ → Option ℕ
  value src i = get_elem? src i >>= λ c. get_elem? map c

  -- Less than four characters, of which `left` are before the end.
  unfoldable pub decode_rest : List ℕ → ℕ → Option (List ℕ)
  decode_rest src left =
      let third : ℕ → Option (List ℕ) =
        λ c1. value src 2 >>= λ c2. some (u8 (bit_or (c1 * 16) (c2 / 4)) ∷ []) in
      let both = value src 0 >>= λ c0. value src 1 >>= λ c1.
      (if ltb 2 left then third c1 else some []) >>= λ more.
      some (u8 (bit_or (c0 * 4) (c1 / 16)) ∷ more) in
      if ltb 1 left then both else some []

  -- Four characters at a time. A line break in front of a group is skipped, whatever is left then.
  unfoldable pub decode_groups : ℕ → List ℕ → ℕ → Option (List ℕ)
  decode_groups zero src left = none
  decode_groups (suc fuel) src left =
      let again = get_elem? src 0 >>= λ first.
      let skip = if first == b'\r' then 2 else 0 in
      let group = drop skip src in
      let rest = decode_groups fuel (drop 4 group) (left - skip - 4) in
      value group 0 >>= λ c0. value group 1 >>= λ c1. value group 2 >>= λ c2.
      value group 3 >>= λ c3. rest >>= λ d. some (
        u8 (bit_or (c0 * 4) (c1 / 16))
        ∷ u8 (bit_or (c1 * 16) (c2 / 4))
        ∷ u8 (bit_or (c2 * 64) c3)
        ∷ d) in
      if ltb 3 left then again else decode_rest src left

  unfoldable pub base64_decode_custom : List ℕ → ℕ → Option (List ℕ)
  base64_decode_custom src slen = do n ← strip_end src slen; decode_groups (n + 1) src n

unfoldable pub base64_decode : List ℕ → ℕ → Option (List ℕ)
base64_decode src slen = base64_decode_custom dec_map src slen

unfoldable pub base64_url_decode : List ℕ → ℕ → Option (List ℕ)
base64_url_decode src slen = base64_decode_custom url_dec_map src slen

-- `src[srclen - k]`
abbrev from_end : List ℕ → ℕ → ℕ → Option ℕ
from_end src srclen k = if leb k srclen then get_elem? src (srclen - k) else none

-- `src[76] == '\r' && src[77] == '\n'`
abbrev breaks_line : List ℕ → Option Bool
breaks_line src = get_elem? src 76 >>= λ a.
    let second = get_elem? src 77 >>= λ b. some (b == b'\n') in
    if a == b'\r' then second else some false

unfoldable pub base64_decode_len : List ℕ → ℕ → Option ℕ
base64_decode_len src srclen = do
  broken ← if leb 78 srclen then breaks_line src else some false
  let c = srclen / 4 * 3
  let c' = if broken then c - (c / 76 + 2) * 2 else c
  let m = srclen % 4
  let padded = from_end src srclen 1 >>= λ last.
      let second = from_end src srclen 2 >>= λ b. some (if b == b'=' then c' - 1 - 1 else c' - 1) in
      if last == b'=' then second else some c'
  if m == 0 then padded else if m == 2 then some (c' + 1) else some (c' + 2)
