-- ===== src/Hex.antt =====
-- hex.c and hex.h: bytes as pairs of hexadecimal digits, with a text before each byte and a text
-- between two bytes. The pointer that walks a source is the list of what is left of it; what is
-- written through the destination pointer is the list of the bytes, in order. The destination is
-- taken to be as large as the header asks for.
mod Tests
pub mod Codec
use fast_http.Prelude.{
  ℕ, zero, suc, ◌+◌, ◌-◌, ◌*◌, ◌/◌, ◌%◌, ◌^◌, ◌≡◌, Bool, true, false, ◌&&◌, Option, none, some,
  List, [], ◌∷◌, ◌++◌, bit_and, bit_or, u8, leb, ◌==◌, if◌then◌else◌, length, get_or, drop, ◌>>=◌,
}

-- `HEX`, with lower-case letters.
abbrev pub digits : List ℕ
digits =
    b'0' ∷ b'1' ∷ b'2' ∷ b'3' ∷ b'4' ∷ b'5' ∷ b'6' ∷ b'7' ∷ b'8' ∷ b'9' ∷ b'a' ∷ b'b' ∷ b'c' ∷ b'd'
    ∷ b'e' ∷ b'f' ∷ []

-- `HEX_ENC`
unfoldable pub enc : ℕ → List ℕ
enc ch = get_or digits (ch / 16) 0 ∷ get_or digits (bit_and ch 0xf) 0 ∷ []

-- The value that the fast test gives one digit; it is right for the 22 hexadecimal digits.
unfoldable pub digit_value : ℕ → ℕ
digit_value b = if bit_and b 16 == 0 then 9 + bit_and b 7 else bit_and b 15

unfoldable pub decode_char_fast : ℕ → ℕ → ℕ
unfolding digit_value
decode_char_fast b1 b2 = u8 (bit_or (digit_value b1 * 16) (digit_value b2))

-- `p ? strlen(p) : 0` of a text, with the text; NULL is `none`.
pub given : Option (List ℕ) → List ℕ
given none = []
given (some text) = text

-- The loop over the bytes behind the first one.
pub encode_rest : List ℕ → List ℕ → List ℕ → List ℕ
encode_rest pre spec [] = []
encode_rest pre spec (s ∷ src) = spec ++ (pre ++ (enc s ++ encode_rest pre spec src))

-- The loop where there is neither text.
pub encode_plain : List ℕ → List ℕ
encode_plain [] = []
encode_plain (s ∷ src) = enc s ++ encode_plain src

pub encode : List ℕ → Option (List ℕ) → Option (List ℕ) → List ℕ
encode [] pre spec = []
encode (s ∷ src) pre spec =
    if length (given pre) == 0 && length (given spec) == 0
    then encode_plain (s ∷ src)
    else given pre ++ (enc s ++ encode_rest (given pre) (given spec) src)

-- `size_t` has 64 bits.
pub encode_len : ℕ → ℕ → ℕ → ℕ
encode_len srclen prelen speclen =
    if srclen == 0 then 0 else ((2 + prelen + speclen) * srclen + 2 ^ 64 - speclen) % 2 ^ 64

unfoldable pub decode_len : ℕ → ℕ → ℕ → ℕ
decode_len srclen prelen speclen =
    if srclen == 0 then 0 else (srclen + speclen) / (2 + prelen + speclen)

-- `for (; src < src_max; src += src_step)`; `none` means that the fuel ran out.
pub decode_loop : ℕ → ℕ → List ℕ → Option (List ℕ)
decode_loop zero step src = none
decode_loop (suc fuel) step src =
    let rest = decode_loop fuel step (drop step src) in
    if leb 2 (length src)
    then (rest >>= λ d. some (decode_char_fast (get_or src 0 0) (get_or src 1 0) ∷ d))
    else some []

-- `src_step` is a `uint8_t`.
pub decode : List ℕ → ℕ → ℕ → Option (List ℕ)
decode src prelen speclen =
    let loop = decode_loop (length src + 1) (u8 (2 + prelen + speclen)) (drop prelen src) in
    if leb 2 (length src) then loop else some []
