-- ===== src/Crc32/Tests.antt =====
-- The checksum at concrete texts.
use fast_http.Prelude.{ℕ, ◌≡◌, refl, List, [], ◌∷◌, arith, bit_xor}
use fast_http.Crc32.{crc32, crc_loop, crc_step}
use fast_http.Crc32.Bitwise.{by_bits, crc32-by_bits}

abbrev nine_digits : List ℕ
nine_digits = b'1' ∷ b'2' ∷ b'3' ∷ b'4' ∷ b'5' ∷ b'6' ∷ b'7' ∷ b'8' ∷ b'9' ∷ []

-- The check value of the CRC-32 of zip and Ethernet.
check_value : crc32 nine_digits ≡ 0xcbf4_3926
unfolding crc32 crc_loop crc_step
check_value = refl

crc32-by_bits_example : crc32 nine_digits ≡ bit_xor (by_bits 0xffff_ffff nine_digits) 0xffff_ffff
crc32-by_bits_example = crc32-by_bits nine_digits (omega arith)
