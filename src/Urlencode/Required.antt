-- ===== src/Urlencode/Required.antt =====
-- Which bytes `required_encode` and the decoder of urlencode.c treat otherwise than the comments of
-- that file say.
use native.Mathlib.Nat.{pow-le-pow_right, div-eq_of_lt}
use fast_http.Prelude.{
  ℕ, suc, ◌-◌, ◌/◌, ◌≤◌, ◌<◌, ◌≡◌, refl, ap, ◌∙◌, false, List, [], ◌∷◌, arith, ltb, ◌==◌, ◌||◌,
  length, get_or,
}
use fast_http.Urlencode.{Shift, required_encode, url_decode, decode_loop}

-- The text `%ab%cd..` of pairs of digits.
abbrev pub escapes : List (ℕ × ℕ) → List ℕ
escapes [] = []
escapes ((a, b) ∷ ds) = b'%' ∷ a ∷ b ∷ escapes ds

length-decode_loop-escapes :
    (ds : List (ℕ × ℕ)) (room : ℕ) → length (decode_loop (escapes ds) room) ≡ length ds
unfolding decode_loop
length-decode_loop-escapes [] room = refl
length-decode_loop-escapes ((a, b) ∷ ds) room = ap suc (length-decode_loop-escapes ds (room - 1))

-- `url_decode` writes a byte for every escape of a text of nothing but escapes, however small the
-- destination is, if it is not empty.
pub url_decode-escapes :
    (ds : List (ℕ × ℕ)) (dst_len : ℕ)
    → 0 < dst_len
    → length (url_decode (escapes ds) dst_len) ≡ length ds
unfolding url_decode
url_decode-escapes ds dst_len h =
    let room : (dst_len == 0) ≡ false = ground arith in
    rw room (length-decode_loop-escapes ds dst_len)

shifted_out : (sh : Shift) (x idx : ℕ) → x < 256 → 8 ≤ idx → idx < 32 → sh.shift x idx ≡ 0
shifted_out sh x idx small from to =
    sh.defined x idx to
    ∙ div-eq_of_lt (omega (arith, pow-le-pow_right {n = 2} (omega arith) {i = 8} {j = idx} from))

-- Whatever the map says, `required_encode` asks for no encoding of the characters from `(` to `?`,
-- since it shifts a byte of the map by `idx` and not by `idx & 7`.
pub required_encode-unreached :
    (sh : Shift) (map : List ℕ) (ch : ℕ)
    → get_or map ((ch - 32) / 8) 0 < 256
    → 40 ≤ ch
    → ch < 64
    → required_encode sh map ch ≡ false
unfolding required_encode
required_encode-unreached sh map ch small from to =
    let inside : (ltb ch 32 || ltb 127 ch) ≡ false = ground arith in
    rw
      (
        inside,
        shifted_out sh (get_or map ((ch - 32) / 8) 0) (ch - 32) small (omega arith) (omega arith),
      )
      refl
