-- ===== src/Urlencode/Codec.antt =====
-- Decoding what `url_encode` or `url_component_encode` wrote, and how much either direction writes.
use fast_http.Prelude.{
  ℕ, suc, ◌+◌, ◌-◌, ◌/◌, ◌≤◌, ◌<◌, ◌≡◌, refl, sym, ap, ◌∙◌, true, false, ◌⊎◌, inl, inr, List, [],
  ◌∷◌, arith, bit_and, ltb, leb, ◌==◌, if◌then◌else◌, length, get_or, every_below,
  every_below_passes, ==_iff, Bool-cases,
}
use fast_http.Hex.{decode_char_fast}
use fast_http.Hex.Codec.{AllBytes}
use fast_http.Urlencode.{
  digits, url_map, url_component_map, Shift, required_encode, encode_length, encode_loop, encode,
  url_encode, url_component_encode, url_encode_length, url_component_encode_length,
  url_decode_length, decode_loop, url_decode,
}

digit_table :
    every_below
      (λ ch. decode_char_fast (get_or digits (ch / 16) 0) (get_or digits (bit_and ch 0xf) 0) == ch)
      256
    ≡ true
unfolding every_below decode_char_fast
digit_table = refl

decode-digits :
    (ch : ℕ)
    → ch < 256
    → decode_char_fast (get_or digits (ch / 16) 0) (get_or digits (bit_and ch 0xf) 0) ≡ ch
decode-digits ch h = (==_iff _ ch).0 (every_below_passes _ 256 digit_table h)

decode_loop-plain :
    (ch : ℕ) (rest : List ℕ) (room : ℕ)
    → (ch == b'%') ≡ false
    → decode_loop (ch ∷ rest) room ≡ ch ∷ (if leb room 1 then [] else decode_loop rest (room - 1))
unfolding decode_loop
decode_loop-plain ch [] room h = elim (Bool-cases (leb room 1)) [
  | inl e ↦ rw (h, e) refl
  | inr e ↦ rw (h, e) refl
]
decode_loop-plain ch (a ∷ []) room h = rw h refl
decode_loop-plain ch (a ∷ b ∷ rest) room h = rw h refl

true-false : true ≡ false → ⊥
true-false e = cc

module _ (sh : Shift) (map : List ℕ) where
  -- The text in full.
  full : List ℕ → List ℕ
  full [] = []
  full (ch ∷ src) =
      if required_encode sh map ch
      then b'%' ∷ get_or digits (ch / 16) 0 ∷ get_or digits (bit_and ch 0xf) 0 ∷ full src
      else ch ∷ full src

  length-full : (src : List ℕ) → length (full src) ≡ encode_length sh map src
  unfolding full encode_length
  length-full [] = refl
  length-full (ch ∷ src) = elim (Bool-cases (required_encode sh map ch)) [
    | inl e ↦ rw e (omega (arith, length-full src))
    | inr e ↦ rw e (omega (arith, length-full src))
  ]

  encode_loop-full :
      (src : List ℕ) (room : ℕ)
      → encode_length sh map src ≤ room
      → encode_loop sh map src room ≡ full src
  unfolding full encode_length encode_loop
  encode_loop-full [] room h = refl
  encode_loop-full (ch ∷ src) room h = elim (Bool-cases (required_encode sh map ch)) [
    | inl e ↦
        let h1 : 3 + encode_length sh map src ≤ room = rw e at h in
        let enough : ltb room 3 ≡ false = ground arith in
        rw (e, enough, encode_loop-full src (room - 3) (omega (arith, h1))) refl
    | inr e ↦
        let h1 : 1 + encode_length sh map src ≤ room = rw e at h in
        rw (e, rest src (encode_loop-full src (room - 1)) h1) refl
  ]
    where
      rest :
          (src : List ℕ)
          → (encode_length sh map src ≤ room - 1 → encode_loop sh map src (room - 1) ≡ full src)
          → 1 + encode_length sh map src ≤ room
          → (if leb room 1 then [] else encode_loop sh map src (room - 1)) ≡ full src
      rest [] ih h1 = elim (Bool-cases (leb room 1)) [ inl e ↦ rw e refl | inr e ↦ rw e refl ]
      rest (c ∷ src) ih h1 =
          let more : leb room 1 ≡ false = elim (Bool-cases (required_encode sh map c)) [
            | inl e ↦
                let h2 : 1 + (3 + encode_length sh map src) ≤ room = rw e at h1 in ground arith
            | inr e ↦
                let h2 : 1 + (1 + encode_length sh map src) ≤ room = rw e at h1 in ground arith
          ] in
          rw more (ih (omega (arith, h1)))

  -- The encoder writes at most one byte more than the destination holds, whatever the text.
  length-encode_loop : (src : List ℕ) (room : ℕ) → length (encode_loop sh map src room) ≤ suc room
  unfolding encode_loop
  length-encode_loop [] room = omega arith
  length-encode_loop (ch ∷ src) room =
      ground (arith, length-encode_loop src (room - 3), length-encode_loop src (room - 1))

  decode_loop-full :
      required_encode sh map b'%' ≡ true
      → (src : List ℕ) (room : ℕ) → AllBytes src
      → length src ≤ room
      → decode_loop (full src) room ≡ src
  unfolding full decode_loop
  decode_loop-full percent [] room bytes h = refl
  decode_loop-full percent (ch ∷ src) room bytes h = elim (Bool-cases (required_encode sh map ch)) [
    | inl e ↦
        rw
          (
            e,
            decode-digits ch bytes.0,
            decode_loop-full percent src (room - 1) bytes.1 (omega arith),
          )
          refl
    | inr e ↦
        rw (e, decode_loop-plain ch (full src) room (other ch e))
          (ap (λ r. ch ∷ r) (go_on src (decode_loop-full percent src (room - 1)) bytes.1 h))
  ]
    where
      other : (ch : ℕ) → required_encode sh map ch ≡ false → (ch == b'%') ≡ false
      other ch e = elim (Bool-cases (ch == b'%')) [
        | inl same ↦ absurd (
            true-false
              (sym percent ∙ ap (required_encode sh map) (sym ((==_iff ch b'%').0 same)) ∙ e))
        | inr differs ↦ differs
      ]

      go_on :
          (src : List ℕ)
          → (AllBytes src → length src ≤ room - 1 → decode_loop (full src) (room - 1) ≡ src)
          → AllBytes src
          → suc (length src) ≤ room
          → (if leb room 1 then [] else decode_loop (full src) (room - 1)) ≡ src
      go_on [] ih bytes h = elim (Bool-cases (leb room 1)) [ inl e ↦ rw e refl | inr e ↦ rw e refl ]
      go_on (c ∷ src) ih bytes h =
          let more : leb room 1 ≡ false = ground arith in rw more (ih bytes (omega arith))

  encode-full : (src : List ℕ) → encode sh map src (encode_length sh map src) ≡ full src
  unfolding encode full encode_length
  encode-full [] = refl
  encode-full (ch ∷ src) =
      let some_room : (encode_length sh map (ch ∷ src) == 0) ≡ false = room in
      rw some_room (encode_loop-full (ch ∷ src) (encode_length sh map (ch ∷ src)) (omega arith))
    where
      room : (encode_length sh map (ch ∷ src) == 0) ≡ false
      room = elim (Bool-cases (required_encode sh map ch)) [
        | inl e ↦ rw e (ground arith)
        | inr e ↦ rw e (ground arith)
      ]

  decode-encode :
      required_encode sh map b'%' ≡ true
      → (src : List ℕ) (dst_len : ℕ) → AllBytes src
      → length src ≤ dst_len
      → url_decode (encode sh map src (encode_length sh map src)) dst_len ≡ src
  unfolding url_decode
  decode-encode percent src dst_len bytes h =
      ap (λ code. url_decode code dst_len) (encode-full src) ∙ by_room (Bool-cases (dst_len == 0))
    where
      by_room :
          ((dst_len == 0) ≡ true) ⊎ ((dst_len == 0) ≡ false) → url_decode (full src) dst_len ≡ src
      by_room (inl e) = rw e (empty src h)
        where
          empty : (src : List ℕ) → length src ≤ dst_len → [] ≡ src
          empty [] h = refl
          empty (c ∷ src) h = absurd (ground (arith, e))
      by_room (inr e) = rw e (decode_loop-full percent src dst_len bytes h)

length-decode_loop :
    (src : List ℕ) (room : ℕ)
    → length src ≤ room
    → length (decode_loop src room) ≡ url_decode_length src
unfolding decode_loop url_decode_length
length-decode_loop [] room h = refl
length-decode_loop (x ∷ []) room h = ground arith
length-decode_loop (x ∷ a ∷ []) room h =
    ground (arith, length-decode_loop (a ∷ []) (room - 1) (omega arith))
length-decode_loop (x ∷ a ∷ b ∷ src) room h = elim (Bool-cases (x == b'%')) [
  | inl e ↦ rw e (ap suc (length-decode_loop src (room - 1) (omega arith)))
  | inr e ↦
      let more : leb room 1 ≡ false = ground arith in
      rw (e, more) (ap suc (length-decode_loop (a ∷ b ∷ src) (room - 1) (omega arith)))
]

percent_required :
    (sh : Shift)
    → (required_encode sh url_map b'%' ≡ true) × (required_encode sh url_component_map b'%' ≡ true)
unfolding required_encode
percent_required sh =
    (rw (sh.defined 37 5 (omega arith)) refl, rw (sh.defined 125 5 (omega arith)) refl)

-- `url_decode` undoes `url_encode` and `url_component_encode` for every text of bytes, if the
-- destination of the encoder has the length computed for it and that of the decoder at least the
-- length of the text.
pub url_decode-url_encode :
    (sh : Shift) (src : List ℕ) (dst_len : ℕ)
    → AllBytes src
    → length src ≤ dst_len
    → (url_decode (url_encode sh src (url_encode_length sh src)) dst_len ≡ src)
      × (url_decode (url_component_encode sh src (url_component_encode_length sh src)) dst_len
          ≡ src)
unfolding url_encode url_component_encode url_encode_length url_component_encode_length
url_decode-url_encode sh src dst_len bytes h = (
  decode-encode sh url_map (percent_required sh).0 src dst_len bytes h,
  decode-encode sh url_component_map (percent_required sh).1 src dst_len bytes h,
)

-- Both encoders write as many bytes as is computed for the text, if there is that much room, and at
-- most one byte more than the destination has otherwise.
pub length-url_encode :
    (sh : Shift) (src : List ℕ) (dst_len : ℕ)
    → (length (url_encode sh src (url_encode_length sh src)) ≡ url_encode_length sh src)
      × (length (url_component_encode sh src (url_component_encode_length sh src))
          ≡ url_component_encode_length sh src)
      × (length (url_encode sh src dst_len) ≤ suc dst_len)
      × (length (url_component_encode sh src dst_len) ≤ suc dst_len)
unfolding encode url_encode url_component_encode url_encode_length url_component_encode_length
length-url_encode sh src dst_len =
    (exact url_map, exact url_component_map, bounded url_map, bounded url_component_map)
  where
    exact :
        (map : List ℕ)
        → length (encode sh map src (encode_length sh map src)) ≡ encode_length sh map src
    exact map = ap length (encode-full sh map src) ∙ length-full sh map src

    bounded : (map : List ℕ) → length (encode sh map src dst_len) ≤ suc dst_len
    bounded map = ground (arith, length-encode_loop sh map src dst_len)

-- `url_decode_length` is the number of bytes that `url_decode` writes, for a destination that has
-- room for as many bytes as the source has.
pub length-url_decode :
    (src : List ℕ) (dst_len : ℕ)
    → length src ≤ dst_len
    → length (url_decode src dst_len) ≡ url_decode_length src
unfolding url_decode url_decode_length
length-url_decode src dst_len h = elim (Bool-cases (dst_len == 0)) [
  | inl e ↦ rw e (empty src h e)
  | inr e ↦ rw e (length-decode_loop src dst_len h)
]
  where
    empty :
        (src : List ℕ) → length src ≤ dst_len → (dst_len == 0) ≡ true → 0 ≡ url_decode_length src
    empty [] h e = refl
    empty (c ∷ src) h e = absurd (ground arith)
