-- ===== src/Base64/Coded.antt =====
-- What base64.c writes for a group, for a rest and for a line break, and that it is decoded.
use fast_http.Prelude.{
  ℕ, zero, suc, ◌+◌, ◌*◌, ◌/◌, ◌%◌, ◌<◌, ◌≡◌, refl, ap, ap₂, ◌∙◌, Bool, true, false, not, ◌&&◌,
  Option, some, none, List, [], ◌∷◌, arith, bit_and, bit_or, u8, ◌==◌, if◌then◌else◌, get_elem?,
  get_or, length, every_below, every_below_passes,
}
use fast_http.Prelude.Bits.{bit_and-low}
use fast_http.Base64.{enc_map, url_enc_map}
use fast_http.Base64.Decode.{dec_map, url_dec_map, is_end, strip_end, decode_groups}
use fast_http.Base64.Groups.{
  decode_four, decode_two, decode_three, decode_break, decode_none, second, third, second_lem,
  third_lem, first_byte, second_byte, third_byte,
}
use fast_http.Base64.Stripped.{strip_end-plain, strip_end-any, strip_end-more}

-- The decoder's table gives back what the encoder's looks up, and the encoder writes no `=` or line break.
abbrev returns : Option ℕ → ℕ → Bool
returns none k = false
returns (some v) k = v == k

abbrev pub agree : List ℕ → List ℕ → ℕ → Bool
agree enc dec k = returns (get_elem? dec (get_or enc k 0)) k && not (is_end (get_or enc k 0))

abbrev pub Inverse : List ℕ → List ℕ → Type 0
Inverse enc dec = every_below (agree enc dec) 64 ≡ true

pub plain_maps : Inverse enc_map dec_map
unfolding every_below
plain_maps = refl

pub url_maps : Inverse url_enc_map url_dec_map
unfolding every_below
url_maps = refl

both_hold :
    (o : Option ℕ) (k : ℕ) (b : Bool) → (returns o k && not b) ≡ true → (o ≡ some k) × (b ≡ false)
both_hold none k b h = cc
both_hold (some v) k true h = ground arith
both_hold (some v) k false h = (ap some (ground arith), refl)

pub table :
    (enc dec : List ℕ) {k : ℕ}
    → Inverse enc dec
    → k < 64
    → (get_elem? dec (get_or enc k 0) ≡ some k) × (is_end (get_or enc k 0) ≡ false)
table enc dec {k} inverse h =
    both_hold (get_elem? dec (get_or enc k 0)) k (is_end (get_or enc k 0))
      (every_below_passes (agree enc dec) {k = k} 64 inverse h)

not_break : (c : ℕ) → is_end c ≡ false → (c == b'\r') ≡ false
not_break c h = ground (arith, h)

-- The encoded text `text` stands for the bytes `bytes`.
pub record Coded (dec text bytes : List ℕ) : Type 0 where
  pub left : ℕ
  pub stripped : strip_end text (length text) ≡ some left
  pub decodes : (fuel : ℕ) → left < fuel → decode_groups dec fuel text left ≡ some bytes

pub nothing : (text : List ℕ) → strip_end text 0 ≡ some 0
unfolding strip_end
nothing text = refl

pub nil-Coded : (dec text : List ℕ) → strip_end text (length text) ≡ some 0 → Coded dec text []
nil-Coded dec text h = record { left = 0; stripped = h; decodes = go }
  where
    go : (fuel : ℕ) → 0 < fuel → decode_groups dec fuel text 0 ≡ some []
    go zero h = absurd (omega arith)
    go (suc fuel) h = decode_none dec fuel text

module _ (enc dec : List ℕ) (inverse : Inverse enc dec) where
  -- `enc[k]`
  abbrev at : ℕ → ℕ
  at k = get_or enc k 0

  group_bytes :
      (s0 s1 s2 k1 k2 k3 : ℕ) (d : List ℕ)
      → s0 < 256
      → s1 < 256
      → s2 < 256
      → k1 ≡ s0 % 4 * 16 + s1 / 16
      → k2 ≡ s1 % 16 * 4 + s2 / 64
      → k3 ≡ s2 % 64
      → u8 (bit_or (s0 / 4 * 4) (k1 / 16))
          ∷ u8 (bit_or (k1 * 16) (k2 / 4))
          ∷ u8 (bit_or (k2 * 64) k3)
          ∷ d
        ≡ s0 ∷ s1 ∷ s2 ∷ d
  group_bytes s0 s1 s2 k1 k2 k3 d h0 h1 h2 e1 e2 e3 =
      rw
        (
          first_byte s0 k1 h0 (omega arith),
          second_byte s1 k1 k2 h1 (omega arith) (omega arith),
          third_byte s2 k2 k3 h2 (omega arith) e3,
        )
        refl

  pub group-Coded :
      (s0 s1 s2 : ℕ) (text d : List ℕ)
      → s0 < 256
      → s1 < 256
      → s2 < 256
      → (w : Coded dec text d)
      → (v : Coded dec
          (at (s0 / 4) ∷ at (second s0 s1) ∷ at (third s1 s2) ∷ at (bit_and s2 0x3f) ∷ text)
          (s0 ∷ s1 ∷ s2 ∷ d))
        × (v.left ≡ suc (suc (suc (suc w.left))))
  group-Coded s0 s1 s2 text d h0 h1 h2 w =
      let e1 = second_lem s0 s1 h1 in
      let e2 = third_lem s1 s2 h2 in
      let e3 : bit_and s2 0x3f ≡ s2 % 64 = bit_and-low 6 s2 in
      let t0 = table enc dec {k = s0 / 4} inverse (omega arith) in
      let t1 = table enc dec {k = second s0 s1} inverse (omega (arith, e1)) in
      let t2 = table enc dec {k = third s1 s2} inverse (omega (arith, e2)) in
      let t3 = table enc dec {k = bit_and s2 0x3f} inverse (omega (arith, e3)) in
      (
        record {
          left = suc (suc (suc (suc w.left)));
          stripped = strip_end-plain _ _ _ _ t0.1 (
              strip_end-plain _ _ _ _ t1.1
                (strip_end-plain _ _ _ _ t2.1 (strip_end-plain _ _ _ _ t3.1 w.stripped)));
          decodes = λ fuel h. go fuel h t0.0 t1.0 t2.0 t3.0 (not_break _ t0.1) e1 e2 e3;
        },
        refl,
      )
    where
      go :
          (fuel : ℕ)
          → suc (suc (suc (suc w.left))) < fuel
          → get_elem? dec (at (s0 / 4)) ≡ some (s0 / 4)
          → get_elem? dec (at (second s0 s1)) ≡ some (second s0 s1)
          → get_elem? dec (at (third s1 s2)) ≡ some (third s1 s2)
          → get_elem? dec (at (bit_and s2 0x3f)) ≡ some (bit_and s2 0x3f)
          → (at (s0 / 4) == b'\r') ≡ false
          → second s0 s1 ≡ s0 % 4 * 16 + s1 / 16
          → third s1 s2 ≡ s1 % 16 * 4 + s2 / 64
          → bit_and s2 0x3f ≡ s2 % 64
          → decode_groups dec fuel
              (at (s0 / 4) ∷ at (second s0 s1) ∷ at (third s1 s2) ∷ at (bit_and s2 0x3f) ∷ text)
              (suc (suc (suc (suc w.left))))
            ≡ some (s0 ∷ s1 ∷ s2 ∷ d)
      go zero h f0 f1 f2 f3 plain e1 e2 e3 = absurd (omega arith)
      go (suc fuel) h f0 f1 f2 f3 plain e1 e2 e3 =
          decode_four dec (at (s0 / 4)) (at (second s0 s1)) (at (third s1 s2))
            (at (bit_and s2 0x3f)) text fuel w.left f0 f1 f2 f3 plain (w.decodes fuel (omega arith))
          ∙ ap some (
              group_bytes s0 s1 s2 (second s0 s1) (third s1 s2) (bit_and s2 0x3f) d h0 h1 h2 e1 e2
                e3)

  -- A line break in front of a group.
  pub break-Coded :
      (x : ℕ) (text d : List ℕ)
      → is_end x ≡ false
      → (w : Coded dec (x ∷ text) d) → 3 < w.left
      → (v : Coded dec (b'\r' ∷ b'\n' ∷ x ∷ text) d) × (3 < v.left)
  break-Coded x text d plain w long = (
    record {
      left = suc (suc w.left);
      stripped = any _ _ (b'\r') (any _ _ (b'\n') w.stripped long) (omega arith);
      decodes = go;
    },
    omega arith,
  )
    where
      any :
          (l : List ℕ) (n : ℕ) {m : ℕ} (c : ℕ)
          → strip_end l n ≡ some m
          → 3 < m
          → strip_end (c ∷ l) (suc n) ≡ some (suc m)
      any l n {m = zero} c h big = absurd (omega arith)
      any l n {m = suc m} c h big = strip_end-any c l n m h

      go :
          (fuel : ℕ)
          → suc (suc w.left) < fuel
          → decode_groups dec fuel (b'\r' ∷ b'\n' ∷ x ∷ text) (suc (suc w.left)) ≡ some d
      go zero h = absurd (omega arith)
      go (suc fuel) h =
          decode_break dec x text fuel w.left long (not_break x plain)
          ∙ w.decodes (suc fuel) (omega arith)

  abbrev pads : Bool → List ℕ → List ℕ
  pads padding marks = if padding then marks else []

  pub one-Coded :
      (s0 : ℕ) (padding : Bool)
      → s0 < 256
      → Coded dec (at (s0 / 4) ∷ at (bit_and s0 3 * 16) ∷ pads padding (b'=' ∷ b'=' ∷ [])) (s0 ∷ [])
  one-Coded s0 padding h0 =
      let e1 : bit_and s0 3 * 16 ≡ s0 % 4 * 16 = omega (arith, bit_and-low 2 s0) in
      let t0 = table enc dec {k = s0 / 4} inverse (omega arith) in
      let t1 = table enc dec {k = bit_and s0 3 * 16} inverse (omega (arith, e1)) in
      record {
        left = 2;
        stripped = strip_end-plain _ _ _ _ t0.1 (strip_end-plain _ _ _ _ t1.1 (ends padding));
        decodes = λ fuel h.
            go fuel h t0.0 t1.0 (first_byte s0 (bit_and s0 3 * 16) h0 (omega (arith, e1)));
      }
    where
      ends :
          (p : Bool)
          → strip_end (pads p (b'=' ∷ b'=' ∷ [])) (length (pads p (b'=' ∷ b'=' ∷ []))) ≡ some 0
      ends true =
          strip_end-more (b'=') (b'=' ∷ []) 1 refl (strip_end-more (b'=') [] 0 refl (nothing []))
      ends false = nothing []

      go :
          (fuel : ℕ)
          → 2 < fuel
          → get_elem? dec (at (s0 / 4)) ≡ some (s0 / 4)
          → get_elem? dec (at (bit_and s0 3 * 16)) ≡ some (bit_and s0 3 * 16)
          → u8 (bit_or (s0 / 4 * 4) (bit_and s0 3 * 16 / 16)) ≡ s0
          → decode_groups dec fuel
              (at (s0 / 4) ∷ at (bit_and s0 3 * 16) ∷ pads padding (b'=' ∷ b'=' ∷ []))
              2
            ≡ some (s0 ∷ [])
      go zero h f0 f1 e = absurd (omega arith)
      go (suc fuel) h f0 f1 e =
          decode_two dec (at (s0 / 4)) (at (bit_and s0 3 * 16)) (pads padding (b'=' ∷ b'=' ∷ []))
            fuel f0 f1
          ∙ ap (λ b. some (b ∷ [])) e

  pub two-Coded :
      (s0 s1 : ℕ) (padding : Bool)
      → s0 < 256
      → s1 < 256
      → Coded dec
          (at (s0 / 4)
            ∷ at (bit_and s0 3 * 16 + s1 / 16)
            ∷ at (bit_and s1 15 * 4)
            ∷ pads padding (b'=' ∷ []))
          (s0 ∷ s1 ∷ [])
  two-Coded s0 s1 padding h0 h1 =
      let k1 = bit_and s0 3 * 16 + s1 / 16 in
      let k2 = bit_and s1 15 * 4 in
      let e1 : k1 ≡ s0 % 4 * 16 + s1 / 16 = omega (arith, bit_and-low 2 s0) in
      let e2 : k2 ≡ s1 % 16 * 4 = omega (arith, bit_and-low 4 s1) in
      let t0 = table enc dec {k = s0 / 4} inverse (omega arith) in
      let t1 = table enc dec {k = k1} inverse (omega (arith, e1)) in
      let t2 = table enc dec {k = k2} inverse (omega (arith, e2)) in
      record {
        left = 3;
        stripped =
            strip_end-plain _ _ _ _ t0.1
              (strip_end-plain _ _ _ _ t1.1 (strip_end-plain _ _ _ _ t2.1 (ends padding)));
        decodes = λ fuel h.
            go k1 k2 fuel h t0.0 t1.0 t2.0 (first_byte s0 k1 h0 (omega (arith, e1)))
              (second_byte s1 k1 k2 h1 (omega (arith, e1)) (omega (arith, e2)));
      }
    where
      ends : (p : Bool) → strip_end (pads p (b'=' ∷ [])) (length (pads p (b'=' ∷ []))) ≡ some 0
      ends true = strip_end-more (b'=') [] 0 refl (nothing [])
      ends false = nothing []

      go :
          (k1 k2 fuel : ℕ)
          → 3 < fuel
          → get_elem? dec (at (s0 / 4)) ≡ some (s0 / 4)
          → get_elem? dec (at k1) ≡ some k1
          → get_elem? dec (at k2) ≡ some k2
          → u8 (bit_or (s0 / 4 * 4) (k1 / 16)) ≡ s0
          → u8 (bit_or (k1 * 16) (k2 / 4)) ≡ s1
          → decode_groups dec fuel (at (s0 / 4) ∷ at k1 ∷ at k2 ∷ pads padding (b'=' ∷ [])) 3
            ≡ some (s0 ∷ s1 ∷ [])
      go k1 k2 zero h f0 f1 f2 e e' = absurd (omega arith)
      go k1 k2 (suc fuel) h f0 f1 f2 e e' =
          decode_three dec (at (s0 / 4)) (at k1) (at k2) (pads padding (b'=' ∷ [])) fuel f0 f1 f2
          ∙ ap₂ (λ a b. some (a ∷ b ∷ [])) e e'
