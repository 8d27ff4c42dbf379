-- ===== src/Str/Append.antt =====
-- What the functions of str.c that make and extend strings leave as the text.
use fast_http.Prelude.{
  ℕ, ◌+◌, ◌^◌, ◌≤◌, ◌<◌, ◌≡◌, refl, sym, ap, ◌∙◌, true, false, some, List, ◌++◌, arith, u32, ltb,
  if◌then◌else◌, length, take, set, length-set, get_elem?-set_self, take-set, dec_lt,
}
use fast_http.Str.{Str, Allocator, put, str_grow, str_append}
use fast_http.Str.Put.{put_lem}
use fast_http.Str.Size.{IsValid, text, str_grow_lem}

-- A string that has room for `nl` bytes, made from `s`.
pub room_for :
    (mem : Allocator) {s : Str} (nl : ℕ)
    → IsValid s
    → nl + 1033 < 2 ^ 32
    → (g : Str) × ((if ltb s.cap nl then str_grow mem s nl else some s) ≡ some g)
      × IsValid g
      × (nl ≤ g.cap)
      × (g.len ≡ s.len)
      × (text g ≡ text s)
room_for mem {s} nl v fits = elim (dec_lt s.cap nl) [
  | yes small ↦
      let test : ltb s.cap nl ≡ true = ground arith in
      let (g, e, vg, room, same_len, same_text) = str_grow_lem mem nl v fits in
      (g, rw test e, vg, room, same_len, same_text)
  | no large ↦
      let test : ltb s.cap nl ≡ false = ground arith in
      (s, rw test refl, v, omega arith, refl, refl)
]

append-returns :
    (mem : Allocator) (s : Str) (src : List ℕ) (len : ℕ) (g : Str) (out : List ℕ)
    → u32 (s.len + len) ≡ s.len + len
    → (if ltb s.cap (s.len + len) then str_grow mem s (s.len + len) else some s) ≡ some g
    → put g.bytes s.len src len ≡ some out
    → ltb (s.len + len) (length out) ≡ true
    → str_append mem s (some src) len
      ≡ some (record g { len = s.len + len; bytes = set out (s.len + len) 0 })
unfolding str_append
append-returns mem s src len g out no_wrap grown written inside =
    rw (no_wrap, grown, written, inside) refl

-- In a well-formed string, `str_append` puts `len` bytes of the source behind the text, whether or not
-- the string has to grow, and leaves it well formed, if the new length and 1033 fit a `uint32_t`.
pub str_append_lem :
    (mem : Allocator) {s : Str} (src : List ℕ) (len : ℕ)
    → IsValid s
    → len ≤ length src
    → s.len + len + 1033 < 2 ^ 32
    → (s' : Str) × (str_append mem s (some src) len ≡ some s')
      × IsValid s'
      × (s'.len ≡ s.len + len)
      × (text s' ≡ text s ++ take len src)
str_append_lem mem {s} src len v enough fits =
    let nl = s.len + len in
    let no_wrap : u32 nl ≡ nl = omega arith in
    let (g, e, vg, room, same_len, same_text) = room_for mem nl v fits in
    let w = put_lem g.bytes s.len src len (omega (arith, vg.block_size)) enough in
    let inside : ltb nl (length w.out) ≡ true = ground (arith, w.same_length, vg.block_size) in
    (
      record g { len = nl; bytes = set w.out nl 0 },
      append-returns mem s src len g w.out no_wrap e w.returns inside,
      record {
        block_size = length-set w.out nl 0 ∙ (w.same_length ∙ vg.block_size);
        len_in = room;
        ended = get_elem?-set_self w.out nl 0 (omega (arith, w.same_length, vg.block_size));
      },
      refl,
      take-set nl nl 0 w.out (omega arith)
          ∙ (w.holds
              ∙ ap (λ l. l ++ take len src) (ap (λ k. take k g.bytes) (sym same_len) ∙ same_text)),
    )
