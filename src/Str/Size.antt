-- ===== src/Str/Size.antt =====
-- The well-formed strings, and how str.c allocates and grows them.
use fast_http.Prelude.{
  ℕ, zero, suc, ◌+◌, ◌-◌, ◌*◌, ◌^◌, ◌≤◌, ◌<◌, ◌≡◌, refl, sym, ap, ◌∙◌, Option, some, List, arith,
  u32, leb, if◌then◌else◌, length, take, set, get_elem?, length-set, get_elem?-set_self,
  get_elem?-take, take-take, min, dec_lt, dec_le, false,
}
use fast_http.Str.{Str, Allocator, head_size, round_cap, put, str_malloc, str_grow}
use fast_http.Str.Put.{Written, put_lem}

-- The block has room for the capacity and a NUL, and a NUL stands behind the text.
pub record IsValid (s : Str) : Type 0 where
  pub block_size : length s.bytes ≡ s.cap + 1
  pub len_in : s.len ≤ s.cap
  pub ended : get_elem? s.bytes s.len ≡ some 0

-- The bytes of the text.
abbrev pub text : Str → List ℕ
text s = take s.len s.bytes

round_cap-enough :
    (fuel k min_cap cap : ℕ)
    → 0 < cap
    → k < fuel
    → min_cap ≤ cap + k
    → min_cap + 1024 < 2 ^ 32
    → (c : ℕ) × (round_cap fuel min_cap cap ≡ some c) × (min_cap ≤ c)
unfolding round_cap
round_cap-enough zero k min_cap cap pos f short fits = absurd (omega arith)
round_cap-enough (suc fuel) k min_cap cap pos f short fits = elim (dec_lt cap min_cap) [
  | yes small ↦
      let next : ℕ = if leb min_cap 1024 then u32 (cap * 2) else u32 (cap + 1024) in
      let grows : cap < next = ground arith in
      let (c, e, enough) =
        round_cap-enough fuel (k - 1) min_cap next (omega arith) (omega arith) (omega arith) fits in
      (c, ground (arith, e), enough)
  | no large ↦ (cap, ground arith, omega arith)
]

malloc-returns :
    (mem : Allocator) (capacity c : ℕ)
    → u32 (capacity + head_size + 1) ≡ capacity + 9
    → round_cap (capacity + 9 + 1) (capacity + 9) 32 ≡ some c
    → str_malloc mem capacity
      ≡ some
          (record { len = 0; cap = c - head_size - 1; bytes = set (mem.block (c - head_size)) 0 0 })
unfolding str_malloc
malloc-returns mem capacity c no_wrap e = rw (no_wrap, e) refl

-- What `str_malloc` gives.
pub str_malloc_lem :
    (mem : Allocator) (capacity : ℕ)
    → capacity + 1033 < 2 ^ 32
    → (s : Str) × (str_malloc mem capacity ≡ some s) × IsValid s × (s.len ≡ 0) × (capacity ≤ s.cap)
str_malloc_lem mem capacity fits =
    let no_wrap : u32 (capacity + head_size + 1) ≡ capacity + 9 = omega arith in
    let (c, e, enough) =
      round_cap-enough (capacity + 9 + 1) (capacity + 9) (capacity + 9) 32 (omega arith)
        (omega arith) (omega arith) (omega arith) in
    let s : Str = record {
      len = 0;
      cap = c - head_size - 1;
      bytes = set (mem.block (c - head_size)) 0 0;
    } in
    (
      s,
      malloc-returns mem capacity c no_wrap e,
      record {
        block_size =
            length-set (mem.block (c - head_size)) 0 0
            ∙ (mem.length-block (c - head_size) ∙ omega arith);
        len_in = omega arith;
        ended =
            get_elem?-set_self (mem.block (c - head_size)) 0 0
              (omega (arith, mem.length-block (c - head_size)));
      },
      refl,
      omega arith,
    )

-- The first `n + 1` bytes are a text of `n` bytes and its NUL.
pub Written-ended :
    {dst src : List ℕ} (n : ℕ) {result : Option (List ℕ)} (w : Written dst 0 src (n + 1) result)
    → get_elem? src n ≡ some 0
    → (get_elem? w.out n ≡ some 0) × (take n w.out ≡ take n src)
Written-ended {dst} {src} n w ended = (
  sym (get_elem?-take (n + 1) n w.out (omega arith))
      ∙ (ap (λ l. get_elem? l n) copied ∙ (get_elem?-take (n + 1) n src (omega arith) ∙ ended)),
  cut w.out ∙ (ap (take n) copied ∙ sym (cut src)),
)
  where
    copied : take (n + 1) w.out ≡ take (n + 1) src
    copied = ap (λ k. take k w.out) {x = n + 1} {y = 0 + (n + 1)} (omega arith) ∙ w.holds

    cut : (l : List ℕ) → take n l ≡ take n (take (n + 1) l)
    cut l =
        ap (λ k. take k l) {x = n} {y = min n (n + 1)} (omega arith) ∙ sym (take-take n (n + 1) l)

grow-returns :
    (mem : Allocator) (s : Str) (capacity : ℕ) (p : Str) (out : List ℕ)
    → leb capacity s.cap ≡ false
    → str_malloc mem capacity ≡ some p
    → put p.bytes 0 s.bytes (s.len + 1) ≡ some out
    → str_grow mem s capacity ≡ some (record p { len = s.len; bytes = out })
unfolding str_grow
grow-returns mem s capacity p out small e written = rw (small, e, written) refl

-- `str_grow` keeps the text and gives at least the capacity asked for.
pub str_grow_lem :
    (mem : Allocator) {s : Str} (capacity : ℕ)
    → IsValid s
    → capacity + 1033 < 2 ^ 32
    → (s' : Str) × (str_grow mem s capacity ≡ some s')
      × IsValid s'
      × (capacity ≤ s'.cap)
      × (s'.len ≡ s.len)
      × (text s' ≡ text s)
unfolding str_grow
str_grow_lem mem {s} capacity v fits = elim (dec_le capacity s.cap) [
  | yes enough ↦ (s, ground arith, v, enough, refl, refl)
  | no more ↦
      let small : leb capacity s.cap ≡ false = ground arith in
      let (p, e, vp, empty, room) = str_malloc_lem mem capacity fits in
      let w =
        put_lem p.bytes 0 s.bytes (s.len + 1) (omega (arith, vp.block_size, v.len_in))
          (omega (arith, v.block_size, v.len_in)) in
      let (ended, same) = Written-ended s.len w v.ended in
      (
        record p { len = s.len; bytes = w.out },
        grow-returns mem s capacity p w.out small e w.returns,
        record {
          block_size = w.same_length ∙ vp.block_size;
          len_in = omega (arith, v.len_in);
          ended = ended;
        },
        room,
        refl,
        same,
      )
]
