-- ===== src/Str/Copy.antt =====
-- The strings that str.c and str.h make from a C string or from another string.
use fast_http.Prelude.{
  ℕ, ◌+◌, ◌^◌, ◌≤◌, ◌<◌, ◌≡◌, refl, sym, ap, ◌∙◌, some, List, [], ◌∷◌, ◌++◌, arith, length, take,
  get_elem?, take-append_le, take-all, length-append,
}
use fast_http.Str.{Str, Allocator, put, str_malloc, str_from_cstr, str_copy}
use fast_http.Str.Put.{put_lem}
use fast_http.Str.Size.{IsValid, text, str_malloc_lem, Written-ended}

-- A new string that holds the `n` bytes of a source and the NUL behind them.
filled :
    (mem : Allocator) (src : List ℕ) (n : ℕ)
    → n + 1 ≤ length src
    → get_elem? src n ≡ some 0
    → n + 1033 < 2 ^ 32
    → (p s : Str) × (str_malloc mem n ≡ some p)
      × (put p.bytes 0 src (n + 1) ≡ some s.bytes)
      × (s ≡ record p { len = n; bytes = s.bytes })
      × IsValid s
      × (text s ≡ take n src)
filled mem src n enough ended fits =
    let (p, e, vp, empty, room) = str_malloc_lem mem n fits in
    let w = put_lem p.bytes 0 src (n + 1) (omega (arith, vp.block_size)) enough in
    let (nul, same) = Written-ended n w ended in
    (
      p,
      record p { len = n; bytes = w.out },
      e,
      w.returns,
      refl,
      record { block_size = w.same_length ∙ vp.block_size; len_in = room; ended = nul },
      same,
    )

from_cstr-returns :
    (mem : Allocator) (src : List ℕ) (p s : Str)
    → str_malloc mem (length src) ≡ some p
    → put p.bytes 0 (src ++ 0 ∷ []) (length src + 1) ≡ some s.bytes
    → s ≡ record p { len = length src; bytes = s.bytes }
    → str_from_cstr mem (some src) ≡ some s
unfolding str_from_cstr
from_cstr-returns mem src p s made written whole = rw (made, written) (ap some (sym whole))

copy-returns :
    (mem : Allocator) (src p s : Str)
    → str_malloc mem src.len ≡ some p
    → put p.bytes 0 src.bytes (src.len + 1) ≡ some s.bytes
    → s ≡ record p { len = src.len; bytes = s.bytes }
    → str_copy mem (some src) ≡ some s
unfolding str_copy
copy-returns mem src p s made written whole = rw (made, written) (ap some (sym whole))

-- `str_from_cstr` of a C string gives a well-formed string with that text, and `str_copy` of a
-- well-formed string one with the same text, if the length and 1033 fit a `uint32_t`.
pub copies_lem :
    (mem : Allocator) (src : List ℕ) {other : Str}
    → length src + 1033 < 2 ^ 32
    → IsValid other
    → other.len + 1033 < 2 ^ 32
    → ((s : Str) × (str_from_cstr mem (some src) ≡ some s) × IsValid s × (text s ≡ src))
      × ((s : Str) × (str_copy mem (some other) ≡ some s) × IsValid s × (text s ≡ text other))
copies_lem mem src {other} fits v fits' =
    let (p, s, e, written, whole, vs, held) =
      filled mem (src ++ 0 ∷ []) (length src) (omega (arith, length-append src (0 ∷ [])))
        (nul_behind src) fits in
    let (p', s', e', written', whole', vs', held') =
      filled mem other.bytes other.len (omega (arith, v.block_size, v.len_in)) v.ended fits' in
    (
      (
        s,
        from_cstr-returns mem src p s e written whole,
        vs,
        held
            ∙ (take-append_le (length src) src (0 ∷ []) (omega arith)
                ∙ take-all (length src) src (omega arith)),
      ),
      (s', copy-returns mem other p' s' e' written' whole', vs', held'),
    )
  where
    nul_behind : (l : List ℕ) → get_elem? (l ++ 0 ∷ []) (length l) ≡ some 0
    nul_behind [] = refl
    nul_behind (x ∷ l) = nul_behind l
