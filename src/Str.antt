-- ===== src/Str.antt =====
-- str.c and str.h: texts that know their length and capacity, in one block with a NUL behind the
-- text. A `str_t` points at the text; it is the record of the header before it and of the bytes that
-- it points to, up to the end of the block. `malloc` is a parameter, and is taken to succeed.
--
-- A source is the list of the bytes that may be read from there; a C string is the list of the bytes
-- before its NUL. A source does not lie in the string that is changed.
pub mod Put
pub mod Size
pub mod Append
pub mod Copy
pub mod Cats
mod Tests
use fast_http.Prelude.{
  ℕ, zero, suc, ◌+◌, ◌-◌, ◌*◌, ◌^◌, ◌≡◌, Bool, true, false, ◌&&◌, Option, none, some, List, [], ◌∷◌,
  ◌++◌, u32, ltb, leb, if◌then◌else◌, ◌>>=◌, ◌>>◌, require, length, take, drop, set,
}

-- `struct _str_head_t`
pub record Str : Type 0 where
  pub len : ℕ
  pub cap : ℕ
  pub bytes : List ℕ

-- `malloc` and the bytes that stand in a new block.
pub record Allocator : Type 0 where
  pub block : ℕ → List ℕ
  pub length-block : (n : ℕ) → length (block n) ≡ n

-- `sizeof(struct _str_head_t)`
abbrev pub head_size : ℕ
head_size = 8

-- `memcpy(dst + off, src, n)`
unfoldable pub put : List ℕ → ℕ → List ℕ → ℕ → Option (List ℕ)
put dst off src n =
    require (leb (off + n) (length dst) && leb n (length src))
    >> some (take off dst ++ (take n src ++ drop (off + n) dst))

-- `while (cap < min_cap)`; `none` means that the fuel ran out.
unfoldable pub round_cap : ℕ → ℕ → ℕ → Option ℕ
round_cap zero min_cap cap = none
round_cap (suc fuel) min_cap cap =
    let next = if leb min_cap 1024 then u32 (cap * 2) else u32 (cap + 1024) in
    let rest = round_cap fuel min_cap next in if ltb cap min_cap then rest else some cap

-- `while ((*dst = *src)) ++dst, ++src`: how far the destination moves and what it holds, for a source
-- that is a C string.
unfoldable pub strcpy2 : List ℕ → List ℕ → Option (List ℕ × ℕ)
strcpy2 dst src = do dst' ← put dst 0 (src ++ 0 ∷ []) (length src + 1); some (dst', length src)

unfoldable pub str_trim : Str → ℕ → Str
str_trim self len =
    if ltb len self.len then record self { len = len; bytes = set self.bytes len 0 } else self

-- `strlen` of every argument. The length of NULL is never set: reading it is a fault.
unfoldable pub total_len : ℕ → List (Option (List ℕ)) → ℕ
total_len len [] = len
total_len len (none ∷ args) = total_len len args
total_len len (some p ∷ args) = total_len (u32 (len + length p)) args

unfoldable pub copy_args : List ℕ → ℕ → List (Option (List ℕ)) → Option (List ℕ × ℕ)
copy_args bytes pos [] = some (bytes, pos)
copy_args bytes pos (none ∷ args) = none
copy_args bytes pos (some p ∷ args) =
    put bytes pos p (length p) >>= λ bytes'. copy_args bytes' (pos + length p) args

module _ (mem : Allocator) where
  unfoldable pub str_malloc : ℕ → Option Str
  str_malloc capacity = do
    let min_cap = u32 (capacity + head_size + 1)
    cap ← round_cap (min_cap + 1) min_cap 32
    some (record {
      len = 0;
      cap = cap - head_size - 1;
      bytes = set (mem.block (cap - head_size)) 0 0;
    })

  unfoldable pub str_from_cstr : Option (List ℕ) → Option Str
  str_from_cstr none = str_malloc 0
  str_from_cstr (some src) = do
    p ← str_malloc (length src)
    bytes' ← put p.bytes 0 (src ++ 0 ∷ []) (length src + 1)
    some (record p { len = length src; bytes = bytes' })

  unfoldable pub str_grow : Str → ℕ → Option Str
  str_grow self capacity =
      let grown = str_malloc capacity >>= λ p. put p.bytes 0 self.bytes (self.len + 1) >>= λ bytes'.
      some (record p { len = self.len; bytes = bytes' }) in
      if leb capacity self.cap then some self else grown

  unfoldable pub str_copy : Option Str → Option Str
  str_copy none = str_malloc 0
  str_copy (some src) = do
    p ← str_malloc src.len
    bytes' ← put p.bytes 0 src.bytes (src.len + 1)
    some (record p { len = src.len; bytes = bytes' })

  unfoldable pub str_append : Str → Option (List ℕ) → ℕ → Option Str
  str_append self none len = some self
  str_append self (some src) len = do
    let nl = u32 (self.len + len)
    s ← if ltb self.cap nl then str_grow self nl else some self
    bytes' ← put s.bytes self.len src len
    require (ltb nl (length bytes'))
    some (record s { len = nl; bytes = set bytes' nl 0 })

  unfoldable pub str_cat : Str → Option (List ℕ) → Option Str
  str_cat self none = some self
  str_cat self (some src) = str_append self (some src) (length src)

  unfoldable pub str_catstr : Str → Option Str → Option Str
  str_catstr self none = some self
  str_catstr self (some src) = str_append self (some src.bytes) src.len

  unfoldable pub string_cats : Str → List (Option (List ℕ)) → Option Str
  string_cats self args = do
    let len = total_len self.len args
    s ← if ltb self.cap len then str_grow self len else some self
    (bytes', pos) ← copy_args s.bytes s.len args
    require (ltb pos (length bytes'))
    some (record s { bytes = set bytes' pos 0 })
