-- ===== src/Buffer/Walk.antt =====
-- buffer.c: `buffer_foreach`, and what is built on it. A callback gets its argument and the bytes of one
-- piece, and gives the argument afterwards, what the piece holds then, and what it returns.
use fast_http.Prelude.{
  ℕ, zero, suc, ◌+◌, ◌-◌, ◌/◌, ◌^◌, Option, none, some, List, [], ◌++◌, ltb, leb, ◌==◌,
  if◌then◌else◌, ◌>>=◌, ◌>>◌, require, length, take, drop, set, bit_and, get_elem?,
}
use fast_http.Str.{Allocator, put}
use fast_http.Buffer.{Buffer, block_at, buffer_set_length, size_t}

abbrev pub Callback {ℓ} : Type ℓ → Type ℓ
Callback A = A → List ℕ → Option (A × List ℕ × ℕ)

module _ {ℓ} {A : Type ℓ} (on_foreach : Callback A) where
  -- The loop, with `pos` the place reached: the array, the argument and the place where it stops.
  unfoldable pub foreach_loop :
      ℕ → List (Option (List ℕ)) → A → ℕ → ℕ → Option (List (Option (List ℕ)) × A × ℕ)
  foreach_loop zero array arg pos end = none
  foreach_loop (suc fuel) array arg pos end =
      let off = bit_and pos 1023 in
      let x = 1024 - off in
      let y = end - pos in
      let len = if ltb x y then x else y in
      let step = block_at array (pos / 1024) >>= λ bytes.
      require (leb (off + len) (length bytes))
      >> (on_foreach arg (take len (drop off bytes)) >>= λ (arg', piece, ret).
          put bytes off piece len >>= λ bytes'.
          let array' = set array (pos / 1024) (some bytes') in
          let next = foreach_loop fuel array' arg' (pos + len) end in
          if ret == 0 then some (array', arg', pos) else next) in
      if ltb pos end then step else some (array, arg, pos)

  unfoldable pub buffer_foreach : Buffer → A → ℕ → ℕ → Option (Buffer × A × ℕ)
  buffer_foreach p arg begin end = do
    (array, arg', pos) ← foreach_loop (end + 1) p.array arg begin end
    some (record p { array = array }, arg', pos - begin)

-- The argument is what is left of the source.
abbrev pub on_write : Callback (List ℕ)
on_write arg piece =
    put piece 0 arg (length piece) >>= λ bytes. some (drop (length piece) arg, bytes, length piece)

unfoldable pub buffer_write : Allocator → Buffer → List ℕ → ℕ → Option (Buffer × ℕ)
buffer_write mem p src srclen = do
  let oldlen = p.len
  let newlen = oldlen + srclen
  p1 ← buffer_set_length mem p newlen
  (p2, _, _) ← buffer_foreach on_write p1 src oldlen newlen
  some (p2, srclen)

-- The argument is what is written to the destination so far.
abbrev pub on_read : Callback (List ℕ)
on_read arg piece = some (arg ++ piece, piece, length piece)

unfoldable pub buffer_read : Buffer → ℕ → ℕ → Option (List ℕ × ℕ)
buffer_read p src_begin src_end = do
  (_, dst, _) ← buffer_foreach on_read p [] src_begin src_end
  some (dst, size_t (src_end + 2 ^ 64 - src_begin))

-- The byte that the pointer refers to.
unfoldable pub buffer_get : Buffer → ℕ → Option ℕ
buffer_get p pos = block_at p.array (pos / 1024) >>= λ bytes. get_elem? bytes (bit_and pos 1023)
