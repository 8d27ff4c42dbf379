-- ===== src/Buffer/Bytes.antt =====
-- Reading and writing a buffer of buffer.c, over the borders of its blocks.
use fast_http.Prelude.{
  ℕ, zero, suc, ◌+◌, ◌-◌, ◌^◌, ◌≤◌, ◌<◌, ◌≡◌, refl, sym, ap, ap₂, ◌∙◌, true, false, Option, some,
  List, [], ◌++◌, arith, length, take, drop, ltb, leb, length-take, length-drop, take-all, drop-all,
  take-add, drop-drop, append_assoc, append-nil, drop-append_ge, take-append_le, dec_lt, u32,
}
use fast_http.Str.{Allocator, put}
use fast_http.Buffer.{Buffer, buffer_set_length, size_t}
use fast_http.Buffer.Walk.{
  foreach_loop, buffer_foreach, on_write, on_read, buffer_write, buffer_read,
}
use fast_http.Buffer.Round.{next_len, one-Round, loop-ends}
use fast_http.Buffer.Blocks.{
  flat, AllBlocks, overwrite, length-overwrite, overwrite-overwrite, overwrite_same,
}

read_pieces :
    (arg bytes bytes' : List ℕ) (pos len rest total : ℕ)
    → bytes' ≡ bytes
    → total ≡ len + rest
    → (arg ++ take len (drop pos bytes)) ++ take rest (drop (pos + len) bytes')
      ≡ arg ++ take total (drop pos bytes)
read_pieces arg bytes bytes' pos len rest total same e =
    ap (λ l. (arg ++ take len (drop pos bytes)) ++ take rest (drop (pos + len) l)) same
    ∙ (append_assoc arg (take len (drop pos bytes)) (take rest (drop (pos + len) bytes))
        ∙ ap (λ l. arg ++ l)
            (ap (λ l. take len (drop pos bytes) ++ take rest l)
                (sym (drop-drop len pos (pos + len) bytes (omega arith)))
              ∙ sym (take-add len rest total (drop pos bytes) e)))

written_pieces :
    (bytes bytes' src : List ℕ) (pos len rest total : ℕ)
    → bytes' ≡ overwrite bytes pos (take len src)
    → length (take len src) ≡ len
    → pos + len ≤ length bytes
    → total ≡ len + rest
    → overwrite bytes' (pos + len) (take rest (drop len src)) ≡ overwrite bytes pos (take total src)
written_pieces bytes bytes' src pos len rest total e size inside sum =
    ap (λ l. overwrite l (pos + len) (take rest (drop len src))) e
    ∙ (overwrite-overwrite bytes pos (pos + len) (take len src) (take rest (drop len src))
          (omega (arith, size)) (omega (arith, size))
        ∙ ap (overwrite bytes pos) (sym (take-add len rest total src sum)))

read_loop :
    (fuel : ℕ) (array : List (Option (List ℕ))) (arg : List ℕ) (pos end : ℕ)
    → AllBlocks array
    → pos ≤ end
    → end ≤ length (flat array)
    → end - pos < fuel
    → (array' : List (Option (List ℕ))) × (foreach_loop on_read fuel array arg pos end
        ≡ some (array', arg ++ take (end - pos) (drop pos (flat array)), end))
      × (flat array' ≡ flat array)
read_loop zero array arg pos end blocks order inside enough = absurd (omega arith)
read_loop (suc fuel) array arg pos end blocks order inside enough = elim (dec_lt pos end) [
  | no done ↦ (
    array,
    loop-ends on_read fuel array arg pos end (omega arith)
        ∙ ap₂ (λ a k. some (array, a, k))
            (sym (append-nil arg)
              ∙ ap (λ k. arg ++ take k (drop pos (flat array))) {x = 0} {y = end - pos}
                  (omega arith))
            (omega arith),
    refl,
  )
  | yes more ↦
      let len = next_len pos end in
      let piece = take len (drop pos (flat array)) in
      let some_left : 0 < len = ground arith in
      let fits : pos + len ≤ end = ground arith in
      let size : length piece ≡ len =
        omega (arith, length-take len (drop pos (flat array)), length-drop pos (flat array)) in
      let r =
        one-Round on_read fuel array arg (arg ++ piece) pos end (length piece) piece blocks more
          inside refl size (ground (arith, size, some_left)) in
      let same : flat r.array' ≡ flat array =
        r.bytes ∙ overwrite_same (flat array) pos len (omega arith) in
      let (array', e, kept) =
        read_loop fuel r.array' (arg ++ piece) (pos + len) end r.blocks fits
          (omega (arith, ap length same)) (omega arith) in
      (
        array',
        r.continues
            ∙ (e
                ∙ ap (λ a. some (array', a, end))
                    (read_pieces arg (flat array) (flat r.array') pos len (end - (pos + len))
                      (end - pos) same (omega arith))),
        kept ∙ same,
      )
]

write-call :
    (src piece : List ℕ) (n : ℕ)
    → length piece ≡ n
    → n ≤ length src
    → on_write src piece ≡ some (drop n src, take n src, n)
unfolding put
write-call src piece n size enough =
    let inside : leb (0 + length piece) (length piece) ≡ true = ground arith in
    let source : leb (length piece) (length src) ≡ true = ground (arith, size) in
    rw (inside, source)
      (ap₂ (λ k l. some (drop k src, take k src ++ l, k)) size
          (drop-all (0 + length piece) piece (omega arith))
        ∙ ap (λ l. some (drop n src, l, n)) (append-nil (take n src)))

write_loop :
    (fuel : ℕ) (array : List (Option (List ℕ))) (src : List ℕ) (pos end : ℕ)
    → AllBlocks array
    → pos ≤ end
    → end ≤ length (flat array)
    → end - pos ≤ length src
    → end - pos < fuel
    → (array' : List (Option (List ℕ))) × (foreach_loop on_write fuel array src pos end
        ≡ some (array', drop (end - pos) src, end))
      × AllBlocks array'
      × (flat array' ≡ overwrite (flat array) pos (take (end - pos) src))
write_loop zero array src pos end blocks order inside given enough = absurd (omega arith)
write_loop (suc fuel) array src pos end blocks order inside given enough = elim (dec_lt pos end) [
  | no done ↦ (
    array,
    loop-ends on_write fuel array src pos end (omega arith)
        ∙ ap₂ (λ k m. some (array, drop k src, m)) {x = 0} {y = end - pos} (omega arith)
            (omega arith),
    blocks,
    sym (overwrite_same (flat array) pos 0 (omega arith))
        ∙ ap (λ k. overwrite (flat array) pos (take k src)) {x = 0} {y = end - pos} (omega arith),
  )
  | yes more ↦
      let len = next_len pos end in
      let some_left : 0 < len = ground arith in
      let fits : pos + len ≤ end = ground arith in
      let piece = take len (drop pos (flat array)) in
      let size : length piece ≡ len =
        omega (arith, length-take len (drop pos (flat array)), length-drop pos (flat array)) in
      let new_size : length (take len src) ≡ len = omega (arith, length-take len src) in
      let r =
        one-Round on_write fuel array src (drop len src) pos end len (take len src) blocks more
          inside (write-call src piece len size (omega arith)) new_size
          (ground (arith, some_left)) in
      let kept_size = length-overwrite (flat array) pos (take len src) (omega (arith, new_size)) in
      let (array', e, blocks', held) =
        write_loop fuel r.array' (drop len src) (pos + len) end r.blocks fits
          (omega (arith, ap length r.bytes, kept_size)) (omega (arith, length-drop len src))
          (omega arith) in
      (
        array',
        r.continues
            ∙ (e
                ∙ ap (λ l. some (array', l, end))
                    (drop-drop (end - (pos + len)) len (end - pos) src (omega arith))),
        blocks',
        held
            ∙ written_pieces (flat array) (flat r.array') src pos len (end - (pos + len))
                (end - pos) r.bytes new_size (omega arith) (omega arith),
      )
]

write-returns :
    (mem : Allocator) (p : Buffer) (src : List ℕ) (srclen : ℕ) (array' : List (Option (List ℕ)))
    (left : List ℕ)
    → ltb p.cap (p.len + srclen) ≡ false
    → u32 (p.len + srclen) ≡ p.len + srclen
    → foreach_loop on_write (p.len + srclen + 1) p.array src p.len (p.len + srclen)
      ≡ some (array', left, p.len + srclen)
    → buffer_write mem p src srclen
      ≡ some (record p { len = p.len + srclen; array = array' }, srclen)
unfolding buffer_write buffer_set_length buffer_foreach
write-returns mem p src srclen array' left e0 e1 e2 = rw (e0, e1, e2) refl

-- In a buffer with room for them, `buffer_write` puts the bytes behind the length, over the borders of the
-- blocks, moves the length and keeps every other byte.
pub buffer_write_lem :
    (mem : Allocator) (p : Buffer) (src : List ℕ) (srclen : ℕ)
    → AllBlocks p.array
    → p.cap ≤ length (flat p.array)
    → p.cap < 2 ^ 32
    → p.len + srclen ≤ p.cap
    → srclen ≤ length src
    → (p' : Buffer) × (buffer_write mem p src srclen ≡ some (p', srclen))
      × AllBlocks p'.array
      × (flat p'.array ≡ overwrite (flat p.array) p.len (take srclen src))
      × (p'.len ≡ p.len + srclen)
buffer_write_lem mem p src srclen blocks sized short room given =
    let end = p.len + srclen in
    let count : end - p.len ≡ srclen = omega arith in
    let (array', e, blocks', held) =
      write_loop (end + 1) p.array src p.len end blocks (omega arith) (omega arith) (omega arith)
        (omega arith) in
    (
      record p { len = end; array = array' },
      write-returns mem p src srclen array' (drop (end - p.len) src) (ground arith) (omega arith) e,
      blocks',
      held ∙ ap (λ k. overwrite (flat p.array) p.len (take k src)) count,
      refl,
    )

read-returns :
    (p : Buffer) (begin end : ℕ) (array' : List (Option (List ℕ))) (bytes : List ℕ)
    → foreach_loop on_read (end + 1) p.array [] begin end ≡ some (array', bytes, end)
    → size_t (end + 2 ^ 64 - begin) ≡ end - begin
    → buffer_read p begin end ≡ some (bytes, end - begin)
unfolding buffer_read buffer_foreach
read-returns p begin end array' bytes e e' = rw e (ap (λ k. some (bytes, k)) e')

-- `buffer_read` gives the bytes of a range of the blocks, over their borders.
pub buffer_read_lem :
    (p : Buffer) (begin end : ℕ)
    → AllBlocks p.array
    → begin ≤ end
    → end ≤ length (flat p.array)
    → end < 2 ^ 64
    → buffer_read p begin end ≡ some (take (end - begin) (drop begin (flat p.array)), end - begin)
buffer_read_lem p begin end blocks order inside short =
    let (array', e, _) =
      read_loop (end + 1) p.array [] begin end blocks order inside (omega arith) in
    read-returns p begin end array' (take (end - begin) (drop begin (flat p.array))) e (omega arith)

-- What `buffer_write` puts behind the contents of a buffer all of whose blocks have 1024 bytes (so not
-- one whose block `realloc_small` made), with a capacity below 2 ^ 32 that the blocks cover and room
-- for it, `buffer_read` of that range gives back.
pub buffer_read-buffer_write :
    (mem : Allocator) (p : Buffer) (src : List ℕ) (srclen : ℕ)
    → AllBlocks p.array
    → p.cap ≤ length (flat p.array)
    → p.cap < 2 ^ 32
    → p.len + srclen ≤ p.cap
    → srclen ≤ length src
    → (p' : Buffer) × (buffer_write mem p src srclen ≡ some (p', srclen))
      × (buffer_read p' p.len (p.len + srclen) ≡ some (take srclen src, srclen))
buffer_read-buffer_write mem p src srclen blocks sized short room given =
    let (p', e, blocks', held, _) =
      buffer_write_lem mem p src srclen blocks sized short room given in
    let new_size : length (take srclen src) ≡ srclen = omega (arith, length-take srclen src) in
    let same_size =
      length-overwrite (flat p.array) p.len (take srclen src) (omega (arith, new_size)) in
    (
      p',
      e,
      buffer_read_lem p' p.len (p.len + srclen) blocks' (omega arith)
            (omega (arith, ap length held, same_size)) (omega arith)
          ∙ ap₂ (λ l k. some (l, k))
              (ap (λ k. take k (drop p.len (flat p'.array))) {x = p.len + srclen - p.len}
                  {y = srclen} (omega arith)
                ∙ (ap (λ l. take srclen (drop p.len l)) held
                    ∙ middle (flat p.array) (take srclen src) p.len srclen new_size (omega arith)))
              (omega arith),
    )
  where
    middle :
        (l new : List ℕ) (off n : ℕ)
        → length new ≡ n
        → off ≤ length l
        → take n (drop off (overwrite l off new)) ≡ new
    middle l new off n size inside =
        ap (take n) (
          drop-append_ge off 0 (take off l) (new ++ drop (off + length new) l)
            (omega (arith, length-take off l)))
        ∙ (take-append_le n new (drop (off + length new) l) (omega (arith, size))
            ∙ take-all n new (omega (arith, size)))
