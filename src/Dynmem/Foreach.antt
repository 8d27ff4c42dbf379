-- ===== src/Dynmem/Foreach.antt =====
-- `dynmem_foreach` of dynmem.c, its callbacks, and the functions that are one walk over the pages:
-- `dynmem_write`, `dynmem_read`, `dynmem_chr`, `dynmem_rchr` and `dynmem_equal`.
--
-- A callback is given its argument and the bytes of one piece of a page; it returns the argument,
-- the bytes that it leaves there and its result, where 0 ends the walk. An access outside of a page
-- or of the caller's array, and a node behind the last page, are a fault, `none`.
use fast_http.Prelude.{
  ℕ, zero, suc, ◌+◌, ◌-◌, Bool, true, false, ◌||◌, Option, none, some, List, [], ◌∷◌, ◌++◌, u32,
  sub32, u32_max, ltb, leb, ◌==◌, if◌then◌else◌, ◌>>=◌, ◌>>◌, require, length, take, drop, slice,
  get_elem?,
}
use fast_http.Dynmem.{Page, Dynmem, Malloc, check_len, getpage, in_page, set_cap}
use mathlib.Core.List.{reverse}

abbrev pub Callback : Type 0 → Type 0
Callback S = S → List ℕ → Option (S × List ℕ × ℕ)

module _ {S : Type 0} (callback : Callback S) where
  -- `callback(arg, node->data + off, size)`
  unfoldable pub call : Page → ℕ → ℕ → S → Option (Page × S × ℕ)
  call n off size s = do
    require (leb (off + size) (length n.bytes))
    (s', piece, ret) ← callback s (slice off size n.bytes)
    some (record n { bytes = take off n.bytes ++ piece ++ drop (off + size) n.bytes }, s', ret)

  -- One round: call back on a piece of `n`, and go on with `next` unless the result is 0.
  unfoldable pub visit :
      Page → List Page → ℕ → ℕ → S → (S → Option (List Page × S)) → Option (List Page × S)
  visit n ns off size s next = do
    (n', s', ret) ← call n off size s
    let rest = next s' >>= λ (ns', t). some (n' ∷ ns', t)
    if ret == 0 then some (n' ∷ ns, s') else rest

  -- `while (loop_len)`, over whole pages. What is left of the list of nodes is returned with the
  -- pages that were visited before it.
  unfoldable pub walk : ℕ → List Page → ℕ → S → Option (List Page × S)
  walk ps [] left s = if left == 0 then some ([], s) else none
  walk ps (n ∷ ns) left s =
      let size = if ltb ps left then ps else left in
      let go = visit n ns 0 size s (walk ps ns (left - size)) in
      if left == 0 then some (n ∷ ns, s) else go

  -- The part of the first page that begins at `off`, if `off` is not at its start, and the loop.
  unfoldable pub start : ℕ → ℕ → List Page → ℕ → S → Option (List Page × S)
  start ps off [] left s = none
  start ps off (n ∷ ns) left s =
      let size = if ltb left (ps - off) then left else ps - off in
      if off == 0 then walk ps (n ∷ ns) left s else visit n ns off size s (walk ps ns (left - size))

  -- The result is the length that was to be walked, also where the callback ended the walk.
  unfoldable pub foreach : Dynmem → ℕ → ℕ → S → Option (ℕ × Dynmem × S)
  foreach m off len s =
      let n = check_len m.cap off len in
      let after = getpage m.page off m.pages in
      let before = take (length m.pages - length after) m.pages in
      if n == 0
      then some (0, m, s)
      else (start m.page (in_page m off) after n s >>= λ (after', s').
          some (n, record m { pages = before ++ after' }, s'))

-- The argument is the rest of the source.
unfoldable pub on_write : Callback (List ℕ)
on_write src piece =
    require (leb (length piece) (length src))
    >> some (drop (length piece) src, take (length piece) src, length piece)

-- The argument is what was written to the destination so far.
unfoldable pub on_read : Callback (List ℕ)
on_read dst piece = some (dst ++ piece, piece, length piece)

-- `memchr`
unfoldable pub memchr : ℕ → List ℕ → Option ℕ
memchr ch [] = none
memchr ch (b ∷ bs) = if b == ch then some 0 else (memchr ch bs >>= λ i. some (suc i))

-- `chr_arg_t`
pub record ChrArg : Type 0 where
  pub ch : ℕ
  pub pos : ℕ

unfoldable pub on_find_char : Callback ChrArg
on_find_char arg piece = elim (memchr arg.ch piece) [
  | none ↦ some (record arg { pos = u32 (arg.pos + length piece) }, piece, length piece)
  | some i ↦ some (record arg { pos = u32 (arg.pos + i) }, piece, 0)
]

-- `memcmp(a, b, n) == 0` for the bytes of `a`; a text that ends before it differs is a fault.
unfoldable pub memcmp_eq : List ℕ → List ℕ → Option Bool
memcmp_eq [] bs = some true
memcmp_eq (a ∷ rest_a) [] = none
memcmp_eq (a ∷ rest_a) (b ∷ bs) =
    let rest = memcmp_eq rest_a bs in if a == b then rest else some false

-- The argument is the rest of the text to compare with, or NULL once there is a difference.
unfoldable pub on_equal : Callback (Option (List ℕ))
on_equal none piece = none
on_equal (some text) piece = memcmp_eq piece text >>= λ same.
    if same
    then some (some (drop (length piece) text), piece, length piece)
    else some (none, piece, 0)

-- The bytes that arrive at `dst`, with their number.
unfoldable pub read : Dynmem → ℕ → ℕ → Option (ℕ × List ℕ)
read m off len =
    let n = if ltb m.len (u32 (off + len)) then m.len - off else len in
    if leb m.len off
    then some (0, [])
    else (foreach on_read m off n [] >>= λ (_, _, dst). some (n, dst))

-- The `int` result is its bit pattern: -1 is `u32_max`.
unfoldable pub chr : Dynmem → ℕ → ℕ → ℕ → Option ℕ
chr m off len ch =
    if leb m.len off
    then some u32_max
    else (foreach on_find_char m off len (record { ch = ch; pos = off }) >>= λ (_, _, arg).
        some (if ltb arg.pos (u32 (off + len)) then arg.pos else u32_max))

unfoldable pub equal : Dynmem → ℕ → ℕ → List ℕ → Option Bool
equal m off len text =
    if leb m.len off || ltb m.len (u32 (off + len))
    then some false
    else (foreach on_equal m off len (some text) >>= λ (_, _, arg).
        some (elim arg [ none ↦ false | some _ ↦ true ]))

unfoldable pub write : Malloc → Dynmem → ℕ → List ℕ → ℕ → Option (ℕ × Dynmem)
write mem m off src len = do
  let end = u32 (off + len)
  m1 ← if ltb m.cap end then set_cap mem m end else some m
  (_, m2, _) ← foreach on_write m1 off len src
  some (len, record m2 { len = if ltb m2.len end then end else m2.len })

unfoldable pub append : Malloc → Dynmem → List ℕ → ℕ → Option (ℕ × Dynmem)
append mem m src len = write mem m m.len src len

-- The last place of `ch` in `bytes[lo .. lo + n)`, tried from the end.
unfoldable pub rfind : ℕ → List ℕ → ℕ → ℕ → Option (Option ℕ)
rfind ch bytes lo zero = some none
rfind ch bytes lo (suc n) =
    let rest = rfind ch bytes lo n in
    get_elem? bytes (lo + n) >>= λ b. if b == ch then some (some (lo + n)) else rest

-- `while (loop_len)` of `dynmem_rchr`. The nodes are in the order of `prev`.
rchr_walk : ℕ → ℕ → ℕ → List Page → ℕ → Option ℕ
rchr_walk ch ps off [] left = if left == 0 then some u32_max else none
rchr_walk ch ps off (n ∷ ns) left =
    let c = if ltb ps left then 0 else ps - left in
    let rest = rchr_walk ch ps off ns (left - (ps - c)) in
    if left == 0
    then some u32_max
    else (rfind ch n.bytes c (ps - c) >>= λ found. elim found [
      | none ↦ rest
      | some b ↦ some (u32 (off + left - (ps - c) + (b - c)))
    ])

-- The last page first, where the range ends inside of it.
rchr_start : ℕ → ℕ → ℕ → ℕ → List Page → ℕ → Option ℕ
unfolding rchr_walk
rchr_start ch ps off end [] left = none
rchr_start ch ps off end (n ∷ ns) left =
    let c = if leb (end + 1) left then 0 else end + 1 - left in
    let rest = rchr_walk ch ps off ns (left - (end + 1)) in
    let inside = rfind ch n.bytes c (end + 1 - c) >>= λ found. elim found [
      | none ↦ if ltb (end + 1) left then rest else some u32_max
      | some b ↦ some (u32 (off + left - 1 - (end - b)))
    ] in
    if end == sub32 ps 1 then rchr_walk ch ps off (n ∷ ns) left else inside

unfoldable pub rchr : Dynmem → ℕ → ℕ → ℕ → Option ℕ
unfolding rchr_start
rchr m off len ch =
    let n = check_len m.cap off len in
    let end = u32 (off + n - 1) in
    let after = getpage m.page end m.pages in
    let nodes = reverse (take (length m.pages - length after + 1) m.pages) in
    if n == 0 then some 0 else rchr_start ch m.page off (in_page m end) nodes n
