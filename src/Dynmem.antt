-- ===== src/Dynmem.antt =====
-- dynmem.c and dynmem.h: a byte buffer that grows by pages of one size, a power of two. This file
-- has the state and the operations that change its size or find a place in it; `Foreach` has the
-- loop over the pages and what is built on it.
--
-- A page is the address and the contents of one `malloc(page)`; the circular list of nodes is the
-- list of the pages in the order `head.next` .. `head.prev`, and the head node itself is the end of
-- that list. `malloc` is a parameter, and is taken to succeed, since the code never tests it.
-- Numbers of type `uint32_t` wrap at 2 ^ 32 where the code can reach that.
pub mod Foreach
pub mod Sizes
pub mod Walk
pub mod Bytes
pub mod Search
pub mod Place
mod Tests
use fast_http.Prelude.{
  ℕ, zero, suc, ◌+◌, ◌-◌, ◌*◌, ◌%◌, ◌^◌, ◌<◌, ◌≡◌, Bool, true, false, ◌&&◌, Option, none, some,
  List, [], ◌∷◌, ◌++◌, bit_and, u32, sub32, u32_max, ltb, leb, ◌==◌, if◌then◌else◌, ◌>>=◌, ◌>>◌,
  require, length, take, drop, get_elem?,
}

-- `_dynmem_node_t`
pub record Page : Type 0 where
  pub addr : ℕ
  pub bytes : List ℕ

-- `dynmem_t`
pub record Dynmem : Type 0 where
  pub len : ℕ
  pub cap : ℕ
  pub page : ℕ
  pub pages : List Page

-- `malloc`: given the pages that are in use, a new block of the size asked for, of any contents.
pub record Malloc : Type 0 where
  pub block : List Page → ℕ → Page
  pub length-block : (ps : List Page) (n : ℕ) → length (block ps n).bytes ≡ n

-- A pointer into a page, as the code hands it out.
pub data Pointer : Type 0 where
  null : Pointer
  place : Page → ℕ → Pointer

-- `*p`
pub deref : Pointer → Option ℕ
deref null = none
deref (place n i) = get_elem? n.bytes i

-- `memcpy(dst, src, n)` at the start of both.
unfoldable pub memcpy : List ℕ → List ℕ → ℕ → Option (List ℕ)
memcpy dst src n =
    require (leb n (length dst) && leb n (length src)) >> some (take n src ++ drop n dst)

-- `list_new` puts a node behind the last one.
abbrev pub list_new : List Page → Page → List Page
list_new ps n = ps ++ n ∷ []

-- `list_del(head.prev)`
abbrev pub list_del_last : List Page → List Page
list_del_last ps = take (length ps - 1) ps

-- `head.prev`; of an empty list that is the head, which has no data.
pub list_prev : List Page → Option Page
list_prev ps = get_elem? ps (length ps - 1)

pub check_len : ℕ → ℕ → ℕ → ℕ
check_len cap off len =
    if ltb cap off then 0 else if ltb cap (u32 (off + len)) then cap - off else len

-- The node that holds `pos`, with those behind it.
pub getpage : ℕ → ℕ → List Page → List Page
getpage ps pos [] = []
getpage ps pos (n ∷ ns) = if leb ps pos then getpage ps (pos - ps) ns else n ∷ ns

-- `while (p < page) p <<= 1`; `none` is a loop that does not end, since `p` has become 0.
pub round_up : ℕ → ℕ → ℕ → Option ℕ
round_up zero p page = none
round_up (suc fuel) p page =
    let rest = round_up fuel (u32 (p * 2)) page in if ltb p page then rest else some p

unfoldable pub init : ℕ → Option Dynmem
unfolding round_up
init page = do p ← round_up 33 1 page; some (record { len = 0; cap = 0; page = p; pages = [] })

unfoldable pub clear : Dynmem → Dynmem
clear m = record m { len = 0; cap = 0; pages = [] }

-- `offset & (page - 1)`
abbrev pub in_page : Dynmem → ℕ → ℕ
in_page m offset = bit_and offset (sub32 m.page 1)

pub surplus : Dynmem → ℕ → ℕ
surplus m offset = sub32 m.page (in_page m offset)

unfoldable pub get : Dynmem → ℕ → Option Pointer
get m offset = if leb m.cap offset then some null else elim (getpage m.page offset m.pages) [
  | [] ↦ none
  | n ∷ _ ↦ some (place n (in_page m offset))
]

-- `dynmem_next_pos`
unfoldable pub next_pos : Dynmem → Option Pointer
unfolding get
next_pos m = get m m.len

-- `dynmem_next_surplus`
unfoldable pub next_surplus : Dynmem → ℕ
unfolding surplus
next_surplus m = surplus m m.len

-- The offset that the pointer has in the first page that it lies in. Addresses have 64 bits.
unfoldable pub offset_in : ℕ → ℕ → List Page → ℕ
offset_in page pointer [] = u32_max
offset_in page pointer (n ∷ ns) =
    if leb n.addr pointer && ltb ((pointer + 2 ^ 64 - page) % 2 ^ 64) n.addr
    then u32 (pointer - n.addr)
    else offset_in page pointer ns

unfoldable pub offset : Dynmem → ℕ → ℕ
unfolding offset_in
offset m pointer = offset_in m.page pointer m.pages

-- `while (cap >= newcap)` of `dynmem_set_cap`: free the last page. The list can run out.
pub shrink_until : ℕ → ℕ → Dynmem → Option Dynmem
shrink_until zero newcap m = if leb newcap m.cap then none else some m
shrink_until (suc fuel) newcap m =
    let less : Dynmem = record m { cap = sub32 m.cap m.page; pages = list_del_last m.pages } in
    let rest = shrink_until fuel newcap less in if leb newcap m.cap then rest else some m

module _ (mem : Malloc) where
  pub grow : Dynmem → Dynmem
  grow m = record m {
    cap = u32 (m.cap + m.page);
    pages = list_new m.pages (mem.block m.pages m.page);
  }

  -- `while (newcap > cap) dynmem_grow(self)`; `none` means that the fuel ran out.
  pub grow_until : ℕ → ℕ → Dynmem → Option Dynmem
  grow_until zero newcap m = none
  grow_until (suc fuel) newcap m =
      let rest = grow_until fuel newcap (grow m) in if ltb m.cap newcap then rest else some m

  -- The loop of `dynmem_copy` over the pages of the source.
  unfoldable pub copy_pages : List Page → ℕ → Dynmem → Option Dynmem
  copy_pages [] left ret = some ret
  copy_pages (pos ∷ rest) left ret =
      let count = if ltb ret.page left then ret.page else left in
      let fresh = mem.block ret.pages ret.page in
      let store = λ (buf : List ℕ). record (grow ret) {
        pages = list_new ret.pages (record fresh { bytes = buf });
      } in
      let more =
        memcpy fresh.bytes pos.bytes count >>= λ buf. copy_pages rest (left - count) (store buf) in
      if left == 0 then some ret else more

  unfoldable pub copy : Dynmem → Option Dynmem
  copy m = copy_pages m.pages m.len (record { len = m.len; cap = 0; page = m.page; pages = [] })

  pub set_len : Dynmem → ℕ → Option Dynmem
  set_len m newlen = do m' ← grow_until (newlen + 1) newlen m; some (record m' { len = newlen })

  pub set_cap : Dynmem → ℕ → Option Dynmem
  set_cap m newcap = do
    m' ←
        if ltb m.cap newcap
        then grow_until (newcap + 1) newcap m
        else shrink_until (length m.pages) (u32 (newcap + m.page)) m
    some (record m' { len = if ltb m'.cap m'.len then m'.cap else m'.len })

  unfoldable pub align : Dynmem → ℕ × Dynmem
  align m =
      let mask = sub32 m.page 1 in
      let new_len = bit_and (u32 (m.len + mask)) (u32_max - mask) in
      let m' = if leb m.cap new_len then grow m else m in (new_len, record m' { len = new_len })

  -- The pointer, the length and the buffer, which may have grown.
  unfoldable pub lastpage : Dynmem → Option (Pointer × ℕ × Dynmem)
  lastpage m =
      if m.len == m.cap
      then (let m' = grow m in (do n ← list_prev m'.pages; some (place n 0, surplus m' m.len, m')))
      else if leb m.cap (u32 (m.len + m.page))
      then (do n ← list_prev m.pages; some (place n 0, surplus m m.len, m))
      else (do p ← get m m.len; some (p, surplus m m.len, m))
