-- ===== src/Ptr.antt =====
-- ptr.h: blocks of bytes with a count of references. A pointer is the place of its block in the list of
-- all blocks that `malloc` ever gave; a freed block is `none`, and to use it is a fault.
pub mod Refs
mod Tests
use fast_http.Prelude.{
  ℕ, zero, suc, ◌+◌, ◌-◌, ◌≤◌, ◌≡◌, Bool, true, false, ◌&&◌, Option, none, some, List, [], ◌∷◌,
  ◌++◌, u32, ltb, leb, ◌==◌, if◌then◌else◌, ◌>>=◌, ◌>>◌, require, length, take, drop, get_elem?,
  set,
}

-- `struct _ptr_head_t`
pub record Block : Type 0 where
  pub ref : ℕ
  pub len : ℕ
  pub data_bytes : List ℕ

abbrev pub Heap : Type 0
Heap = List (Option Block)

-- `PTR_OFFSET_HEAD`
unfoldable pub block_at : Heap → ℕ → Option Block
block_at h p = get_elem? h p >>= λ b. b

unfoldable pub ptr_addref : ℕ → Heap → Option Heap
unfolding block_at
ptr_addref self h = do
  b ← block_at h self
  some (set h self (some (record b { ref = u32 (b.ref + 1) })))

-- The count that is lowered is a copy.
unfoldable pub ptr_free : ℕ → Heap → Option Heap
unfolding block_at
ptr_free self h = do b ← block_at h self; some (if b.ref == 1 then set h self none else h)

-- `memcpy(data + pos, src, len)`
unfoldable pub copy_to : Block → ℕ → List ℕ → ℕ → Option Block
copy_to b pos src len =
    require (leb (pos + len) (length b.data_bytes) && leb len (length src))
    >> some (record b {
      data_bytes = take pos b.data_bytes ++ (take len src ++ drop (pos + len) b.data_bytes);
    })

-- `junk` is what `malloc` finds in a new block.
module _ (junk : ℕ → List ℕ) where
  unfoldable pub ptr_malloc : ℕ → Heap → ℕ × Heap
  ptr_malloc size h =
      (length h, h ++ some (record { ref = 1; len = u32 size; data_bytes = junk size }) ∷ [])

  -- The new block is written before the old one loses a reference.
  unfoldable pub ptr_expand : ℕ → ℕ → Heap → Option (ℕ × Heap)
  unfolding block_at ptr_malloc copy_to ptr_free
  ptr_expand self size h = do
    s ← block_at h self
    let (fresh, h1) = ptr_malloc (u32 (s.len + size)) h
    b ← block_at h1 fresh
    b' ← copy_to b 0 s.data_bytes s.len
    h2 ← ptr_free self (set h1 fresh (some b'))
    some (fresh, h2)

  unfoldable pub ptr_append : ℕ → ℕ → List ℕ → ℕ → Heap → Option (ℕ × Heap)
  unfolding block_at copy_to ptr_expand
  ptr_append self pos src len h = do
    s ← block_at h self
    let nl = u32 (pos + len)
    (p, h1) ← if ltb s.len nl then ptr_expand self nl h else some (self, h)
    b ← block_at h1 p
    b' ← copy_to b pos src len
    some (p, set h1 p (some b'))
