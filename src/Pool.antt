-- ===== src/Pool.antt =====
-- pool.c: a pool of objects of one size. A bitmap of 32-bit words says which objects of the block are
-- given out; what does not fit the block is allocated one by one and kept in a list.
--
-- Pointers are addresses. `head`, the circular list of the objects outside of the block, is the list of
-- the addresses of their nodes in order.
pub mod Words
pub mod Slots
pub mod Held
pub mod Nodes
pub mod Change
pub mod Get
pub mod Put
pub mod Owns
pub mod Reach
mod Tests
use fast_http.Prelude.{
  ℕ, zero, suc, ◌+◌, ◌-◌, ◌*◌, ◌/◌, ◌%◌, ◌^◌, Bool, true, false, ◌&&◌, Option, none, some, List, [],
  ◌∷◌, ◌++◌, bit_and, bit_or, u32, ltb, leb, ◌==◌, if◌then◌else◌, drop, length, get_or, set,
  replicate,
}

-- `struct _pool_head_t`; `data_at` is the address of `data`, `bits` the words that lie there.
pub record Pool : Type 0 where
  pub capacity : ℕ
  pub size : ℕ
  pub last : ℕ
  pub head : List ℕ
  pub data_at : ℕ
  pub bits : List ℕ

-- `sizeof(_pool_list_t)`
abbrev pub node_size : ℕ
node_size = 16

-- The pool with its `data` at an address; `calloc` clears it, and gives all of it.
unfoldable pub pool_malloc : ℕ → ℕ → ℕ → Pool
pool_malloc data_at capacity size =
    let bits_cap = u32 (capacity + 31) / 2 ^ 5 in
    record {
      capacity = u32 (bits_cap * 2 ^ 5);
      size = size;
      last = 0;
      head = [];
      data_at = data_at;
      bits = replicate bits_cap 0;
    }

-- The first of the digits `j` up to 32 that is not set in the word `b`, and its mask.
unfoldable pub free_bit : ℕ → ℕ → ℕ → ℕ → Option (ℕ × ℕ)
free_bit zero b c j = none
free_bit (suc rounds) b c j =
    let rest = free_bit rounds b (u32 (c * 2)) (j + 1) in
    if bit_and b c == 0 then some (j, c) else rest

-- The digit in the `i`th word, or what comes after it.
abbrev pub in_word : ℕ → Option (ℕ × ℕ) → Option (ℕ × ℕ × ℕ) → Option (ℕ × ℕ × ℕ)
in_word i none rest = rest
in_word i (some (j, c)) rest = some (i, j, c)

-- The first word from the `i`th on with a free digit: which word, which digit, and the mask.
unfoldable pub find_free : List ℕ → ℕ → Option (ℕ × ℕ × ℕ)
find_free [] i = none
find_free (b ∷ bits) i =
    let rest = find_free bits (i + 1) in
    let here = in_word i (free_bit 32 b 1 0) rest in if b == 0xffff_ffff then rest else here

-- The first object of the block.
abbrev pub first : Pool → ℕ
first self = self.data_at + self.capacity / 2 ^ 5 * 2 ^ 2

-- `malloc`, which gives the address `entry` when it is called.
unfoldable pub pool_get : Pool → ℕ → Pool × ℕ
pool_get self entry = elim (find_free (drop self.last self.bits) self.last) [
  | some (i, j, c) ↦ (
    record self { last = i; bits = set self.bits i (bit_or (get_or self.bits i 0) c) },
    first self + u32 (bit_or (i * 2 ^ 5) j * self.size),
  )
  | none ↦ (
    record self { last = self.capacity / 2 ^ 5; head = self.head ++ entry ∷ [] },
    entry + node_size,
  )
]

-- The list without the first node at `node`, which is freed.
unfoldable pub remove : ℕ → List ℕ → List ℕ
remove node [] = []
remove node (pos ∷ rest) = if pos == node then rest else pos ∷ remove node rest

-- Whether the address lies in the block.
abbrev pub in_block : Pool → ℕ → Bool
in_block self entry =
    leb (self.data_at + self.capacity / 2 ^ 3) entry
    && ltb entry (self.data_at + self.capacity / 2 ^ 3 + u32 (self.capacity * self.size))

unfoldable pub pool_put : Pool → ℕ → Pool
pool_put self entry =
    let i = (entry - (self.data_at + self.capacity / 2 ^ 3)) / self.size in
    let last' = i / 2 ^ 5 in
    let cleared = bit_and (get_or self.bits last' 0) (2 ^ 32 - 1 - 2 ^ bit_and i 31) in
    if in_block self entry
    then record self {
      last = if ltb last' self.last then last' else self.last;
      bits = set self.bits last' cleared;
    }
    else record self { head = remove (entry - node_size) self.head }

-- The nodes from the last to the first.
unfoldable pub backwards : List ℕ → List ℕ
backwards [] = []
backwards (pos ∷ rest) = backwards rest ++ pos ∷ []

-- The addresses that are freed, in order; the pool itself begins 32 bytes in front of `data`.
unfoldable pub pool_free : Pool → List ℕ
pool_free self = backwards self.head ++ (self.data_at - 32) ∷ []
