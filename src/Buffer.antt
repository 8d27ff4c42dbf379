-- ===== src/Buffer.antt =====
-- buffer.c and buffer.h: a byte buffer in blocks of 1024 bytes, found through an array of pointers. A
-- pointer that was never set is `none` in the array. `malloc` is a parameter, and is taken to succeed.
pub mod Walk
pub mod Blocks
pub mod Round
pub mod Bytes
pub mod Grow
mod Tests
use fast_http.Prelude.{
  ℕ, zero, suc, ◌+◌, ◌-◌, ◌*◌, ◌/◌, ◌%◌, ◌^◌, Bool, true, false, ◌&&◌, not, Option, none, some,
  List, [], ◌∷◌, ◌++◌, u32, ltb, leb, ◌==◌, if◌then◌else◌, ◌>>=◌, ◌>>◌, require, length, take, drop,
  set, get_elem?, replicate, min,
}
use fast_http.Str.{Allocator, put}

-- `buffer_t`
pub record Buffer : Type 0 where
  pub ref : ℕ
  pub len : ℕ
  pub cap : ℕ
  pub array_cap : ℕ
  pub array : List (Option (List ℕ))

-- A `size_t`
abbrev pub size_t : ℕ → ℕ
size_t n = n % 2 ^ 64

-- `while (cap < min_cap) cap <<= 1`; `none` means that the fuel ran out.
unfoldable pub double_until : ℕ → ℕ → ℕ → Option ℕ
double_until zero min_cap cap = none
double_until (suc fuel) min_cap cap =
    let rest = double_until fuel min_cap (size_t (cap * 2)) in
    if ltb cap min_cap then rest else some cap

-- The loop that adds 1024
unfoldable pub step_until : ℕ → ℕ → ℕ → Option ℕ
step_until zero min_cap cap = none
step_until (suc fuel) min_cap cap =
    let rest = step_until fuel min_cap (size_t (cap + 1024)) in
    if ltb cap min_cap then rest else some cap

-- The block that an entry of the array points to.
abbrev pub block_at : List (Option (List ℕ)) → ℕ → Option (List ℕ)
block_at array i = get_elem? array i >>= λ b. b

-- `cap`, `alen` and the first `acap` of `buffer_init_ex`
unfoldable pub init_sizes : ℕ → Option (ℕ × ℕ × ℕ)
init_sizes capacity =
    let small = double_until 65 capacity 32 >>= λ cap. some (cap, 1, 1) in
    let large = step_until (capacity + 1) capacity 1024 >>= λ cap.
    double_until 65 (cap / 1024) 1 >>= λ acap. some (cap, cap / 1024, acap) in
    if leb capacity 1024 then small else large

unfoldable pub buffer_destroy : Buffer → Buffer
buffer_destroy p =
    let fewer = p.ref - 1 in
    let last_user = fewer == 0 && not (p.cap == 0) in
    let released =
      if last_user
      then record { ref = 0; len = 0; cap = 0; array_cap = 0; array = [] }
      else record p { ref = fewer } in
    if p.ref == 0 then p else released

-- The new owner's buffer is the same one.
unfoldable pub buffer_copy : Buffer → Buffer
buffer_copy p = record p { ref = u32 (p.ref + 1) }

unfoldable pub buffer_trim : Buffer → ℕ → Buffer
buffer_trim p count =
    let count' = if ltb p.len count then p.len else count in record p { len = p.len - count' }

module _ (mem : Allocator) where
  unfoldable pub buffer_init_ex : ℕ → ℕ → Option Buffer
  buffer_init_ex capacity array_cap = do
    (cap, alen, acap) ← init_sizes capacity
    acap' ← double_until 65 array_cap acap
    require (leb alen acap')
    some (record {
      ref = 1;
      len = 0;
      cap = u32 cap;
      array_cap = u32 acap';
      array = replicate alen (some (mem.block 1024)) ++ replicate (acap' - alen) none;
    })

  unfoldable pub buffer_init : ℕ → Option Buffer
  buffer_init capacity = buffer_init_ex capacity 0

  unfoldable pub realloc_small : Buffer → ℕ → Option Buffer
  realloc_small p capacity =
      let copied = block_at p.array 0 >>= λ old. put (mem.block capacity) 0 old p.len in
      (if p.len == 0 then some (mem.block capacity) else copied) >>= λ new_data.
      if p.array_cap == 0
      then some (record p { array = some new_data ∷ [] })
      else some (record p { array = set p.array 0 (some new_data) })

  unfoldable pub realloc_array : Buffer → ℕ → Option Buffer
  realloc_array p capacity =
      require (leb p.array_cap capacity && leb p.array_cap (length p.array))
      >> some (record p {
        array = take p.array_cap p.array ++ replicate (capacity - p.array_cap) none;
        array_cap = u32 capacity;
      })

  -- A new block for each entry from `used_alen` on, `count` of them.
  unfoldable pub new_blocks : List (Option (List ℕ)) → ℕ → ℕ → Option (List (Option (List ℕ)))
  new_blocks array i zero = some array
  new_blocks array i (suc count) =
      require (ltb i (length array))
      >> new_blocks (set array i (some (mem.block 1024))) (i + 1) count

  unfoldable pub expand_large : Buffer → ℕ → Option Buffer
  expand_large p capacity = do
    let small = ltb p.len 1024
    p1 ← if small then realloc_small p 1024 else some p
    cap ← step_until (capacity + 1) capacity (if small then 1024 else p.cap)
    let new_alen = cap / 1024
    let used_alen = p1.cap / 1024
    let grown = double_until 65 new_alen p1.array_cap >>= λ acap. realloc_array p1 acap
    p2 ← if ltb p1.array_cap new_alen then grown else some p1
    array ← new_blocks p2.array used_alen (new_alen - used_alen)
    some (record p2 { cap = u32 cap; array = array })

  unfoldable pub expand_small : Buffer → ℕ → Option Buffer
  expand_small p capacity = do
    cap ← double_until 65 capacity p.cap
    p1 ← realloc_small p cap
    some (record p1 { cap = u32 cap })

  unfoldable pub buffer_expand_capacity : Buffer → ℕ → Option Buffer
  buffer_expand_capacity p capacity =
      if ltb capacity p.cap
      then some p
      else if leb capacity 1024
      then expand_small p capacity
      else expand_large p capacity

  unfoldable pub buffer_set_length : Buffer → ℕ → Option Buffer
  buffer_set_length p newlen = do
    p1 ← if ltb p.cap newlen then buffer_expand_capacity p newlen else some p
    some (record p1 { len = u32 newlen })

  -- The blocks of the copy from the `i`th on, with `len` bytes left.
  unfoldable pub clone_blocks :
      List (Option (List ℕ)) → List (Option (List ℕ)) → ℕ → ℕ → ℕ → Option (List (Option (List ℕ)))
  clone_blocks from to i zero len = none
  clone_blocks from to i (suc fuel) len =
      let cl = if leb 1024 len then 1024 else len in
      let rest = block_at from i >>= λ b. block_at to i >>= λ new.
      put new 0 b cl >>= λ new'. clone_blocks from (set to i (some new')) (i + 1) fuel (len - cl) in
      if len == 0 then some to else rest

  unfoldable pub buffer_clone : Buffer → Option Buffer
  buffer_clone p = do
    ret ← buffer_init p.len
    array ← clone_blocks p.array ret.array 0 (p.len + 1) p.len
    some (record ret { len = p.len; array = array })
