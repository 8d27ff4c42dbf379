-- ===== src/Buffer/Tests.antt =====
-- The theorems on buffer.c at concrete buffers.
use fast_http.Prelude.{
  ℕ, ◌+◌, ◌^◌, ◌≤◌, ◌<◌, ◌≡◌, refl, some, List, [], ◌∷◌, ◌++◌, arith, length, take, replicate,
  length-replicate, length-append, ◌>>=◌,
}
use fast_http.Str.{Allocator, put}
use fast_http.Buffer.{
  Buffer, buffer_init_ex, buffer_expand_capacity, expand_large, realloc_small, realloc_array,
  new_blocks, step_until, double_until,
}
use fast_http.Buffer.Walk.{buffer_write, buffer_read, buffer_get}
use fast_http.Buffer.Blocks.{flat, AllBlocks}
use fast_http.Buffer.Bytes.{buffer_read-buffer_write}
use fast_http.Buffer.Grow.{buffer_init_ex_lem}

abbrev filled : Allocator
filled = record { block = λ n. replicate n 0xcd; length-block = λ n. length-replicate n 0xcd }

abbrev zeros : List ℕ
zeros = replicate 1024 0

-- Six bytes in front of the border of the blocks.
abbrev two_blocks : Buffer
two_blocks = record {
  ref = 1;
  len = 1018;
  cap = 2048;
  array_cap = 2;
  array = some zeros ∷ some zeros ∷ [];
}

abbrev ten_bytes : List ℕ
ten_bytes = 1 ∷ 2 ∷ 3 ∷ 4 ∷ 5 ∷ 6 ∷ 7 ∷ 8 ∷ 9 ∷ 10 ∷ []

buffer_read-buffer_write_example :
    (p' : Buffer) × (buffer_write filled two_blocks ten_bytes 10 ≡ some (p', 10))
    × (buffer_read p' 1018 (1018 + 10) ≡ some (take 10 ten_bytes, 10))
unfolding flat AllBlocks
buffer_read-buffer_write_example =
    buffer_read-buffer_write filled two_blocks ten_bytes 10
      (length-replicate {A = ℕ} 1024 0, (length-replicate {A = ℕ} 1024 0, tt))
      (omega (
        arith,
        length-append zeros (zeros ++ []),
        length-append zeros [],
        length-replicate {A = ℕ} 1024 0,
      ))
      (omega arith) (omega arith) (omega arith)

buffer_init_ex_lem_example :
    (p : Buffer) × (buffer_init_ex filled 3000 5 ≡ some p)
    × AllBlocks p.array
    × (p.len ≡ 0)
    × (3000 ≤ p.cap)
    × (p.cap ≤ length (flat p.array))
    × (p.cap < 2 ^ 32)
    × (5 ≤ p.array_cap)
buffer_init_ex_lem_example = buffer_init_ex_lem filled 3000 5 (omega arith) (omega arith)

-- A small buffer that grows past 1024 bytes loses what it holds.
abbrev small : Buffer
small = record {
  ref = 1;
  len = 3;
  cap = 32;
  array_cap = 1;
  array = some (1 ∷ 2 ∷ 3 ∷ replicate 1021 0) ∷ [];
}

lost : (buffer_expand_capacity filled small 1500 >>= λ p. buffer_get p 0) ≡ some 0xcd
unfolding buffer_expand_capacity expand_large realloc_small realloc_array new_blocks step_until
    double_until buffer_get put
lost = refl
