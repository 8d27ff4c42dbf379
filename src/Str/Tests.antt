-- ===== src/Str/Tests.antt =====
-- The theorems on str.c and str.h at concrete strings.
use fast_http.Prelude.{
  ℕ, ◌+◌, ◌≡◌, refl, some, List, [], ◌∷◌, ◌++◌, arith, map, length, take, replicate,
  length-replicate, get_elem?,
}
use fast_http.Str.{Str, Allocator, str_append, string_cats}
use fast_http.Str.Size.{IsValid, text}
use fast_http.Str.Append.{str_append_lem}
use fast_http.Str.Cats.{joined, string_cats_lem}

abbrev filled_with : Allocator
filled_with = record { block = λ n. replicate n 0xcd; length-block = λ n. length-replicate n 0xcd }

-- `ab` in a block of 3.
abbrev short : Str
short = record { len = 2; cap = 2; bytes = b'a' ∷ b'b' ∷ 0 ∷ [] }

short-IsValid : IsValid short
short-IsValid = record { block_size = refl; len_in = omega arith; ended = refl }

str_append_lem_example :
    (s' : Str) × (str_append filled_with short (some (b'c' ∷ b'd' ∷ b'e' ∷ [])) 2 ≡ some s')
    × IsValid s'
    × (s'.len ≡ 4)
    × (text s' ≡ text short ++ take 2 (b'c' ∷ b'd' ∷ b'e' ∷ []))
str_append_lem_example =
    str_append_lem filled_with (b'c' ∷ b'd' ∷ b'e' ∷ []) 2 short-IsValid (omega arith) (omega arith)

abbrev pieces : List (List ℕ)
pieces = (b'c' ∷ []) ∷ (b'd' ∷ b'e' ∷ []) ∷ []

string_cats_lem_example :
    (s' : Str) × (string_cats filled_with short (map some pieces) ≡ some s')
    × (take (short.len + length (joined pieces)) s'.bytes ≡ text short ++ joined pieces)
    × (get_elem? s'.bytes (short.len + length (joined pieces)) ≡ some 0)
    × (s'.len ≡ short.len)
    × (text s' ≡ text short)
unfolding joined
string_cats_lem_example = string_cats_lem filled_with pieces short-IsValid (omega arith)
