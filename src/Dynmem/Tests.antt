-- ===== src/Dynmem/Tests.antt =====
-- The theorems on the buffer of dynmem.c at concrete inputs, with blocks that `malloc` fills with 0.
use fast_http.Prelude.{
  Bool, true, ◌↔◌, ℕ, ◌+◌, ◌*◌, ◌≤◌, ◌<◌, ◌≡◌, refl, none, some, List, [], ◌∷◌, ◌++◌, arith, length,
  take, drop, slice, replicate, length-replicate, max, min, ◌⊎◌, u32_max,
}
use fast_http.Dynmem.{Dynmem, Malloc, init, set_cap}
use fast_http.Dynmem.Foreach.{write, read, equal, chr, memchr}
use fast_http.Dynmem.Walk.{flat}
use fast_http.Dynmem.Sizes.{IsValid, contents, init_lem}
use fast_http.Dynmem.Sizes.Resize.{Resized, set_cap_lem}
use fast_http.Dynmem.Bytes.Write.{write_lem}
use fast_http.Dynmem.Bytes.Read.{read_lem, read-write}
use fast_http.Dynmem.Search.{chr_lem, chr_past_capacity}
use fast_http.Dynmem.Search.Equal.{equal_lem}

abbrev zeroed : Malloc
zeroed = record {
  block = λ ps n. record { addr = 4096 + 64 * length ps; bytes = replicate n 0 };
  length-block = λ ps n. length-replicate n 0;
}

-- "hello wor", with three bytes that were never written.
abbrev hello : Dynmem
hello = record {
  len = 9;
  cap = 12;
  page = 4;
  pages =
      record { addr = 100; bytes = 104 ∷ 101 ∷ 108 ∷ 108 ∷ [] }
      ∷ record { addr = 200; bytes = 111 ∷ 32 ∷ 119 ∷ 111 ∷ [] }
      ∷ record { addr = 300; bytes = 114 ∷ 7 ∷ 7 ∷ 7 ∷ [] }
      ∷ [];
}

hello-IsValid : IsValid hello
hello-IsValid = record {
  exponent = 2;
  page_power = refl;
  page_small = omega arith;
  sized = (refl, (refl, (refl, tt)));
  cap_pages = refl;
  cap_small = omega arith;
  len_in = omega arith;
}

abbrev tail : List ℕ
tail = 108 ∷ 100 ∷ 33 ∷ 10 ∷ 11 ∷ []

write_lem_example :
    (m' : Dynmem) × (write zeroed hello 7 tail 5 ≡ some (5, m'))
    × IsValid m'
    × (m'.len ≡ max 9 12)
    × (contents m' ≡ take 7 (contents hello) ++ (take 5 tail ++ drop 12 (contents hello)))
write_lem_example =
    write_lem zeroed 7 tail 5 hello-IsValid (omega arith) (omega arith) (omega arith)

read-write_example :
    (m' : Dynmem) × (write zeroed hello 3 tail 5 ≡ some (5, m'))
    × (read m' 3 5 ≡ some (5, take 5 tail))
read-write_example =
    read-write zeroed 3 tail 5 hello-IsValid (omega arith) (omega arith) (omega arith)

read_lem_example : read hello 3 20 ≡ some (min 20 6, slice 3 20 (contents hello))
read_lem_example = read_lem 3 20 hello-IsValid (omega arith)

equal_lem_example :
    (answer : Bool) × (equal hello 4 5 (111 ∷ 32 ∷ 119 ∷ 111 ∷ 114 ∷ []) ≡ some answer)
    × ((answer ≡ true) ↔ (
        (4 < 9)
        × (4 + 5 ≤ 9)
        × (slice 4 5 (contents hello) ≡ take 5 (111 ∷ 32 ∷ 119 ∷ 111 ∷ 114 ∷ []))))
equal_lem_example =
    equal_lem 4 5 (111 ∷ 32 ∷ 119 ∷ 111 ∷ 114 ∷ []) hello-IsValid (omega arith) (omega arith)

chr_lem_example :
    chr hello 2 8 119
    ≡ some (elim (memchr 119 (slice 2 8 (flat hello.pages))) [ none ↦ u32_max | some i ↦ 2 + i ])
chr_lem_example = chr_lem 2 8 119 hello-IsValid (omega arith) (omega arith)

no_x : memchr 120 (drop 2 (flat hello.pages)) ≡ none
unfolding memchr
no_x = refl

chr_past_capacity_example : chr hello 2 100 120 ≡ some 12
chr_past_capacity_example =
    chr_past_capacity 2 100 120 hello-IsValid (omega arith) (omega arith) (omega arith) no_x

init_lem_example :
    (m : Dynmem) × (init 1000 ≡ some m)
    × IsValid m
    × (1000 ≤ m.page)
    × ((m.page ≡ 1) ⊎ (m.page < 2 * 1000))
    × (contents m ≡ [])
init_lem_example = init_lem 1000 (omega arith)

set_cap_lem_example : (m' : Dynmem) × (set_cap zeroed hello 5 ≡ some m') × Resized hello 5 m'
set_cap_lem_example = set_cap_lem zeroed 5 hello-IsValid (omega arith)
