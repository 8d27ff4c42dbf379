-- ===== src/Aidb.antt =====
-- aidb.c: whether a file is an aidb file that a key opens. A file is the list of its bytes, or `none` if it
-- cannot be opened; `md5` of md5.c is a parameter.
pub mod Check
mod Tests
use fast_http.Prelude.{
  ℕ, zero, suc, ◌+◌, ◌-◌, ◌*◌, ◌/◌, ◌%◌, ◌^◌, Bool, true, false, ◌&&◌, Option, none, some, List, [],
  ◌∷◌, ◌++◌, ltb, leb, ◌==◌, if◌then◌else◌, length, take, drop, get_or,
}
use fast_http.Crc32.{crc32}

-- `AIDB_ERROR`, the values that the check returns
pub data AidbError : Type 0 where
  aidb_ok : AidbError
  aidb_err_open : AidbError
  aidb_err_too_small : AidbError
  aidb_err_magic : AidbError
  aidb_err_version : AidbError
  aidb_err_pwd : AidbError
  aidb_err_read : AidbError
  aidb_err_crc32 : AidbError

-- A number in memory, the lowest byte first: `n` bytes of it, and the number of some bytes.
unfoldable pub bytes_of_number : ℕ → ℕ → List ℕ
bytes_of_number zero v = []
bytes_of_number (suc n) v = v % 256 ∷ bytes_of_number n (v / 256)

unfoldable pub number_of_bytes : List ℕ → ℕ
number_of_bytes [] = 0
number_of_bytes (b ∷ bs) = b + 256 * number_of_bytes bs

-- `aidb_header_t`, without its unused bytes
pub record AidbHeader : Type 0 where
  pub magic : ℕ
  pub version : ℕ
  pub crc : ℕ
  pub updated : ℕ
  pub pwd : List ℕ

-- `sizeof(aidb_header_t)`
abbrev pub header_size : ℕ
header_size = 36

-- The packed structure that lies at the start of the bytes.
unfoldable pub read_header : List ℕ → AidbHeader
read_header bytes = record {
  magic = number_of_bytes (take 4 bytes);
  version = number_of_bytes (take 1 (drop 4 bytes));
  crc = number_of_bytes (take 4 (drop 8 bytes));
  updated = number_of_bytes (take 8 (drop 12 bytes));
  pwd = take 16 (drop 20 bytes);
}

-- `!memcmp(a, b, n)`, for texts of `n` bytes
unfoldable pub same_bytes : List ℕ → List ℕ → Bool
same_bytes [] [] = true
same_bytes [] (y ∷ ys) = false
same_bytes (x ∷ xs) [] = false
same_bytes (x ∷ xs) (y ∷ ys) = x == y && same_bytes xs ys

module _ (md5 : List ℕ → List ℕ) where
  unfoldable pub gen_pwd : List ℕ → ℕ → List ℕ
  gen_pwd key updated = md5 (bytes_of_number 8 updated ++ key)

  -- `fread` of a size of 0 gives 0.
  unfoldable pub aidb_check_header : List ℕ → List ℕ → AidbError
  aidb_check_header fp key =
      let header = read_header fp in
      let buf = drop header_size fp in
      if ltb (length fp) header_size
      then aidb_err_too_small
      else if header.magic == 0x42444941
      then (if header.version == 0x01
          then (if same_bytes (gen_pwd key header.updated) header.pwd
              then (if length buf == 0
                  then aidb_err_read
                  else if header.crc == crc32 buf
                  then aidb_ok
                  else aidb_err_crc32)
              else aidb_err_pwd)
          else aidb_err_version)
      else aidb_err_magic

  unfoldable pub aidb_check : Option (List ℕ) → List ℕ → AidbError
  aidb_check none key = aidb_err_open
  aidb_check (some fp) key = aidb_check_header fp key
