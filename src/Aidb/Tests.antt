-- ===== src/Aidb/Tests.antt =====
-- The theorem on aidb.c at a concrete file.
use fast_http.Prelude.{
  ℕ, ◌≡◌, refl, some, none, List, [], ◌∷◌, arith, ◌==◌, if◌then◌else◌, length, replicate,
}
use fast_http.Crc32.{crc32}
use fast_http.Aidb.{
  aidb_ok, aidb_err_read, aidb_err_open, aidb_err_magic, aidb_err_crc32, aidb_check,
  aidb_check_header, gen_pwd, read_header, number_of_bytes, bytes_of_number, same_bytes,
}
use fast_http.Aidb.Check.{file, aidb_check_lem}

-- In place of MD5.
abbrev digest : List ℕ → List ℕ
digest text = 7 ∷ replicate 15 (length text)

abbrev word : List ℕ
word = b'k' ∷ b'e' ∷ b'y' ∷ []

abbrev content : List ℕ
content = 1 ∷ 2 ∷ 3 ∷ []

aidb_check_lem_example :
    aidb_check digest (some (file 0 0 0 0x55bc801d 1000 (gen_pwd digest word 1000) content)) word
    ≡ (if 0x55bc801d == crc32 content then aidb_ok else aidb_err_crc32)
aidb_check_lem_example =
    aidb_check_lem digest word 0 0 0 0x55bc801d 1000 content (λ text. refl) (omega arith)
      (omega arith) (omega arith)

-- A file without content cannot be read.
no_content :
    aidb_check digest (some (file 0 0 0 0 1000 (gen_pwd digest word 1000) [])) word ≡ aidb_err_read
unfolding aidb_check aidb_check_header gen_pwd read_header number_of_bytes bytes_of_number
    same_bytes
no_content = refl

no_file : aidb_check digest none word ≡ aidb_err_open
unfolding aidb_check
no_file = refl

wrong_magic : aidb_check digest (some (replicate 40 0)) word ≡ aidb_err_magic
unfolding aidb_check aidb_check_header read_header number_of_bytes
wrong_magic = refl
