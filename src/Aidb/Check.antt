-- ===== src/Aidb/Check.antt =====
-- Which files aidb.c accepts.
use fast_http.Prelude.{
  ℕ, zero, suc, ◌/◌, ◌^◌, ◌≤◌, ◌<◌, ◌≡◌, refl, ap₂, ◌∙◌, true, false, some, List, [], ◌∷◌, ◌++◌,
  arith, ltb, ◌==◌, if◌then◌else◌, length, take, drop, length-append, take-append_le, take-all,
  drop-append_ge,
}
use native.Mathlib.Nat.{pow-suc}
use fast_http.Crc32.{crc32}
use fast_http.Aidb.{
  aidb_ok, aidb_err_crc32, bytes_of_number, number_of_bytes, read_header, same_bytes, gen_pwd,
  aidb_check_header, aidb_check,
}

-- The number of its bytes is the number.
pub number-bytes : (n v : ℕ) → v < 256 ^ n → number_of_bytes (bytes_of_number n v) ≡ v
unfolding number_of_bytes bytes_of_number
number-bytes zero v h = omega arith
number-bytes (suc n) v h = omega (arith, number-bytes n (v / 256) (omega (arith, pow-suc 256 n)))

same_self : (xs : List ℕ) → same_bytes xs xs ≡ true
unfolding same_bytes
same_self [] = refl
same_self (x ∷ xs) = let e : (x == x) ≡ true = ground arith in rw e (same_self xs)

-- The file as the comment at the top of aidb.c describes it, with any three unused bytes.
abbrev pub file : ℕ → ℕ → ℕ → ℕ → ℕ → List ℕ → List ℕ → List ℕ
file u0 u1 u2 crc updated pwd content =
    bytes_of_number 4 0x42444941
    ++ (1 ∷ u0 ∷ u1 ∷ u2 ∷ []
        ++ (bytes_of_number 4 crc ++ (bytes_of_number 8 updated ++ (pwd ++ content))))

cut : (n : ℕ) (xs ys : List ℕ) → length xs ≡ n → (take n (xs ++ ys) ≡ xs) × (drop n (xs ++ ys) ≡ ys)
cut n xs ys size = (
  take-append_le n xs ys (omega (arith, size)) ∙ take-all n xs (omega (arith, size)),
  drop-append_ge n 0 xs ys (omega (arith, size)),
)

check-returns :
    (md5 : List ℕ → List ℕ) (fp key content : List ℕ) (crc : ℕ)
    → ltb (length fp) 36 ≡ false
    → (read_header fp).magic ≡ 0x42444941
    → (read_header fp).version ≡ 1
    → same_bytes (gen_pwd md5 key (read_header fp).updated) (read_header fp).pwd ≡ true
    → drop 36 fp ≡ content
    → (length content == 0) ≡ false
    → (read_header fp).crc ≡ crc
    → aidb_check md5 (some fp) key ≡ (if crc == crc32 content then aidb_ok else aidb_err_crc32)
unfolding aidb_check aidb_check_header
check-returns md5 fp key content crc e0 e1 e2 e3 e4 e5 e6 = rw (e0, e1, e2, e3, e4, e5, e6) refl

-- A file with the layout that aidb.c describes, some content and the password's digest for the key is
-- accepted if its checksum is the CRC-32 of the content, and else refused for that, where `md5` gives 16
-- bytes.
pub aidb_check_lem :
    (md5 : List ℕ → List ℕ) (key : List ℕ) (u0 u1 u2 crc updated : ℕ) (content : List ℕ)
    → ((text : List ℕ) → length (md5 text) ≡ 16)
    → 0 < length content
    → crc < 2 ^ 32
    → updated < 2 ^ 64
    → aidb_check md5 (some (file u0 u1 u2 crc updated (gen_pwd md5 key updated) content)) key
      ≡ (if crc == crc32 content then aidb_ok else aidb_err_crc32)
unfolding read_header bytes_of_number gen_pwd
aidb_check_lem md5 key u0 u1 u2 crc updated content size some_content short short' =
    let pwd = gen_pwd md5 key updated in
    let fp = file u0 u1 u2 crc updated pwd content in
    let pwd_size : length pwd ≡ 16 = size (bytes_of_number 8 updated ++ key) in
    let (front, behind) = cut 16 pwd content pwd_size in
    let when : (read_header fp).updated ≡ updated = number-bytes 8 updated (omega arith) in
    check-returns md5 fp key content crc (long_enough pwd content pwd_size)
      (number-bytes 4 0x42444941 (omega arith)) (number-bytes 1 1 (omega arith))
      (ap₂ (λ d p. same_bytes (gen_pwd md5 key d) p) when front ∙ same_self pwd) behind
      (ground (arith, some_content)) (number-bytes 4 crc (omega arith))
  where
    lt_false : (n : ℕ) → 36 ≤ n → ltb n 36 ≡ false
    lt_false n h = ground arith

    long_enough :
        (pwd content : List ℕ)
        → length pwd ≡ 16
        → ltb (length (file u0 u1 u2 crc updated pwd content)) 36 ≡ false
    long_enough pwd content h = lt_false _ (omega (arith, length-append pwd content, h))
