-- ===== src/HttpContext/Complete/Length.antt =====
-- The length that the headers declare, and the numbers of the parser for version and method, as
-- `on_message_complete` of httpctx.c reads them.
use fast_http.Prelude.{
  ℕ, zero, suc, ◌+◌, ◌-◌, ◌≤◌, ◌<◌, ◌≡◌, refl, true, Option, none, some, List, [], ◌∷◌, arith, u32,
  ◌==◌, if◌then◌else◌, length, slice, min,
}
use fast_http.Dynmem.{Dynmem}
use fast_http.Dynmem.Walk.{flat}
use fast_http.Dynmem.Sizes.{IsValid, contents}
use fast_http.Dynmem.Bytes.Read.{read_lem}
use fast_http.HttpContext.{
  HttpValue, HttpHeader, Version, hc_http10, hc_http11, hc_http20, Method, hc_http_get,
  hc_http_post, hc_http_put, hc_http_delete, parse_http_ver, parse_http_method, get_http_header,
  get_http_header_uint,
}
use fast_http.HttpContext.Header.{find_header, AllInPage, get_http_header_lem}

-- What `atoi` makes of the bytes of a value, or 0 if there is none.
abbrev pub declared : (List ℕ → ℕ) → List ℕ → Option HttpValue → ℕ
declared atoi bytes none = 0
declared atoi bytes (some v) = u32 (atoi (slice v.pos v.len bytes))

-- A value that the headers have lies below the length of the buffer.
abbrev pub InContents : Dynmem → Option HttpValue → Type 0
InContents m none = Unit
InContents m (some v) = v.pos + v.len ≤ m.len

uint-found :
    (atoi : List ℕ → ℕ) (hs : List HttpHeader) {m : Dynmem} (field : List ℕ)
    (found : Option HttpValue)
    → IsValid m
    → get_http_header hs m field ≡ some found
    → InContents m found
    → get_http_header_uint atoi hs m field ≡ some (declared atoi (contents m) found)
unfolding get_http_header_uint
uint-found atoi hs field none v e held = rw e refl
uint-found atoi hs {m} field (some cl) v e held =
    let got = read_lem cl.pos cl.len v (omega (arith, held, v.len_in, v.cap_small)) in
    let whole : (min cl.len (m.len - cl.pos) == cl.len) ≡ true = ground (arith, held) in
    rw (e, got, whole) refl

-- Where the first header of the name lies in the contents of a well-formed buffer and every name in one
-- page, `get_http_header_uint` returns what `atoi` makes of all its bytes.
pub get_http_header_uint-declared :
    (atoi : List ℕ → ℕ) (hs : List HttpHeader) {m : Dynmem} (field : List ℕ)
    → IsValid m
    → 0 < length field
    → AllInPage m hs
    → InContents m (find_header hs (flat m.pages) field)
    → get_http_header_uint atoi hs m field
      ≡ some (declared atoi (contents m) (find_header hs (flat m.pages) field))
get_http_header_uint-declared atoi hs {m} field v some_text placed held =
    uint-found atoi hs field (find_header hs (flat m.pages) field) v
      (get_http_header_lem hs field v some_text placed) held

-- 1.0, any other 1, any 2; every other version counts as 1.0.
abbrev pub version_of : ℕ → ℕ → Version
version_of zero minor = hc_http10
version_of (suc zero) zero = hc_http10
version_of (suc zero) (suc minor) = hc_http11
version_of (suc (suc zero)) minor = hc_http20
version_of (suc (suc (suc major))) minor = hc_http10

pub parse_http_ver-version_of :
    (major minor : ℕ) → parse_http_ver major minor ≡ version_of major minor
unfolding parse_http_ver
parse_http_ver-version_of zero minor = refl
parse_http_ver-version_of (suc zero) zero = refl
parse_http_ver-version_of (suc zero) (suc minor) = ground arith
parse_http_ver-version_of (suc (suc zero)) minor = refl
parse_http_ver-version_of (suc (suc (suc major))) minor = ground arith

-- The parser's numbers.
abbrev pub method_numbers : List (ℕ × Method)
method_numbers = (0, hc_http_delete) ∷ (1, hc_http_get) ∷ (3, hc_http_post) ∷ (4, hc_http_put) ∷ []

-- The method of a number; a number without one counts as POST.
abbrev pub method_of : ℕ → List (ℕ × Method) → Method
method_of n [] = hc_http_post
method_of n ((k, m) ∷ table) = if k == n then m else method_of n table

pub parse_http_method-method_of : (n : ℕ) → parse_http_method n ≡ method_of n method_numbers
unfolding parse_http_method
parse_http_method-method_of zero = refl
parse_http_method-method_of (suc zero) = refl
parse_http_method-method_of (suc (suc zero)) = refl
parse_http_method-method_of (suc (suc (suc zero))) = refl
parse_http_method-method_of (suc (suc (suc (suc zero)))) = refl
parse_http_method-method_of (suc (suc (suc (suc (suc n))))) = ground arith
