-- ===== src/HttpContext/Complete/Url.antt =====
-- Where `get_param`, `split_url` and `trim_path` of httpctx.c cut the URL of a request.
use fast_http.Prelude.{
  ℕ, suc, ◌+◌, ◌-◌, ◌^◌, ◌≤◌, ◌<◌, ◌≡◌, refl, sym, ap, ◌∙◌, Bool, true, false, Option, none, some,
  List, [], arith, u32, u32_max, sub32, ◌==◌, if◌then◌else◌, ◌>>=◌, Bool-cases, inl, inr, length,
  take, drop, slice, min, get_elem?, get_elem?-some, get_elem?-take, get_elem?-drop, length-take,
  length-drop, take-take, drop-take, drop-drop,
}
use fast_http.Dynmem.{Dynmem, Pointer, get, deref}
use fast_http.Dynmem.Foreach.{memchr}
use fast_http.Dynmem.Walk.{flat}
use fast_http.Dynmem.Place.{get_lem}
use fast_http.Dynmem.Sizes.{IsValid}
use fast_http.Dynmem.Sizes.Growth.{length-flat-pages}
use fast_http.HttpContext.{HttpValue, Request, get_param, split_url, trim_path}
use fast_http.HttpContext.Path.{without_slash, length_without_slash, trimmed}

-- The bytes that a value stands for, whether or not the length of the buffer has reached them.
abbrev pub raw : Dynmem → HttpValue → List ℕ
raw buf v = slice v.pos v.len (flat buf.pages)

pub length-raw :
    {m : Dynmem} (v : HttpValue) → IsValid m → v.pos + v.len ≤ m.cap → length (raw m v) ≡ v.len
length-raw {m} v valid inside = omega (
  arith,
  length-take v.len (drop v.pos (flat m.pages)),
  length-drop v.pos (flat m.pages),
  length-flat-pages valid,
)

unsome : {x y : ℕ} → ◌≡◌ {A = Option ℕ} (some x) (some y) → x ≡ y
unsome h = cc

-- The last byte of a value.
record Last (m : Dynmem) (v : HttpValue) : Type 0 where
  byte : ℕ
  pointer : Pointer
  pub at : get m (sub32 (u32 (v.pos + v.len)) 1) ≡ some pointer
  holds : deref pointer ≡ some byte
  last : get_elem? (raw m v) (length (raw m v) - 1) ≡ some byte

value-Last : {m : Dynmem} (v : HttpValue) → IsValid m → 0 < v.len → v.pos + v.len ≤ m.cap → Last m v
value-Last {m} v valid some_bytes inside =
    let off : ℕ = v.pos + v.len - 1 in
    let size = length-raw v valid inside in
    let (byte, there) =
      get_elem?-some (flat m.pages) off (omega (arith, length-flat-pages valid)) in
    let (p, at, points) = get_lem off valid (omega arith) in
    record {
      byte = byte;
      pointer = p;
      at =
          ap (get m) {x = sub32 (u32 (v.pos + v.len)) 1} {y = off} (omega (arith, valid.cap_small))
          ∙ at;
      holds = points ∙ there;
      last =
          ap (get_elem? (raw m v)) {x = length (raw m v) - 1} {y = v.len - 1} (omega (arith, size))
          ∙ (get_elem?-take v.len (v.len - 1) (drop v.pos (flat m.pages)) (omega arith)
              ∙ get_elem?-drop v.pos (v.len - 1) off (flat m.pages) (omega arith)
              ∙ there);
    }

-- `trim_path` takes a slash off the end of the path.
pub record Trims (req : Request) : Type 0 where
  pub n : ℕ
  pub returns : trim_path req ≡ some (record req { path = record req.path { len = n } })
  pub cut : slice req.path.pos n (flat req.buffer.pages) ≡ without_slash (raw req.buffer req.path)

trim-returns :
    (req : Request) (byte n : ℕ) (p : Pointer)
    → get req.buffer (sub32 (u32 (req.path.pos + req.path.len)) 1) ≡ some p
    → deref p ≡ some byte
    → 0 < req.path.len
    → req.path.len < 2 ^ 32
    → (if byte == b'/' then req.path.len - 1 else req.path.len) ≡ n
    → trim_path req ≡ some (record req { path = record req.path { len = n } })
unfolding trim_path
trim-returns req byte n p at holds some_bytes fits size = elim (Bool-cases (byte == b'/')) [
  | inl slash ↦
      let less : sub32 req.path.len 1 ≡ n = omega (arith, cut_size true slash) in
      rw (at, holds, slash, less) refl
  | inr other ↦
      let same : req.path.len ≡ n = cut_size false other in
      rw (at, holds, other)
        (ap (λ (k : ℕ). some (record req { path = record req.path { len = k } })) same)
]
  where
    cut_size : (b : Bool) → (byte == b'/') ≡ b → (if b then req.path.len - 1 else req.path.len) ≡ n
    cut_size b e = ap (λ c. if c then req.path.len - 1 else req.path.len) (sym e) ∙ size

pub trim_path-Trims :
    (req : Request)
    → IsValid req.buffer
    → 0 < req.path.len
    → req.path.pos + req.path.len ≤ req.buffer.cap
    → Trims req
unfolding length_without_slash
trim_path-Trims req valid some_bytes inside =
    let l = value-Last req.path valid some_bytes inside in
    let bytes = raw req.buffer req.path in
    let size = length-raw req.path valid inside in
    let t = trimmed bytes (omega (arith, size)) in
    let n_is : (if l.byte == b'/' then length bytes - 1 else length bytes) ≡ t.n = unsome (
      ap (λ o. o >>= λ c. some (if c == b'/' then length bytes - 1 else length bytes)) (sym l.last)
      ∙ t.computed) in
    record {
      n = t.n;
      returns =
          trim-returns req l.byte t.n l.pointer l.at l.holds some_bytes
            (omega (arith, inside, valid.cap_small))
            (ap (λ (k : ℕ). if l.byte == b'/' then k - 1 else k) (sym size) ∙ n_is);
      cut =
          ap (λ k. take k (drop req.path.pos (flat req.buffer.pages))) {x = t.n}
            {y = min t.n req.path.len} (omega (arith, t.small, size))
          ∙ sym (take-take t.n req.path.len (drop req.path.pos (flat req.buffer.pages)))
          ∙ t.cut;
    }

-- The part of a URL in front of its first question mark, and the part behind that.
abbrev pub path_part : List ℕ → List ℕ
path_part url = elim (memchr b'?' url) [ none ↦ url | some i ↦ take i url ]

abbrev pub param_part : List ℕ → List ℕ
param_part url = elim (memchr b'?' url) [ none ↦ [] | some i ↦ drop (suc i) url ]

-- Where `get_param` and `split_url` cut a URL.
pub record Cut (r : Request) (path param : List ℕ) : Type 0 where
  pub at : ℕ
  pub path_len : ℕ
  pub param_value : HttpValue
  pub got : get_param r.buffer r.url ≡ some at
  pub splits :
      split_url r at
      ≡ record r { path = record { pos = r.url.pos; len = path_len }; url_param = param_value }
  pub within : path_len ≤ r.url.len
  pub path_is : slice r.url.pos path_len (flat r.buffer.pages) ≡ path
  pub param_is : raw r.buffer param_value ≡ param

pub whole-Cut :
    (r : Request) → get_param r.buffer r.url ≡ some u32_max → Cut r (raw r.buffer r.url) []
unfolding split_url
whole-Cut r got = record {
  at = u32_max;
  path_len = r.url.len;
  param_value = record { pos = 0; len = 0 };
  got = got;
  splits = refl;
  within = omega arith;
  path_is = refl;
  param_is = refl;
}

pub parts-Cut :
    (r : Request) (i : ℕ)
    → i < r.url.len
    → r.url.pos + r.url.len < 2 ^ 32 - 1
    → get_param r.buffer r.url ≡ some (r.url.pos + i + 1)
    → Cut r (take i (raw r.buffer r.url)) (drop (suc i) (raw r.buffer r.url))
unfolding split_url
parts-Cut r i inside fits got =
    let bytes = flat r.buffer.pages in
    let off = r.url.pos in
    record {
      at = off + i + 1;
      path_len = i;
      param_value = record { pos = off + i + 1; len = r.url.len - suc i };
      got = got;
      splits = ground arith;
      within = omega arith;
      path_is =
          ap (λ k. take k (drop off bytes)) {x = i} {y = min i r.url.len} (omega arith)
          ∙ sym (take-take i r.url.len (drop off bytes));
      param_is =
          ap (take (r.url.len - suc i))
            (sym (drop-drop (suc i) off (off + i + 1) bytes (omega arith)))
          ∙ sym (drop-take (suc i) r.url.len (drop off bytes));
    }
