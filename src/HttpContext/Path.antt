-- ===== src/HttpContext/Path.antt =====
-- `httpctx_path_equal`, `httpctx_path_prefix` and `httpctx_get_method` of httpctx.c.
pub mod Prefix
use fast_http.Prelude.{
  ℕ, suc, ◌+◌, ◌-◌, ◌≤◌, ◌<◌, ◌≡◌, refl, sym, ap, ◌∙◌, Bool, true, false, ◌||◌, Option, none, some,
  List, [], ◌∷◌, arith, u32, ltb, ◌==◌, if◌then◌else◌, ◌>>=◌, length, take, drop, slice, get_elem?,
  ==_iff, Bool-cases, inl, inr, ◌↔◌, subst, length-take, length-drop,
}
use fast_http.Dynmem.{deref, get}
use fast_http.Dynmem.Foreach.{equal}
use fast_http.Dynmem.Walk.{flat}
use fast_http.Dynmem.Sizes.{IsValid, contents}
use fast_http.Dynmem.Sizes.Growth.{length-flat-pages}
use fast_http.Dynmem.Search.Equal.{equal_lem}
use fast_http.HttpContext.{Method, hc_http_get, hc_http_post, hc_http_put, hc_http_delete, Request}

unfoldable pub method_number : Method → ℕ
method_number hc_http_get = 0
method_number hc_http_post = 1
method_number hc_http_put = 2
method_number hc_http_delete = 3

-- The names, each as its bytes; `sizeof(HTTP_METHODS)` is the size of four pointers.
abbrev pub http_methods : List (List ℕ)
http_methods =
    (b'G' ∷ b'E' ∷ b'T' ∷ [])
    ∷ (b'P' ∷ b'O' ∷ b'S' ∷ b'T' ∷ [])
    ∷ (b'P' ∷ b'U' ∷ b'T' ∷ [])
    ∷ (b'D' ∷ b'E' ∷ b'L' ∷ b'E' ∷ b'T' ∷ b'E' ∷ [])
    ∷ []

unfoldable pub httpctx_get_method : Request → Option (List ℕ)
httpctx_get_method req =
    let n = method_number req.method in
    if ltb n 32
    then get_elem? http_methods n
    else some (b'U' ∷ b'N' ∷ b'K' ∷ b'N' ∷ b'O' ∷ b'W' ∷ b'N' ∷ [])

-- The length of the path without a slash at its end; an empty one has no last character.
unfoldable pub length_without_slash : List ℕ → Option ℕ
length_without_slash path = do
  last ← get_elem? path (length path - 1)
  some (if last == b'/' then length path - 1 else length path)

unfoldable pub httpctx_path_equal : Request → List ℕ → Option Bool
httpctx_path_equal req path = do
  path_len ← length_without_slash path
  let tested = equal req.buffer req.path.pos path_len path
  if path_len == req.path.len then tested else some false

unfoldable pub httpctx_path_prefix : Request → List ℕ → Option Bool
httpctx_path_prefix req path = do
  path_len ← length_without_slash path
  let behind = get req.buffer (u32 (req.path.pos + path_len)) >>= deref >>= λ ch.
      some (ch == b'/' || ch == b'?')
  let tested = equal req.buffer req.path.pos path_len path >>= λ same.
      if same then (if req.path.len == path_len then some true else behind) else some false
  if ltb req.path.len path_len then some false else tested

-- The path without a slash at its end.
abbrev pub without_slash : List ℕ → List ℕ
without_slash [] = []
without_slash (c ∷ []) = if c == b'/' then [] else c ∷ []
without_slash (c ∷ d ∷ path) = c ∷ without_slash (d ∷ path)

-- The path of a request, as bytes.
abbrev pub path_bytes : Request → List ℕ
path_bytes req = slice req.path.pos req.path.len (contents req.buffer)

-- What the code computes is that path, cut from the one given.
pub record Trimmed (path : List ℕ) : Type 0 where
  pub n : ℕ
  pub computed : length_without_slash path ≡ some n
  pub small : n ≤ length path
  pub cut : take n path ≡ without_slash path

one_more :
    (last : Option ℕ) (k n : ℕ)
    → (last >>= λ c. some (if c == b'/' then k else suc k)) ≡ some n
    → (last >>= λ c. some (if c == b'/' then suc k else suc (suc k))) ≡ some (suc n)
one_more none k n e = cc
one_more (some c) k n e = ground (arith, e)

pub trimmed : (path : List ℕ) → 0 < length path → Trimmed path
unfolding length_without_slash
trimmed [] h = absurd (omega arith)
trimmed (c ∷ []) h = elim (Bool-cases (c == b'/')) [
  | inl e ↦ record { n = 0; computed = rw e refl; small = omega arith; cut = rw e refl }
  | inr e ↦ record { n = 1; computed = rw e refl; small = omega arith; cut = rw e refl }
]
trimmed (c ∷ d ∷ path) h =
    let rest = trimmed (d ∷ path) (omega arith) in
    record {
      n = suc rest.n;
      computed =
          ap
            (λ k. get_elem? (c ∷ d ∷ path) k >>= λ x.
              some (if x == b'/' then k else suc (suc (length path))))
            {x = suc (suc (length path)) - 1} {y = suc (length path)} (omega arith)
          ∙ one_more (get_elem? (d ∷ path) (length path)) (length path) rest.n (
              subst
                (λ k.
                  (get_elem? (d ∷ path) k >>= λ x.
                  some (if x == b'/' then k else suc (length path)))
                  ≡ some rest.n)
                {x = suc (length path) - 1} (omega arith) rest.computed);
      small = omega (arith, rest.small);
      cut = ap (λ l. c ∷ l) rest.cut;
    }

pub length-path_bytes :
    (req : Request)
    → IsValid req.buffer
    → req.path.pos + req.path.len ≤ req.buffer.len
    → length (path_bytes req) ≡ req.path.len
length-path_bytes req v fits = omega (
  arith,
  length-take req.path.len (drop req.path.pos (contents req.buffer)),
  length-drop req.path.pos (contents req.buffer),
  length-take req.buffer.len (flat req.buffer.pages),
  length-flat-pages v,
  v.len_in,
)

-- `httpctx_path_equal` tells whether the path of the request is the one given, without a slash at its
-- end. The buffer is well formed and the path of the request lies within it; the one given is not empty.
pub path_equal_lem :
    (req : Request) (path : List ℕ)
    → IsValid req.buffer
    → req.path.pos < req.buffer.len
    → req.path.pos + req.path.len ≤ req.buffer.len
    → 0 < length path
    → (answer : Bool) × (httpctx_path_equal req path ≡ some answer)
      × ((answer ≡ true) ↔ (path_bytes req ≡ without_slash path))
unfolding httpctx_path_equal
path_equal_lem req path v inside fits some_path =
    let t = trimmed path some_path in
    elim (Bool-cases (t.n == req.path.len)) [
      | inl same ↦
          let n_len : t.n ≡ req.path.len = (==_iff t.n req.path.len).0 same in
          let (answer, e, iff) =
            equal_lem req.path.pos t.n path v (omega (arith, v.len_in, v.cap_small)) t.small in
          (
            answer,
            rw (t.computed, same) e,
            (
              (λ a.
                  let (near, far, equal_bytes) = iff.0 a in
                  ap (λ k. slice req.path.pos k (contents req.buffer)) (sym n_len)
                  ∙ (equal_bytes ∙ t.cut)),
              λ h. iff.1 (
                inside,
                omega (arith, n_len),
                ap (λ k. slice req.path.pos k (contents req.buffer)) n_len ∙ (h ∙ sym t.cut),
              ),
            ),
          )
      | inr differ ↦ (
        false,
        rw (t.computed, differ) refl,
        (
          λ e. cc,
          λ e. absurd (
              ground (
                arith,
                ap length e,
                length-path_bytes req v fits,
                ap length t.cut,
                length-take t.n path,
                t.small,
              )),
        ),
      )
    ]
