-- ===== src/HttpContext/Path/Prefix.antt =====
-- `httpctx_path_prefix` of httpctx.c.
use fast_http.Prelude.{
  ℕ, ◌+◌, ◌≤◌, ◌<◌, ◌≡◌, ◌≢◌, refl, sym, ap, ◌∙◌, Bool, true, false, ◌||◌, ◌&&◌, Option, none, some,
  List, [], ◌∷◌, arith, u32, ltb, ◌==◌, ◌>>=◌, length, take, drop, slice, get_elem?, ==_iff,
  Bool-cases, inl, inr, length-take, take-take, get_elem?-drop, get_elem?-take, get_elem?-some,
  get_elem?-none, dec_lt,
}
use fast_http.Dynmem.{deref, get}
use fast_http.Dynmem.Walk.{flat}
use fast_http.Dynmem.Place.{get_lem}
use fast_http.Dynmem.Sizes.{IsValid, contents}
use fast_http.Dynmem.Search.Equal.{equal_lem}
use fast_http.HttpContext.{Request}
use fast_http.HttpContext.Path.{
  httpctx_path_prefix, without_slash, path_bytes, length-path_bytes, trimmed,
}

-- The end of a path, a slash or a question mark.
abbrev pub boundary : Option ℕ → Bool
boundary none = true
boundary (some c) = c == b'/' || c == b'?'

-- The bytes are the path, or go on behind it at a boundary.
abbrev pub extends : List ℕ → List ℕ → Bool
extends [] [] = true
extends [] (b ∷ bs) = b == b'/' || b == b'?'
extends (w ∷ ws) [] = false
extends (w ∷ ws) (b ∷ bs) = w == b && extends ws bs

extends_short : (ws bs : List ℕ) → length bs < length ws → extends ws bs ≡ false
extends_short [] bs h = absurd (omega arith)
extends_short (w ∷ ws) [] h = refl
extends_short (w ∷ ws) (b ∷ bs) h = ground (arith, extends_short ws bs (omega arith))

extends_same :
    (ws bs : List ℕ)
    → take (length ws) bs ≡ ws
    → extends ws bs ≡ boundary (get_elem? bs (length ws))
extends_same [] [] e = refl
extends_same [] (b ∷ bs) e = refl
extends_same (w ∷ ws) [] e = cc
extends_same (w ∷ ws) (b ∷ bs) e = ground (arith, e, extends_same ws bs)

extends_differ : (ws bs : List ℕ) → take (length ws) bs ≢ ws → extends ws bs ≡ false
extends_differ [] bs n = absurd (n refl)
extends_differ (w ∷ ws) [] n = refl
extends_differ (w ∷ ws) (b ∷ bs) n = elim (Bool-cases (w == b)) [
  | inl e ↦ rw e (
      extends_differ ws bs (λ h. n (ap (λ l. b ∷ l) h ∙ ap (λ k. k ∷ ws) (sym ((==_iff w b).0 e)))))
  | inr e ↦ rw e refl
]

true-false : true ≡ false → ⊥
true-false e = cc

-- A byte of the path, in the buffer.
get_elem?-path_bytes :
    (req : Request) (n : ℕ)
    → n < req.path.len
    → req.path.pos + req.path.len ≤ req.buffer.len
    → get_elem? (path_bytes req) n ≡ get_elem? (flat req.buffer.pages) (req.path.pos + n)
get_elem?-path_bytes req n inside fits =
    get_elem?-take req.path.len n (drop req.path.pos (contents req.buffer)) inside
    ∙ get_elem?-drop req.path.pos n (req.path.pos + n) (contents req.buffer) refl
    ∙ get_elem?-take req.buffer.len (req.path.pos + n) (flat req.buffer.pages) (omega arith)

-- The byte behind the path given.
next_byte :
    (req : Request) (n : ℕ)
    → IsValid req.buffer
    → n < req.path.len
    → req.path.pos + req.path.len ≤ req.buffer.len
    → ((get req.buffer (u32 (req.path.pos + n)) >>= deref) >>= λ ch.
        some (ch == b'/' || ch == b'?'))
      ≡ some (boundary (get_elem? (path_bytes req) n))
next_byte req n v inside fits =
    let place : u32 (req.path.pos + n) ≡ req.path.pos + n = omega (arith, v.len_in, v.cap_small) in
    let (p, e, byte) = get_lem (req.path.pos + n) v (omega (arith, v.len_in)) in
    let there = get_elem?-some (path_bytes req) n (omega (arith, length-path_bytes req v fits)) in
    let here : deref p ≡ some there.0 =
      byte ∙ sym (get_elem?-path_bytes req n inside fits) ∙ there.1 in
    rw (place, e, here, there.1) refl

-- `httpctx_path_prefix` tells whether the path of the request is the one given, without a slash at its
-- end, or goes on behind it with a slash or a question mark. The buffer is
-- well formed and the path of the request lies within it; the one given is not empty.
pub path_prefix_lem :
    (req : Request) (path : List ℕ)
    → IsValid req.buffer
    → req.path.pos < req.buffer.len
    → req.path.pos + req.path.len ≤ req.buffer.len
    → 0 < length path
    → httpctx_path_prefix req path ≡ some (extends (without_slash path) (path_bytes req))
unfolding httpctx_path_prefix
path_prefix_lem req path v inside fits some_path =
    let t = trimmed path some_path in
    let width : length (without_slash path) ≡ t.n =
      sym (ap length t.cut) ∙ omega (arith, length-take t.n path, t.small) in
    let size = length-path_bytes req v fits in
    elim (dec_lt req.path.len t.n) [
      | yes short ↦
          let e : ltb req.path.len t.n ≡ true = ground arith in
          rw
            (
              t.computed,
              e,
              extends_short (without_slash path) (path_bytes req) (omega (arith, size, width)),
            )
            refl
      | no enough ↦
          let e : ltb req.path.len t.n ≡ false = ground arith in
          let (answer, compared, iff) =
            equal_lem req.path.pos t.n path v (omega (arith, v.len_in, v.cap_small)) t.small in
          let begin : take t.n (path_bytes req) ≡ slice req.path.pos t.n (contents req.buffer) =
            take-take t.n req.path.len (drop req.path.pos (contents req.buffer))
            ∙ ap (λ k. slice req.path.pos k (contents req.buffer)) (omega arith) in
          let wide : take (length (without_slash path)) (path_bytes req)
              ≡ take t.n (path_bytes req) =
            ap (λ k. take k (path_bytes req)) width in
          elim (Bool-cases answer) [
            | inl agrees ↦
                let (near, far, equal_bytes) = iff.0 agrees in
                let same =
                  extends_same (without_slash path) (path_bytes req)
                    (wide ∙ (begin ∙ (equal_bytes ∙ t.cut)))
                  ∙ ap (λ k. boundary (get_elem? (path_bytes req) k)) width in
                elim (Bool-cases (req.path.len == t.n)) [
                  | inl whole ↦
                      let ends : get_elem? (path_bytes req) t.n ≡ none =
                        get_elem?-none (path_bytes req) t.n (ground (arith, size, whole)) in
                      rw (t.computed, e, compared, agrees, whole, same, ends) refl
                  | inr more ↦
                      rw (t.computed, e, compared, agrees, more, same)
                        (next_byte req t.n v (ground (arith, more)) fits)
                ]
            | inr differs ↦
                let differ = extends_differ (without_slash path) (path_bytes req) (λ h. true-false (
                  sym (iff.1 (inside, omega arith, sym begin ∙ (sym wide ∙ (h ∙ sym t.cut))))
                  ∙ differs)) in
                rw (t.computed, e, compared, differs, differ) refl
          ]
    ]
