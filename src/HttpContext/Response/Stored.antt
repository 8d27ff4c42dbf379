-- ===== src/HttpContext/Response/Stored.antt =====
-- What the functions that fill a response store in its buffer.
use mathlib.Core.List.{flatten}
use fast_http.Prelude.{
  ℕ, ◌+◌, ◌^◌, ◌≤◌, ◌<◌, ◌≡◌, refl, sym, ap, ◌∙◌, Option, some, List, [], ◌∷◌, ◌++◌, arith, u32,
  ◌>>=◌, length, take, drop, slice, take-all, take-append_le, drop-append_ge, drop-append_le,
  append-nil, append_assoc, length-take, length-drop, length-append,
}
use fast_http.Dynmem.{Dynmem, Malloc}
use fast_http.Dynmem.Foreach.{append}
use fast_http.Dynmem.Walk.{flat}
use fast_http.Dynmem.Sizes.{IsValid, contents, page_bounds}
use fast_http.Dynmem.Sizes.Growth.{length-flat-pages}
use fast_http.Dynmem.Bytes.Write.{append_lem}
use fast_http.HttpContext.{HttpValue, HttpHeader}
use fast_http.HttpContext.Response.{
  Response, append_value, httpctx_add_header, httpctx_set_body, httpctx_body_begin,
  httpctx_body_append, bytes_of,
}

length-contents : {m : Dynmem} → IsValid m → length (contents m) ≡ m.len
length-contents {m} v =
    omega (arith, length-take m.len (flat m.pages), length-flat-pages v, v.len_in)

slice-append_le :
    (off len : ℕ) (xs ys : List ℕ)
    → off + len ≤ length xs
    → slice off len (xs ++ ys) ≡ slice off len xs
slice-append_le off len xs ys h =
    ap (take len) (drop-append_le off xs ys (omega arith))
    ∙ take-append_le len (drop off xs) ys (omega (arith, length-drop off xs))

pub slice-append_all :
    (xs ys : List ℕ) (off len : ℕ)
    → off ≡ length xs
    → len ≡ length ys
    → slice off len (xs ++ ys) ≡ ys
slice-append_all xs ys off len p q =
    ap (take len) (drop-append_ge off 0 xs ys (omega arith)) ∙ take-all len ys (omega arith)

-- What `append_value` stores.
record Stored (mem : Malloc) (buf : Dynmem) (src : List ℕ) (len : ℕ) : Type 0 where
  value : HttpValue
  after : Dynmem
  returns : append_value mem buf src len ≡ some (value, after)
  valid : IsValid after
  grows : after.len ≡ buf.len + len
  holds : contents after ≡ contents buf ++ take len src
  reads : bytes_of after value ≡ take len src
  inside : value.pos + value.len ≤ after.len

append_value-Stored :
    (mem : Malloc) {buf : Dynmem} (src : List ℕ) (len : ℕ)
    → IsValid buf
    → buf.len + len < 2 ^ 31
    → len ≤ length src
    → Stored mem buf src len
unfolding append_value
append_value-Stored mem {buf} src len v fits enough =
    let (after, e, valid, grows, holds) =
      append_lem mem src len v (omega (arith, page_bounds v)) enough in
    record {
      value = record { pos = buf.len; len = len };
      after = after;
      returns = rw e refl;
      valid = valid;
      grows = grows;
      holds = holds;
      reads =
          ap (slice buf.len len) holds
          ∙ slice-append_all (contents buf) (take len src) buf.len len (sym (length-contents v))
              (omega (arith, length-take len src));
      inside = omega (arith, grows);
    }

-- In a well-formed buffer of less than 2 ^ 31 bytes with the new ones, `httpctx_set_body` stores the
-- bytes given as the body and leaves what the buffer held before.
pub set_body_lem :
    (mem : Malloc) (res : Response) (src : List ℕ) (len : ℕ)
    → IsValid res.buffer
    → res.buffer.len + len < 2 ^ 31
    → len ≤ length src
    → (res' : Response) × (httpctx_set_body mem res src len ≡ some res')
      × IsValid res'.buffer
      × (bytes_of res'.buffer res'.body ≡ take len src)
      × (contents res'.buffer ≡ contents res.buffer ++ take len src)
unfolding httpctx_set_body
set_body_lem mem res src len v fits enough =
    let s = append_value-Stored mem src len v fits enough in
    (record res { body = s.value; buffer = s.after }, rw s.returns refl, s.valid, s.reads, s.holds)

-- In a well-formed buffer of less than 2 ^ 31 bytes with the new ones, `httpctx_add_header` adds one header behind the others, whose name and value read as given, and
-- every value that lies within the buffer keeps its bytes.
pub add_header_lem :
    (mem : Malloc) (res : Response) (field value : List ℕ)
    → IsValid res.buffer
    → res.buffer.len + length field + length value < 2 ^ 31
    → (res' : Response) × (h : HttpHeader) × (httpctx_add_header mem res field value ≡ some res')
      × IsValid res'.buffer
      × (res'.headers ≡ res.headers ++ h ∷ [])
      × (bytes_of res'.buffer h.field ≡ field)
      × (bytes_of res'.buffer h.value ≡ value)
      × ((v : HttpValue)
          → v.pos + v.len ≤ res.buffer.len
          → bytes_of res'.buffer v ≡ bytes_of res.buffer v)
unfolding httpctx_add_header
add_header_lem mem res field value v fits =
    let f = append_value-Stored mem field (length field) v (omega arith) (omega arith) in
    let w =
      append_value-Stored mem value (length value) f.valid (omega (arith, f.grows)) (omega arith) in
    (
      record res {
        headers = res.headers ++ record { field = f.value; value = w.value } ∷ [];
        buffer = w.after;
      },
      record { field = f.value; value = w.value },
      rw (f.returns, w.returns) refl,
      w.valid,
      refl,
      kept f.after w.after (take (length value) value) f.valid w.holds f.value f.inside
          ∙ (f.reads ∙ take-all (length field) field (omega arith)),
      w.reads ∙ take-all (length value) value (omega arith),
      λ u h.
          kept f.after w.after (take (length value) value) f.valid w.holds u
            (omega (arith, f.grows))
          ∙ kept res.buffer f.after (take (length field) field) v f.holds u h,
    )
  where
    kept :
        (a b : Dynmem) (more : List ℕ)
        → IsValid a
        → contents b ≡ contents a ++ more
        → (u : HttpValue) → u.pos + u.len ≤ a.len
        → bytes_of b u ≡ bytes_of a u
    kept a b more va holds u h =
        ap (slice u.pos u.len) holds
        ∙ slice-append_le u.pos u.len (contents a) more (omega (arith, length-contents va))

-- `httpctx_body_append` for one text after the other.
abbrev pub all_appended : Malloc → Response → List (List ℕ) → Option Response
all_appended mem res [] = some res
all_appended mem res (src ∷ srcs) =
    httpctx_body_append mem res src (length src) >>= λ res'. all_appended mem res' srcs

body_append-returns :
    (mem : Malloc) (res : Response) (src : List ℕ) (n : ℕ) (after : Dynmem)
    → append mem res.buffer src n ≡ some (n, after)
    → res.body.len + n < 2 ^ 32
    → httpctx_body_append mem res src n
      ≡ some (record res { body = record res.body { len = res.body.len + n }; buffer = after })
unfolding httpctx_body_append
body_append-returns mem res src n after e fits = rw e (
    ap (λ (k : ℕ). some (record res { body = record res.body { len = k }; buffer = after }))
      {x = u32 (res.body.len + n)} (omega arith))

all_appended-grows :
    (mem : Malloc) (res : Response) (srcs : List (List ℕ))
    → IsValid res.buffer
    → res.body.len ≤ res.buffer.len
    → res.buffer.len + length (flatten srcs) < 2 ^ 31
    → (res' : Response) × (all_appended mem res srcs ≡ some res')
      × IsValid res'.buffer
      × (res'.body ≡ record { pos = res.body.pos; len = res.body.len + length (flatten srcs) })
      × (contents res'.buffer ≡ contents res.buffer ++ flatten srcs)
unfolding flatten
all_appended-grows mem res [] v small fits = (
  res,
  refl,
  v,
  ap (λ (k : ℕ). record { pos = res.body.pos; len = k }) {x = res.body.len} (omega arith),
  sym (append-nil (contents res.buffer)),
)
all_appended-grows mem res (src ∷ srcs) v small fits =
    let total = length-append src (flatten srcs) in
    let (after, e, valid, grows, holds) =
      append_lem mem src (length src) v (omega (arith, page_bounds v, total)) (omega arith) in
    let next : Response = record res {
      body = record res.body { len = res.body.len + length src };
      buffer = after;
    } in
    let (res', e', valid', body', holds') =
      all_appended-grows mem next srcs valid (omega (arith, grows)) (omega (arith, grows, total)) in
    (
      res',
      ap (λ o. o >>= λ r. all_appended mem r srcs)
            (body_append-returns mem res src (length src) after e (omega (arith, total)))
          ∙ e',
      valid',
      body' ∙ ap (λ (k : ℕ). record { pos = res.body.pos; len = k }) (omega (arith, total)),
      holds'
          ∙ ap (λ l. l ++ flatten srcs)
              (holds ∙ ap (λ l. contents res.buffer ++ l) (take-all (length src) src (omega arith)))
          ∙ append_assoc (contents res.buffer) src (flatten srcs),
    )

-- In a well-formed buffer of less than 2 ^ 31 bytes with the new ones, a body that is begun on a fresh response and appended to in any number of texts reads as all of
-- them, one behind the other.
pub body_append_lem :
    (mem : Malloc) (res : Response) (srcs : List (List ℕ))
    → IsValid res.buffer
    → res.body.len ≡ 0
    → res.buffer.len + length (flatten srcs) < 2 ^ 31
    → (res' : Response) × (all_appended mem (httpctx_body_begin res) srcs ≡ some res')
      × IsValid res'.buffer
      × (bytes_of res'.buffer res'.body ≡ flatten srcs)
unfolding httpctx_body_begin
body_append_lem mem res srcs v fresh fits =
    let (res', e, valid, body, holds) =
      all_appended-grows mem (httpctx_body_begin res) srcs v (omega (arith, fresh)) fits in
    (
      res',
      e,
      valid,
      ap (λ b. bytes_of res'.buffer b) body
          ∙ ap (slice res.buffer.len (res.body.len + length (flatten srcs))) holds
          ∙ slice-append_all (contents res.buffer) (flatten srcs) res.buffer.len
              (res.body.len + length (flatten srcs)) (sym (length-contents v))
              (omega (arith, fresh)),
    )
