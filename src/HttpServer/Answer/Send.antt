-- ===== src/HttpServer/Answer/Send.antt =====
-- What `write_http_resp` of httpserver.c has done when the pieces are made.
use native.Mathlib.Nat.{div-le_self}
use fast_http.Prelude.{
  ℕ, ◌+◌, ◌-◌, ◌*◌, ◌%◌, ◌^◌, ◌≤◌, ◌<◌, ◌≡◌, refl, sym, ap, ap₂, ◌∙◌, Option, some, List, ◌++◌,
  arith, u32, sub32, length, take, drop, slice, length-append, take-take, drop-take, min, subst,
}
use fast_http.Dynmem.{Dynmem, Malloc, next_surplus, align}
use fast_http.Dynmem.Walk.{flat}
use fast_http.Dynmem.Sizes.{IsValid, contents, page_bounds, surplus_lem}
use fast_http.HttpContext.{HttpValue}
use fast_http.HttpContext.Response.{Response, bytes_of}
use fast_http.HttpContext.Response.Stored.{slice-append_all}
use fast_http.HttpServer.Answer.{
  UvBuf, pages_of, fill_array, write_http_header, write_http_resp, body_length,
}
use fast_http.HttpServer.Answer.Piece.{sent_bytes, sum_len}
use fast_http.HttpServer.Answer.Line.{Extended}
use fast_http.HttpServer.Answer.Appends.{Inside, length-contents, bytes_of-Extended, Extended-trans}
use fast_http.HttpServer.Answer.Lines.{header_text, AllInside, AllInside-mono, header_text-Extended}
use fast_http.HttpServer.Answer.Header.{status_line, write_http_header_lem}
use fast_http.HttpServer.Answer.Aligned.{align-Extended}
use fast_http.HttpServer.Answer.Range.{touched, touched-aligned, fill_uv_buf_ts-Ranged}
use fast_http.HttpServer.Answer.Array.{sent-append, sum_len-append, resp-returns}

-- A response as `write_http_resp` needs it: a well-formed buffer that holds all values, a status line
-- that fits a page with its NUL, and room for the header and two pages below 2 ^ 32 bytes.
pub record Ready (res : Response) : Type 0 where
  pub valid : IsValid res.buffer
  pub room : res.buffer.cap + length (header_text res) + 2 * res.buffer.page < 2 ^ 32
  pub line : length (status_line res) < res.buffer.page
  pub in_type : Inside res.buffer.len res.content_type
  pub in_headers : AllInside res.buffer.len res.headers
  pub in_body : Inside res.buffer.len res.body

-- A range of the contents.
slice-contents :
    (m : Dynmem) (off len : ℕ)
    → off + len ≤ m.len
    → slice off len (flat m.pages) ≡ slice off len (contents m)
slice-contents m off len h = sym (
    ap (take len) (drop-take off m.len (flat m.pages))
    ∙ take-take len (m.len - off) (drop off (flat m.pages))
    ∙ ap (λ n. take n (drop off (flat m.pages))) {x = min len (m.len - off)} (omega arith))

-- What the code has done when the pieces are made.
pub record Run (mem : Malloc) (dynmem_grow : Dynmem → ℕ → Dynmem) (res : Response) : Type 0 where
  pub buffer : Dynmem
  pub pieces : List UvBuf
  pub bytes : List ℕ
  pub sends : sent_bytes pieces ≡ some bytes
  pub count :
      length pieces
      ≡ pages_of res.buffer.page (length (header_text res))
        + touched res.buffer.page res.body.pos res.body.len
  pub returns :
      (array : List (Option UvBuf))
      → fill_array
          (pages_of res.buffer.page (length (header_text res))
            + pages_of res.buffer.page res.body.len)
          pieces
        ≡ some array
      → write_http_resp mem dynmem_grow res
        ≡ some (record {
          buffer = buffer;
          write_bufs = array;
          nbufs =
              pages_of res.buffer.page (length (header_text res))
              + pages_of res.buffer.page res.body.len;
        })
  pub whole :
      length (header_text res) ≤ res.buffer.page
      → res.body.pos % res.buffer.page + res.body.len ≤ res.buffer.page
      → (bytes ≡ header_text res ++ bytes_of res.buffer res.body)
        × (sum_len pieces ≡ length (header_text res) + res.body.len)

-- The buffer behind the header: `a` is the aligned one and `p` has the header.
record Headed (mem : Malloc) (dynmem_grow : Dynmem → ℕ → Dynmem) (res : Response) : Type 0 where
  a : Dynmem
  p : Dynmem
  extra : List ℕ
  aligned : Extended res.buffer extra a
  at_page : a.len % res.buffer.page ≡ 0
  start : (align mem res.buffer).0 ≡ a.len
  returns :
      write_http_header mem dynmem_grow (record res { buffer = (align mem res.buffer).1 })
      ≡ some (length (header_text res), p)
  added : Extended a (header_text res) p

headed :
    (mem : Malloc) (dynmem_grow : Dynmem → ℕ → Dynmem) (res : Response)
    → ((m : Dynmem) (n : ℕ) → dynmem_grow m n ≡ record m { len = u32 (m.len + n) })
    → Ready res
    → Headed mem dynmem_grow res
unfolding next_surplus body_length
headed mem dynmem_grow res moves r =
    let (extra, e, same, at_page, room, inside) =
      align-Extended mem r.valid (omega (arith, r.room)) in
    let a = (align mem res.buffer).1 in
    let text = header_text-Extended res a extra r.valid e r.in_type r.in_headers in
    let page = ap (λ (n : ℕ). a.len % n) e.same_page ∙ at_page in
    let size = ap length text in
    let (p, returns, added) =
      write_http_header_lem mem dynmem_grow (record res { buffer = a }) moves e.valid room
        (omega (arith, surplus_lem a.len e.valid, page, r.line, e.same_page))
        (omega (arith, e.grows)) (AllInside-mono res.headers (omega (arith, e.grows)) r.in_headers)
        (omega (arith, size, inside, r.room, e.same_page)) in
    record {
      a = a;
      p = p;
      extra = extra;
      aligned = e;
      at_page = at_page;
      start = same;
      returns = returns ∙ ap (λ (n : ℕ). some (n, p)) size;
      added = subst (λ t. Extended a t p) text added;
    }

header_bytes :
    (a p : Dynmem) (text : List ℕ)
    → IsValid a
    → Extended a text p
    → slice a.len (length text) (flat p.pages) ≡ text
header_bytes a p text v e =
    slice-contents p a.len (length text) (omega (arith, e.grows))
    ∙ ap (slice a.len (length text)) e.holds
    ∙ slice-append_all (contents a) text a.len (length text) (sym (length-contents v)) refl

body_bytes :
    (m p : Dynmem) (more : List ℕ) (u : HttpValue)
    → IsValid m
    → Extended m more p
    → Inside m.len u
    → slice u.pos u.len (flat p.pages) ≡ bytes_of m u
body_bytes m p more u v e inside =
    slice-contents p u.pos u.len (omega (arith, e.grows)) ∙ bytes_of-Extended more u v e inside

pages-small :
    (ps x y : ℕ)
    → x + y + 2 * ps < 2 ^ 32
    → u32 (pages_of ps x + pages_of ps y) ≡ pages_of ps x + pages_of ps y
pages-small ps x y fits =
    omega (arith, div-le_self (sub32 (u32 (x + ps)) 1) ps, div-le_self (sub32 (u32 (y + ps)) 1) ps)

run-pieces :
    (mem : Malloc) (dynmem_grow : Dynmem → ℕ → Dynmem) (res : Response)
    → Ready res
    → Headed mem dynmem_grow res
    → Run mem dynmem_grow res
run-pieces mem dynmem_grow res r h =
    let text = header_text res in
    let ps = res.buffer.page in
    let all = Extended-trans {m2 = h.p} h.extra text h.aligned h.added in
    let v = all.valid in
    let head =
      fill_uv_buf_ts-Ranged h.a.len (length text) v (omega (arith, h.added.grows, v.len_in)) in
    let body =
      fill_uv_buf_ts-Ranged res.body.pos res.body.len v
        (omega (arith, r.in_body, h.added.grows, h.aligned.grows, v.len_in)) in
    let pages = λ (n : ℕ). pages_of n (length text) + pages_of n res.body.len in
    let at_page = ap (λ (n : ℕ). h.a.len % n) all.same_page ∙ h.at_page in
    record {
      buffer = h.p;
      pieces = head.bufs ++ body.bufs;
      bytes = _;
      sends = sent-append head.bufs body.bufs _ _ head.bytes body.bytes;
      count =
          length-append head.bufs body.bufs
          ∙ ap₂ (λ (i j : ℕ). i + j)
              (head.count
                ∙ ap (λ (n : ℕ). touched n h.a.len (length text)) all.same_page
                ∙ touched-aligned ps (page_bounds r.valid).0 h.a.len (length text) h.at_page
                    (omega (arith, r.room)))
              (body.count ∙ ap (λ (n : ℕ). touched n res.body.pos res.body.len) all.same_page);
      returns = λ array e.
          resp-returns mem dynmem_grow res h.a.len (length text) h.p (pages ps) head.bufs body.bufs
            array h.start h.returns
            (ap (λ (n : ℕ). u32 (pages n)) all.same_page
              ∙ pages-small ps (length text) res.body.len
                  (omega (arith, r.room, r.in_body, r.valid.len_in)))
            head.returns body.returns e;
      whole = λ one_page body_inside.
          let one_head = head.one (omega (arith, at_page, all.same_page)) in
          let one_body = body.one (
            subst (λ (n : ℕ). res.body.pos % n + res.body.len ≤ n) (sym all.same_page)
              body_inside) in
          (
            ap₂ (λ x y. x ++ y)
                (ap (λ (n : ℕ). slice h.a.len n (flat h.p.pages)) one_head
                  ∙ header_bytes h.a h.p text h.aligned.valid h.added)
                (ap (λ (n : ℕ). slice res.body.pos n (flat h.p.pages)) one_body
                  ∙ body_bytes res.buffer h.p (h.extra ++ text) res.body r.valid all r.in_body),
            omega (arith, sum_len-append head.bufs body.bufs, one_head, one_body),
          );
    }

pub run :
    (mem : Malloc) (dynmem_grow : Dynmem → ℕ → Dynmem) (res : Response)
    → ((m : Dynmem) (n : ℕ) → dynmem_grow m n ≡ record m { len = u32 (m.len + n) })
    → Ready res
    → Run mem dynmem_grow res
run mem dynmem_grow res moves r =
    run-pieces mem dynmem_grow res r (headed mem dynmem_grow res moves r)
