-- ===== src/HttpServer/Answer/Header.antt =====
-- What `write_http_header` of httpserver.c puts into the buffer.
use fast_http.Prelude.{
  ℕ, ◌+◌, ◌^◌, ◌<◌, ◌≡◌, refl, ap, some, inl, inr, Bool-cases, List, [], ◌++◌, arith, u32, sub32,
  if◌then◌else◌, length, length-append,
}
use fast_http.Dynmem.{Dynmem, Malloc, next_surplus}
use fast_http.Dynmem.Sizes.{IsValid}
use fast_http.HttpContext.Response.{Response}
use fast_http.HttpServer.{get_message_by_status}
use fast_http.HttpServer.Answer.{
  put_text, header_rest, body_length, write_http_header, print_next, resp_status, keep_alive_text,
  crlf,
}
use fast_http.HttpServer.Answer.Line.{Extended, print_next_lem}
use fast_http.HttpServer.Answer.Appends.{
  Inside, Extended-refl, Extended-trans, Appends, Appends-bind, put_text-Appends,
}
use fast_http.HttpServer.Answer.Lines.{
  lines_of, content_type_of, header_text, AllInside, header_lines-Appends, content_type-Appends,
}

-- The status line with its arguments.
abbrev pub status_line : Response → List ℕ
status_line res = resp_status res.status (get_message_by_status res.status) (body_length res)

header-returns :
    (mem : Malloc) (dynmem_grow : Dynmem → ℕ → Dynmem) (res : Response) (prlen : ℕ)
    (p0 p p1 : Dynmem) (n : ℕ)
    → print_next res.buffer (status_line res) ≡ some (prlen, p0)
    → dynmem_grow p0 prlen ≡ p
    → header_rest mem res p ≡ some p1
    → p1.len ≡ res.buffer.len + n
    → res.buffer.len + n < 2 ^ 32
    → write_http_header mem dynmem_grow res ≡ some (n, p1)
unfolding write_http_header
header-returns mem dynmem_grow res prlen p0 p p1 n e0 e1 e2 size fits =
    rw (e0, e1, e2)
      (ap (λ (k : ℕ). some (k, p1)) {x = sub32 p1.len res.buffer.len} {y = n} (omega arith))

abbrev keep_alive_of : Response → List ℕ
keep_alive_of res = if res.keep_alive then keep_alive_text else []

keep_alive-Appends :
    (mem : Malloc) (res : Response) (m : Dynmem)
    → IsValid m
    → m.len + length (keep_alive_of res) + m.page < 2 ^ 32
    → Appends m
        (keep_alive_of res)
        ((if res.keep_alive then put_text mem keep_alive_text else some) m)
keep_alive-Appends mem res m v fits = elim (Bool-cases res.keep_alive) [
  | inl on ↦
      let room : m.len + length keep_alive_text + m.page < 2 ^ 32 = rw on at fits in
      rw on (put_text-Appends mem v keep_alive_text room)
  | inr off ↦ rw off (record { out = m; returns = refl; extended = Extended-refl v })
]

-- The bytes behind the status line.
abbrev rest_of : Response → List ℕ
rest_of res =
    keep_alive_of res
    ++ (content_type_of res.buffer res ++ (lines_of res.buffer res.headers ++ crlf))

header_rest-Appends :
    (mem : Malloc) (res : Response) {m : Dynmem} (line : List ℕ)
    → IsValid res.buffer
    → Extended res.buffer line m
    → Inside res.buffer.len res.content_type
    → AllInside res.buffer.len res.headers
    → m.len + length (rest_of res) + m.page < 2 ^ 32
    → Appends m (rest_of res) (header_rest mem res m)
unfolding header_rest
header_rest-Appends mem res {m} line v e0 in_type in_headers fits =
    let keep = keep_alive_of res in
    let type = content_type_of res.buffer res in
    let lines = lines_of res.buffer res.headers in
    let s1 = length-append keep (type ++ (lines ++ crlf)) in
    let s2 = length-append type (lines ++ crlf) in
    let s3 = length-append lines crlf in
    Appends-bind keep (type ++ (lines ++ crlf)) _ _
      (keep_alive-Appends mem res m e0.valid (omega (arith, s1)))
      λ p1 k.
        let e1 = Extended-trans {m2 = p1} line keep e0 k in
        let r1 : p1.len + length (type ++ (lines ++ crlf)) + p1.page < 2 ^ 32 =
          omega (arith, s1, k.grows, k.same_page) in
        Appends-bind type (lines ++ crlf) _ _
          (content_type-Appends mem v (line ++ keep) res e1 in_type (omega (arith, s2, r1)))
          λ p2 t.
            let e2 = Extended-trans {m2 = p2} (line ++ keep) type e1 t in
            let r2 : p2.len + length (lines ++ crlf) + p2.page < 2 ^ 32 =
              omega (arith, s2, r1, t.grows, t.same_page) in
            Appends-bind lines crlf _ _
              (header_lines-Appends mem v ((line ++ keep) ++ type) res.headers e2 in_headers
                (omega (arith, s3, r2)))
              λ p3 h.
                put_text-Appends mem h.valid crlf (omega (arith, s3, r2, h.grows, h.same_page))

-- `dynmem_grow` moves the length by the number given. In a well-formed buffer with room for the
-- status line and a NUL in the page at the end of the contents, `write_http_header` puts the header
-- behind them: the status line, `Connection: keep-alive` if it is asked for, the type of the body if
-- it is set, one line for each header, in their order, and an empty line. The result is its length.
-- The values must lie in the contents, and the new length and a page must fit a `uint32_t`.
pub write_http_header_lem :
    (mem : Malloc) (dynmem_grow : Dynmem → ℕ → Dynmem) (res : Response)
    → ((m : Dynmem) (n : ℕ) → dynmem_grow m n ≡ record m { len = u32 (m.len + n) })
    → IsValid res.buffer
    → res.buffer.len < res.buffer.cap
    → length (status_line res) < next_surplus res.buffer
    → Inside res.buffer.len res.content_type
    → AllInside res.buffer.len res.headers
    → res.buffer.len + length (header_text res) + res.buffer.page < 2 ^ 32
    → (after : Dynmem) × (write_http_header mem dynmem_grow res
        ≡ some (length (header_text res), after))
      × Extended res.buffer (header_text res) after
unfolding header_text
write_http_header_lem mem dynmem_grow res moves v room line_fits in_type in_headers fits =
    let line = status_line res in
    let total = length-append line (rest_of res) in
    let (p0, printed, e0) = print_next_lem line v room line_fits in
    let r =
      header_rest-Appends mem res line v e0 in_type in_headers
        (omega (arith, total, e0.grows, e0.same_page)) in
    let all = Extended-trans {m2 = r.out} line (rest_of res) e0 r.extended in
    (
      r.out,
      header-returns mem dynmem_grow res (length line) p0 _ r.out (length (header_text res)) printed
          (moves p0 (length line)) r.returns all.grows (omega arith),
      all,
    )
