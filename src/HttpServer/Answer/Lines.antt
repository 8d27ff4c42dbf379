-- ===== src/HttpServer/Answer/Lines.antt =====
-- The lines of a response that httpserver.c copies from its buffer: the type of the body and the headers.
use fast_http.Prelude.{
  ℕ, ◌+◌, ◌^◌, ◌≤◌, ◌<◌, ◌≡◌, refl, ap, ap₂, inl, inr, Bool-cases, List, [], ◌∷◌, ◌++◌, arith, ◌==◌,
  if◌then◌else◌, length, length-append, subst,
}
use fast_http.Dynmem.{Dynmem, Malloc}
use fast_http.Dynmem.Sizes.{IsValid}
use fast_http.HttpContext.{HttpValue, HttpHeader}
use fast_http.HttpContext.Response.{Response, bytes_of}
use fast_http.HttpServer.{mem_array_copyfrom, get_message_by_status}
use fast_http.HttpServer.Answer.{
  header_line, header_lines, content_type_line, body_length, resp_status, keep_alive_text,
  content_type_text, crlf,
}
use fast_http.HttpServer.Answer.Line.{Extended}
use fast_http.HttpServer.Answer.Appends.{
  Inside, Extended-refl, Extended-trans, bytes_of-Extended, Appends, Appends-bind, put_text-Appends,
  copy-Appends, length-bytes_of,
}

-- The bytes of one header.
unfoldable pub line_of : Dynmem → HttpHeader → List ℕ
line_of buf h = bytes_of buf h.field ++ (b':' ∷ b' ' ∷ [] ++ (bytes_of buf h.value ++ crlf))

unfoldable pub lines_of : Dynmem → List HttpHeader → List ℕ
unfolding line_of
lines_of buf [] = []
lines_of buf (h ∷ hs) = line_of buf h ++ lines_of buf hs

-- The line with the type of the body, if that is set.
unfoldable pub content_type_of : Dynmem → Response → List ℕ
content_type_of buf res =
    if res.content_type.len == 0
    then []
    else content_type_text ++ (bytes_of buf res.content_type ++ crlf)

-- The header of a response, as HTTP has it.
unfoldable pub header_text : Response → List ℕ
unfolding lines_of content_type_of
header_text res =
    resp_status res.status (get_message_by_status res.status) (body_length res)
    ++ ((if res.keep_alive then keep_alive_text else [])
        ++ (content_type_of res.buffer res ++ (lines_of res.buffer res.headers ++ crlf)))

abbrev pub AllInside : ℕ → List HttpHeader → Type 0
AllInside n [] = Unit
AllInside n (h ∷ hs) = Inside n h.field × Inside n h.value × AllInside n hs

pub AllInside-mono : {n k : ℕ} (hs : List HttpHeader) → n ≤ k → AllInside n hs → AllInside k hs
AllInside-mono [] le inside = tt
AllInside-mono (h ∷ hs) le inside =
    (omega (arith, inside.0), omega (arith, inside.1), AllInside-mono hs le inside.2)

-- The bytes of a value of the buffer as it was before `m` grew out of it.
module _ (mem : Malloc) {m0 : Dynmem} (v0 : IsValid m0) where
  pub copy_from :
      {m : Dynmem} (pre : List ℕ) (u : HttpValue)
      → Extended m0 pre m
      → Inside m0.len u
      → m.len + u.len + m.page < 2 ^ 32
      → Appends m (bytes_of m0 u) (mem_array_copyfrom mem m u)
  copy_from {m} pre u e inside fits =
      subst (λ b. Appends m b (mem_array_copyfrom mem m u)) (bytes_of-Extended pre u v0 e inside)
        (copy-Appends mem e.valid u (omega (arith, e.grows)) fits)

  length-line_of :
      (h : HttpHeader)
      → Inside m0.len h.field
      → Inside m0.len h.value
      → length (line_of m0 h) ≡ h.field.len + h.value.len + 4
  unfolding line_of
  length-line_of h in_field in_value =
      let field = bytes_of m0 h.field in
      let value = bytes_of m0 h.value in
      omega (
        arith,
        length-bytes_of h.field v0 in_field,
        length-bytes_of h.value v0 in_value,
        length-append field (b':' ∷ b' ' ∷ [] ++ (value ++ crlf)),
        length-append value crlf,
      )

  header_line-Appends :
      {m : Dynmem} (pre : List ℕ) (h : HttpHeader)
      → Extended m0 pre m
      → Inside m0.len h.field
      → Inside m0.len h.value
      → m.len + length (line_of m0 h) + m.page < 2 ^ 32
      → Appends m (line_of m0 h) (header_line mem h m)
  unfolding header_line line_of
  header_line-Appends {m} pre h e in_field in_value fits =
      let field = bytes_of m0 h.field in
      let value = bytes_of m0 h.value in
      let sep : List ℕ = b':' ∷ b' ' ∷ [] in
      let f = length-bytes_of h.field v0 in_field in
      let w = length-bytes_of h.value v0 in_value in
      let all = length-line_of h in_field in_value in
      Appends-bind field (sep ++ (value ++ crlf)) _ _
        (copy_from pre h.field e in_field (omega (arith, f, w, all)))
        λ p1 e1.
          Appends-bind sep (value ++ crlf) _ _
            (put_text-Appends mem e1.valid sep (omega (arith, f, w, all, e1.grows, e1.same_page)))
            λ p2 e2.
              Appends-bind value crlf _ _
                (copy_from (pre ++ field ++ sep) h.value
                  (Extended-trans (pre ++ field) sep (Extended-trans pre field e e1) e2) in_value
                  (omega (arith, f, w, all, e1.grows, e1.same_page, e2.grows, e2.same_page)))
                λ p3 e3. put_text-Appends mem e3.valid crlf (
                  omega (
                    arith, f, w, all, e1.grows, e1.same_page, e2.grows, e2.same_page, e3.grows,
                    e3.same_page,
                  ))

  pub header_lines-Appends :
      {m : Dynmem} (pre : List ℕ) (hs : List HttpHeader)
      → Extended m0 pre m
      → AllInside m0.len hs
      → m.len + length (lines_of m0 hs) + m.page < 2 ^ 32
      → Appends m (lines_of m0 hs) (header_lines mem hs m)
  unfolding header_lines lines_of
  header_lines-Appends {m} pre [] e inside fits = record {
    out = m;
    returns = refl;
    extended = Extended-refl e.valid;
  }
  header_lines-Appends {m} pre (h ∷ hs) e inside fits =
      let sizes = length-append (line_of m0 h) (lines_of m0 hs) in
      Appends-bind (line_of m0 h) (lines_of m0 hs) _ _
        (header_line-Appends pre h e inside.0 inside.1 (omega (arith, sizes)))
        λ p1 e1.
          header_lines-Appends (pre ++ line_of m0 h) hs (Extended-trans pre (line_of m0 h) e e1)
            inside.2 (omega (arith, sizes, e1.grows, e1.same_page))

  pub content_type-Appends :
      {m : Dynmem} (pre : List ℕ) (res : Response)
      → Extended m0 pre m
      → Inside m0.len res.content_type
      → m.len + length (content_type_of m0 res) + m.page < 2 ^ 32
      → Appends m (content_type_of m0 res) (content_type_line mem res m)
  unfolding content_type_line content_type_of
  content_type-Appends {m} pre res e inside fits = elim (Bool-cases (res.content_type.len == 0)) [
    | inl empty ↦ rw empty (record { out = m; returns = refl; extended = Extended-refl e.valid })
    | inr given ↦
        let value = bytes_of m0 res.content_type in
        let f = length-bytes_of res.content_type v0 inside in
        let all : m.len + length (content_type_text ++ (value ++ crlf)) + m.page < 2 ^ 32 =
          rw given at fits in
        let sizes = length-append content_type_text (value ++ crlf) in
        let rest = length-append value crlf in
        rw given (
          Appends-bind content_type_text (value ++ crlf) _ _
            (put_text-Appends mem e.valid content_type_text (omega (arith, all, sizes)))
            λ p1 e1.
              Appends-bind value crlf _ _
                (copy_from (pre ++ content_type_text) res.content_type
                  (Extended-trans pre content_type_text e e1) inside
                  (omega (arith, all, f, sizes, rest, e1.grows, e1.same_page)))
                λ p2 e2. put_text-Appends mem e2.valid crlf (
                  omega
                    (arith, all, f, sizes, rest, e1.grows, e1.same_page, e2.grows, e2.same_page)))
  ]

-- The text of the header does not change while the buffer grows.
module _ {m0 m : Dynmem} (bytes : List ℕ) (v0 : IsValid m0) (e : Extended m0 bytes m) where
  lines_of-Extended : (hs : List HttpHeader) → AllInside m0.len hs → lines_of m hs ≡ lines_of m0 hs
  unfolding lines_of line_of
  lines_of-Extended [] inside = refl
  lines_of-Extended (h ∷ hs) inside =
      ap₂ (λ a b. a ++ b)
        (ap₂ (λ a b. a ++ (b':' ∷ b' ' ∷ [] ++ (b ++ crlf)))
          (bytes_of-Extended bytes h.field v0 e inside.0)
          (bytes_of-Extended bytes h.value v0 e inside.1))
        (lines_of-Extended hs inside.2)

  content_type_of-Extended :
      (res : Response)
      → Inside m0.len res.content_type
      → content_type_of m res ≡ content_type_of m0 res
  unfolding content_type_of
  content_type_of-Extended res inside =
      ap (λ b. if res.content_type.len == 0 then [] else content_type_text ++ (b ++ crlf))
        (bytes_of-Extended bytes res.content_type v0 e inside)

pub header_text-Extended :
    (res : Response) (m : Dynmem) (bytes : List ℕ)
    → IsValid res.buffer
    → Extended res.buffer bytes m
    → Inside res.buffer.len res.content_type
    → AllInside res.buffer.len res.headers
    → header_text (record res { buffer = m }) ≡ header_text res
unfolding header_text body_length content_type_of
header_text-Extended res m bytes v e in_type in_headers =
    ap₂
      (λ t l.
        resp_status res.status (get_message_by_status res.status) (body_length res)
        ++ ((if res.keep_alive then keep_alive_text else []) ++ (t ++ (l ++ crlf))))
      (content_type_of-Extended bytes v e res in_type)
      (lines_of-Extended bytes v e res.headers in_headers)
