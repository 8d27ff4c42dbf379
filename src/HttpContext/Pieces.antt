-- ===== src/HttpContext/Pieces.antt =====
-- The callbacks of httpctx.c called once for each piece of a URL, of a header's name or value or of
-- a body.
pub mod Whole
use fast_http.Prelude.{
  ℕ, ◌+◌, ◌≡◌, ◌≢◌, refl, ap, ap₂, ◌∙◌, Option, some, List, [], ◌∷◌, ◌++◌, arith, u32, ◌>>=◌,
}
use fast_http.Dynmem.{Dynmem, offset}
use fast_http.HttpContext.{
  HttpValue, HttpHeader, ParserState, p_begin, p_url, p_head_field, p_head_value, p_body,
  parser_complete, Request,
}
use fast_http.HttpContext.Callbacks.{
  extend, place_value, url_step, field_step, value_step, body_step, on_url, update_last,
  on_header_field, on_header_value, on_body,
}

-- The length of all pieces, each an address and a length.
abbrev pub total : List (ℕ × ℕ) → ℕ
total [] = 0
total ((at, length) ∷ ps) = length + total ps

-- One call for each piece.
abbrev pub feed : (Request → ℕ → ℕ → Request) → Request → List (ℕ × ℕ) → Request
feed f req [] = req
feed f req ((at, length) ∷ ps) = feed f (f req at length) ps

abbrev pub feed_some : (Request → ℕ → ℕ → Option Request) → Request → List (ℕ × ℕ) → Option Request
feed_some f req [] = some req
feed_some f req ((at, length) ∷ ps) = f req at length >>= λ req'. feed_some f req' ps

-- A value that the pieces were added to.
abbrev grown : HttpValue → List (ℕ × ℕ) → HttpValue
grown v [] = v
grown v ((at, length) ∷ ps) = grown (extend v length) ps

grown-eq :
    (p n : ℕ) (ps : List (ℕ × ℕ))
    → grown (record { pos = p; len = u32 n }) ps ≡ record { pos = p; len = u32 (n + total ps) }
unfolding extend
grown-eq p n [] = ap (λ (k : ℕ). record { pos = p; len = k }) (omega arith)
grown-eq p n ((at, length) ∷ ps) =
    ap (λ (k : ℕ). grown (record { pos = p; len = k }) ps) {x = u32 (u32 n + length)}
      {y = u32 (n + length)} (omega arith)
    ∙ grown-eq p (n + length) ps
    ∙ ap (λ (k : ℕ). record { pos = p; len = k }) (omega arith)

-- A fresh value of the buffer, `length` bytes long in all.
abbrev pub stored : Dynmem → ℕ → ℕ → HttpValue
stored buf at length = record { pos = offset buf at; len = u32 length }

url_more :
    (req : Request) (ps : List (ℕ × ℕ))
    → req.parser_state ≡ p_url
    → feed on_url req ps ≡ record req { url = grown req.url ps }
unfolding url_step
url_more req [] e = refl
url_more req ((at, length) ∷ ps) e =
    ap (λ s. feed on_url (url_step s req at length) ps) e
    ∙ url_more (record req { url = extend req.url length }) ps e

url_fresh :
    (s : ParserState) (req : Request) (at length : ℕ)
    → s ≢ p_url
    → url_step s req at length
      ≡ record req { parser_state = p_url; url = stored req.buffer at length }
unfolding url_step place_value
url_fresh p_begin req at length n = refl
url_fresh p_url req at length n = absurd (n refl)
url_fresh p_head_field req at length n = refl
url_fresh p_head_value req at length n = refl
url_fresh p_body req at length n = refl
url_fresh parser_complete req at length n = refl

-- A URL that arrives in pieces is stored as the place of the first one with the length of all, and
-- nothing else of the request changes but the state.
pub on_url-pieces :
    (req : Request) (at length : ℕ) (ps : List (ℕ × ℕ))
    → req.parser_state ≢ p_url
    → feed on_url req ((at, length) ∷ ps)
      ≡ record req { parser_state = p_url; url = stored req.buffer at (length + total ps) }
on_url-pieces req at length ps n =
    ap (λ r. feed on_url r ps) (url_fresh req.parser_state req at length n)
    ∙ url_more (record req { parser_state = p_url; url = stored req.buffer at length }) ps refl
    ∙ ap (λ v. record req { parser_state = p_url; url = v })
        (grown-eq (offset req.buffer at) length ps)

body_more :
    (req : Request) (ps : List (ℕ × ℕ))
    → req.parser_state ≡ p_body
    → feed on_body req ps ≡ record req { body = grown req.body ps }
unfolding body_step
body_more req [] e = refl
body_more req ((at, length) ∷ ps) e =
    ap (λ s. feed on_body (body_step s req at length) ps) e
    ∙ body_more (record req { body = extend req.body length }) ps e

body_fresh :
    (s : ParserState) (req : Request) (at length : ℕ)
    → s ≢ p_body
    → body_step s req at length
      ≡ record req { parser_state = p_body; body = stored req.buffer at length }
unfolding body_step place_value
body_fresh p_begin req at length n = refl
body_fresh p_url req at length n = refl
body_fresh p_head_field req at length n = refl
body_fresh p_head_value req at length n = refl
body_fresh p_body req at length n = absurd (n refl)
body_fresh parser_complete req at length n = refl

-- A body that arrives in pieces is stored as the place of the first one with the length of all, and
-- nothing else of the request changes but the state.
pub on_body-pieces :
    (req : Request) (at length : ℕ) (ps : List (ℕ × ℕ))
    → req.parser_state ≢ p_body
    → feed on_body req ((at, length) ∷ ps)
      ≡ record req { parser_state = p_body; body = stored req.buffer at (length + total ps) }
on_body-pieces req at length ps n =
    ap (λ r. feed on_body r ps) (body_fresh req.parser_state req at length n)
    ∙ body_more (record req { parser_state = p_body; body = stored req.buffer at length }) ps refl
    ∙ ap (λ v. record req { parser_state = p_body; body = v })
        (grown-eq (offset req.buffer at) length ps)

update_last-append :
    (f : HttpHeader → HttpHeader) (hs : List HttpHeader) (h : HttpHeader)
    → update_last f (hs ++ h ∷ []) ≡ some (hs ++ f h ∷ [])
unfolding update_last
update_last-append f [] h = refl
update_last-append f (g ∷ []) h = refl
update_last-append f (g ∷ g' ∷ hs) h = rw (update_last-append f (g' ∷ hs) h) refl

-- The request with one header more.
abbrev with_header : Request → ParserState → HttpValue → HttpValue → Request
with_header req s f v = record req {
  parser_state = s;
  headers = req.headers ++ record { field = f; value = v } ∷ [];
}

field_more :
    (blank : HttpHeader) (req : Request) (f v : HttpValue) (ps : List (ℕ × ℕ))
    → feed_some (on_header_field blank) (with_header req p_head_field f v) ps
      ≡ some (with_header req p_head_field (grown f ps) v)
unfolding field_step
field_more blank req f v [] = refl
field_more blank req f v ((at, length) ∷ ps) =
    rw
      (update_last-append (λ h. record h { field = extend h.field length }) req.headers
        (record { field = f; value = v }))
      (field_more blank req (extend f length) v ps)

field_fresh :
    (s : ParserState) (blank : HttpHeader) (req : Request) (at length : ℕ)
    → s ≢ p_head_field
    → field_step s blank req at length
      ≡ some (with_header req p_head_field (stored req.buffer at length) blank.value)
unfolding field_step place_value
field_fresh p_begin blank req at length n = refl
field_fresh p_url blank req at length n = refl
field_fresh p_head_field blank req at length n = absurd (n refl)
field_fresh p_head_value blank req at length n = refl
field_fresh p_body blank req at length n = refl
field_fresh parser_complete blank req at length n = refl

value_more :
    (req : Request) (f v : HttpValue) (ps : List (ℕ × ℕ))
    → feed_some on_header_value (with_header req p_head_value f v) ps
      ≡ some (with_header req p_head_value f (grown v ps))
unfolding value_step
value_more req f v [] = refl
value_more req f v ((at, length) ∷ ps) =
    rw
      (update_last-append (λ h. record h { value = extend h.value length }) req.headers
        (record { field = f; value = v }))
      (value_more req f (extend v length) ps)

value_first :
    (req : Request) (f v : HttpValue) (at length : ℕ)
    → on_header_value (with_header req p_head_field f v) at length
      ≡ some (with_header req p_head_value f (stored req.buffer at length))
unfolding value_step place_value
value_first req f v at length =
    rw
      (update_last-append (λ h. record h { value = stored req.buffer at length }) req.headers
        (record { field = f; value = v }))
      refl

-- A header whose name and value arrive in pieces, behind a state other than that of a name, becomes
-- the last header of the request, with the places of the first pieces and the lengths of all, and
-- nothing of what the pool's memory held is left.
pub header-pieces :
    (blank : HttpHeader) (req : Request) (at length : ℕ) (ps : List (ℕ × ℕ)) (at' length' : ℕ)
    (ps' : List (ℕ × ℕ))
    → req.parser_state ≢ p_head_field
    → (feed_some (on_header_field blank) req ((at, length) ∷ ps) >>= λ r.
        feed_some on_header_value r ((at', length') ∷ ps'))
      ≡ some (record req {
        parser_state = p_head_value;
        headers =
            req.headers
            ++ record {
              field = stored req.buffer at (length + total ps);
              value = stored req.buffer at' (length' + total ps');
            }
              ∷ [];
      })
header-pieces blank req at length ps at' length' ps' n =
    ap
      (λ o. (o >>= λ r. feed_some (on_header_field blank) r ps) >>= λ r.
        feed_some on_header_value r ((at', length') ∷ ps'))
      (field_fresh req.parser_state blank req at length n)
    ∙ ap (λ o. o >>= λ r. feed_some on_header_value r ((at', length') ∷ ps'))
        (field_more blank req (stored req.buffer at length) blank.value ps)
    ∙ ap (λ o. o >>= λ r. feed_some on_header_value r ps')
        (value_first req (grown (stored req.buffer at length) ps) blank.value at' length')
    ∙ value_more req (grown (stored req.buffer at length) ps) (stored req.buffer at' length') ps'
    ∙ ap₂ (λ f v. some (with_header req p_head_value f v))
        (grown-eq (offset req.buffer at) length ps) (grown-eq (offset req.buffer at') length' ps')
