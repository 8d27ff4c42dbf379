-- ===== src/HttpContext/Callbacks.antt =====
-- The callbacks of httpctx.c through which the parser hands over the pieces of a request. `at` is an
-- address in the buffer of the request.
use fast_http.Prelude.{ℕ, ◌+◌, Option, none, some, List, [], ◌∷◌, ◌++◌, u32, ◌>>=◌}
use fast_http.Dynmem.{Dynmem, offset}
use fast_http.HttpContext.{
  HttpValue, HttpHeader, ParserState, p_url, p_head_field, p_head_value, p_body, Request,
}

-- `len += length`
unfoldable pub extend : HttpValue → ℕ → HttpValue
extend v length = record v { len = u32 (v.len + length) }

-- `pos = dynmem_offset(&req.data, at); len = length`
unfoldable pub place_value : Dynmem → ℕ → ℕ → HttpValue
place_value buf at length = record { pos = offset buf at; len = u32 length }

unfoldable pub url_step : ParserState → Request → ℕ → ℕ → Request
url_step p_url req at length = record req { url = extend req.url length }
url_step _ req at length = record req {
  parser_state = p_url;
  url = place_value req.buffer at length;
}

abbrev pub on_url : Request → ℕ → ℕ → Request
on_url req = url_step req.parser_state req

-- `list_last`, changed. The head of an empty list is no header: a fault.
unfoldable pub update_last : (HttpHeader → HttpHeader) → List HttpHeader → Option (List HttpHeader)
update_last f [] = none
update_last f (h ∷ []) = some (f h ∷ [])
update_last f (h ∷ h' ∷ hs) = update_last f (h' ∷ hs) >>= λ l. some (h ∷ l)

-- `blank` is what the memory held that the pool hands out for a new node.
unfoldable pub field_step : ParserState → HttpHeader → Request → ℕ → ℕ → Option Request
field_step p_head_field blank req at length =
    update_last (λ h. record h { field = extend h.field length }) req.headers >>= λ hs.
    some (record req { headers = hs })
field_step _ blank req at length =
    let fresh = record blank { field = place_value req.buffer at length } in
    some (record req { parser_state = p_head_field; headers = req.headers ++ fresh ∷ [] })

abbrev pub on_header_field : HttpHeader → Request → ℕ → ℕ → Option Request
on_header_field blank req = field_step req.parser_state blank req

unfoldable pub value_step : ParserState → Request → ℕ → ℕ → Option Request
value_step p_head_field req at length =
    update_last (λ h. record h { value = place_value req.buffer at length }) req.headers >>= λ hs.
    some (record req { parser_state = p_head_value; headers = hs })
value_step p_head_value req at length =
    update_last (λ h. record h { value = extend h.value length }) req.headers >>= λ hs.
    some (record req { headers = hs })
value_step _ req at length = some req

abbrev pub on_header_value : Request → ℕ → ℕ → Option Request
on_header_value req = value_step req.parser_state req

unfoldable pub body_step : ParserState → Request → ℕ → ℕ → Request
body_step p_body req at length = record req { body = extend req.body length }
body_step _ req at length = record req {
  parser_state = p_body;
  body = place_value req.buffer at length;
}

abbrev pub on_body : Request → ℕ → ℕ → Request
on_body req = body_step req.parser_state req
