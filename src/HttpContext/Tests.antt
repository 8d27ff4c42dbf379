-- ===== src/HttpContext/Tests.antt =====
-- The theorems on httpctx.c and httpctx.h at concrete inputs.
use mathlib.Core.List.{flatten}
use fast_http.Prelude.{
  ℕ, ◌+◌, ◌*◌, ◌^◌, ◌≤◌, ◌<◌, ◌≡◌, ◌≢◌, ◌↔◌, refl, Bool, true, false, none, some, List, [], ◌∷◌,
  ◌++◌, arith, length, replicate, length-replicate, ◌>>=◌, slice,
}
use fast_http.Dynmem.{Page, Dynmem, Malloc}
use fast_http.Dynmem.Walk.{flat}
use fast_http.Dynmem.Sizes.{IsValid}
use fast_http.HttpContext.{
  HttpValue, HttpHeader, p_begin, p_head_field, p_head_value, Request, hc_http10, hc_http_get,
  get_http_header,
}
use fast_http.HttpContext.Callbacks.{on_header_field, on_header_value}
use fast_http.HttpContext.Pieces.{feed_some}
use fast_http.HttpContext.Pieces.Whole.{on_header_value-on_header_field}
use fast_http.HttpContext.Header.{get_http_header_lem}
use fast_http.HttpContext.Path.{
  httpctx_path_equal, httpctx_path_prefix, path_bytes, without_slash, path_equal_lem,
}
use fast_http.HttpContext.Path.Prefix.{extends, path_prefix_lem}
use fast_http.HttpContext.Response.{
  hc_body_memory, Response, httpctx_add_header, httpctx_body_begin, bytes_of,
}
use fast_http.HttpContext.Response.Stored.{all_appended, add_header_lem, body_append_lem}

abbrev zeroed : Malloc
zeroed = record {
  block = λ ps n. record { addr = 4096 + 64 * length ps; bytes = replicate n 0 };
  length-block = λ ps n. length-replicate n 0;
}

-- `/a/bHosT: x`
abbrev data_in : Dynmem
data_in = record {
  len = 11;
  cap = 16;
  page = 8;
  pages =
      record { addr = 64; bytes = 47 ∷ 97 ∷ 47 ∷ 98 ∷ 72 ∷ 111 ∷ 115 ∷ 84 ∷ [] }
      ∷ record { addr = 128; bytes = 58 ∷ 32 ∷ 120 ∷ 0 ∷ 0 ∷ 0 ∷ 0 ∷ 0 ∷ [] }
      ∷ [];
}

data_in-IsValid : IsValid data_in
data_in-IsValid = record {
  exponent = 3;
  page_power = refl;
  page_small = omega arith;
  sized = (refl, (refl, tt));
  cap_pages = refl;
  cap_small = omega arith;
  len_in = omega arith;
}

abbrev nothing : HttpValue
nothing = record { pos = 0; len = 0 }

abbrev host_header : HttpHeader
host_header = record { field = record { pos = 4; len = 4 }; value = record { pos = 10; len = 1 } }

abbrev request : Request
request = record {
  url = nothing;
  host = none;
  content_type = none;
  path = record { pos = 0; len = 4 };
  url_param = nothing;
  content_length = 0;
  headers = host_header ∷ [];
  body = nothing;
  buffer = data_in;
  parser_state = p_begin;
  version = hc_http10;
  method = hc_http_get;
  keep_alive = false;
}

-- What a node of the pool may hold.
abbrev stale : HttpHeader
stale = record { field = record { pos = 7; len = 7 }; value = record { pos = 9; len = 9 } }

begin-field : p_begin ≢ p_head_field
begin-field e = cc

abbrev first_page : Page
first_page = record { addr = 64; bytes = 47 ∷ 97 ∷ 47 ∷ 98 ∷ 72 ∷ 111 ∷ 115 ∷ 84 ∷ [] }

abbrev second_page : List Page
second_page = record { addr = 128; bytes = 58 ∷ 32 ∷ 120 ∷ 0 ∷ 0 ∷ 0 ∷ 0 ∷ 0 ∷ [] } ∷ []

-- The name in the pieces `Hos` and `T`, the value in the pieces `/` and `a`.
on_header_value-on_header_field_example :
    (h : HttpHeader) × ((feed_some (on_header_field stale) request ((68, 3) ∷ (71, 1) ∷ []) >>= λ r.
    feed_some on_header_value r ((64, 1) ∷ (65, 1) ∷ []))
      ≡ some (record request { parser_state = p_head_value; headers = host_header ∷ h ∷ [] }))
    × (slice h.field.pos h.field.len (flat data_in.pages) ≡ 72 ∷ 111 ∷ 115 ∷ 84 ∷ [])
    × (slice h.value.pos h.value.len (flat data_in.pages) ≡ 47 ∷ 97 ∷ [])
on_header_value-on_header_field_example =
    on_header_value-on_header_field stale request first_page second_page 68 3 ((71, 1) ∷ []) 64 1
      ((65, 1) ∷ []) data_in-IsValid refl (omega arith) (omega arith)
      (record {
        begins_in = omega arith;
        not_behind = omega arith;
        ends_in = omega arith;
        adjacent = (refl, tt);
      })
      (record {
        begins_in = omega arith;
        not_behind = omega arith;
        ends_in = omega arith;
        adjacent = (refl, tt);
      })
      begin-field

get_http_header_lem_example :
    get_http_header (host_header ∷ []) data_in (72 ∷ 111 ∷ 115 ∷ 116 ∷ [])
    ≡ some (some (record { pos = 10; len = 1 }))
get_http_header_lem_example =
    get_http_header_lem (host_header ∷ []) (72 ∷ 111 ∷ 115 ∷ 116 ∷ []) data_in-IsValid (omega arith)
      ((omega arith, omega arith), tt)

path_equal_lem_example :
    (answer : Bool) × (httpctx_path_equal request (47 ∷ 97 ∷ 47 ∷ 98 ∷ 47 ∷ []) ≡ some answer)
    × ((answer ≡ true) ↔ (path_bytes request ≡ without_slash (47 ∷ 97 ∷ 47 ∷ 98 ∷ 47 ∷ [])))
path_equal_lem_example =
    path_equal_lem request (47 ∷ 97 ∷ 47 ∷ 98 ∷ 47 ∷ []) data_in-IsValid (omega arith) (omega arith)
      (omega arith)

abbrev response : Response
response = record {
  status = 200;
  keep_alive = true;
  content_length = 0;
  body_type = hc_body_memory;
  content_type = nothing;
  headers = [];
  body = nothing;
  buffer = data_in;
}

add_header_lem_example :
    (res' : Response) × (h : HttpHeader) × (httpctx_add_header zeroed response
        (65 ∷ [])
        (66 ∷ 67 ∷ [])
      ≡ some res')
    × IsValid res'.buffer
    × (res'.headers ≡ [] ++ h ∷ [])
    × (bytes_of res'.buffer h.field ≡ 65 ∷ [])
    × (bytes_of res'.buffer h.value ≡ 66 ∷ 67 ∷ [])
    × ((v : HttpValue) → v.pos + v.len ≤ 11 → bytes_of res'.buffer v ≡ bytes_of data_in v)
add_header_lem_example =
    add_header_lem zeroed response (65 ∷ []) (66 ∷ 67 ∷ []) data_in-IsValid (omega arith)

abbrev texts : List (List ℕ)
texts = (1 ∷ 2 ∷ []) ∷ (3 ∷ []) ∷ []

little : 11 + length (flatten texts) < 2 ^ 31
unfolding flatten
little = omega arith

body_append_lem_example :
    (res' : Response) × (all_appended zeroed (httpctx_body_begin response) texts ≡ some res')
    × IsValid res'.buffer
    × (bytes_of res'.buffer res'.body ≡ flatten texts)
body_append_lem_example = body_append_lem zeroed response texts data_in-IsValid refl little

path_prefix_lem_example :
    httpctx_path_prefix request (47 ∷ 97 ∷ 47 ∷ [])
    ≡ some (extends (without_slash (47 ∷ 97 ∷ 47 ∷ [])) (path_bytes request))
path_prefix_lem_example =
    path_prefix_lem request (47 ∷ 97 ∷ 47 ∷ []) data_in-IsValid (omega arith) (omega arith)
      (omega arith)
