-- ===== src/HttpContext/Response.antt =====
-- The inline functions of httpctx.h that fill a response.
pub mod Stored
use fast_http.Prelude.{
  ℕ, Bool, ◌+◌, ◌-◌, ◌^◌, ◌≤◌, ◌<◌, ◌≡◌, refl, sym, ap, ap₂, ◌∙◌, Option, none, some, List, [], ◌∷◌,
  ◌++◌, arith, u32, ◌>>=◌, length, take, drop, slice, take-all, take-append_ge, drop-append_ge,
  append-nil, append_assoc, length-take,
}
use fast_http.Dynmem.{Dynmem, Malloc}
use fast_http.Dynmem.Foreach.{append}
use fast_http.Dynmem.Walk.{flat}
use fast_http.Dynmem.Sizes.{IsValid, contents}
use fast_http.Dynmem.Sizes.Growth.{length-flat-pages}
use fast_http.Dynmem.Bytes.Write.{append_lem}
use fast_http.HttpContext.{HttpValue, HttpHeader}

-- `hc_body_type_t`
pub data BodyType : Type 0 where
  hc_body_memory : BodyType
  hc_body_callback : BodyType

-- `httpres_t` without `write_bufs`; `buffer` is its field `data`. The union of `body` and a callback
-- is `body`, which is all that the code reads.
pub record Response : Type 0 where
  pub status : ℕ
  pub keep_alive : Bool
  pub content_length : ℕ
  pub body_type : BodyType
  pub content_type : HttpValue
  pub headers : List HttpHeader
  pub body : HttpValue
  pub buffer : Dynmem

unfoldable pub httpctx_body_begin : Response → Response
httpctx_body_begin res = record res { body = record res.body { pos = res.buffer.len } }

module _ (mem : Malloc) where
  -- `pos = dynmem_len(buf); len = dynmem_append(buf, src, len)`
  unfoldable pub append_value : Dynmem → List ℕ → ℕ → Option (HttpValue × Dynmem)
  append_value buf src len = do
    (n, buf') ← append mem buf src len
    some (record { pos = buf.len; len = n }, buf')

  -- A `str_t` knows its length.
  unfoldable pub httpctx_set_content_type : Response → List ℕ → Option Response
  httpctx_set_content_type res value = do
    (v, buf) ← append_value res.buffer value (length value)
    some (record res { content_type = v; buffer = buf })

  unfoldable pub httpctx_add_header : Response → List ℕ → List ℕ → Option Response
  httpctx_add_header res field value = do
    (f, buf) ← append_value res.buffer field (length field)
    (v, buf') ← append_value buf value (length value)
    some (record res {
      headers = res.headers ++ record { field = f; value = v } ∷ [];
      buffer = buf';
    })

  unfoldable pub httpctx_set_body : Response → List ℕ → ℕ → Option Response
  httpctx_set_body res src len = do
    (v, buf) ← append_value res.buffer src len
    some (record res { body = v; buffer = buf })

  unfoldable pub httpctx_body_append : Response → List ℕ → ℕ → Option Response
  httpctx_body_append res src len = do
    (n, buf) ← append mem res.buffer src len
    some (record res { body = record res.body { len = u32 (res.body.len + n) }; buffer = buf })

-- What a value says of a buffer.
abbrev pub bytes_of : Dynmem → HttpValue → List ℕ
bytes_of buf v = slice v.pos v.len (contents buf)
