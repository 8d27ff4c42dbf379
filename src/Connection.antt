-- ===== src/Connection.antt =====
-- httpctx.c, httpctx.h and httpserver.c: how the objects of connections are taken from the two pools of
-- a server and go back to them.
--
-- A list of headers is the list of the addresses of its nodes; HttpContext has what they hold. The
-- parser's own state and the pointers `pool` and `serve_cb`, which never change, are left out. Blocks
-- that go back to `free` are returned as a list of addresses.
pub mod Owns
pub mod Steps
pub mod Calls
pub mod Lifecycle
mod Tests
use fast_http.Prelude.{ℕ, Bool, true, false, Option, none, some, List, [], ◌∷◌, ◌++◌, ◌>>=◌}
use fast_http.Dynmem.{Dynmem, init, clear}
use fast_http.Pool.{Pool, pool_malloc, pool_get, pool_put, pool_free, backwards, remove}

-- `httpctx_pool_t`
pub record HttpctxPool : Type 0 where
  pub headers_pool : Pool
  pub ctx_pool : Pool

-- `httpctx_t`
pub record Context : Type 0 where
  pub addr : ℕ
  pub req_headers : List ℕ
  pub res_headers : List ℕ
  pub req_data : Dynmem
  pub res_data : Dynmem
  pub status : ℕ
  pub write_bufs : Option ℕ

-- `sizeof(http_header_node_t)`, `sizeof(httpctx_t)` and the addresses of both pools are given.
unfoldable pub httpctx_pool_malloc : ℕ → ℕ → ℕ → ℕ → ℕ → ℕ → HttpctxPool
httpctx_pool_malloc headers_at headers_count node_bytes ctx_at ctx_count ctx_bytes = record {
  headers_pool = pool_malloc headers_at headers_count node_bytes;
  ctx_pool = pool_malloc ctx_at ctx_count ctx_bytes;
}

-- What is freed, in order, with the address of the pair of pools.
unfoldable pub httpctx_pool_free : ℕ → HttpctxPool → List ℕ
httpctx_pool_free at self = pool_free self.ctx_pool ++ (pool_free self.headers_pool ++ at ∷ [])

-- The bytes of a context and of a buffer after `memset`.
abbrev pub zero_data : Dynmem
zero_data = record { len = 0; cap = 0; page = 0; pages = [] }

abbrev pub zero_context : ℕ → Context
zero_context addr = record {
  addr = addr;
  req_headers = [];
  res_headers = [];
  req_data = zero_data;
  res_data = zero_data;
  status = 0;
  write_bufs = none;
}

-- `HTTPCTX_PAGE_SIZE`
abbrev pub httpctx_page_size : ℕ
httpctx_page_size = 2048

-- `HTTP_STATUS_OK`
abbrev pub http_status_ok : ℕ
http_status_ok = 200

unfoldable pub httpctx_init : Context → Option Context
httpctx_init pctx = do
  req_data ← init httpctx_page_size
  res_data ← init httpctx_page_size
  some (record pctx {
    req_data = req_data;
    req_headers = [];
    res_data = res_data;
    res_headers = [];
    status = http_status_ok;
  })

unfoldable pub put_all : Pool → List ℕ → Pool
put_all pool [] = pool
put_all pool (pos ∷ rest) = put_all (pool_put pool pos) rest

-- `reset_headers`, from the last node to the first; the list is empty then.
unfoldable pub reset_headers : Pool → List ℕ → Pool
unfolding put_all
reset_headers pool nodes = put_all pool (backwards nodes)

unfoldable pub httpctx_free_data : HttpctxPool → Context → HttpctxPool × Context
unfolding reset_headers
httpctx_free_data pool pctx =
    let first = reset_headers pool.headers_pool pctx.res_headers in
    (
      record pool { headers_pool = reset_headers first pctx.req_headers },
      record pctx {
        res_data = clear pctx.res_data;
        req_data = clear pctx.req_data;
        res_headers = [];
        req_headers = [];
      },
    )

-- `malloc` gives the address `entry` if the block of the pool is full.
unfoldable pub httpctx_pool_get : HttpctxPool → ℕ → Option (HttpctxPool × Context)
unfolding httpctx_init
httpctx_pool_get self entry = do
  let got = pool_get self.ctx_pool entry
  pctx ← httpctx_init (zero_context got.1)
  some (record self { ctx_pool = got.0 }, pctx)

unfoldable pub httpctx_free : HttpctxPool → Context → HttpctxPool
unfolding httpctx_free_data
httpctx_free pool self =
    let freed = (httpctx_free_data pool self).0 in
    record freed { ctx_pool = pool_put freed.ctx_pool self.addr }

-- `memset` reaches over the request and the response, so also over `write_bufs`.
unfoldable pub httpctx_reset : HttpctxPool → Context → Option (HttpctxPool × Context)
unfolding httpctx_free_data httpctx_init
httpctx_reset pool self = do
  let freed = httpctx_free_data pool self
  again ← httpctx_init (zero_context freed.1.addr)
  some (freed.0, again)

-- A node of the list of a request or of a response.
unfoldable pub httpctx_headers_free : HttpctxPool → List ℕ → ℕ → HttpctxPool × List ℕ
httpctx_headers_free pool nodes node =
    (record pool { headers_pool = pool_put pool.headers_pool node }, remove node nodes)

-- The new node of `on_header_field`, at the end of the headers of the request.
unfoldable pub new_req_header : HttpctxPool → Context → ℕ → HttpctxPool × Context
new_req_header pool pctx entry =
    let got = pool_get pool.headers_pool entry in
    (
      record pool { headers_pool = got.0 },
      record pctx { req_headers = pctx.req_headers ++ got.1 ∷ [] },
    )

-- The new node of `httpctx_add_header`, at the end of the headers of the response.
unfoldable pub new_res_header : HttpctxPool → Context → ℕ → HttpctxPool × Context
new_res_header pool pctx entry =
    let got = pool_get pool.headers_pool entry in
    (
      record pool { headers_pool = got.0 },
      record pctx { res_headers = pctx.res_headers ++ got.1 ∷ [] },
    )

-- The block that a pointer names, if it is not NULL.
abbrev pub block_of : Option ℕ → List ℕ
block_of none = []
block_of (some a) = a ∷ []

-- The pools, and what is freed.
unfoldable pub on_closed : HttpctxPool → Context → HttpctxPool × List ℕ
unfolding httpctx_free
on_closed pool handle = (httpctx_free pool handle, block_of handle.write_bufs)

-- The array of pieces, then the context starts again, then the object of the write at `req`.
unfoldable pub on_writed : HttpctxPool → Context → ℕ → Option (HttpctxPool × Context × List ℕ)
unfolding httpctx_reset
on_writed pool pctx req = do
  (pool', again) ← httpctx_reset pool (record pctx { write_bufs = none })
  some (pool', again, block_of pctx.write_bufs ++ req ∷ [])

-- The context of a new connection; with a negative status there is none. A context whose
-- `uv_accept` fails goes to `on_closed` through `uv_close`.
unfoldable pub on_new_connection : HttpctxPool → Bool → ℕ → Option (HttpctxPool × Option Context)
unfolding httpctx_pool_get
on_new_connection pool failed entry =
    let got = httpctx_pool_get pool entry >>= λ (pool', pctx). some (pool', some pctx) in
    elim failed [ true ↦ some (pool, none) | false ↦ got ]
