-- ===== src/Connection/Tests.antt =====
-- The theorems on the pools of a server at a concrete run.
use fast_http.Prelude.{◌≡◌, refl, false, some, [], ◌∷◌, arith}
use fast_http.Dynmem.{init}
use fast_http.Pool.{pool_malloc, pool_get}
use fast_http.Pool.Held.{held, elem}
use fast_http.Connection.{
  HttpctxPool, Context, zero_context, httpctx_pool_malloc, httpctx_init, httpctx_pool_get,
  on_new_connection, new_req_header,
}
use fast_http.Connection.Calls.{started}
use fast_http.Connection.Steps.{Server, Owned, connected, req_header, created, stepped, Runs}
use fast_http.Connection.Lifecycle.{Runs-Owned, close_all, close_all-returns}

abbrev pools : HttpctxPool
pools = httpctx_pool_malloc 400 1 24 5000 1 600

abbrev pools_connected : HttpctxPool
pools_connected = record pools { ctx_pool = (pool_get pools.ctx_pool 90000).0 }

abbrev context : Context
context = started (zero_context (pool_get pools.ctx_pool 90000).1)

connects : on_new_connection pools false 90000 ≡ some (pools_connected, some context)
unfolding on_new_connection httpctx_pool_get httpctx_init init
connects = refl

-- One connection that has received a header.
abbrev serving : Server
serving = record {
  pool = (new_req_header pools_connected context 9100).0;
  contexts = (new_req_header pools_connected context 9100).1 ∷ [];
}

serving-Runs : Runs serving
unfolding httpctx_pool_malloc pool_malloc elem
serving-Runs =
    stepped
      (stepped
        (created 400 1 24 5000 1 600 (omega arith) (omega arith) (omega arith) (omega arith)
          (omega arith) (omega arith))
        (connected pools pools_connected [] context 90000 (record { outside = refl; unused = refl })
          connects))
      (req_header pools_connected [] context [] 9100 (record { outside = refl; unused = refl }))

Runs-Owned_example : Owned serving
Runs-Owned_example = Runs-Owned serving-Runs

close_all-returns_example :
    (held (close_all serving.pool serving.contexts).headers_pool 408 ≡ false)
    × (held (close_all serving.pool serving.contexts).ctx_pool 408 ≡ false)
close_all-returns_example = close_all-returns serving-Runs 408
