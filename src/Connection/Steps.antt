-- ===== src/Connection/Steps.antt =====
-- The steps of a server that take objects from its pools or give them back, in any order that libuv
-- calls them, and who owns the objects.
use fast_http.Prelude.{
  ℕ, ◌+◌, ◌*◌, ◌^◌, ◌<◌, ◌≡◌, sym, true, false, some, List, [], ◌∷◌, ◌++◌, arith,
}
use fast_http.Pool.Held.{elem}
use fast_http.Connection.{
  HttpctxPool, Context, httpctx_pool_malloc, httpctx_headers_free, new_req_header, new_res_header,
  on_closed, on_writed, on_new_connection,
}
use fast_http.Pool.Owns.{count, count-append, Owns, Owns-reorder, Fresh}

-- `http_server_t` and the contexts of its open connections.
pub record Server : Type 0 where
  pub pool : HttpctxPool
  pub contexts : List Context

-- All nodes of headers and all contexts.
abbrev pub header_nodes : List Context → List ℕ
header_nodes [] = []
header_nodes (c ∷ cs) = (c.res_headers ++ c.req_headers) ++ header_nodes cs

abbrev pub addrs : List Context → List ℕ
addrs [] = []
addrs (c ∷ cs) = c.addr ∷ addrs cs

-- Each object that a pool has given out belongs to one place of one connection, and each connection's
-- objects are given out.
pub record Owned (s : Server) : Type 0 where
  pub nodes : Owns s.pool.headers_pool (header_nodes s.contexts)
  pub contexts : Owns s.pool.ctx_pool (addrs s.contexts)

-- One call: `before ++ c ∷ after` are the connections, and it is about `c`.
pub data Step : Server → Server → Type 0 where
  connected :
      (pool pool' : HttpctxPool) (cs : List Context) (c : Context) (entry : ℕ)
      → Fresh pool.ctx_pool entry
      → on_new_connection pool false entry ≡ some (pool', some c)
      → Step (record { pool = pool; contexts = cs }) (record { pool = pool'; contexts = c ∷ cs })
  closed :
      (pool : HttpctxPool) (before : List Context) (c : Context) (after : List Context)
      → Step
          (record { pool = pool; contexts = before ++ c ∷ after })
          (record { pool = (on_closed pool c).0; contexts = before ++ after })
  writed :
      (pool pool' : HttpctxPool) (before : List Context) (c c' : Context) (after : List Context)
      (req : ℕ) (freed : List ℕ)
      → on_writed pool c req ≡ some (pool', c', freed)
      → Step
          (record { pool = pool; contexts = before ++ c ∷ after })
          (record { pool = pool'; contexts = before ++ c' ∷ after })
  req_header :
      (pool : HttpctxPool) (before : List Context) (c : Context) (after : List Context) (entry : ℕ)
      → Fresh pool.headers_pool entry
      → Step
          (record { pool = pool; contexts = before ++ c ∷ after })
          (record {
            pool = (new_req_header pool c entry).0;
            contexts = before ++ (new_req_header pool c entry).1 ∷ after;
          })
  res_header :
      (pool : HttpctxPool) (before : List Context) (c : Context) (after : List Context) (entry : ℕ)
      → Fresh pool.headers_pool entry
      → Step
          (record { pool = pool; contexts = before ++ c ∷ after })
          (record {
            pool = (new_res_header pool c entry).0;
            contexts = before ++ (new_res_header pool c entry).1 ∷ after;
          })
  res_header_freed :
      (pool : HttpctxPool) (before : List Context) (c : Context) (after : List Context) (node : ℕ)
      → elem node c.res_headers ≡ true
      → Step
          (record { pool = pool; contexts = before ++ c ∷ after })
          (record {
            pool = (httpctx_headers_free pool c.res_headers node).0;
            contexts =
                before
                ++ record c { res_headers = (httpctx_headers_free pool c.res_headers node).1 }
                  ∷ after;
          })

-- The servers that `httpctx_pool_malloc` and calls lead to.
pub data Runs : Server → Type 0 where
  created :
      (headers_at headers_count node_bytes ctx_at ctx_count ctx_bytes : ℕ)
      → 0 < node_bytes
      → headers_count + 31 < 2 ^ 32
      → (headers_count + 31) * node_bytes < 2 ^ 32
      → 0 < ctx_bytes
      → ctx_count + 31 < 2 ^ 32
      → (ctx_count + 31) * ctx_bytes < 2 ^ 32
      → Runs (record {
        pool = httpctx_pool_malloc headers_at headers_count node_bytes ctx_at ctx_count ctx_bytes;
        contexts = [];
      })
  stepped : {s s' : Server} → Runs s → Step s s' → Runs s'

count-header_nodes :
    (q : ℕ) (before cs : List Context)
    → count q (header_nodes (before ++ cs))
      ≡ count q (header_nodes before) + count q (header_nodes cs)
count-header_nodes q [] cs = omega arith
count-header_nodes q (b ∷ before) cs =
    let here = b.res_headers ++ b.req_headers in
    omega (
      arith,
      count-append q here (header_nodes (before ++ cs)),
      count-append q here (header_nodes before),
      count-header_nodes q before cs,
    )

count-addrs :
    (q : ℕ) (before cs : List Context)
    → count q (addrs (before ++ cs)) ≡ count q (addrs before) + count q (addrs cs)
count-addrs q [] cs = omega arith
count-addrs q (b ∷ before) cs = omega (arith, count-addrs q before cs)

nodes_moved :
    (q : ℕ) (before : List Context) (c : Context) (after : List Context)
    → count q (header_nodes (before ++ c ∷ after)) ≡ count q (header_nodes (c ∷ (before ++ after)))
nodes_moved q before c after =
    let here = c.res_headers ++ c.req_headers in
    omega (
      arith,
      count-header_nodes q before (c ∷ after),
      count-header_nodes q before after,
      count-append q here (header_nodes (before ++ after)),
      count-append q here (header_nodes after),
    )

addrs_moved :
    (q : ℕ) (before : List Context) (c : Context) (after : List Context)
    → count q (addrs (before ++ c ∷ after)) ≡ count q (addrs (c ∷ (before ++ after)))
addrs_moved q before c after =
    omega (arith, count-addrs q before (c ∷ after), count-addrs q before after)

-- The connection that a call is about can be put first, and back.
module _ {pool : HttpctxPool} (before : List Context) (c : Context) (after : List Context) where
  pub first-Owned :
      Owned (record { pool = pool; contexts = before ++ c ∷ after })
      → Owned (record { pool = pool; contexts = c ∷ (before ++ after) })
  first-Owned o = record {
    nodes = Owns-reorder _ _ o.nodes (λ q. sym (nodes_moved q before c after));
    contexts = Owns-reorder _ _ o.contexts (λ q. sym (addrs_moved q before c after));
  }

  pub back-Owned :
      Owned (record { pool = pool; contexts = c ∷ (before ++ after) })
      → Owned (record { pool = pool; contexts = before ++ c ∷ after })
  back-Owned o = record {
    nodes = Owns-reorder _ _ o.nodes (λ q. nodes_moved q before c after);
    contexts = Owns-reorder _ _ o.contexts (λ q. addrs_moved q before c after);
  }
