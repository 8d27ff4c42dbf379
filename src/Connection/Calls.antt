-- ===== src/Connection/Calls.antt =====
-- Who owns the objects of the pools after each call, for the first connection of a server.
use fast_http.Prelude.{
  ℕ, ◌≡◌, refl, sym, ap, ◌∙◌, true, false, Option, some, List, [], ◌∷◌, ◌++◌, append_assoc, arith,
  ◌>>=◌, subst,
}
use fast_http.Dynmem.{Dynmem, init}
use fast_http.Pool.{pool_get, remove}
use fast_http.Pool.Held.{elem}
use fast_http.Connection.{
  HttpctxPool, Context, zero_context, httpctx_init, httpctx_page_size, httpctx_free_data,
  httpctx_pool_get, httpctx_free, httpctx_reset, httpctx_headers_free, new_req_header,
  new_res_header, on_closed, on_writed, on_new_connection, http_status_ok, block_of,
}
use fast_http.Pool.Owns.{
  count, count-append, Owns, Owns-reorder, Fresh, pool_get-Owns, pool_put-Owns,
}
use fast_http.Connection.Owns.{reset_headers-Owns}
use fast_http.Connection.Steps.{Owned, header_nodes, addrs}

-- `httpctx_init` never fails, and leaves a context without headers.
abbrev empty_data : Dynmem
empty_data = record { len = 0; cap = 0; page = 2048; pages = [] }

abbrev pub started : Context → Context
started c = record c {
  req_data = empty_data;
  req_headers = [];
  res_data = empty_data;
  res_headers = [];
  status = http_status_ok;
}

init-returns : init httpctx_page_size ≡ some empty_data
unfolding init
init-returns = refl

httpctx_init-returns : (c : Context) → httpctx_init c ≡ some (started c)
unfolding httpctx_init
httpctx_init-returns c = rw init-returns refl

unsome : {A : Type 0} {x y : A} → ◌≡◌ {A = Option A} (some x) (some y) → x ≡ y
unsome h = cc

-- A node that is in the list is taken out once.
count-remove :
    (q node : ℕ) (nodes : List ℕ)
    → elem node nodes ≡ true
    → count q (node ∷ remove node nodes) ≡ count q nodes
unfolding elem remove
count-remove q node [] inside = absurd (cc inside)
count-remove q node (x ∷ nodes) inside = ground (arith, count-remove q node nodes)

module _ {pool : HttpctxPool} (c : Context) (cs : List Context)
    (o : Owned (record { pool = pool; contexts = c ∷ cs })) where
  -- The nodes of both lists go back.
  free_data-Owns :
      Owns (httpctx_free_data pool c).0.headers_pool (header_nodes cs)
      × Owns (httpctx_free_data pool c).0.ctx_pool (c.addr ∷ addrs cs)
  unfolding httpctx_free_data
  free_data-Owns = (
    reset_headers-Owns c.req_headers (header_nodes cs) (
        reset_headers-Owns c.res_headers (c.req_headers ++ header_nodes cs) (
          subst (Owns pool.headers_pool)
            (append_assoc c.res_headers c.req_headers (header_nodes cs)) o.nodes)),
    o.contexts,
  )

  pub closed-Owned : Owned (record { pool = (on_closed pool c).0; contexts = cs })
  unfolding on_closed httpctx_free
  closed-Owned = record {
    nodes = free_data-Owns.0;
    contexts = pool_put-Owns c.addr (addrs cs) free_data-Owns.1;
  }

  pub reset-Owned :
      (pool' : HttpctxPool) (c' : Context)
      → httpctx_reset pool c ≡ some (pool', c')
      → Owned (record { pool = pool'; contexts = c' ∷ cs })
  unfolding httpctx_reset httpctx_free_data
  reset-Owned pool' c' e =
      subst (λ (r : HttpctxPool × Context). Owned (record { pool = r.0; contexts = r.1 ∷ cs }))
        (unsome (
          ap (λ i. i >>= λ again. some ((httpctx_free_data pool c).0, again))
            (sym (httpctx_init-returns (zero_context c.addr)))
          ∙ e))
        (record { nodes = free_data-Owns.0; contexts = free_data-Owns.1 })

  pub writed-Owned :
      (req : ℕ) (pool' : HttpctxPool) (c' : Context) (freed : List ℕ)
      → on_writed pool c req ≡ some (pool', c', freed)
      → Owned (record { pool = pool'; contexts = c' ∷ cs })
  unfolding on_writed httpctx_reset httpctx_free_data
  writed-Owned req pool' c' freed e =
      subst
        (λ (r : HttpctxPool × Context × List ℕ). Owned (record { pool = r.0; contexts = r.1 ∷ cs }))
        (unsome (
          ap
            (λ i. (i >>= λ again. some ((httpctx_free_data pool c).0, again)) >>= λ (p, again).
              some (p, again, block_of c.write_bufs ++ req ∷ []))
            (sym (httpctx_init-returns (zero_context c.addr)))
          ∙ e))
        (record { nodes = free_data-Owns.0; contexts = free_data-Owns.1 })

  pub req_header-Owned :
      (entry : ℕ)
      → Fresh pool.headers_pool entry
      → Owned (record {
        pool = (new_req_header pool c entry).0;
        contexts = (new_req_header pool c entry).1 ∷ cs;
      })
  unfolding new_req_header
  req_header-Owned entry f =
      let node = (pool_get pool.headers_pool entry).1 in
      record {
        nodes = Owns-reorder _ _ (pool_get-Owns entry _ o.nodes f) (λ q. omega (
          arith,
          count-append q (c.res_headers ++ (c.req_headers ++ node ∷ [])) (header_nodes cs),
          count-append q c.res_headers (c.req_headers ++ node ∷ []),
          count-append q c.req_headers (node ∷ []),
          count-append q (c.res_headers ++ c.req_headers) (header_nodes cs),
          count-append q c.res_headers c.req_headers,
        ));
        contexts = o.contexts;
      }

  pub res_header-Owned :
      (entry : ℕ)
      → Fresh pool.headers_pool entry
      → Owned (record {
        pool = (new_res_header pool c entry).0;
        contexts = (new_res_header pool c entry).1 ∷ cs;
      })
  unfolding new_res_header
  res_header-Owned entry f =
      let node = (pool_get pool.headers_pool entry).1 in
      record {
        nodes = Owns-reorder _ _ (pool_get-Owns entry _ o.nodes f) (λ q. omega (
          arith,
          count-append q ((c.res_headers ++ node ∷ []) ++ c.req_headers) (header_nodes cs),
          count-append q (c.res_headers ++ node ∷ []) c.req_headers,
          count-append q c.res_headers (node ∷ []),
          count-append q (c.res_headers ++ c.req_headers) (header_nodes cs),
          count-append q c.res_headers c.req_headers,
        ));
        contexts = o.contexts;
      }

  pub header_freed-Owned :
      (node : ℕ)
      → elem node c.res_headers ≡ true
      → Owned (record {
        pool = (httpctx_headers_free pool c.res_headers node).0;
        contexts = record c { res_headers = (httpctx_headers_free pool c.res_headers node).1 } ∷ cs;
      })
  unfolding httpctx_headers_free
  header_freed-Owned node inside = record {
    nodes = pool_put-Owns node _ (
        Owns-reorder _ _ o.nodes (λ q. omega (
          arith,
          count-append q (remove node c.res_headers ++ c.req_headers) (header_nodes cs),
          count-append q (remove node c.res_headers) c.req_headers,
          count-append q (c.res_headers ++ c.req_headers) (header_nodes cs),
          count-append q c.res_headers c.req_headers,
          count-remove q node c.res_headers inside,
        )));
    contexts = o.contexts;
  }

-- The new context is nobody's yet.
pub connected-Owned :
    {pool : HttpctxPool} (pool' : HttpctxPool) (cs : List Context) (c : Context) (entry : ℕ)
    → Owned (record { pool = pool; contexts = cs })
    → Fresh pool.ctx_pool entry
    → on_new_connection pool false entry ≡ some (pool', some c)
    → Owned (record { pool = pool'; contexts = c ∷ cs })
unfolding on_new_connection httpctx_pool_get
connected-Owned {pool} pool' cs c entry o f e =
    let got = pool_get pool.ctx_pool entry in
    subst
      (λ (r : HttpctxPool × Option Context).
        (x : Context) → r.1 ≡ some x → Owned (record { pool = r.0; contexts = x ∷ cs }))
      (unsome (
        ap
          (λ i. (i >>= λ pctx. some (record pool { ctx_pool = got.0 }, pctx)) >>= λ (p, pctx).
            some (p, Option.some pctx))
          (sym (httpctx_init-returns (zero_context got.1)))
        ∙ e))
      (λ x same.
        subst
          (λ (y : Context).
            Owned (record { pool = record pool { ctx_pool = got.0 }; contexts = y ∷ cs }))
          (unsome same)
          (record { nodes = o.nodes; contexts = pool_get-Owns entry (addrs cs) o.contexts f }))
      c refl
