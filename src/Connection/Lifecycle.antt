-- ===== src/Connection/Lifecycle.antt =====
-- What holds of the pools of a server in every state that its calls lead to.
use fast_http.Prelude.{ℕ, ◌≡◌, false, List, [], ◌∷◌, ◌++◌, arith, Bool-cases, inl, inr}
use fast_http.Pool.{Pool}
use fast_http.Pool.Held.{held}
use fast_http.Pool.Reach.{pool_malloc-Owns}
use fast_http.Connection.{HttpctxPool, Context, httpctx_pool_malloc, on_closed}
use fast_http.Pool.Owns.{out}
use fast_http.Connection.Steps.{
  Server, Owned, Step, connected, closed, writed, req_header, res_header, res_header_freed, Runs,
  created, stepped, first-Owned, back-Owned,
}
use fast_http.Connection.Calls.{
  closed-Owned, writed-Owned, req_header-Owned, res_header-Owned, header_freed-Owned,
  connected-Owned,
}

Step-Owned : {s s' : Server} → Step s s' → Owned s → Owned s'
Step-Owned (connected pool pool' cs c entry f e) o = connected-Owned pool' cs c entry o f e
Step-Owned (closed pool before c after) o =
    closed-Owned c (before ++ after) (first-Owned before c after o)
Step-Owned (writed pool pool' before c c' after req freed e) o =
    back-Owned before c' after
      (writed-Owned c (before ++ after) (first-Owned before c after o) req pool' c' freed e)
Step-Owned (req_header pool before c after entry f) o =
    back-Owned before _ after
      (req_header-Owned c (before ++ after) (first-Owned before c after o) entry f)
Step-Owned (res_header pool before c after entry f) o =
    back-Owned before _ after
      (res_header-Owned c (before ++ after) (first-Owned before c after o) entry f)
Step-Owned (res_header_freed pool before c after node inside) o =
    back-Owned before _ after
      (header_freed-Owned c (before ++ after) (first-Owned before c after o) node inside)

-- In every state that calls lead to, in any order and with nodes of `malloc` that are not in use, both
-- pools are well formed, a node of headers is given out exactly if it stands in a list of one
-- connection, and then in one place only, and a context is given out exactly if it is that of one
-- open connection.
pub Runs-Owned : {s : Server} → Runs s → Owned s
unfolding httpctx_pool_malloc
Runs-Owned (created headers_at headers_count node_bytes ctx_at ctx_count ctx_bytes a b c d e f) =
    record {
      nodes = pool_malloc-Owns headers_at headers_count node_bytes a b c;
      contexts = pool_malloc-Owns ctx_at ctx_count ctx_bytes d e f;
    }
Runs-Owned (stepped r step) = Step-Owned step (Runs-Owned r)

-- `on_closed` for each connection.
pub close_all : HttpctxPool → List Context → HttpctxPool
close_all pool [] = pool
close_all pool (c ∷ cs) = close_all (on_closed pool c).0 cs

closing :
    (pool : HttpctxPool) (cs : List Context)
    → Owned (record { pool = pool; contexts = cs })
    → Owned (record { pool = close_all pool cs; contexts = [] })
unfolding close_all
closing pool [] o = o
closing pool (c ∷ cs) o = closing (on_closed pool c).0 cs (closed-Owned c cs o)

nothing_out : (p : Pool) (q : ℕ) → out p q ≡ 0 → held p q ≡ false
nothing_out p q e = elim (Bool-cases (held p q)) [
  | inl on ↦ let bad : 1 ≡ 0 = rw on at e in absurd (omega (arith, bad))
  | inr off ↦ off
]

-- From every state that calls lead to, when all open connections are closed no object of the two pools
-- is given out: every node of headers and every context has come back.
pub close_all-returns :
    {s : Server}
    → Runs s
    → (q : ℕ)
    → (held (close_all s.pool s.contexts).headers_pool q ≡ false)
      × (held (close_all s.pool s.contexts).ctx_pool q ≡ false)
close_all-returns {s} r q =
    let o = closing s.pool s.contexts (Runs-Owned r) in
    (nothing_out _ q (o.nodes.exact q), nothing_out _ q (o.contexts.exact q))
