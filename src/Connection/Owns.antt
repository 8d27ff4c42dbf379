-- ===== src/Connection/Owns.antt =====
-- The nodes of a header list that go back to their pool, and the objects of it that stay in use.
use fast_http.Prelude.{ℕ, List, [], ◌∷◌, ◌++◌, arith}
use fast_http.Pool.{Pool, pool_put, backwards}
use fast_http.Pool.Owns.{count-append, count-backwards, Owns, Owns-reorder, pool_put-Owns}
use fast_http.Connection.{put_all, reset_headers}

put_all-Owns :
    {p : Pool} (nodes objects : List ℕ) → Owns p (nodes ++ objects) → Owns (put_all p nodes) objects
unfolding put_all
put_all-Owns {p} [] objects o = o
put_all-Owns {p} (x ∷ nodes) objects o =
    put_all-Owns {p = pool_put p x} nodes objects (pool_put-Owns x (nodes ++ objects) o)

-- All nodes of a list go back.
pub reset_headers-Owns :
    {p : Pool} (nodes objects : List ℕ)
    → Owns p (nodes ++ objects)
    → Owns (reset_headers p nodes) objects
unfolding reset_headers
reset_headers-Owns nodes objects o = put_all-Owns (backwards nodes) objects (
    Owns-reorder (nodes ++ objects) (backwards nodes ++ objects) o (λ q. omega (
      arith,
      count-append q nodes objects,
      count-append q (backwards nodes) objects,
      count-backwards q nodes,
    )))
