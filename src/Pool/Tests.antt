-- ===== src/Pool/Tests.antt =====
-- The theorems on pool.c at concrete pools.
use fast_http.Prelude.{◌≡◌, refl, [], ◌∷◌, arith}
use fast_http.Pool.{
  Pool, pool_malloc, pool_get, pool_put, pool_free, backwards, find_free, free_bit,
}
use fast_http.Pool.Held.{IsValid, held, elem, Distinct}
use fast_http.Pool.Get.{Gets, pool_get_lem}
use fast_http.Pool.Put.{Puts, pool_put_lem}
use fast_http.Pool.Owns.{count}
use fast_http.Pool.Reach.{Reachable, created, got, returned, pool_get-exclusive}

-- The second object of 10 bytes is free, and one node is in use.
abbrev some_out : Pool
some_out = record {
  capacity = 32;
  size = 10;
  last = 0;
  head = 9000 ∷ [];
  data_at = 400;
  bits = 5 ∷ [];
}

some_out-IsValid : IsValid some_out
unfolding Distinct elem
some_out-IsValid = record {
  whole = refl;
  fits = omega arith;
  sized = omega arith;
  words = (omega arith, tt);
  last_in = omega arith;
  full = λ i h. absurd (omega arith);
  distinct = (refl, tt);
}

pool_get_lem_example : Gets some_out (pool_get some_out 9100)
unfolding elem
pool_get_lem_example = pool_get_lem 9100 some_out-IsValid refl refl

pool_put_lem_example : Puts some_out 9016 (pool_put some_out 9016)
unfolding held elem
pool_put_lem_example = pool_put_lem 9016 some_out-IsValid refl

-- A pool that gave out two objects and got the second one back.
abbrev fresh : Pool
fresh = pool_malloc 400 1 10

abbrev two_out : Pool
two_out = (pool_get (pool_get fresh 9100).0 9100).0

abbrev one_back : Pool
one_back = pool_put two_out (pool_get (pool_get fresh 9100).0 9100).1

one_back-Reachable : Reachable one_back ((pool_get fresh 9100).1 ∷ [])
unfolding elem pool_malloc pool_get find_free free_bit
one_back-Reachable =
    let none_out = created 400 1 10 (omega arith) (omega arith) (omega arith) in
    let first = got fresh 9100 [] none_out (record { outside = refl; unused = refl }) in
    let second =
      got (pool_get fresh 9100).0 9100 _ first (record { outside = refl; unused = refl }) in
    returned two_out [] _ ((pool_get fresh 9100).1 ∷ []) second

pool_get-exclusive_example : count (pool_get one_back 9100).1 ((pool_get fresh 9100).1 ∷ []) ≡ 0
unfolding elem pool_malloc pool_put pool_get find_free free_bit
pool_get-exclusive_example =
    pool_get-exclusive 9100 one_back-Reachable (record { outside = refl; unused = refl })

freed : pool_free (record some_out { head = 9000 ∷ 9100 ∷ [] }) ≡ 9100 ∷ 9000 ∷ 368 ∷ []
unfolding pool_free backwards
freed = refl
