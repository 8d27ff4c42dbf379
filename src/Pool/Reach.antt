-- ===== src/Pool/Reach.antt =====
-- The pools that pool.c's operations lead to.
use fast_http.Prelude.{
  ℕ, zero, suc, ◌+◌, ◌-◌, ◌*◌, ◌/◌, ◌%◌, ◌^◌, ◌≤◌, ◌<◌, ◌≡◌, refl, sym, ap, ◌∙◌, Bool, true, false,
  ◌&&◌, List, [], ◌∷◌, ◌++◌, arith, u32, leb, ◌==◌, get_or, inl, inr, Bool-cases, replicate,
  length-replicate,
}
use native.Mathlib.Nat.{mul-le-mul_right}
use fast_http.Prelude.Digits.{digit, digit_zero}
use fast_http.Pool.{Pool, node_size, in_block, pool_malloc, pool_get, pool_put}
use fast_http.Pool.Words.{AllWords}
use fast_http.Pool.Slots.{slot_digit}
use fast_http.Pool.Held.{IsValid, held, elem, Distinct, slot_of, within_slot}
use fast_http.Pool.Change.{held-in_block, held_outside}
use fast_http.Pool.Get.{pool_get_lem}
use fast_http.Pool.Owns.{
  count, count-append, out, Owns, Owns-reorder, Fresh, pool_get-Owns, pool_put-Owns,
}

zeros : (n : ℕ) → AllWords (replicate n 0)
zeros zero = tt
zeros (suc n) = (omega arith, zeros n)

get_or-zeros : (n i : ℕ) → get_or {A = ℕ} (replicate n 0) i 0 ≡ 0
get_or-zeros zero i = refl
get_or-zeros (suc n) zero = refl
get_or-zeros (suc n) (suc i) = get_or-zeros n i

and_false : (b : Bool) → (b && false) ≡ false
and_false true = refl
and_false false = refl

none_held : (p : Pool) (n : ℕ) → p.bits ≡ replicate n 0 → p.head ≡ [] → (q : ℕ) → held p q ≡ false
unfolding elem
none_held p n bits head q = elim (Bool-cases (in_block p q)) [
  | inl inside ↦
      held-in_block p q inside
      ∙ (ap (λ d. within_slot p q == 0 && d == 1)
            (ap (λ b. slot_digit b (slot_of p q)) bits
              ∙ (ap (λ w. digit w (slot_of p q % 32)) (get_or-zeros n (slot_of p q / 32))
                  ∙ digit_zero (slot_of p q % 32)))
          ∙ and_false (within_slot p q == 0))
  | inr outside ↦
      held_outside p q outside
      ∙ (ap (λ l. leb node_size q && elem (q - node_size) l) head ∙ and_false (leb node_size q))
]

-- A new pool is well formed, has room for the objects asked for, and none is given out, if all of them fit
-- a `uint32_t`.
pub pool_malloc_lem :
    (data_at capacity size : ℕ)
    → 0 < size
    → capacity + 31 < 2 ^ 32
    → (capacity + 31) * size < 2 ^ 32
    → IsValid (pool_malloc data_at capacity size)
      × (capacity ≤ (pool_malloc data_at capacity size).capacity)
      × ((q : ℕ) → held (pool_malloc data_at capacity size) q ≡ false)
unfolding pool_malloc Distinct
pool_malloc_lem data_at capacity size sized short fits =
    let n = u32 (capacity + 31) / 2 ^ 5 in
    let count = length-replicate {A = ℕ} n 0 in
    let same : u32 (n * 32) ≡ n * 32 = omega arith in
    let most : u32 (n * 32) * size ≤ (capacity + 31) * size =
      mul-le-mul_right {m = u32 (n * 32)} {n = capacity + 31} size (omega arith) in
    (
      record {
        whole = omega (arith, count);
        fits = omega (arith, most, fits);
        sized = sized;
        words = zeros n;
        last_in = omega arith;
        full = λ i h. absurd (omega arith);
        distinct = tt;
      },
      omega arith,
      none_held (pool_malloc data_at capacity size) n refl refl,
    )

-- The pools that calls lead to, each with the objects that were given out and did not come back, where
-- `malloc` gives nodes that are neither in the block nor in use, and only such an object comes back.
pub data Reachable : Pool → List ℕ → Type 0 where
  created :
      (data_at capacity size : ℕ)
      → 0 < size
      → capacity + 31 < 2 ^ 32
      → (capacity + 31) * size < 2 ^ 32
      → Reachable (pool_malloc data_at capacity size) []
  got :
      (p : Pool) (entry : ℕ) (objects : List ℕ)
      → Reachable p objects
      → Fresh p entry
      → Reachable (pool_get p entry).0 ((pool_get p entry).1 ∷ objects)
  returned :
      (p : Pool) (before : List ℕ) (object : ℕ) (behind : List ℕ)
      → Reachable p (before ++ object ∷ behind)
      → Reachable (pool_put p object) (before ++ behind)

-- Nobody owns an object of a new pool.
pub pool_malloc-Owns :
    (data_at capacity size : ℕ)
    → 0 < size
    → capacity + 31 < 2 ^ 32
    → (capacity + 31) * size < 2 ^ 32
    → Owns (pool_malloc data_at capacity size) []
pool_malloc-Owns data_at capacity size sized short fits =
    let (valid, _, free) = pool_malloc_lem data_at capacity size sized short fits in
    record { valid = valid; exact = λ q. rw (free q) refl }

-- Each object that is in use was given out once, and the pool knows it.
pub Reachable-Owns : {p : Pool} {objects : List ℕ} → Reachable p objects → Owns p objects
Reachable-Owns (created data_at capacity size sized short fits) =
    pool_malloc-Owns data_at capacity size sized short fits
Reachable-Owns (got p entry objects r new) = pool_get-Owns entry objects (Reachable-Owns r) new
Reachable-Owns (returned p before object behind r) = pool_put-Owns object (before ++ behind) (
    Owns-reorder (before ++ object ∷ behind) (object ∷ before ++ behind) (Reachable-Owns r)
      (λ q. omega (arith, count-append q before (object ∷ behind), count-append q before behind)))

-- After any sequence of calls that begins with `pool_malloc` and returns only objects that are in use,
-- where `malloc` gives nodes that are neither in the block nor in use, the object that `pool_get`
-- gives out is none of those that were given out before and did not come back.
pub pool_get-exclusive :
    {p : Pool} {objects : List ℕ} (entry : ℕ)
    → Reachable p objects
    → Fresh p entry
    → count (pool_get p entry).1 objects ≡ 0
pool_get-exclusive {p} {objects} entry r new =
    let o = Reachable-Owns r in
    let w = pool_get_lem entry o.valid new.outside new.unused in
    let free : out p w.object ≡ 0 = rw w.was_free refl in
    ap (λ g. count g.1 objects) w.returns ∙ sym (o.exact w.object) ∙ free
