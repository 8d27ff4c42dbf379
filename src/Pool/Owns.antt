-- ===== src/Pool/Owns.antt =====
-- A pool of pool.c and the objects of it that are in use: each one that is given out is owned once.
use fast_http.Prelude.{
  ℕ, ◌+◌, ◌≡◌, ◌≢◌, refl, sym, ◌∙◌, Bool, true, false, List, [], ◌∷◌, ◌++◌, arith, ◌==◌,
  if◌then◌else◌, ℕ_discrete, subst, ◌≤◌,
}
use fast_http.Pool.{Pool, node_size, in_block, pool_get, pool_put, backwards}
use fast_http.Pool.Held.{IsValid, held, elem}
use fast_http.Pool.Get.{pool_get_lem}
use fast_http.Pool.Put.{pool_put_lem}

-- How often an address stands in a list.
abbrev pub count : ℕ → List ℕ → ℕ
count q [] = 0
count q (x ∷ xs) = (if x == q then 1 else 0) + count q xs

pub count-append : (q : ℕ) (xs ys : List ℕ) → count q (xs ++ ys) ≡ count q xs + count q ys
count-append q [] ys = omega arith
count-append q (x ∷ xs) ys = omega (arith, count-append q xs ys)

pub count-backwards : (q : ℕ) (xs : List ℕ) → count q (backwards xs) ≡ count q xs
unfolding backwards
count-backwards q [] = refl
count-backwards q (x ∷ xs) =
    omega (arith, count-append q (backwards xs) (x ∷ []), count-backwards q xs)

-- 1 for an object that is given out.
abbrev pub out : Pool → ℕ → ℕ
out p q = if held p q then 1 else 0

-- The pool is well formed, and the list has each object that is given out once and nothing else.
pub record Owns (p : Pool) (objects : List ℕ) : Type 0 where
  pub valid : IsValid p
  pub exact : (q : ℕ) → out p q ≡ count q objects

-- The order does not matter.
pub Owns-reorder :
    {p : Pool} (xs ys : List ℕ) → Owns p xs → ((q : ℕ) → count q ys ≡ count q xs) → Owns p ys
Owns-reorder xs ys o same = record { valid = o.valid; exact = λ q. o.exact q ∙ sym (same q) }

-- The next node of `malloc` is not in the block and not in use.
pub record Fresh (p : Pool) (entry : ℕ) : Type 0 where
  pub outside : in_block p (entry + node_size) ≡ false
  pub unused : elem entry p.head ≡ false

-- A change of one object.
module _ (p after : Pool) (x : ℕ) (objects : List ℕ)
    (others : (r : ℕ) → r ≢ x → held after r ≡ held p r) where
  out-taken :
      held p x ≡ false
      → held after x ≡ true
      → ((r : ℕ) → out p r ≡ count r objects)
      → (q : ℕ) → out after q ≡ count q (x ∷ objects)
  out-taken free on before q = elim (ℕ_discrete q x) [
    | yes same ↦
        let unused : count x objects ≡ 0 = sym (before x) ∙ rw free refl in
        subst (λ (k : ℕ). out after k ≡ count k (x ∷ objects)) (sym same)
          (rw on (ground (arith, unused)))
    | no other ↦ rw (others q other) (ground (arith, before q))
  ]

  out-returned :
      held after x ≡ false
      → ((r : ℕ) → out p r ≡ count r (x ∷ objects))
      → (q : ℕ) → out after q ≡ count q objects
  out-returned free before q = elim (ℕ_discrete q x) [
    | yes same ↦
        let most : out p x ≤ 1 = ground arith in
        let unused : count x objects ≡ 0 = ground (arith, before x, most) in
        subst (λ (k : ℕ). out after k ≡ count k objects) (sym same) (rw free (sym unused))
    | no other ↦ rw (others q other) (ground (arith, before q))
  ]

-- A pool gives an object that nobody owned.
pub pool_get-Owns :
    {p : Pool} (entry : ℕ) (objects : List ℕ)
    → Owns p objects
    → Fresh p entry
    → Owns (pool_get p entry).0 ((pool_get p entry).1 ∷ objects)
pool_get-Owns {p} entry objects o f =
    let w = pool_get_lem entry o.valid f.outside f.unused in
    let taken : Owns w.after (w.object ∷ objects) = record {
      valid = w.valid;
      exact = out-taken p w.after w.object objects w.others w.was_free w.is_held o.exact;
    } in
    subst (λ (r : Pool × ℕ). Owns r.0 (r.1 ∷ objects)) (sym w.returns) taken

-- An object that goes back is owned no more.
pub pool_put-Owns :
    {p : Pool} (x : ℕ) (objects : List ℕ) → Owns p (x ∷ objects) → Owns (pool_put p x) objects
pool_put-Owns {p} x objects o =
    let given : held p x ≡ true = held_of (held p x) (o.exact x) in
    let w = pool_put_lem x o.valid given in
    record {
      valid = w.valid;
      exact = out-returned p (pool_put p x) x objects w.others w.is_free o.exact;
    }
  where
    held_of : (b : Bool) → (if b then 1 else 0) ≡ count x (x ∷ objects) → b ≡ true
    held_of true e = refl
    held_of false e = absurd (ground (arith, e))
