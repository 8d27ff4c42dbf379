-- ===== src/Pool/Nodes.antt =====
-- The list of the objects outside of the block.
use fast_http.Prelude.{
  ℕ, ◌≡◌, ◌≢◌, refl, sym, ap, ◌∙◌, Bool, true, false, ◌||◌, List, [], ◌∷◌, ◌++◌, arith, ◌==◌,
  ℕ_discrete,
}
use fast_http.Pool.{remove}
use fast_http.Pool.Held.{elem, Distinct}

equal_self : (x : ℕ) → (x == x) ≡ true
equal_self x = ground arith

unequal : (x y : ℕ) → x ≢ y → (x == y) ≡ false
unequal x y h = ground arith

differ : (x y : ℕ) → (x == y) ≡ false → x ≢ y
differ x y h e = absurd (ground (arith, h, e))

pub elem-added : (x : ℕ) (xs : List ℕ) → elem x (xs ++ x ∷ []) ≡ true
unfolding elem
elem-added x [] = rw (equal_self x) refl
elem-added x (y ∷ ys) = rw (elem-added x ys) (or_true (y == x))
  where
    or_true : (b : Bool) → (b || true) ≡ true
    or_true true = refl
    or_true false = refl

pub elem-added_other : (x y : ℕ) (xs : List ℕ) → y ≢ x → elem y (xs ++ x ∷ []) ≡ elem y xs
unfolding elem
elem-added_other x y [] h = rw (unequal x y (λ e. h (sym e))) refl
elem-added_other x y (z ∷ zs) h = ap (λ b. z == y || b) (elem-added_other x y zs h)

pub Distinct-added :
    (x : ℕ) (xs : List ℕ) → Distinct xs → elem x xs ≡ false → Distinct (xs ++ x ∷ [])
unfolding Distinct elem
Distinct-added x [] d h = (refl, tt)
Distinct-added x (y ∷ ys) (a, d) h = (
  elem-added_other x y ys (differ y x (not_first (y == x) h)) ∙ a,
  Distinct-added x ys d (not_later (y == x) h),
)
  where
    not_first : (b : Bool) → (b || elem x ys) ≡ false → b ≡ false
    not_first true h = cc
    not_first false h = refl

    not_later : (b : Bool) → (b || elem x ys) ≡ false → elem x ys ≡ false
    not_later true h = cc
    not_later false h = h

pub elem-remove_other : (x y : ℕ) (xs : List ℕ) → y ≢ x → elem y (remove x xs) ≡ elem y xs
unfolding elem remove
elem-remove_other x y [] h = refl
elem-remove_other x y (z ∷ zs) h = elim (ℕ_discrete z x) [
  | yes here ↦
      let test : (z == x) ≡ true = ground arith in
      let other : (z == y) ≡ false = ground arith in rw (test, other) refl
  | no there ↦
      let test : (z == x) ≡ false = ground arith in
      rw test (ap (λ b. z == y || b) (elem-remove_other x y zs h))
]

pub elem-remove : (x : ℕ) (xs : List ℕ) → Distinct xs → elem x (remove x xs) ≡ false
unfolding elem remove Distinct
elem-remove x [] d = refl
elem-remove x (z ∷ zs) (a, d) = elim (ℕ_discrete z x) [
  | yes here ↦
      let test : (z == x) ≡ true = ground arith in rw test (ap (λ k. elem k zs) (sym here) ∙ a)
  | no there ↦ let test : (z == x) ≡ false = ground arith in rw test (rw test (elem-remove x zs d))
]

pub Distinct-remove : (x : ℕ) (xs : List ℕ) → Distinct xs → Distinct (remove x xs)
unfolding elem remove Distinct
Distinct-remove x [] d = d
Distinct-remove x (z ∷ zs) (a, d) = elim (ℕ_discrete z x) [
  | yes here ↦ let test : (z == x) ≡ true = ground arith in rw test d
  | no there ↦
      let test : (z == x) ≡ false = ground arith in
      rw test (elem-remove_other x z zs there ∙ a, Distinct-remove x zs d)
]
