-- ===== src/Pool/Held.antt =====
-- Which objects of a pool are given out, and the well-formed pools.
use fast_http.Prelude.{
  ℕ, ◌+◌, ◌-◌, ◌*◌, ◌/◌, ◌%◌, ◌^◌, ◌≤◌, ◌<◌, ◌≡◌, ap, ◌∙◌, Bool, true, false, ◌&&◌, ◌||◌, List, [],
  ◌∷◌, arith, leb, ◌==◌, if◌then◌else◌, length, get_or,
}
use native.Mathlib.Nat.{
  mod-eq-sub-div-mul, div-mul-le_self, mul-div_cancel, mul-mod_left, mul-le-mul_right, add-mul,
}
use fast_http.Pool.{Pool, node_size, in_block}
use fast_http.Pool.Words.{AllWords}
use fast_http.Pool.Slots.{slot_digit}

unfoldable pub elem : ℕ → List ℕ → Bool
elem x [] = false
elem x (y ∷ ys) = y == x || elem x ys

unfoldable pub Distinct : List ℕ → Type 0
Distinct [] = Unit
Distinct (x ∷ xs) = (elem x xs ≡ false) × Distinct xs

-- Every word has 32 bits, the words before `last` are full, and the sizes fit a `uint32_t`.
pub record IsValid (p : Pool) : Type 0 where
  pub whole : p.capacity ≡ length p.bits * 32
  pub fits : p.capacity * p.size < 2 ^ 32
  pub sized : 0 < p.size
  pub words : AllWords p.bits
  pub last_in : p.last ≤ length p.bits
  pub full : (i : ℕ) → i < p.last → get_or p.bits i 0 ≡ 0xffff_ffff
  pub distinct : Distinct p.head

-- The number of the object of the block at an address, and where in the object that is.
abbrev pub slot_of : Pool → ℕ → ℕ
slot_of p q = (q - (p.data_at + p.capacity / 2 ^ 3)) / p.size

abbrev pub within_slot : Pool → ℕ → ℕ
within_slot p q = (q - (p.data_at + p.capacity / 2 ^ 3)) % p.size

-- Whether an object at this address is given out.
unfoldable pub held : Pool → ℕ → Bool
held p q =
    if in_block p q
    then within_slot p q == 0 && slot_digit p.bits (slot_of p q) == 1
    else leb node_size q && elem (q - node_size) p.head

-- The address of an object of the block.
abbrev pub slot_at : Pool → ℕ → ℕ
slot_at p k = p.data_at + p.capacity / 2 ^ 3 + k * p.size

exact : (n d : ℕ) → n % d ≡ 0 → n ≡ n / d * d
exact n d h = omega (arith, mod-eq-sub-div-mul n d, div-mul-le_self n d, h)

pub record InSlot (p : Pool) (k q : ℕ) : Type 0 where
  pub inside : in_block p q ≡ true
  pub aligned : within_slot p q ≡ 0
  pub number : slot_of p q ≡ k

pub slot_at-InSlot : {p : Pool} (k : ℕ) → IsValid p → k < p.capacity → InSlot p k (slot_at p k)
slot_at-InSlot {p} k v low =
    let base = p.data_at + p.capacity / 2 ^ 3 in
    let rest : base + k * p.size - base ≡ k * p.size = omega arith in
    let below : k * p.size + p.size ≤ p.capacity * p.size = omega (
      arith,
      add-mul k 1 p.size,
      mul-le-mul_right {m = k + 1} {n = p.capacity} p.size (omega arith),
    ) in
    record {
      inside = ground (arith, below, v.fits, v.sized);
      aligned = ap (λ n. n % p.size) rest ∙ mul-mod_left k p.size;
      number = ap (λ n. n / p.size) rest ∙ mul-div_cancel k {n = p.size} v.sized;
    }

-- An object of the block is at one address.
pub same_slot :
    (p : Pool) (q : ℕ) → in_block p q ≡ true → within_slot p q ≡ 0 → q ≡ slot_at p (slot_of p q)
same_slot p q inside aligned =
    omega (arith, exact (q - (p.data_at + p.capacity / 2 ^ 3)) p.size aligned, from p q inside)
  where
    from : (p : Pool) (q : ℕ) → in_block p q ≡ true → p.data_at + p.capacity / 2 ^ 3 ≤ q
    from p q inside = ground arith
