-- ===== src/Pool/Put.antt =====
-- `pool_put` of pool.c.
use fast_http.Prelude.{
  ℕ, ◌+◌, ◌-◌, ◌/◌, ◌^◌, ◌≤◌, ◌<◌, ◌≡◌, ◌≢◌, refl, sym, ap, subst, ◌∙◌, Bool, true, false, ◌&&◌,
  arith, bit_and, ltb, leb, ◌==◌, if◌then◌else◌, set, get_or, inl, inr, Bool-cases, dec_le, ==_iff,
}
use native.Mathlib.Nat.{div-lt_iff_lt-mul}
use fast_http.Pool.{Pool, node_size, in_block, pool_put, remove}
use fast_http.Pool.Slots.{given_back, get_or-set_ne}
use fast_http.Pool.Held.{IsValid, held, elem, slot_of, within_slot, same_slot}
use fast_http.Pool.Nodes.{elem-remove, elem-remove_other, Distinct-remove}
use fast_http.Pool.Change.{held-changed, held-unchanged, held-in_block, held_outside}

-- What a call leaves for an object that was given out.
pub record Puts (p : Pool) (object : ℕ) (after : Pool) : Type 0 where
  pub valid : IsValid after
  pub is_free : held after object ≡ false
  pub others : (q : ℕ) → q ≢ object → held after q ≡ held p q

abbrev cleared : Pool → ℕ → Pool
cleared p i = record p {
  last = if ltb (i / 2 ^ 5) p.last then i / 2 ^ 5 else p.last;
  bits =
      set p.bits (i / 2 ^ 5)
        (bit_and (get_or p.bits (i / 2 ^ 5) 0) (2 ^ 32 - 1 - 2 ^ bit_and i 31));
}

abbrev dropped : Pool → ℕ → Pool
dropped p entry = record p { head = remove (entry - node_size) p.head }

put_inside :
    (p : Pool) (entry : ℕ)
    → in_block p entry ≡ true
    → pool_put p entry ≡ cleared p (slot_of p entry)
unfolding pool_put
put_inside p entry h = rw (pool_put, h) refl

put_outside : (p : Pool) (entry : ℕ) → in_block p entry ≡ false → pool_put p entry ≡ dropped p entry
unfolding pool_put
put_outside p entry h = rw (pool_put, h) refl

in_range : {p : Pool} (q : ℕ) → IsValid p → in_block p q ≡ true → slot_of p q < p.capacity
in_range {p} q v h =
    (div-lt_iff_lt-mul {k = p.size} {x = q - (p.data_at + p.capacity / 2 ^ 3)} {y = p.capacity}
        v.sized).1
      (ground (arith, v.fits))

both : (a b : Bool) → (a && b) ≡ true → a ≡ true
both true b h = refl
both false b h = h

put_slot :
    {p : Pool} (entry : ℕ)
    → IsValid p
    → in_block p entry ≡ true
    → held p entry ≡ true
    → Puts p entry (cleared p (slot_of p entry))
put_slot {p} entry v inside given =
    let i = slot_of p entry in
    let l = if ltb (i / 2 ^ 5) p.last then i / 2 ^ 5 else p.last in
    let low = in_range entry v inside in
    let d = given_back p.bits i (omega (arith, low, v.whole)) in
    let aligned : within_slot p entry ≡ 0 =
      (==_iff (within_slot p entry) 0).0
        (both (within_slot p entry == 0) _ (sym (held-in_block p entry inside) ∙ given)) in
    let place = same_slot p entry inside aligned in
    let least : l ≤ p.last = ground arith in
    let least' : l ≤ i / 32 = ground arith in
    record {
      valid = record {
        whole = omega (arith, v.whole, d.same_length);
        fits = v.fits;
        sized = v.sized;
        words = d.words v.words;
        last_in = omega (arith, d.same_length, least, v.last_in);
        full = λ m h.
            get_or-set_ne p.bits (i / 32) m _ (omega (arith, least'))
            ∙ v.full m (omega (arith, least));
        distinct = v.distinct;
      };
      is_free = ap (held (cleared p i)) place ∙ held-changed p l v low d;
      others = λ q other. held-unchanged p l v low d q (λ e. other (e ∙ sym place));
    }

put_node :
    {p : Pool} (entry : ℕ)
    → IsValid p
    → in_block p entry ≡ false
    → held p entry ≡ true
    → Puts p entry (dropped p entry)
put_node {p} entry v outside given =
    let far : leb node_size entry ≡ true =
      both (leb node_size entry) _ (sym (held_outside p entry outside) ∙ given) in
    record {
      valid = record {
        whole = v.whole;
        fits = v.fits;
        sized = v.sized;
        words = v.words;
        last_in = v.last_in;
        full = v.full;
        distinct = Distinct-remove (entry - node_size) p.head v.distinct;
      };
      is_free =
          held_outside (dropped p entry) entry outside
          ∙ rw far (elem-remove (entry - node_size) p.head v.distinct);
      others = λ q other. elim (Bool-cases (in_block p q)) [
        | inl inside ↦ held-in_block (dropped p entry) q inside ∙ sym (held-in_block p q inside)
        | inr out ↦
            held_outside (dropped p entry) q out
            ∙ (same q other (ground (arith, far)) (dec_le 16 q) ∙ sym (held_outside p q out))
      ];
    }
  where
    same :
        (q : ℕ)
        → q ≢ entry
        → 16 ≤ entry
        → Dec (16 ≤ q)
        → (leb node_size q && elem (q - node_size) (remove (entry - node_size) p.head))
          ≡ (leb node_size q && elem (q - node_size) p.head)
    same q other far (yes enough) =
        ap (λ b. leb node_size q && b)
          (elem-remove_other (entry - 16) (q - 16) p.head (omega arith))
    same q other far (no small) = let test : leb 16 q ≡ false = ground arith in rw test refl

-- `pool_put` of an object that was given out takes it back, leaves every other as it was, and the pool
-- well formed.
pub pool_put_lem :
    {p : Pool} (entry : ℕ) → IsValid p → held p entry ≡ true → Puts p entry (pool_put p entry)
pool_put_lem {p} entry v given = elim (Bool-cases (in_block p entry)) [
  | inl inside ↦
      subst (Puts p entry) (sym (put_inside p entry inside)) (put_slot entry v inside given)
  | inr outside ↦
      subst (Puts p entry) (sym (put_outside p entry outside)) (put_node entry v outside given)
]
