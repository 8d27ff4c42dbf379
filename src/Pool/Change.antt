-- ===== src/Pool/Change.antt =====
-- What changes for the holders of a pool's objects when one digit of its bitmap does.
use fast_http.Prelude.{
  ℕ, ◌-◌, ◌<◌, ◌≡◌, ◌≢◌, refl, sym, ap, ◌∙◌, true, false, ◌&&◌, List, arith, leb, ◌==◌, Bool-cases,
  inl, inr, ℕ_discrete,
}
use fast_http.Pool.{Pool, node_size, in_block}
use fast_http.Pool.Slots.{slot_digit, Differs}
use fast_http.Pool.Held.{
  IsValid, held, elem, slot_of, within_slot, slot_at, slot_at-InSlot, same_slot,
}

pub held-in_block :
    (p : Pool) (q : ℕ)
    → in_block p q ≡ true
    → held p q ≡ (within_slot p q == 0 && slot_digit p.bits (slot_of p q) == 1)
unfolding held
held-in_block p q h = rw h refl

pub held_outside :
    (p : Pool) (q : ℕ)
    → in_block p q ≡ false
    → held p q ≡ (leb node_size q && elem (q - node_size) p.head)
unfolding held
held_outside p q h = rw h refl

-- An object of the block is given out if its digit is set.
pub held-slot_at :
    {p : Pool} (k : ℕ)
    → IsValid p
    → k < p.capacity
    → held p (slot_at p k) ≡ (slot_digit p.bits k == 1)
held-slot_at {p} k valid low =
    let s = slot_at-InSlot k valid low in
    held-in_block p (slot_at p k) s.inside
    ∙ (ap (λ n. n == 0 && slot_digit p.bits (slot_of p (slot_at p k)) == 1) s.aligned
        ∙ ap (λ n. slot_digit p.bits n == 1) s.number)

module _ (p : Pool) (l : ℕ) {bits' : List ℕ} {k v : ℕ} (valid : IsValid p) (low : k < p.capacity)
    (d : Differs p.bits bits' k v) where
  abbrev after : Pool
  after = record p { last = l; bits = bits' }

  pub held-changed : held (record p { last = l; bits = bits' }) (slot_at p k) ≡ (v == 1)
  held-changed =
      let s = slot_at-InSlot k valid low in
      held-in_block after (slot_at p k) s.inside
      ∙ (ap (λ n. n == 0 && slot_digit bits' (slot_of p (slot_at p k)) == 1) s.aligned
          ∙ (ap (λ n. slot_digit bits' n == 1) s.number ∙ ap (λ n. n == 1) d.at_k))

  pub held-unchanged :
      (q : ℕ) → q ≢ slot_at p k → held (record p { last = l; bits = bits' }) q ≡ held p q
  held-unchanged q other = elim (Bool-cases (in_block p q)) [
    | inr out ↦ held_outside after q out ∙ sym (held_outside p q out)
    | inl inside ↦
        held-in_block after q inside
        ∙ (go inside (ℕ_discrete (within_slot p q) 0) ∙ sym (held-in_block p q inside))
  ]
    where
      go :
          in_block p q ≡ true
          → Dec (within_slot p q ≡ 0)
          → (within_slot p q == 0 && slot_digit bits' (slot_of p q) == 1)
            ≡ (within_slot p q == 0 && slot_digit p.bits (slot_of p q) == 1)
      go inside (yes aligned) =
          ap (λ n. within_slot p q == 0 && n == 1)
            (d.elsewhere (slot_of p q)
              (λ e. other (same_slot p q inside aligned ∙ ap (slot_at p) e)))
      go inside (no not_aligned) =
          let test : (within_slot p q == 0) ≡ false = ground arith in rw test refl
