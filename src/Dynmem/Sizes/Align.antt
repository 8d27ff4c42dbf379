-- ===== src/Dynmem/Sizes/Align.antt =====
-- Where `dynmem_align` of dynmem.c moves the length.
use native.Mathlib.Nat.{
  mod-lt, pow-suc, mul_assoc, div-add-mod, one-le-pow, div-lt_iff_lt-mul, pow-le-pow_right,
}
use fast_http.Prelude.Bits.{bit_and-high}
use fast_http.Prelude.{
  ℕ, zero, suc, ◌+◌, ◌-◌, ◌*◌, ◌/◌, ◌%◌, ◌^◌, ◌≤◌, ◌<◌, ◌≡◌, sym, ap, ◌∙◌, arith, u32, u32_max,
  sub32, bit_and,
}
use fast_http.Dynmem.{Dynmem, Malloc, align}
use fast_http.Dynmem.Sizes.{IsValid, page_bounds}

pow_split : (j k : ℕ) → 2 ^ j * 2 ^ k ≡ 2 ^ (j + k)
pow_split zero k = omega (arith, ap (λ (e : ℕ). 2 ^ e) {x = 0 + k} {y = k} (omega arith))
pow_split (suc j) k =
    ap (λ (t : ℕ). t * 2 ^ k) {x = 2 ^ suc j} {y = 2 * 2 ^ j} (omega (arith, pow-suc 2 j))
    ∙ mul_assoc 2 (2 ^ j) (2 ^ k)
    ∙ ap (λ (t : ℕ). 2 * t) (pow_split j k)
    ∙ omega (
      arith,
      pow-suc 2 (j + k),
      ap (λ (e : ℕ). 2 ^ e) {x = suc (j + k)} {y = suc j + k} (omega arith),
    )

parts : (p x : ℕ) → 0 < p → x ≡ x / p * p + x % p
parts p x h = omega (arith, div-add-mod x p)

-- A mask of all but the `k` low bits of a word clears those.
cleared : (k x : ℕ) → k ≤ 31 → x < 2 ^ 32 → bit_and x (u32_max - (2 ^ k - 1)) ≡ x / 2 ^ k * 2 ^ k
cleared k x small fits =
    let whole : 2 ^ (32 - k) * 2 ^ k ≡ 2 ^ 32 =
      pow_split (32 - k) k ∙ ap (λ e. 2 ^ e) {x = 32 - k + k} {y = 32} (omega arith) in
    ap (λ a. bit_and a (u32_max - (2 ^ k - 1))) {x = x} {y = x / 2 ^ k * 2 ^ k + x % 2 ^ k}
      (parts (2 ^ k) x (one-le-pow k 2 (omega arith)))
    ∙ ap (bit_and (x / 2 ^ k * 2 ^ k + x % 2 ^ k)) {x = u32_max - (2 ^ k - 1)}
        {y = 2 ^ (32 - k) * 2 ^ k - 2 ^ k}
        (omega (
          arith,
          whole,
          one-le-pow k 2 (omega arith),
          pow-le-pow_right {n = 2} (omega arith) {i = k} {j = 31} small,
        ))
    ∙ bit_and-high k (32 - k) (x / 2 ^ k) (x % 2 ^ k) (mod-lt x (one-le-pow k 2 (omega arith)))
        ((div-lt_iff_lt-mul (one-le-pow k 2 (omega arith))).1 (omega (arith, whole)))

-- `dynmem_align` moves the length of a well-formed buffer up to the next multiple of the page size,
-- and returns that, if the length and a page fit a `uint32_t`.
pub align_lem :
    (mem : Malloc) {m : Dynmem}
    → IsValid m
    → m.len + m.page ≤ 2 ^ 32
    → ((align mem m).0 ≡ (m.len + (m.page - 1)) / m.page * m.page)
      × ((align mem m).1.len ≡ (m.len + (m.page - 1)) / m.page * m.page)
unfolding align
align_lem mem {m} v fits = (aligned, aligned)
  where
    aligned :
        bit_and (u32 (m.len + sub32 m.page 1)) (u32_max - sub32 m.page 1)
        ≡ (m.len + (m.page - 1)) / m.page * m.page
    aligned =
        ap (λ a. bit_and a (u32_max - sub32 m.page 1)) {x = u32 (m.len + sub32 m.page 1)}
          {y = m.len + (m.page - 1)} (omega (arith, page_bounds v))
        ∙ ap (bit_and (m.len + (m.page - 1))) {x = u32_max - sub32 m.page 1}
            {y = u32_max - (2 ^ v.exponent - 1)} (omega (arith, page_bounds v, v.page_power))
        ∙ cleared v.exponent (m.len + (m.page - 1)) v.page_small (omega (arith, page_bounds v))
        ∙ ap (λ p. (m.len + (m.page - 1)) / p * p) (sym v.page_power)
