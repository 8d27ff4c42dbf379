-- ===== src/Dynmem/Sizes.antt =====
-- The well-formed buffers, and what `dynmem_init` makes.
pub mod Growth
pub mod Resize
pub mod Align
use native.Mathlib.Nat.{mod-lt, one-le-pow, pow-le-pow_right, pow-suc, zero-add}
use fast_http.Prelude.Bits.{bit_and-low, bit_and-high}
use fast_http.Prelude.{
  ℕ, zero, suc, ◌+◌, ◌-◌, ◌*◌, ◌/◌, ◌%◌, ◌^◌, ◌≤◌, ◌<◌, ◌≡◌, refl, sym, ap, ap₂, ◌∙◌, Option, none,
  some, List, [], ◌∷◌, ◌++◌, append-nil, append_assoc, arith, u32, u32_max, sub32, ltb, leb, ◌==◌,
  if◌then◌else◌, ◌>>=◌, length, take, drop, length-append, length-take, bit_and, ◌⊎◌, inl, inr,
  dec_lt, subst,
}
use fast_http.Dynmem.{
  Page, Dynmem, Malloc, list_new, list_del_last, check_len, round_up, init, clear, in_page, surplus,
  grow, grow_until, shrink_until, set_len, set_cap, align, copy_pages, copy,
}
use fast_http.Dynmem.Walk.{flat, Sized, length-flat, flat-append, Sized-append}

-- The page size is a power of two, every page has it, the capacity is that of the pages and fits a
-- `uint32_t`, and the length is within the capacity.
pub record IsValid (m : Dynmem) : Type 0 where
  pub exponent : ℕ
  pub page_power : m.page ≡ 2 ^ exponent
  pub page_small : exponent ≤ 31
  pub sized : Sized m.page m.pages
  pub cap_pages : m.cap ≡ length m.pages * m.page
  pub cap_small : m.cap < 2 ^ 32
  pub len_in : m.len ≤ m.cap

-- The bytes below the length.
abbrev pub contents : Dynmem → List ℕ
contents m = take m.len (flat m.pages)

pub page_bounds : {m : Dynmem} → IsValid m → (0 < m.page) × (m.page ≤ 2 ^ 31)
page_bounds v =
    rw v.page_power
      (one-le-pow v.exponent 2 (omega arith), pow-le-pow_right {n = 2} (omega arith) v.page_small)

-- `off & (page - 1)` is the remainder.
pub in_page-eq-mod : {m : Dynmem} (off : ℕ) → IsValid m → in_page m off ≡ off % m.page
in_page-eq-mod {m} off v =
    let mask : sub32 m.page 1 ≡ 2 ^ v.exponent - 1 = omega (arith, page_bounds v, v.page_power) in
    rw mask (bit_and-low v.exponent off ∙ ap (λ p. off % p) (sym v.page_power))

-- In a well-formed buffer, `dynmem_surplus` is the distance to the end of the page, never 0.
pub surplus_lem :
    {m : Dynmem} (off : ℕ)
    → IsValid m
    → (surplus m off + off % m.page ≡ m.page) × (0 < surplus m off)
unfolding surplus
surplus_lem {m} off v =
    omega (arith, in_page-eq-mod off v, page_bounds v, mod-lt off (page_bounds v).0)

-- `p <<= 1` from `2 ^ k` on, until it reaches `page`: the least power that does.
record Rounded (k page : ℕ) (result : Option ℕ) : Type 0 where
  r : ℕ
  returns : result ≡ some (2 ^ r)
  small : r ≤ 31
  reaches : page ≤ 2 ^ r
  least : (r ≡ k) ⊎ (2 ^ r < 2 * page)

doubled : (k : ℕ) → k < 31 → u32 (2 ^ k * 2) ≡ 2 ^ suc k
doubled k h =
    omega (arith, pow-suc 2 k, pow-le-pow_right {n = 2} (omega arith) {i = suc k} {j = 31} h)

round_up-Rounded :
    (fuel j k page : ℕ)
    → j < fuel
    → page ≤ 2 ^ (j + k)
    → j + k ≤ 31
    → Rounded k page (round_up fuel (2 ^ k) page)
unfolding round_up
round_up-Rounded zero j k page lt h small = absurd (omega arith)
round_up-Rounded (suc fuel) zero k page lt h small =
    let reached : page ≤ 2 ^ k = rw zero-add at h in
    record {
      r = k;
      returns = ground arith;
      small = omega arith;
      reaches = reached;
      least = inl refl;
    }
round_up-Rounded (suc fuel) (suc j) k page lt h small = elim (dec_lt (2 ^ k) page) [
  | yes below ↦
      let rest =
        round_up-Rounded fuel j (suc k) page (omega arith)
          (subst (λ e. page ≤ 2 ^ e) (omega arith) h) (omega arith) in
      record {
        r = rest.r;
        returns = rw (doubled k (omega arith)) (ground (arith, rest.returns));
        small = rest.small;
        reaches = rest.reaches;
        least = ground (arith, rest.least, pow-suc 2 k);
      }
  | no reached ↦ record {
    r = k;
    returns = ground arith;
    small = omega arith;
    reaches = omega arith;
    least = inl refl;
  }
]

-- `dynmem_init` gives an empty buffer whose page size is the least power of two that is not below
-- the size asked for, for every size up to 2 ^ 31.
pub init_lem :
    (page : ℕ)
    → page ≤ 2 ^ 31
    → (m : Dynmem) × (init page ≡ some m)
      × IsValid m
      × (page ≤ m.page)
      × ((m.page ≡ 1) ⊎ (m.page < 2 * page))
      × (contents m ≡ [])
unfolding init
init_lem page h =
    let rounded = round_up-Rounded 33 31 0 page (omega arith) h (omega arith) in
    let m : Dynmem = record { len = 0; cap = 0; page = 2 ^ rounded.r; pages = [] } in
    let valid : IsValid m = record {
      exponent = rounded.r;
      page_power = refl;
      page_small = rounded.small;
      sized = tt;
      cap_pages = omega arith;
      cap_small = omega arith;
      len_in = omega arith;
    } in
    (
      m,
      rw rounded.returns refl,
      valid,
      rounded.reaches,
      elim rounded.least [ inl one ↦ inl (ap (λ e. 2 ^ e) one) | inr near ↦ inr near ],
      refl,
    )
