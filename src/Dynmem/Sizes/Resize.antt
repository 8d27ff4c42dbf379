-- ===== src/Dynmem/Sizes/Resize.antt =====
-- `dynmem_set_len` and `dynmem_set_cap` of dynmem.c: lengths, capacities and what is kept.
use fast_http.Prelude.{
  ℕ, zero, suc, ◌+◌, ◌-◌, ◌*◌, ◌^◌, ◌≤◌, ◌<◌, ◌≡◌, refl, sym, ap, ap₂, ◌∙◌, some, List, [], ◌∷◌,
  ◌++◌, arith, u32, sub32, ltb, if◌then◌else◌, length, take, length-take, take-append_le,
  take-append_ge, take-take, take-all, take-zero, dec_lt, min, ◌⊎◌, inl, inr,
}
use fast_http.Dynmem.{Page, Dynmem, Malloc, list_del_last, shrink_until, set_len, set_cap}
use fast_http.Dynmem.Walk.{flat, Sized, length-flat}
use fast_http.Dynmem.Sizes.{IsValid, contents, page_bounds}
use fast_http.Dynmem.Sizes.Growth.{Grown, grow_until-Grown, length-flat-pages}

Sized-take : (ps k : ℕ) (ns : List Page) → Sized ps ns → Sized ps (take k ns)
Sized-take ps zero ns h = tt
Sized-take ps (suc k) [] h = tt
Sized-take ps (suc k) (n ∷ ns) h = (h.0, Sized-take ps k ns h.1)

flat-take : (ps k : ℕ) (ns : List Page) → Sized ps ns → flat (take k ns) ≡ take (k * ps) (flat ns)
flat-take ps zero ns h = sym (take-zero (0 * ps) (flat ns) (omega arith))
flat-take ps (suc k) [] h = sym (take-all (suc k * ps) [] (omega arith))
flat-take ps (suc k) (n ∷ ns) h = sym (
    take-append_ge (suc k * ps) (k * ps) n.bytes (flat ns) (omega (arith, h.0))
    ∙ ap (λ l. n.bytes ++ l) (sym (flat-take ps k ns h.1)))

-- What `while (cap >= bound)` of `dynmem_set_cap` leaves.
record Shrunk (bound : ℕ) (m m' : Dynmem) : Type 0 where
  bytes : flat m'.pages ≡ take m'.cap (flat m.pages)
  same_len : m'.len ≡ m.len
  same_page : m'.page ≡ m.page
  sized : Sized m.page m'.pages
  cap_pages : m'.cap ≡ length m'.pages * m.page
  below : m'.cap < bound
  less : m'.cap ≤ m.cap
  least : (m'.cap ≡ m.cap) ⊎ (bound ≤ m'.cap + m.page)

Shrunk-here :
    (bound : ℕ) (m : Dynmem)
    → m.cap < bound
    → Sized m.page m.pages
    → m.cap ≡ length m.pages * m.page
    → Shrunk bound m m
Shrunk-here bound m h hs hn = record {
  bytes = sym (take-all m.cap (flat m.pages) (omega (arith, length-flat m.page m.pages hs)));
  same_len = refl;
  same_page = refl;
  sized = hs;
  cap_pages = hn;
  below = h;
  less = omega arith;
  least = inl refl;
}

-- The buffer without its last page.
abbrev less : Dynmem → Dynmem
less m = record m { cap = sub32 m.cap m.page; pages = list_del_last m.pages }

module _ (bound : ℕ) (m : Dynmem) (hp : 0 < m.page) (hb : m.page ≤ bound) (hc : m.cap < 2 ^ 32)
    (hs : Sized m.page m.pages) (hn : m.cap ≡ length m.pages * m.page) (more : bound ≤ m.cap) where
  some_pages : 0 < length m.pages
  some_pages = elim (dec_lt 0 (length m.pages)) [
    | yes h ↦ h
    | no h ↦
        absurd
          (omega (arith, hn, ap (λ (k : ℕ). k * m.page) {x = length m.pages} {y = 0} (omega arith)))
  ]

  length-less : length (less m).pages ≡ length m.pages - 1
  length-less = omega (arith, length-take (length m.pages - 1) m.pages)

  cap-less : (less m).cap ≡ (length m.pages - 1) * m.page
  cap-less = omega (
    arith,
    hn,
    ap (λ (k : ℕ). k * m.page) {x = length m.pages} {y = length m.pages - 1 + 1}
        (omega (arith, some_pages)),
  )

  Shrunk-next : (m' : Dynmem) → Shrunk bound (less m) m' → Shrunk bound m m'
  Shrunk-next m' r = record {
    bytes =
        r.bytes
        ∙ (ap (take m'.cap) (flat-take m.page (length m.pages - 1) m.pages hs)
            ∙ (take-take m'.cap ((length m.pages - 1) * m.page) (flat m.pages)
                ∙ ap (λ k. take k (flat m.pages)) (omega (arith, r.less, cap-less))));
    same_len = r.same_len;
    same_page = r.same_page;
    sized = r.sized;
    cap_pages = r.cap_pages;
    below = r.below;
    less = omega (arith, r.less, more, hb);
    least = inr (ground (arith, r.least, more, hb));
  }

shrink_until-Shrunk :
    (fuel bound : ℕ) (m : Dynmem)
    → 0 < m.page
    → m.page ≤ bound
    → m.cap < 2 ^ 32
    → Sized m.page m.pages
    → m.cap ≡ length m.pages * m.page
    → length m.pages ≤ fuel
    → (m' : Dynmem) × (shrink_until fuel bound m ≡ some m') × Shrunk bound m m'
unfolding shrink_until
shrink_until-Shrunk zero bound m hp hb hc hs hn hf =
    let none_left : m.cap < bound =
      omega (arith, ap (λ (k : ℕ). k * m.page) {x = length m.pages} {y = 0} (omega arith)) in
    (m, ground arith, Shrunk-here bound m none_left hs hn)
shrink_until-Shrunk (suc fuel) bound m hp hb hc hs hn hf = elim (dec_lt m.cap bound) [
  | yes done ↦ (m, ground arith, Shrunk-here bound m done hs hn)
  | no more ↦
      let over : bound ≤ m.cap = omega arith in
      let (m', e, r) =
        shrink_until-Shrunk fuel bound (less m) hp hb (omega arith)
          (Sized-take m.page (length m.pages - 1) m.pages hs)
          (cap-less bound m hp hb hc hs hn over
            ∙ ap (λ (k : ℕ). k * m.page) (sym (length-less bound m hp hb hc hs hn over)))
          (omega (arith, length-less bound m hp hb hc hs hn over)) in
      (m', ground (arith, e), Shrunk-next bound m hp hb hc hs hn over m' r)
]

with_len : {g : Dynmem} (n : ℕ) → IsValid g → n ≤ g.cap → IsValid (record g { len = n })
with_len n v h = record {
  exponent = v.exponent;
  page_power = v.page_power;
  page_small = v.page_small;
  sized = v.sized;
  cap_pages = v.cap_pages;
  cap_small = v.cap_small;
  len_in = h;
}

-- Growing keeps the bytes below the old capacity.
pub take-Grown :
    {m g : Dynmem} (k newcap : ℕ)
    → IsValid m
    → Grown m newcap g
    → k ≤ m.cap
    → take k (flat g.pages) ≡ take k (flat m.pages)
take-Grown {m} k newcap v grown h =
    rw grown.bytes
      (take-append_le k (flat m.pages) grown.extra (omega (arith, length-flat-pages v)))

-- The order of two cuts does not matter.
take_comm : (a b : ℕ) (xs : List ℕ) → take a (take b xs) ≡ take b (take a xs)
take_comm a b xs = take-take a b xs ∙ (ap (λ k. take k xs) (omega arith) ∙ sym (take-take b a xs))

-- From a well-formed buffer, `dynmem_set_len` ends with the length asked for, in a well-formed one that keeps every byte
-- below both lengths, if the new length and a page fit a `uint32_t`.
pub set_len_lem :
    (mem : Malloc) {m : Dynmem} (newlen : ℕ)
    → IsValid m
    → newlen + m.page ≤ 2 ^ 32
    → (m' : Dynmem) × (set_len mem m newlen ≡ some m')
      × IsValid m'
      × (m'.len ≡ newlen)
      × (take m.len (contents m') ≡ take newlen (contents m))
unfolding set_len
set_len_lem mem {m} newlen v fits =
    let (g, e, vg, grown) = grow_until-Grown mem (newlen + 1) newlen m v fits (omega arith) in
    (
      record g { len = newlen },
      rw e refl,
      with_len newlen vg grown.enough,
      refl,
      take_comm m.len newlen (flat g.pages)
          ∙ ap (take newlen) (take-Grown m.len newlen v grown v.len_in),
    )

-- What `dynmem_set_cap` promises.
pub record Resized (m : Dynmem) (newcap : ℕ) (m' : Dynmem) : Type 0 where
  pub valid : IsValid m'
  pub enough : newcap ≤ m'.cap
  pub tight : m'.cap < newcap + m.page
  pub same_page : m'.page ≡ m.page
  pub cut_len : m'.len ≡ min m.len m'.cap
  pub kept : contents m' ≡ take m'.cap (contents m)

cut : Dynmem → Dynmem
cut m = record m { len = if ltb m.cap m.len then m.cap else m.len }

set_cap_grown :
    (mem : Malloc) {m : Dynmem} (newcap : ℕ)
    → IsValid m
    → newcap + m.page < 2 ^ 32
    → m.cap < newcap
    → (m' : Dynmem) × (set_cap mem m newcap ≡ some m') × Resized m newcap m'
unfolding set_cap
set_cap_grown mem {m} newcap v fits short =
    let (g, e, vg, grown) =
      grow_until-Grown mem (newcap + 1) newcap m v (omega arith) (omega arith) in
    (
      g,
      ground (arith, e, vg.len_in),
      record {
        valid = vg;
        enough = grown.enough;
        tight = ground (arith, grown.tight, grown.enough, short);
        same_page = grown.same_page;
        cut_len = omega (arith, grown.same_len, vg.len_in);
        kept =
            ap (λ n. take n (flat g.pages)) grown.same_len
            ∙ (take-Grown m.len newcap v grown v.len_in
                ∙ sym (
                    take-all g.cap (contents m)
                      (omega (arith, length-take m.len (flat m.pages), v.len_in, grown.enough))));
      },
    )

set_cap_shrunk :
    (mem : Malloc) {m : Dynmem} (newcap : ℕ)
    → IsValid m
    → newcap + m.page < 2 ^ 32
    → newcap ≤ m.cap
    → (m' : Dynmem) × (set_cap mem m newcap ≡ some m') × Resized m newcap m'
unfolding set_cap cut
set_cap_shrunk mem {m} newcap v fits long =
    let (g, e, r) =
      shrink_until-Shrunk (length m.pages) (u32 (newcap + m.page)) m (page_bounds v).0 (omega arith)
        v.cap_small v.sized v.cap_pages (omega arith) in
    let shorter : (cut g).len ≡ min m.len g.cap = ground (arith, r.same_len) in
    (
      cut g,
      ground (arith, e),
      record {
        valid = record {
          exponent = v.exponent;
          page_power = r.same_page ∙ v.page_power;
          page_small = v.page_small;
          sized = rw r.same_page r.sized;
          cap_pages = rw r.same_page r.cap_pages;
          cap_small = omega (arith, r.less, v.cap_small);
          len_in = omega (arith, shorter);
        };
        enough = omega (arith, r.least);
        tight = omega (arith, r.below);
        same_page = r.same_page;
        cut_len = shorter;
        kept =
            ap₂ take shorter r.bytes
            ∙ (take-take (min m.len g.cap) g.cap (flat m.pages)
                ∙ (ap (λ k. take k (flat m.pages)) (omega arith)
                    ∙ sym (take-take g.cap m.len (flat m.pages))));
      },
    )

-- If the new capacity and a page fit a `uint32_t`, `dynmem_set_cap` returns, and takes a well-formed
-- buffer to a well-formed buffer of the same page size whose capacity is the one asked for rounded up
-- to whole pages (at least that, and less than a page more), whether pages are added or freed for it;
-- the length is the old one or the new capacity if that is less, and the contents are cut there.
pub set_cap_lem :
    (mem : Malloc) {m : Dynmem} (newcap : ℕ)
    → IsValid m
    → newcap + m.page < 2 ^ 32
    → (m' : Dynmem) × (set_cap mem m newcap ≡ some m') × Resized m newcap m'
set_cap_lem mem {m} newcap v fits = elim (dec_lt m.cap newcap) [
  | yes short ↦ set_cap_grown mem newcap v fits short
  | no long ↦ set_cap_shrunk mem newcap v fits (omega arith)
]
