-- ===== src/Dynmem/Sizes/Growth.antt =====
-- `dynmem_grow` of dynmem.c and the loop of it in `dynmem_set_len` and `dynmem_set_cap`.
use fast_http.Prelude.{
  ℕ, zero, suc, ◌+◌, ◌-◌, ◌^◌, ◌≤◌, ◌<◌, ◌≡◌, refl, sym, ap, ◌∙◌, some, List, [], ◌++◌, append-nil,
  append_assoc, arith, length, length-append, dec_lt, ◌⊎◌, inl,
}
use fast_http.Dynmem.{Dynmem, Malloc, grow, grow_until}
use fast_http.Dynmem.Walk.{flat, Sized, length-flat, flat-append, Sized-append}
use fast_http.Dynmem.Sizes.{IsValid, page_bounds}

-- What growing leaves: the old bytes, with others behind them.
pub record Grown (m : Dynmem) (newcap : ℕ) (m' : Dynmem) : Type 0 where
  pub extra : List ℕ
  pub bytes : flat m'.pages ≡ flat m.pages ++ extra
  pub same_len : m'.len ≡ m.len
  pub same_page : m'.page ≡ m.page
  pub enough : newcap ≤ m'.cap
  pub tight : (m'.cap ≡ m.cap) ⊎ (m'.cap < newcap + m.page)

pub length-flat-pages : {m : Dynmem} → IsValid m → length (flat m.pages) ≡ m.cap
length-flat-pages {m} v = omega (arith, length-flat m.page m.pages v.sized, v.cap_pages)

module _ (mem : Malloc) where
  length-grow : (m : Dynmem) → length (grow mem m).pages ≡ length m.pages + 1
  unfolding grow
  length-grow m = length-append m.pages _

  pub cap-grow : (m : Dynmem) → m.cap + m.page < 2 ^ 32 → (grow mem m).cap ≡ m.cap + m.page
  unfolding grow
  cap-grow m h = omega arith

  pub page-grow : (m : Dynmem) → ((grow mem m).page ≡ m.page) × ((grow mem m).len ≡ m.len)
  unfolding grow
  page-grow m = (refl, refl)

  Sized-grow : {m : Dynmem} → IsValid m → Sized m.page (grow mem m).pages
  unfolding grow
  Sized-grow {m} v = Sized-append m.page m.pages _ v.sized (mem.length-block m.pages m.page, tt)

  pub flat-grow :
      (m : Dynmem) → flat (grow mem m).pages ≡ flat m.pages ++ (mem.block m.pages m.page).bytes
  unfolding grow
  flat-grow m = flat-append m.pages _ ∙ ap (λ l. flat m.pages ++ l) (append-nil _)

  pub grow-IsValid : {m : Dynmem} → IsValid m → m.cap + m.page < 2 ^ 32 → IsValid (grow mem m)
  grow-IsValid {m} v fits = record {
    exponent = v.exponent;
    page_power = (page-grow m).0 ∙ v.page_power;
    page_small = v.page_small;
    sized = rw (page-grow m).0 (Sized-grow v);
    cap_pages = rw (cap-grow m fits, length-grow m, (page-grow m).0) (omega (arith, v.cap_pages));
    cap_small = rw (cap-grow m fits) fits;
    len_in = omega (arith, v.len_in, cap-grow m fits, page-grow m);
  }

  -- One more page in front of the rest of the growth.
  Grown-grow :
      {m : Dynmem} (newcap : ℕ) (m' : Dynmem)
      → m.cap < newcap
      → m.cap + m.page < 2 ^ 32
      → Grown (grow mem m) newcap m'
      → Grown m newcap m'
  Grown-grow {m} newcap m' short fits g = record {
    extra = (mem.block m.pages m.page).bytes ++ g.extra;
    bytes = g.bytes ∙ rw (flat-grow m) (append_assoc (flat m.pages) _ g.extra);
    same_len = g.same_len ∙ (page-grow m).1;
    same_page = g.same_page ∙ (page-grow m).0;
    enough = g.enough;
    tight = ground (arith, g.tight, cap-grow m fits, page-grow m);
  }

  -- `while (newcap > cap)` ends, with room for `newcap`.
  pub grow_until-Grown :
      (fuel newcap : ℕ) (m : Dynmem)
      → IsValid m
      → newcap + m.page ≤ 2 ^ 32
      → newcap - m.cap < fuel
      → (m' : Dynmem) × (grow_until mem fuel newcap m ≡ some m') × IsValid m' × Grown m newcap m'
  unfolding grow_until
  grow_until-Grown zero newcap m v fits enough = absurd (omega arith)
  grow_until-Grown (suc fuel) newcap m v fits enough = elim (dec_lt m.cap newcap) [
    | yes short ↦
        let (m', e, v', g) =
          grow_until-Grown fuel newcap (grow mem m) (grow-IsValid v (omega arith))
            (omega (arith, page-grow m)) (omega (arith, cap-grow m (omega arith), page_bounds v)) in
        (m', ground (arith, e), v', Grown-grow newcap m' short (omega arith) g)
    | no long ↦ (
      m,
      ground arith,
      v,
      record {
        extra = [];
        bytes = sym (append-nil _);
        same_len = refl;
        same_page = refl;
        enough = omega arith;
        tight = inl refl;
      },
    )
  ]
