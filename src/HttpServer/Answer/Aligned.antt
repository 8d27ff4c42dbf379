-- ===== src/HttpServer/Answer/Aligned.antt =====
-- The start of the header that `write_http_resp` of httpserver.c writes: `dynmem_align` moves the
-- length to the start of a page.
use native.Mathlib.Nat.{div-add-mod, mod-lt, mul-mod_left, mul-le-mul_right, div-lt_iff_lt-mul}
use fast_http.Prelude.{
  ℕ, ◌+◌, ◌-◌, ◌*◌, ◌/◌, ◌%◌, ◌^◌, ◌≤◌, ◌<◌, ◌≡◌, refl, sym, ap, ◌∙◌, inl, inr, Bool-cases, List,
  [], ◌++◌, append-nil, arith, leb, if◌then◌else◌, length, take, drop, take-add, length-take,
  length-drop, take-append_le,
}
use fast_http.Dynmem.{Dynmem, Malloc, grow, align}
use fast_http.Dynmem.Walk.{flat}
use fast_http.Dynmem.Sizes.{IsValid, page_bounds}
use fast_http.Dynmem.Sizes.Growth.{length-flat-pages, grow-IsValid, cap-grow, page-grow, flat-grow}
use fast_http.Dynmem.Sizes.Align.{align_lem}
use fast_http.HttpServer.Answer.Line.{Extended}

-- The least multiple of `p` from `n` on.
pub aligned_bounds :
    (n p : ℕ) → 0 < p → (n ≤ (n + (p - 1)) / p * p) × ((n + (p - 1)) / p * p % p ≡ 0)
aligned_bounds n p pos = (
  omega (arith, div-add-mod (n + (p - 1)) p, mod-lt (n + (p - 1)) pos),
  mul-mod_left ((n + (p - 1)) / p) p,
)

-- It does not pass a multiple.
aligned-le : (n k p : ℕ) → 0 < p → n ≤ k * p → (n + (p - 1)) / p * p ≤ k * p
aligned-le n k p pos h =
    let below : (n + (p - 1)) / p < k + 1 = (div-lt_iff_lt-mul pos).1 (omega arith) in
    let count : (n + (p - 1)) / p ≤ k = omega arith in mul-le-mul_right p count

-- A longer length of a buffer that may have grown.
lengthened :
    {m : Dynmem} (g : Dynmem) (more : List ℕ) (n : ℕ)
    → IsValid m
    → IsValid g
    → g.page ≡ m.page
    → flat g.pages ≡ flat m.pages ++ more
    → m.len ≤ n
    → n ≤ m.cap
    → m.cap ≤ g.cap
    → Extended m (take (n - m.len) (drop m.len (flat m.pages))) (record g { len = n })
lengthened {m} g more n v w same_page bytes longer inside grown =
    let extra = drop m.len (flat m.pages) in
    record {
      valid = record {
        exponent = w.exponent;
        page_power = w.page_power;
        page_small = w.page_small;
        sized = w.sized;
        cap_pages = w.cap_pages;
        cap_small = w.cap_small;
        len_in = omega arith;
      };
      same_page = same_page;
      grows = omega (
        arith,
        length-take (n - m.len) extra,
        length-drop m.len (flat m.pages),
        length-flat-pages v,
      );
      holds =
          ap (take n) bytes
          ∙ take-append_le n (flat m.pages) more (omega (arith, length-flat-pages v))
          ∙ take-add m.len (n - m.len) n (flat m.pages) (omega arith);
    }

-- The same for the page that `dynmem_align` adds where the capacity is reached.
with_room :
    (mem : Malloc) {m : Dynmem} (n : ℕ)
    → IsValid m
    → m.cap + m.page < 2 ^ 32
    → m.len ≤ n
    → n ≤ m.cap
    → Extended m
        (take (n - m.len) (drop m.len (flat m.pages)))
        (record (if leb m.cap n then grow mem m else m) { len = n })
      × (n < (if leb m.cap n then grow mem m else m).cap)
with_room mem {m} n v fits longer inside = elim (Bool-cases (leb m.cap n)) [
  | inl full ↦
      let size = cap-grow mem m fits in
      rw full (
        lengthened (grow mem m) _ n v (grow-IsValid mem v fits) (page-grow mem m).0
            (flat-grow mem m) longer inside (omega (arith, size)),
        omega (arith, size, page_bounds v),
      )
  | inr free ↦
      rw free
        (lengthened m [] n v v refl (sym (append-nil _)) longer inside (omega arith), ground arith)
]

-- In a well-formed buffer whose capacity and a page fit a `uint32_t`, `dynmem_align` puts bytes that
-- were in the page already behind the contents, up to the start of a page, and leaves room for a page.
pub align-Extended :
    (mem : Malloc) {m : Dynmem}
    → IsValid m
    → m.cap + m.page < 2 ^ 32
    → (extra : List ℕ) × Extended m extra (align mem m).1
      × ((align mem m).0 ≡ (align mem m).1.len)
      × ((align mem m).1.len % m.page ≡ 0)
      × ((align mem m).1.len < (align mem m).1.cap)
      × ((align mem m).1.len ≤ m.cap)
unfolding align
align-Extended mem {m} v fits =
    let at = align_lem mem v (omega (arith, v.len_in)) in
    let (lower, whole) = aligned_bounds m.len m.page (page_bounds v).0 in
    let upper =
      aligned-le m.len (length m.pages) m.page (page_bounds v).0
        (omega (arith, v.len_in, v.cap_pages)) in
    let (e, room) =
      with_room mem (align mem m).0 v fits (omega (arith, at.0, lower))
        (omega (arith, at.0, upper, v.cap_pages)) in
    (
      _,
      e,
      refl,
      ap (λ (x : ℕ). x % m.page) at.1 ∙ whole,
      room,
      omega (arith, at.1, upper, v.cap_pages),
    )
