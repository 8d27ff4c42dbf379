-- ===== src/Dynmem/Bytes/Write.antt =====
-- `dynmem_write`, `dynmem_append`: the bytes of the buffer after a write.
use mathlib.Core.List.{flatten}
use fast_http.Prelude.{
  ℕ, zero, suc, ◌+◌, ◌*◌, ◌^◌, ◌≤◌, ◌<◌, ◌≡◌, refl, sym, ap, ap₂, subst, ◌∙◌, false, true, Option,
  some, List, [], ◌∷◌, ◌++◌, append-nil, arith, u32, leb, ltb, ◌==◌, if◌then◌else◌, length, take,
  drop, take-all, take-add, take-append-drop, take-overwrite, max, drop-all, drop-drop,
  length-append, length-take, length-drop, dec_lt,
}
use fast_http.Dynmem.{Page, Dynmem, Malloc, set_cap}
use fast_http.Dynmem.Foreach.{foreach, on_write, write, append}
use fast_http.Dynmem.Walk.{flat, AllNonempty, run}
use fast_http.Dynmem.Sizes.{IsValid, contents}
use fast_http.Dynmem.Sizes.Growth.{length-flat-pages}
use fast_http.Dynmem.Sizes.Resize.{set_cap_lem}
use fast_http.Dynmem.Bytes.{Visited, foreach-zero, foreach-Cut}

on_write-some :
    (s s' c piece : List ℕ) (ret : ℕ)
    → on_write s c ≡ some (s', piece, ret)
    → (piece ≡ take (length c) s) × (length c ≤ length s)
unfolding on_write
on_write-some s s' c piece ret e = ground arith

on_write-keeps :
    (s s' c piece : List ℕ) (ret : ℕ)
    → on_write s c ≡ some (s', piece, ret)
    → length piece ≡ length c
on_write-keeps s s' c piece ret e =
    let (cut, fits) = on_write-some s s' c piece ret e in
    ap length cut ∙ omega (arith, length-take (length c) s, fits)

-- Writing piece after piece uses up the source from its start.
run-on_write :
    (cs : List (List ℕ)) (src : List ℕ)
    → AllNonempty cs
    → length (flatten cs) ≤ length src
    → run on_write cs src ≡ some (take (length (flatten cs)) src, drop (length (flatten cs)) src)
unfolding run on_write flatten
run-on_write [] src ne h = refl
run-on_write (c ∷ cs) src ne h =
    let total = length-append c (flatten cs) in
    let here : leb (length c) (length src) ≡ true = ground (arith, total, h) in
    let more : (length c == 0) ≡ false = ground (arith, ne.0) in
    let rest =
      run-on_write cs (drop (length c) src) ne.1
        (omega (arith, total, h, length-drop (length c) src)) in
    rw (here, more, rest)
      (ap₂ (λ a b. some (a, b))
        (sym (take-add (length c) (length (flatten cs)) (length (c ++ flatten cs)) src total))
        (drop-drop (length (flatten cs)) (length c) (length (c ++ flatten cs)) src
          (omega (arith, total))))

-- The walk of a write puts the source into its place, whatever the pages.
foreach-write :
    {m : Dynmem} (off len : ℕ) (src : List ℕ)
    → IsValid m
    → off + len ≤ m.cap
    → len ≤ length src
    → Visited m off len (foreach on_write m off len src) (take len src) (drop len src)
foreach-write {m} off zero src v fits enough = record {
  out = m.pages;
  returns = foreach-zero on_write m off src fits v.cap_small;
  holds = sym (
      ap (λ k. take off (flat m.pages) ++ drop k (flat m.pages)) (omega arith)
      ∙ take-append-drop off (flat m.pages));
  sized = v.sized;
  same_count = refl;
}
foreach-write {m} off (suc len) src v fits enough =
    let cut = foreach-Cut off (suc len) v (omega arith) fits in
    let total : length (flatten cut.parts) ≡ suc len =
      ap length cut.whole
      ∙ omega (
        arith,
        length-take (suc len) (drop off (flat m.pages)),
        length-drop off (flat m.pages),
        length-flat-pages v,
      ) in
    cut.visits on_write on_write-keeps src (take (suc len) src) (drop (suc len) src) (
      run-on_write cut.parts src cut.nonempty (omega (arith, total))
      ∙ ap (λ n. some (take n src, drop n src)) total)

-- There is room after the first step of `dynmem_write`, and nothing is lost by it.
record Room (m : Dynmem) (end : ℕ) (result : Option Dynmem) : Type 0 where
  out : Dynmem
  returns : result ≡ some out
  valid : IsValid out
  enough : end ≤ out.cap
  same_len : out.len ≡ m.len
  same_page : out.page ≡ m.page
  same_contents : contents out ≡ contents m

make-Room :
    (mem : Malloc) {m : Dynmem} (end : ℕ)
    → IsValid m
    → end + m.page < 2 ^ 32
    → Room m end (if ltb m.cap end then set_cap mem m end else some m)
make-Room mem {m} end v fits = elim (dec_lt m.cap end) [
  | yes short ↦
      let (g, e, r) = set_cap_lem mem end v fits in
      record {
        out = g;
        returns = ground (arith, e);
        valid = r.valid;
        enough = r.enough;
        same_len = omega (arith, r.cut_len, r.enough, v.len_in);
        same_page = r.same_page;
        same_contents =
            r.kept
            ∙ take-all g.cap (contents m)
                (omega (arith, length-take m.len (flat m.pages), r.enough, v.len_in));
      }
  | no long ↦ record {
    out = m;
    returns = ground arith;
    valid = v;
    enough = omega arith;
    same_len = refl;
    same_page = refl;
    same_contents = refl;
  }
]

module _ {m : Dynmem} (off len : ℕ) (src : List ℕ) (v : IsValid m) (at_end : off ≤ m.len)
    (fits : off + len ≤ m.cap) (enough : len ≤ length src) where
  visited : Visited m off len (foreach on_write m off len src) (take len src) (drop len src)
  visited = foreach-write off len src v fits enough

  -- The buffer after the walk, with the new length.
  written : Dynmem
  written = record m {
    pages = visited.out;
    len = if ltb m.len (off + len) then off + len else m.len;
  }

  len-written : written.len ≡ max m.len (off + len)
  unfolding written
  len-written = ground arith

  written-IsValid : IsValid written
  unfolding written
  written-IsValid = record {
    exponent = v.exponent;
    page_power = v.page_power;
    page_small = v.page_small;
    sized = visited.sized;
    cap_pages = v.cap_pages ∙ ap (λ (k : ℕ). k * m.page) (sym visited.same_count);
    cap_small = v.cap_small;
    len_in = ground (arith, v.len_in, fits);
  }

  contents-written :
      contents written ≡ take off (contents m) ++ (take len src ++ drop (off + len) (contents m))
  unfolding written
  contents-written =
      let new_length : length (take len src) ≡ len = omega (arith, length-take len src, enough) in
      ap (take written.len) visited.holds
      ∙ subst
          (λ n.
            take written.len
              (take off (flat m.pages) ++ (take len src ++ drop (off + n) (flat m.pages)))
            ≡ take off (contents m) ++ (take len src ++ drop (off + n) (contents m)))
          new_length
          (take-overwrite off m.len written.len (flat m.pages) (take len src) at_end
            (omega (arith, length-flat-pages v, v.len_in)) (omega (arith, len-written, new_length)))

write-returns :
    (mem : Malloc) (m : Dynmem) (off len : ℕ) (src rest : List ℕ) (m1 : Dynmem) (out : List Page)
    → u32 (off + len) ≡ off + len
    → (if ltb m.cap (off + len) then set_cap mem m (off + len) else some m) ≡ some m1
    → foreach on_write m1 off len src ≡ some (len, record m1 { pages = out }, rest)
    → write mem m off src len
      ≡ some (
        len,
        record m1 { pages = out; len = if ltb m1.len (off + len) then off + len else m1.len },
      )
unfolding write
write-returns mem m off len src rest m1 out no_wrap room put = rw (no_wrap, room, put) refl

-- In a well-formed buffer, `dynmem_write` at or before the end of the contents returns the length written and overwrites
-- that range, extending the contents where it goes past their end; all else stays, whatever the
-- page size. It needs a range and a page that fit a `uint32_t`, and a source of that length.
pub write_lem :
    (mem : Malloc) {m : Dynmem} (off : ℕ) (src : List ℕ) (len : ℕ)
    → IsValid m
    → off ≤ m.len
    → off + len + m.page < 2 ^ 32
    → len ≤ length src
    → (m' : Dynmem) × (write mem m off src len ≡ some (len, m'))
      × IsValid m'
      × (m'.len ≡ max m.len (off + len))
      × (contents m' ≡ take off (contents m) ++ (take len src ++ drop (off + len) (contents m)))
unfolding written
write_lem mem {m} off src len v at_end fits enough =
    let room = make-Room mem (off + len) v fits in
    let m1 = room.out in
    let at_end1 : off ≤ m1.len = omega (arith, room.same_len, at_end) in
    let put = visited off len src room.valid at_end1 room.enough enough in
    (
      written off len src room.valid at_end1 room.enough enough,
      write-returns mem m off len src _ m1 put.out (omega arith) room.returns put.returns,
      written-IsValid off len src room.valid at_end1 room.enough enough,
      len-written off len src room.valid at_end1 room.enough enough
          ∙ ap (λ n. max n (off + len)) room.same_len,
      contents-written off len src room.valid at_end1 room.enough enough
          ∙ ap (λ c. take off c ++ (take len src ++ drop (off + len) c)) room.same_contents,
    )

-- In a well-formed buffer, `dynmem_append` puts the source behind the contents, if the new length
-- and a page fit a `uint32_t` and the source has that length.
pub append_lem :
    (mem : Malloc) {m : Dynmem} (src : List ℕ) (len : ℕ)
    → IsValid m
    → m.len + len + m.page < 2 ^ 32
    → len ≤ length src
    → (m' : Dynmem) × (append mem m src len ≡ some (len, m'))
      × IsValid m'
      × (m'.len ≡ m.len + len)
      × (contents m' ≡ contents m ++ take len src)
unfolding append
append_lem mem {m} src len v fits enough =
    let (m', e, v', l, c) = write_lem mem m.len src len v (omega arith) fits enough in
    let stored : length (contents m) ≡ m.len =
      omega (arith, length-take m.len (flat m.pages), length-flat-pages v, v.len_in) in
    (
      m',
      e,
      v',
      omega (arith, l),
      c
          ∙ ap₂ (λ a b. a ++ (take len src ++ b))
              (take-all m.len (contents m) (omega (arith, stored)))
              (drop-all (m.len + len) (contents m) (omega (arith, stored)))
          ∙ ap (λ b. contents m ++ b) (append-nil (take len src)),
    )

-- The page size stays.
pub page-append :
    (mem : Malloc) {m : Dynmem} (src : List ℕ) (len : ℕ) (n : ℕ) (m' : Dynmem)
    → IsValid m
    → m.len + len + m.page < 2 ^ 32
    → len ≤ length src
    → append mem m src len ≡ some (n, m')
    → m'.page ≡ m.page
unfolding append written
page-append mem {m} src len n m' v fits enough e =
    let room = make-Room mem (m.len + len) v fits in
    let m1 = room.out in
    let at_end1 : m.len ≤ m1.len = omega (arith, room.same_len) in
    let put = visited m.len len src room.valid at_end1 room.enough enough in
    pages_agree n len m' (written m.len len src room.valid at_end1 room.enough enough) (
      sym e ∙ write-returns mem m m.len len src _ m1 put.out (omega arith) room.returns put.returns)
    ∙ room.same_page
  where
    pages_agree :
        (n k : ℕ) (a b : Dynmem)
        → ◌≡◌ {A = Option (ℕ × Dynmem)} (some (n, a)) (some (k, b))
        → a.page ≡ b.page
    pages_agree n k a b h = cc
