-- ===== src/Dynmem/Bytes.antt =====
-- `dynmem_foreach` on a well-formed buffer, as a run of the callback over a cut of the range into
-- pieces.
pub mod Write
pub mod Read
use mathlib.Core.List.{flatten}
use native.Mathlib.Nat.{mod-lt}
use fast_http.Prelude.{
  ℕ, ◌+◌, ◌-◌, ◌*◌, ◌%◌, ◌^◌, ◌≤◌, ◌<◌, ◌≡◌, refl, sym, ap, ap₂, ◌∙◌, false, Option, none, some,
  List, [], ◌∷◌, ◌++◌, append_assoc, append-nil, arith, suc, u32, leb, ltb, ◌==◌, if◌then◌else◌,
  ◌>>=◌, length, take, drop, slice, take-append_ge, drop-append_ge, take-append_le, length-append,
}
use fast_http.Dynmem.{Page, Dynmem, check_len, getpage, in_page}
use fast_http.Dynmem.Foreach.{Callback, start, foreach}
use fast_http.Dynmem.Walk.{
  flat, Sized, length-flat, flat-append, Sized-append, Split, getpage-Split, AllNonempty, run,
  Walked,
}
use fast_http.Dynmem.Walk.Range.{
  range, start-Walked, flatten-range, range-AllNonempty, range_one_page,
}
use fast_http.Dynmem.Sizes.{IsValid, page_bounds, in_page-eq-mod}

-- What a walk over `[off, off + len)` leaves: the bytes `o` there, and all else as before.
pub record Visited {S : Type 0} (m : Dynmem) (off len : ℕ) (result : Option (ℕ × Dynmem × S))
    (o : List ℕ) (t : S) : Type 0 where
  pub out : List Page
  pub returns : result ≡ some (len, record m { pages = out }, t)
  pub holds : flat out ≡ take off (flat m.pages) ++ (o ++ drop (off + len) (flat m.pages))
  pub sized : Sized m.page out
  pub same_count : length out ≡ length m.pages

-- The range is cut into pieces, and the walk is a run over them.
pub record Cut (m : Dynmem) (off len : ℕ) : Type 1 where
  pub parts : List (List ℕ)
  pub whole : flatten parts ≡ slice off len (flat m.pages)
  pub nonempty : AllNonempty parts
  pub one_page : off % m.page + len ≤ m.page → (c : List ℕ) × (parts ≡ c ∷ [])
  pub visits :
      {S : Type 0} (callback : Callback S)
      → ((s s' : S) (c piece : List ℕ) (ret : ℕ)
          → callback s c ≡ some (s', piece, ret)
          → length piece ≡ length c)
      → (s : S) (o : List ℕ) (t : S) → run callback parts s ≡ some (o, t)
      → Visited m off len (foreach callback m off len s) o t

-- A range within the capacity is walked as it is.
check_len-in : (cap off len : ℕ) → off + len ≤ cap → cap < 2 ^ 32 → check_len cap off len ≡ len
unfolding check_len
check_len-in cap off len h c = ground arith

-- An empty range is not walked.
pub foreach-zero :
    {S : Type 0} (callback : Callback S) (m : Dynmem) (off : ℕ) (s : S)
    → off + 0 ≤ m.cap
    → m.cap < 2 ^ 32
    → foreach callback m off 0 s ≡ some (0, m, s)
unfolding foreach
foreach-zero callback m off s h c = rw (check_len-in m.cap off 0 h c) refl

module _ {m : Dynmem} (off len : ℕ) (v : IsValid m) (pos : 0 < len) (fits : off + len ≤ m.cap) where
  split : Split m.page off m.pages
  split = getpage-Split m.page off m.pages (page_bounds v).0 v.sized (omega (arith, v.cap_pages))

  -- The offset in the page that holds `off`.
  within : ℕ
  within = off % m.page

  within-lt : off % m.page < m.page
  within-lt = mod-lt off (page_bounds v).0

  open split use {before, node, behind, whole, found, at_offset, sized_before, sized_behind}

  abbrev rest : List ℕ
  rest = node.bytes ++ flat behind

  flat-split : flat m.pages ≡ flat before ++ rest
  flat-split = ap flat whole ∙ flat-append before (node ∷ behind)

  off-split : off ≡ length (flat before) + within
  unfolding within
  off-split = omega (arith, at_offset, length-flat m.page before sized_before)

  count-split : length m.pages ≡ length before + suc (length behind)
  count-split = ap length whole ∙ length-append before (node ∷ behind)

  inside-pages : within + len ≤ suc (length behind) * m.page
  unfolding within
  inside-pages = omega (arith, at_offset, v.cap_pages, fits, ap (λ (k : ℕ). k * m.page) count-split)

  kept_before : take (length m.pages - suc (length behind)) m.pages ≡ before
  kept_before =
      ap (take (length m.pages - suc (length behind))) whole
      ∙ (take-append_ge (length m.pages - suc (length behind)) 0 before (node ∷ behind)
            (omega (arith, count-split))
          ∙ append-nil before)

  parts : List (List ℕ)
  parts = range m.page within node behind len

  flatten-parts : flatten parts ≡ slice off len (flat m.pages)
  unfolding parts within
  flatten-parts =
      flatten-range m.page (off % m.page) len node behind within-lt sized_behind
      ∙ ap (take len) (
          sym (
            ap (drop off) flat-split
            ∙ drop-append_ge off (off % m.page) (flat before) rest off-split))

  nonzero : (len == 0) ≡ false
  nonzero = ground arith

  foreach-start :
      {S : Type 0} (callback : Callback S) (s : S)
      → foreach callback m off len s ≡ (
          start callback m.page (off % m.page) (node ∷ behind) len s >>= λ (after, t).
          some (len, record m { pages = before ++ after }, t))
  unfolding foreach
  foreach-start callback s =
      rw
        (
          check_len-in m.cap off len fits v.cap_small,
          found,
          in_page-eq-mod off v,
          nonzero,
          kept_before,
        )
        refl

  foreach-Visited :
      {S : Type 0} (callback : Callback S)
      → ((s s' : S) (c piece : List ℕ) (ret : ℕ)
          → callback s c ≡ some (s', piece, ret)
          → length piece ≡ length c)
      → (s : S) (o : List ℕ) (t : S) → run callback parts s ≡ some (o, t)
      → Visited m off len (foreach callback m off len s) o t
  unfolding parts within
  foreach-Visited callback keeps s o t e = record {
    out = before ++ w.out;
    returns = rw (foreach-start callback s, w.returns) refl;
    holds =
        flat-append before w.out
        ∙ (ap (λ l. flat before ++ l) w.holds
            ∙ (sym (append_assoc (flat before) (take (off % m.page) node.bytes) _)
                ∙ sym (ap₂ (λ a b. a ++ (o ++ b)) first last)));
    sized = Sized-append m.page before w.out sized_before w.sized;
    same_count = length-append before w.out ∙ omega (arith, w.same_count, count-split);
  }
    where
      w :
          Walked m.page
            (suc (length behind))
            (start callback m.page (off % m.page) (node ∷ behind) len s)
            (take (off % m.page) node.bytes ++ (o ++ drop (off % m.page + len) rest))
            t
      w =
          start-Walked callback keeps m.page (off % m.page) len node behind s o t within-lt pos
            sized_behind inside-pages e

      first : take off (flat m.pages) ≡ flat before ++ take (off % m.page) node.bytes
      first =
          ap (take off) flat-split
          ∙ (take-append_ge off (off % m.page) (flat before) rest off-split
              ∙ ap (λ l. flat before ++ l)
                  (take-append_le (off % m.page) node.bytes (flat behind)
                    (omega (arith, within-lt, sized_behind.0))))

      last : drop (off + len) (flat m.pages) ≡ drop (off % m.page + len) rest
      last =
          ap (drop (off + len)) flat-split
          ∙ drop-append_ge (off + len) (off % m.page + len) (flat before) rest
              (omega (arith, off-split))

  -- Every range within the capacity is cut so.
  pub foreach-Cut : Cut m off len
  unfolding parts within
  foreach-Cut = record {
    parts = parts;
    whole = flatten-parts;
    nonempty = range-AllNonempty m.page (off % m.page) len node behind within-lt pos sized_behind;
    one_page = range_one_page m.page (off % m.page) len node behind pos;
    visits = foreach-Visited;
  }
