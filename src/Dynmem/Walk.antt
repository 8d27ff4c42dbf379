-- ===== src/Dynmem/Walk.antt =====
-- The walk of `dynmem_foreach` over the pages, as a run of the callback over the pieces of one range
-- of the bytes, which forgets where the pages begin and end.
pub mod Visit
pub mod Range
use native.Mathlib.Nat.{mod-eq-sub-mod, mod-eq_of_lt}
use mathlib.Core.List.{flatten}
use fast_http.Prelude.{
  ℕ, zero, suc, ◌+◌, ◌-◌, ◌*◌, ◌%◌, ◌^◌, ◌≤◌, ◌<◌, ◌≡◌, refl, sym, ap, ap₂, ◌∙◌, ◌≢◌, false, Option,
  none, some, List, [], ◌∷◌, ◌++◌, append_assoc, arith, leb, ltb, ◌==◌, if◌then◌else◌, ◌>>=◌, ◌>>◌,
  require, length, take, drop, slice, min, length-append, length-take, length-drop, take-zero,
  drop-zero, take-append_ge, drop-append_ge, take-append_le, drop-append_le, dec_lt, >>=-some, ◌⊎◌,
  inl, inr,
}
use fast_http.Dynmem.{Page, Dynmem, getpage}
use fast_http.Dynmem.Foreach.{Callback, call, visit, walk, start}

-- All the bytes of the pages.
abbrev pub flat : List Page → List ℕ
flat [] = []
flat (n ∷ ns) = n.bytes ++ flat ns

-- Every page has the same size.
abbrev pub Sized : ℕ → List Page → Type 0
Sized ps [] = Unit
Sized ps (n ∷ ns) = (length n.bytes ≡ ps) × Sized ps ns

pub length-flat : (ps : ℕ) (ns : List Page) → Sized ps ns → length (flat ns) ≡ length ns * ps
length-flat ps [] h = omega arith
length-flat ps (n ∷ ns) h = omega (arith, length-append n.bytes (flat ns), length-flat ps ns h.1)

pub flat-append : (ms ns : List Page) → flat (ms ++ ns) ≡ flat ms ++ flat ns
flat-append [] ns = refl
flat-append (m ∷ ms) ns = simp (flat-append ms ns, append_assoc)

pub Sized-append : (ps : ℕ) (ms ns : List Page) → Sized ps ms → Sized ps ns → Sized ps (ms ++ ns)
Sized-append ps [] ns h k = k
Sized-append ps (m ∷ ms) ns h k = (h.0, Sized-append ps ms ns h.1 k)

-- Where `getpage` arrives.
pub record Split (ps pos : ℕ) (pages : List Page) : Type 0 where
  pub before : List Page
  pub node : Page
  pub behind : List Page
  pub whole : pages ≡ before ++ node ∷ behind
  pub found : getpage ps pos pages ≡ node ∷ behind
  pub at_offset : pos ≡ length before * ps + pos % ps
  pub sized_before : Sized ps before
  pub sized_behind : Sized ps (node ∷ behind)

Split-here :
    (ps pos : ℕ) (n : Page) (ns : List Page) → pos < ps → Sized ps (n ∷ ns) → Split ps pos (n ∷ ns)
unfolding getpage
Split-here ps pos n ns h hs = record {
  before = [];
  node = n;
  behind = ns;
  whole = refl;
  found = ground arith;
  at_offset = omega (arith, mod-eq_of_lt h);
  sized_before = tt;
  sized_behind = hs;
}

Split-next :
    (ps pos : ℕ) (n : Page) (ns : List Page)
    → ps ≤ pos
    → Sized ps (n ∷ ns)
    → Split ps (pos - ps) ns
    → Split ps pos (n ∷ ns)
unfolding getpage
Split-next ps pos n ns h hs rest = record {
  before = n ∷ rest.before;
  node = rest.node;
  behind = rest.behind;
  whole = ap (λ l. n ∷ l) rest.whole;
  found = ground (arith, rest.found);
  at_offset = omega (arith, rest.at_offset, mod-eq-sub-mod h);
  sized_before = (hs.0, rest.sized_before);
  sized_behind = rest.sized_behind;
}

pub getpage-Split :
    (ps pos : ℕ) (pages : List Page)
    → 0 < ps
    → Sized ps pages
    → pos < length pages * ps
    → Split ps pos pages
getpage-Split ps pos [] hp hs h = absurd (omega arith)
getpage-Split ps pos (n ∷ ns) hp hs h = elim (dec_lt pos ps) [
  | yes near ↦ Split-here ps pos n ns near hs
  | no far ↦
      Split-next ps pos n ns (omega arith) hs (getpage-Split ps (pos - ps) ns hp hs.1 (omega arith))
]

-- The pieces of the first `left` bytes, a page at a time.
pub pieces : ℕ → List Page → ℕ → List (List ℕ)
pieces ps [] left = []
pieces ps (n ∷ ns) left =
    let size = if ltb ps left then ps else left in
    if left == 0 then [] else take size n.bytes ∷ pieces ps ns (left - size)

abbrev pub AllNonempty : List (List ℕ) → Type 0
AllNonempty [] = Unit
AllNonempty (c ∷ cs) = (0 < length c) × AllNonempty cs

-- What a walk returns: the argument `t`, and pages of the same shape that hold `bytes`.
pub record Walked {S : Type 0} (ps count : ℕ) (result : Option (List Page × S)) (bytes : List ℕ)
    (t : S) : Type 0 where
  pub out : List Page
  pub returns : result ≡ some (out, t)
  pub holds : flat out ≡ bytes
  pub sized : Sized ps out
  pub same_count : length out ≡ count

-- After a piece: the bytes behind it stay as they are if the result was 0.
abbrev pub joined {ℓ} :
    {S : Type ℓ} → List ℕ → List ℕ → S → ℕ → Option (List ℕ × S) → Option (List ℕ × S)
joined piece behind s' ret more =
    if ret == 0 then some (piece ++ behind, s') else (more >>= λ (out, t). some (piece ++ out, t))

module _ {S : Type 0} (callback : Callback S) where
  -- The callback on one piece after the other: the bytes that it leaves, and its argument at the end.
  unfoldable pub run : List (List ℕ) → S → Option (List ℕ × S)
  run [] s = some ([], s)
  run (c ∷ cs) s = callback s c >>= λ (s', piece, ret). joined piece (flatten cs) s' ret (run cs s')
