-- ===== src/Dynmem/Walk/Range.antt =====
-- The whole walk: `Foreach.walk`, `start` and `foreach` as runs over the pieces of the range.
use mathlib.Core.List.{flatten}
use native.Mathlib.Nat.{zero-add}
use fast_http.Prelude.{
  ℕ, zero, suc, ◌+◌, ◌-◌, ◌*◌, ◌≤◌, ◌<◌, ◌≡◌, refl, sym, ap, some, List, [], ◌∷◌, ◌++◌, arith, ltb,
  ◌==◌, if◌then◌else◌, length, take, drop, slice, ◌⊎◌, inl, inr, length-take, length-drop, drop-all,
  take-all, take-zero, drop-zero, append-nil, take-append-drop, take-append_le, take-append_ge,
  drop-append_le, drop-append_ge,
}
use fast_http.Dynmem.{Page}
use fast_http.Dynmem.Foreach.{Callback, visit, walk, start}
use fast_http.Dynmem.Walk.{flat, Sized, pieces, AllNonempty, run, Walked}
use fast_http.Dynmem.Walk.Visit.{visit-Walked, suc-ne-zero, some_pair}

-- The size of the next piece.
abbrev piece_size : ℕ → ℕ → ℕ
piece_size ps left = if ltb ps left then ps else left

piece_cases :
    (ps left : ℕ)
    → (left ≤ ps) × (piece_size ps left ≡ left) ⊎ (ps < left) × (piece_size ps left ≡ ps)
piece_cases ps left = ground arith

pieces-zero : (ps : ℕ) (ns : List Page) (left : ℕ) → left ≡ 0 → pieces ps ns left ≡ []
unfolding pieces
pieces-zero ps [] left h = refl
pieces-zero ps (n ∷ ns) left h = rw h refl

-- What follows a piece, in the page and in those behind it.
drop_piece :
    (ps left : ℕ) (xs ys : List ℕ)
    → length xs ≡ ps
    → drop left (xs ++ ys) ≡ drop (piece_size ps left) xs ++ drop (left - piece_size ps left) ys
drop_piece ps left xs ys h = elim (piece_cases ps left) [
  | inl (short, e) ↦
      rw (e, drop-append_le left xs ys (omega arith))
        (rw (drop-zero (left - left) ys (omega arith)) refl)
  | inr (long, e) ↦
      rw (e, drop-append_ge left (left - ps) xs ys (omega arith), drop-all ps xs (omega arith)) refl
]

take_piece :
    (ps left : ℕ) (xs ys : List ℕ)
    → length xs ≡ ps
    → take left (xs ++ ys) ≡ take (piece_size ps left) xs ++ take (left - piece_size ps left) ys
take_piece ps left xs ys h = elim (piece_cases ps left) [
  | inl (short, e) ↦
      rw (e, take-append_le left xs ys (omega arith))
        (rw (take-zero (left - left) ys (omega arith), append-nil) refl)
  | inr (long, e) ↦
      rw (e, take-append_ge left (left - ps) xs ys (omega arith))
        (rw (take-all ps xs (omega arith)) refl)
]

flatten-pieces :
    (ps : ℕ) (ns : List Page) (left : ℕ)
    → Sized ps ns
    → flatten (pieces ps ns left) ≡ take left (flat ns)
unfolding pieces flatten
flatten-pieces ps [] zero hs = refl
flatten-pieces ps [] (suc left) hs = refl
flatten-pieces ps (n ∷ ns) zero hs = refl
flatten-pieces ps (n ∷ ns) (suc left) hs =
    rw
      (
        suc-ne-zero left,
        take_piece ps (suc left) n.bytes (flat ns) hs.0,
        ← flatten-pieces ps ns (suc left - piece_size ps (suc left)) hs.1,
      )
      refl

drop_range :
    (ps off left : ℕ) (n : Page) (ns : List Page)
    → off < ps
    → length n.bytes ≡ ps
    → drop (off + left) (n.bytes ++ flat ns)
      ≡ drop (off + piece_size (ps - off) left) n.bytes
        ++ drop (left - piece_size (ps - off) left) (flat ns)
drop_range ps off left n ns inside h = elim (piece_cases (ps - off) left) [
  | inl (short, e) ↦
      rw
        (
          e,
          drop-append_le (off + left) n.bytes (flat ns) (omega arith),
          drop-zero (left - left) (flat ns) (omega arith),
        )
        refl
  | inr (long, e) ↦
      rw
        (
          e,
          drop-append_ge (off + left) (left - (ps - off)) n.bytes (flat ns) (omega arith),
          drop-all (off + (ps - off)) n.bytes (omega arith),
        )
        refl
]

-- The pieces of a range that begins at `off` of the first page.
abbrev pub range : ℕ → ℕ → Page → List Page → ℕ → List (List ℕ)
range ps off n ns left =
    let size = piece_size (ps - off) left in
    if off == 0
    then pieces ps (n ∷ ns) left
    else slice off size n.bytes ∷ pieces ps ns (left - size)

-- The two ways in which the code takes the lesser of two lengths.
same_size : (p left : ℕ) → (if ltb left p then left else p) ≡ piece_size p left
same_size p left = ground arith

module _ {S : Type 0} (callback : Callback S)
    (keeps : (s s' : S) (c piece : List ℕ) (ret : ℕ)
      → callback s c ≡ some (s', piece, ret)
      → length piece ≡ length c) where
  -- A piece from `off` in the first page, and what follows in the pages behind it.
  visit_behind :
      (ps off left size : ℕ) (n : Page) (ns : List Page) (s : S) (o : List ℕ) (t : S)
      → Sized ps (n ∷ ns)
      → off < ps
      → size ≡ piece_size (ps - off) left
      → ((s' : S) (o' : List ℕ) (t' : S)
          → run callback (pieces ps ns (left - size)) s' ≡ some (o', t')
          → Walked ps
              (length ns)
              (walk callback ps ns (left - size) s')
              (o' ++ drop (left - size) (flat ns))
              t')
      → run callback (slice off size n.bytes ∷ pieces ps ns (left - size)) s ≡ some (o, t)
      → Walked ps
          (suc (length ns))
          (visit callback n ns off size s (walk callback ps ns (left - size)))
          (take off n.bytes ++ (o ++ (drop (off + size) n.bytes ++ drop (left - size) (flat ns))))
          t
  visit_behind ps off left size n ns s o t hs inside sz ih e =
      visit-Walked callback keeps ps off size n ns (pieces ps ns (left - size))
        (drop (left - size) (flat ns)) (walk callback ps ns (left - size)) s
        (omega (arith, hs.0, piece_cases (ps - off) left)) hs last
        (sym
          (rw (flatten-pieces ps ns (left - size) hs.1) (take-append-drop (left - size) (flat ns))))
        ih o t e
    where
      last : (drop (off + size) n.bytes ≡ []) ⊎ (pieces ps ns (left - size) ≡ [])
      last = elim (piece_cases (ps - off) left) [
        | inl (short, q) ↦ inr (pieces-zero ps ns (left - size) (omega arith))
        | inr (long, q) ↦ inl (drop-all (off + size) n.bytes (omega (arith, hs.0)))
      ]

  walk-zero :
      (ps : ℕ) (ns : List Page) (s : S) (o : List ℕ) (t : S)
      → Sized ps ns
      → run callback (pieces ps ns 0) s ≡ some (o, t)
      → Walked ps (length ns) (walk callback ps ns 0 s) (o ++ flat ns) t
  unfolding run pieces walk
  walk-zero ps [] s o t hs e =
      let (empty, same) = some_pair e in
      rw (← empty, ← same)
        (record { out = []; returns = refl; holds = refl; sized = hs; same_count = refl })
  walk-zero ps (n ∷ ns) s o t hs e =
      let (empty, same) = some_pair e in
      rw (← empty, ← same)
        (record { out = n ∷ ns; returns = refl; holds = refl; sized = hs; same_count = refl })

  walk-suc :
      (ps left : ℕ) (n : Page) (ns : List Page) (s : S) (o : List ℕ) (t : S)
      → 0 < ps
      → Sized ps (n ∷ ns)
      → (let rest = suc left - piece_size ps (suc left) in
          (s' : S) (o' : List ℕ) (t' : S)
          → run callback (pieces ps ns rest) s' ≡ some (o', t')
          → Walked ps (length ns) (walk callback ps ns rest s') (o' ++ drop rest (flat ns)) t')
      → run callback (pieces ps (n ∷ ns) (suc left)) s ≡ some (o, t)
      → Walked ps
          (suc (length ns))
          (walk callback ps (n ∷ ns) (suc left) s)
          (o ++ drop (suc left) (n.bytes ++ flat ns))
          t
  unfolding pieces walk
  walk-suc ps left n ns s o t hp hs ih e =
      rw (suc-ne-zero left, drop_piece ps (suc left) n.bytes (flat ns) hs.0) (rw zero-add at first)
    where
      size : ℕ
      size = piece_size ps (suc left)

      first :
          Walked ps
            (suc (length ns))
            (visit callback n ns 0 size s (walk callback ps ns (suc left - size)))
            (o ++ (drop (0 + size) n.bytes ++ drop (suc left - size) (flat ns)))
            t
      first =
          visit_behind ps 0 (suc left) size n ns s o t hs hp
            (ap (λ p. piece_size p (suc left)) (omega arith)) ih (rw (suc-ne-zero left) at e)

  walk-Walked :
      (ps : ℕ) (ns : List Page) (left : ℕ) (s : S) (o : List ℕ) (t : S)
      → 0 < ps
      → Sized ps ns
      → left ≤ length ns * ps
      → run callback (pieces ps ns left) s ≡ some (o, t)
      → Walked ps (length ns) (walk callback ps ns left s) (o ++ drop left (flat ns)) t
  walk-Walked ps [] zero s o t hp hs fits e = walk-zero ps [] s o t hs e
  walk-Walked ps [] (suc left) s o t hp hs fits e = absurd (omega arith)
  walk-Walked ps (n ∷ ns) zero s o t hp hs fits e = walk-zero ps (n ∷ ns) s o t hs e
  walk-Walked ps (n ∷ ns) (suc left) s o t hp hs fits e =
      walk-suc ps left n ns s o t hp hs
        (λ s' o' t' e'.
          walk-Walked ps ns (suc left - piece_size ps (suc left)) s' o' t' hp hs.1
            (omega (arith, piece_cases ps (suc left))) e')
        e

  pub start-Walked :
      (ps off left : ℕ) (n : Page) (ns : List Page) (s : S) (o : List ℕ) (t : S)
      → off < ps
      → 0 < left
      → Sized ps (n ∷ ns)
      → off + left ≤ suc (length ns) * ps
      → run callback (range ps off n ns left) s ≡ some (o, t)
      → Walked ps
          (suc (length ns))
          (start callback ps off (n ∷ ns) left s)
          (take off n.bytes ++ (o ++ drop (off + left) (n.bytes ++ flat ns)))
          t
  unfolding start
  start-Walked ps zero left n ns s o t inside pos hs fits e =
      rw (zero-add) (walk-Walked ps (n ∷ ns) left s o t inside hs (omega arith) e)
  start-Walked ps (suc off) left n ns s o t inside pos hs fits e =
      rw
        (
          suc-ne-zero off,
          same_size (ps - suc off) left,
          drop_range ps (suc off) left n ns inside hs.0,
        )
        (visit_behind ps (suc off) left (piece_size (ps - suc off) left) n ns s o t hs inside refl
          (λ s' o' t' e'.
            walk-Walked ps ns (left - piece_size (ps - suc off) left) s' o' t' (omega arith) hs.1
              (omega (arith, piece_cases (ps - suc off) left)) e')
          (rw (suc-ne-zero off) at e))

pub flatten-range :
    (ps off left : ℕ) (n : Page) (ns : List Page)
    → off < ps
    → Sized ps (n ∷ ns)
    → flatten (range ps off n ns left) ≡ slice off left (n.bytes ++ flat ns)
unfolding flatten
flatten-range ps zero left n ns inside hs = flatten-pieces ps (n ∷ ns) left hs
flatten-range ps (suc off) left n ns inside hs =
    rw
      (
        suc-ne-zero off,
        drop-append_le (suc off) n.bytes (flat ns) (omega (arith, hs.0)),
        take_piece (ps - suc off) left (drop (suc off) n.bytes) (flat ns)
            (omega (arith, hs.0, length-drop (suc off) n.bytes)),
        ← flatten-pieces ps ns (left - piece_size (ps - suc off) left) hs.1,
      )
      refl

pieces-AllNonempty :
    (ps : ℕ) (ns : List Page) (left : ℕ) → 0 < ps → Sized ps ns → AllNonempty (pieces ps ns left)
unfolding pieces
pieces-AllNonempty ps [] left hp hs = tt
pieces-AllNonempty ps (n ∷ ns) zero hp hs = tt
pieces-AllNonempty ps (n ∷ ns) (suc left) hp hs = rw (suc-ne-zero left) (
  omega (arith, hs.0, piece_cases ps (suc left), length-take (piece_size ps (suc left)) n.bytes),
  pieces-AllNonempty ps ns (suc left - piece_size ps (suc left)) hp hs.1,
)

pub range-AllNonempty :
    (ps off left : ℕ) (n : Page) (ns : List Page)
    → off < ps
    → 0 < left
    → Sized ps (n ∷ ns)
    → AllNonempty (range ps off n ns left)
range-AllNonempty ps zero left n ns inside pos hs = pieces-AllNonempty ps (n ∷ ns) left inside hs
range-AllNonempty ps (suc off) left n ns inside pos hs = rw (suc-ne-zero off) (
  omega (
    arith,
    hs.0,
    piece_cases (ps - suc off) left,
    length-take (piece_size (ps - suc off) left) (drop (suc off) n.bytes),
    length-drop (suc off) n.bytes,
  ),
  pieces-AllNonempty ps ns (left - piece_size (ps - suc off) left) (omega arith) hs.1,
)

-- A range inside of one page is one piece.
pub range_one_page :
    (ps off left : ℕ) (n : Page) (ns : List Page)
    → 0 < left
    → off + left ≤ ps
    → (c : List ℕ) × (range ps off n ns left ≡ c ∷ [])
unfolding pieces
range_one_page ps zero (suc left) n ns pos fits =
    let size : (if ltb ps (suc left) then ps else suc left) ≡ suc left = ground arith in
    let rest : suc left - suc left ≡ 0 = omega arith in
    (take (suc left) n.bytes, rw (suc-ne-zero left, size, rest, pieces-zero ps ns) refl)
range_one_page ps (suc off) left n ns pos fits =
    let size : piece_size (ps - suc off) left ≡ left = ground arith in
    let rest : left - left ≡ 0 = omega arith in
    (slice (suc off) left n.bytes, rw (suc-ne-zero off, size, rest, pieces-zero ps ns) refl)
range_one_page ps zero zero n ns pos fits = absurd (omega arith)
