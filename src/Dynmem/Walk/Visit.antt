-- ===== src/Dynmem/Walk/Visit.antt =====
-- One round of the walk, `Foreach.visit`, as one step of `run`.
use mathlib.Core.List.{flatten}
use fast_http.Prelude.{
  ℕ, zero, suc, ◌+◌, ◌≤◌, ◌≡◌, refl, ap, ◌∙◌, ◌≢◌, false, Option, some, List, [], ◌∷◌, ◌++◌,
  append_assoc, arith, ◌==◌, >>=-some, length, take, drop, slice, ◌⊎◌, inl, inr, length-append,
  length-take, length-drop,
}
use fast_http.Dynmem.{Page}
use fast_http.Dynmem.Foreach.{Callback, call, visit}
use fast_http.Dynmem.Walk.{flat, Sized, run, joined, Walked}

pub some_pair {ℓ κ} :
    {A : Type ℓ} {B : Type κ} {a c : A} {b d : B}
    → ◌≡◌ {A = Option (A × B)} (some (a, b)) (some (c, d))
    → (a ≡ c) × (b ≡ d)
some_pair h = (cc, cc)

pub suc-ne-zero : (n : ℕ) → (suc n == 0) ≡ false
suc-ne-zero n = ground arith

module _ {S : Type 0} (callback : Callback S)
    (keeps : (s s' : S) (c piece : List ℕ) (ret : ℕ)
      → callback s c ≡ some (s', piece, ret)
      → length piece ≡ length c) where
  -- A round on one piece, where that piece is the last one or goes up to the end of the page.
  module _ (ps off size : ℕ) (n : Page) (ns : List Page) (cs : List (List ℕ)) (tail : List ℕ)
      (next : S → Option (List Page × S)) (s : S) (fits : off + size ≤ length n.bytes)
      (hs : Sized ps (n ∷ ns)) (last : (drop (off + size) n.bytes ≡ []) ⊎ (cs ≡ []))
      (seam : flat ns ≡ flatten cs ++ tail)
      (go : (s' : S) (o' : List ℕ) (t' : S)
        → run callback cs s' ≡ some (o', t')
        → Walked ps (length ns) (next s') (o' ++ tail) t') where
    abbrev gap : List ℕ
    gap = drop (off + size) n.bytes

    abbrev visited : List ℕ → Page
    visited piece = record n { bytes = take off n.bytes ++ piece ++ gap }

    length-visited : (piece : List ℕ) → length piece ≡ size → length (visited piece).bytes ≡ ps
    length-visited piece h = omega (
      arith,
      h,
      hs.0,
      length-append (take off n.bytes ++ piece) gap,
      length-append (take off n.bytes) piece,
      length-take off n.bytes,
      length-drop (off + size) n.bytes,
    )

    length-slice : length (slice off size n.bytes) ≡ size
    length-slice = omega (arith, length-take size (drop off n.bytes), length-drop off n.bytes, fits)

    -- The bytes after a piece that ended the walk.
    gap-flat : gap ++ flat ns ≡ flatten cs ++ (gap ++ tail)
    unfolding flatten
    gap-flat = elim last [
      | inl closed ↦ rw closed seam
      | inr none_left ↦ rw none_left (ap (λ l. gap ++ l) (rw none_left at seam))
    ]

    run-nil : (s' : S) {o' : List ℕ} {t : S} → cs ≡ [] → run callback cs s' ≡ some (o', t) → o' ≡ []
    unfolding run
    run-nil s' {o'} {t} h e = ground arith

    gap-swap :
        (s' : S) (o' : List ℕ) {t : S}
        → run callback cs s' ≡ some (o', t)
        → gap ++ (o' ++ tail) ≡ o' ++ (gap ++ tail)
    gap-swap s' o' e = elim last [
      | inl closed ↦ rw closed refl
      | inr none_left ↦ rw (run-nil s' none_left e) refl
    ]

    visit-stopped :
        (s' : S) (piece : List ℕ)
        → callback s (slice off size n.bytes) ≡ some (s', piece, 0)
        → Walked ps
            (suc (length ns))
            (visit callback n ns off size s next)
            (take off n.bytes ++ ((piece ++ flatten cs) ++ (gap ++ tail)))
            s'
    unfolding visit call
    visit-stopped s' piece cb = record {
      out = visited piece ∷ ns;
      returns = ground (arith, cb, fits);
      holds = simp (append_assoc, gap-flat);
      sized = (length-visited piece (keeps _ _ _ _ _ cb ∙ length-slice), hs.1);
      same_count = refl;
    }

    visit-went_on :
        (s' : S) (piece : List ℕ) (ret : ℕ) (o' : List ℕ) (t : S)
        → callback s (slice off size n.bytes) ≡ some (s', piece, ret)
        → ret ≢ 0
        → run callback cs s' ≡ some (o', t)
        → Walked ps
            (suc (length ns))
            (visit callback n ns off size s next)
            (take off n.bytes ++ ((piece ++ o') ++ (gap ++ tail)))
            t
    unfolding visit call
    visit-went_on s' piece ret o' t cb ne e =
        let rest = go s' o' t e in
        record {
          out = visited piece ∷ rest.out;
          returns = ground (arith, cb, rest.returns, fits);
          holds = simp (append_assoc, rest.holds, gap-swap s' o' e);
          sized = (length-visited piece (keeps _ _ _ _ _ cb ∙ length-slice), rest.sized);
          same_count = ap suc rest.same_count;
        }

    visit_cases :
        (s' : S) (piece : List ℕ) (ret : ℕ) (o : List ℕ) (t : S)
        → callback s (slice off size n.bytes) ≡ some (s', piece, ret)
        → joined piece (flatten cs) s' ret (run callback cs s') ≡ some (o, t)
        → Walked ps
            (suc (length ns))
            (visit callback n ns off size s next)
            (take off n.bytes ++ (o ++ (gap ++ tail)))
            t
    visit_cases s' piece zero o t cb after =
        let (bytes, argument) = some_pair after in
        rw (← bytes, ← argument) (visit-stopped s' piece cb)
    visit_cases s' piece (suc r) o t cb after =
        let ((o', t'), ran, joined) =
          >>=-some (run callback cs s') _ (rw (suc-ne-zero r) at after) in
        let (bytes, argument) = some_pair joined in
        rw (← bytes, ← argument)
          (visit-went_on s' piece (suc r) o' t' cb (λ e. absurd (omega arith)) ran)

    pub visit-Walked :
        (o : List ℕ) (t : S)
        → run callback (slice off size n.bytes ∷ cs) s ≡ some (o, t)
        → Walked ps
            (suc (length ns))
            (visit callback n ns off size s next)
            (take off n.bytes ++ (o ++ (gap ++ tail)))
            t
    unfolding run
    visit-Walked o t e =
        let ((s', piece, ret), cb, after) = >>=-some (callback s (slice off size n.bytes)) _ e in
        visit_cases s' piece ret o t cb after
