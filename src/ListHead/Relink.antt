-- ===== src/ListHead/Relink.antt =====
-- What the operations of list.h do to a ring.
use fast_http.Prelude.{
  ℕ, ◌≡◌, ◌≢◌, refl, sym, subst, true, false, List, [], ◌∷◌, ◌++◌, arith, ◌==◌, append_assoc,
}
use fast_http.ListHead.{Links, insert_between}
use fast_http.ListHead.Ring.{
  Run, Off, Apart, Ring, last, first, Run-split, Run-append, Off-split, Apart-split, Apart-last,
  Apart-first, Off-last, Same, Run-front, Run-back,
}

-- From the first of the back to the head again.
unfoldable pub Back : Links → List ℕ → ℕ → Type 0
Back l [] head = Unit
Back l (y ∷ ys) head = Run l y (ys ++ head ∷ [])

pub to-Back :
    (l : Links) (a : ℕ) (ys : List ℕ) (head : ℕ)
    → Run l a (ys ++ head ∷ [])
    → (l.next a ≡ first ys head) × (l.prev (first ys head) ≡ a) × Back l ys head
unfolding Run Back first
to-Back l a [] head (n, p, r) = (n, p, tt)
to-Back l a (y ∷ ys) head r = r

pub from-Back :
    (l : Links) (a : ℕ) (ys : List ℕ) (head : ℕ)
    → l.next a ≡ first ys head
    → l.prev (first ys head) ≡ a
    → Back l ys head
    → Run l a (ys ++ head ∷ [])
unfolding Run Back first
from-Back l a [] head n p r = (n, p, tt)
from-Back l a (y ∷ ys) head n p r = (n, p, r)

Off-end : (p : ℕ) (ys : List ℕ) (head : ℕ) → Off p ys → head ≢ p → Off p (ys ++ head ∷ [])
unfolding Off
Off-end p [] head o h = (h, tt)
Off-end p (y ∷ ys) head (k, o) h = (k, Off-end p ys head o h)

-- What lies in front of the place and behind it stays linked.
pub kept_front :
    {l l' : Links} (head e : ℕ) (xs ys : List ℕ)
    → Same l l' (last head xs) (first ys head) e
    → Run l head xs
    → Apart (head ∷ (xs ++ ys))
    → Off e (head ∷ (xs ++ ys))
    → Run l' head xs
unfolding Off Apart first
kept_front head e xs [] s r (o, d) (h, o') =
    Run-front head xs s r ((Off-split head xs [] o).0, (Apart-split xs [] d).0)
      ((Off-split head xs [] o).0) (h, (Off-split e xs [] o').0)
kept_front head e xs (y ∷ ys) s r (o, d) (h, o') =
    Run-front head xs s r ((Off-split head xs (y ∷ ys) o).0, (Apart-split xs (y ∷ ys) d).0)
      (Apart-first xs y ys d) (h, (Off-split e xs (y ∷ ys) o').0)

pub kept-Back :
    {l l' : Links} (head e : ℕ) (xs ys : List ℕ)
    → Same l l' (last head xs) (first ys head) e
    → Back l ys head
    → Apart (head ∷ (xs ++ ys))
    → Off e (head ∷ (xs ++ ys))
    → Back l' ys head
unfolding Off Apart first Back
kept-Back head e xs [] s r d o = tt
kept-Back head e xs (y ∷ ys) s r (o, d) (h, o') =
    let (other, _) = (Off-split head xs (y ∷ ys) o).1 in
    let (off, _) = (Apart-split xs (y ∷ ys) d).1 in
    Run-back y ys head s r (Apart-last head xs (y ∷ ys) (o, d)) ((Off-split e xs (y ∷ ys) o').1)
      (Off-end y ys head off (λ e. other (sym e))) h

pub equal_self : (x : ℕ) → (x == x) ≡ true
equal_self x = ground arith

pub unequal : (x y : ℕ) → x ≢ y → (x == y) ≡ false
unequal x y h = ground arith

pub first-Off : (e : ℕ) (ys : List ℕ) (head : ℕ) → Off e ys → head ≢ e → first ys head ≢ e
unfolding Off first
first-Off e [] head o h = h
first-Off e (y ∷ ys) head (k, o) h = k

-- The pointers that an insertion sets.
insert-Same : (l : Links) (entry p n : ℕ) → Same l (insert_between l entry p n) p n entry
unfolding insert_between
insert-Same l entry p n = record {
  nexts = λ q h h'. rw (unequal q p h, unequal q entry h') refl;
  prevs = λ q h h'. rw (unequal q entry h', unequal q n h) refl;
}

insert_next : (l : Links) (entry p n : ℕ) → (insert_between l entry p n).next p ≡ entry
unfolding insert_between
insert_next l entry p n = rw (equal_self p) refl

insert_prev : (l : Links) (entry p n : ℕ) → (insert_between l entry p n).prev entry ≡ p
unfolding insert_between
insert_prev l entry p n = rw (equal_self entry) refl

insert_entry_next :
    (l : Links) (entry p n : ℕ) → entry ≢ p → (insert_between l entry p n).next entry ≡ n
unfolding insert_between
insert_entry_next l entry p n h = rw (unequal entry p h, equal_self entry) refl

insert_next_prev :
    (l : Links) (entry p n : ℕ) → n ≢ entry → (insert_between l entry p n).prev n ≡ entry
unfolding insert_between
insert_next_prev l entry p n h = rw (unequal n entry h, equal_self n) refl

Off-insert : (x e : ℕ) (xs ys : List ℕ) → Off x (xs ++ ys) → e ≢ x → Off x (xs ++ e ∷ ys)
unfolding Off
Off-insert x e [] ys o h = (h, o)
Off-insert x e (z ∷ xs) ys (k, o) h = (k, Off-insert x e xs ys o h)

Apart-insert : (e : ℕ) (xs ys : List ℕ) → Apart (xs ++ ys) → Off e (xs ++ ys) → Apart (xs ++ e ∷ ys)
unfolding Off Apart
Apart-insert e [] ys d o = (o, d)
Apart-insert e (x ∷ xs) ys (k, d) (h, o) =
    (Off-insert x e xs ys k (λ q. h (sym q)), Apart-insert e xs ys d o)

Run-step :
    (l : Links) (a x : ℕ) (zs : List ℕ)
    → l.next a ≡ x
    → l.prev x ≡ a
    → Run l x zs
    → Run l a (x ∷ zs)
unfolding Run
Run-step l a x zs e e' r = (e, e', r)

-- A node that is not in the ring is put between what lies in front and what lies behind.
pub parts-Ring :
    (l : Links) (head entry : ℕ) (xs ys : List ℕ)
    → Run l head xs
    → Back l ys head
    → Apart (head ∷ (xs ++ ys))
    → Off entry (head ∷ (xs ++ ys))
    → Ring (insert_between l entry (last head xs) (first ys head)) head (xs ++ entry ∷ ys)
unfolding Off
parts-Ring l head entry xs ys front back apart (h, o) =
    let p = last head xs in
    let n = first ys head in
    let l' = insert_between l entry p n in
    let s = insert-Same l entry p n in
    let (off_xs, off_ys) = Off-split entry xs ys o in
    record {
      linked = subst (Run l' head) (sym (append_assoc xs (entry ∷ ys) (head ∷ []))) (
          Run-append l' head xs (entry ∷ (ys ++ head ∷ []))
            (kept_front head entry xs ys s front apart (h, o))
            (Run-step l' p entry (ys ++ head ∷ []) (insert_next l entry p n)
              (insert_prev l entry p n)
              (from-Back l' entry ys head
                (insert_entry_next l entry p n (λ e. Off-last entry head xs (h, off_xs) (sym e)))
                (insert_next_prev l entry p n (first-Off entry ys head off_ys h))
                (kept-Back head entry xs ys s back apart (h, o)))));
      apart = Apart-insert entry (head ∷ xs) ys apart (h, o);
    }

pub insert-Ring :
    {l : Links} (head entry : ℕ) (xs ys : List ℕ)
    → Ring l head (xs ++ ys)
    → Off entry (head ∷ (xs ++ ys))
    → Ring (insert_between l entry (last head xs) (first ys head)) head (xs ++ entry ∷ ys)
insert-Ring {l} head entry xs ys r o =
    let (front, rest) =
      Run-split l head xs (ys ++ head ∷ [])
        (subst (Run l head) (append_assoc xs ys (head ∷ [])) r.linked) in
    let (_, _, back) = to-Back l (last head xs) ys head rest in
    parts-Ring l head entry xs ys front back r.apart o
