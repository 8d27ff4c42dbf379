-- ===== src/ListHead/Ring.antt =====
-- The ring of the nodes of a list, and what keeps a part of it as it is.
use fast_http.Prelude.{ℕ, ◌≡◌, ◌≢◌, sym, ◌∙◌, List, [], ◌∷◌, ◌++◌}
use fast_http.ListHead.{Links}

-- Both pointers lead from `a` through the nodes of the list.
unfoldable pub Run : Links → ℕ → List ℕ → Type 0
Run l a [] = Unit
Run l a (x ∷ xs) = (l.next a ≡ x) × (l.prev x ≡ a) × Run l x xs

-- No node of the list is `p`.
unfoldable pub Off : ℕ → List ℕ → Type 0
Off p [] = Unit
Off p (x ∷ xs) = (x ≢ p) × Off p xs

unfoldable pub Apart : List ℕ → Type 0
Apart [] = Unit
Apart (x ∷ xs) = Off x xs × Apart xs

-- The nodes of the list that hangs on `head`, in order.
pub record Ring (l : Links) (head : ℕ) (nodes : List ℕ) : Type 0 where
  pub linked : Run l head (nodes ++ head ∷ [])
  pub apart : Apart (head ∷ nodes)

unfoldable pub last : ℕ → List ℕ → ℕ
last a [] = a
last a (x ∷ xs) = last x xs

unfoldable pub first : List ℕ → ℕ → ℕ
first [] b = b
first (x ∷ xs) b = x

pub Run-split :
    (l : Links) (a : ℕ) (xs ys : List ℕ) → Run l a (xs ++ ys) → Run l a xs × Run l (last a xs) ys
unfolding Run last
Run-split l a [] ys r = (tt, r)
Run-split l a (x ∷ xs) ys (n, p, r) =
    let (front, back) = Run-split l x xs ys r in ((n, p, front), back)

pub Run-append :
    (l : Links) (a : ℕ) (xs ys : List ℕ) → Run l a xs → Run l (last a xs) ys → Run l a (xs ++ ys)
unfolding Run last
Run-append l a [] ys f r = r
Run-append l a (x ∷ xs) ys (n, p, f) r = (n, p, Run-append l x xs ys f r)

pub Off-split : (p : ℕ) (xs ys : List ℕ) → Off p (xs ++ ys) → Off p xs × Off p ys
unfolding Off
Off-split p [] ys o = (tt, o)
Off-split p (x ∷ xs) ys (h, o) = let (front, back) = Off-split p xs ys o in ((h, front), back)

pub Apart-split : (xs ys : List ℕ) → Apart (xs ++ ys) → Apart xs × Apart ys
unfolding Apart
Apart-split [] ys d = (tt, d)
Apart-split (x ∷ xs) ys (o, d) =
    let (front, back) = Apart-split xs ys d in (((Off-split x xs ys o).0, front), back)

pub Off-last : (p a : ℕ) (xs : List ℕ) → Off p (a ∷ xs) → last a xs ≢ p
unfolding Off last
Off-last p a [] (h, o) = h
Off-last p a (x ∷ xs) (h, o) = Off-last p x xs o

-- The last node of the front is none of the back, and no node of the front is the first of the back.
pub Apart-last : (a : ℕ) (xs ys : List ℕ) → Apart (a ∷ (xs ++ ys)) → Off (last a xs) ys
unfolding Apart last
Apart-last a [] ys (o, d) = o
Apart-last a (x ∷ xs) ys (o, d) = Apart-last x xs ys d

pub Apart-first : (xs : List ℕ) (y : ℕ) (ys : List ℕ) → Apart (xs ++ y ∷ ys) → Off y xs
unfolding Apart Off
Apart-first [] y ys d = tt
Apart-first (x ∷ xs) y ys (o, d) =
    let (_, (other, _)) = Off-split x xs (y ∷ ys) o in ((λ e. other (sym e)), Apart-first xs y ys d)

-- `l'` differs from `l` in the `next` of `p` and `e` and the `prev` of `n` and `e` at most.
pub record Same (l l' : Links) (p n e : ℕ) : Type 0 where
  pub nexts : (q : ℕ) → q ≢ p → q ≢ e → l'.next q ≡ l.next q
  pub prevs : (q : ℕ) → q ≢ n → q ≢ e → l'.prev q ≡ l.prev q

pub Run-front :
    {l l' : Links} {n e : ℕ} (a : ℕ) (xs : List ℕ)
    → Same l l' (last a xs) n e
    → Run l a xs
    → Apart (a ∷ xs)
    → Off n xs
    → Off e (a ∷ xs)
    → Run l' a xs
unfolding Run last Off Apart
Run-front a [] s r d o o' = tt
Run-front a (x ∷ xs) s (next, prev, r) (apart, d) (h, o) (h', (h'', o')) = (
  s.nexts a (λ e. Off-last a x xs apart (sym e)) h' ∙ next,
  s.prevs x h h'' ∙ prev,
  Run-front x xs s r d o (h'', o'),
)

pub Run-back :
    {l l' : Links} {p n e : ℕ} (a : ℕ) (ys : List ℕ) (head : ℕ)
    → Same l l' p n e
    → Run l a (ys ++ head ∷ [])
    → Off p (a ∷ ys)
    → Off e (a ∷ ys)
    → Off n (ys ++ head ∷ [])
    → head ≢ e
    → Run l' a (ys ++ head ∷ [])
unfolding Run Off
Run-back a [] head s (next, prev, r) (h, o) (h', o') (k, _) other =
    (s.nexts a h h' ∙ next, s.prevs head k other ∙ prev, tt)
Run-back a (y ∷ ys) head s (next, prev, r) (h, o) (h', (h'', o')) (k, o'') other =
    (s.nexts a h h' ∙ next, s.prevs y k h'' ∙ prev, Run-back y ys head s r o (h'', o') o'' other)
