-- ===== src/ListHead/Edit.antt =====
-- The operations of list.h on the ring of a list.
use fast_http.Prelude.{
  ℕ, ◌≡◌, ◌≢◌, ◌↔◌, refl, sym, ap, ap₂, subst, ◌∙◌, true, List, [], ◌∷◌, ◌++◌, ◌==◌, append-nil,
  append_assoc, ==_iff,
}
use fast_http.ListHead.{
  Links, insert_between, list_add, list_add_tail, join, list_del, list_replace, list_empty,
  list_head_init,
}
use fast_http.ListHead.Ring.{
  Run, Off, Apart, Ring, last, first, Run-split, Run-append, Off-split, Same,
}
use fast_http.ListHead.Relink.{
  to-Back, from-Back, kept_front, kept-Back, equal_self, unequal, first-Off, parts-Ring,
  insert-Ring,
}

-- `list_head_init` makes a ring of the head alone.
pub list_head_init-Ring : (l : Links) (head : ℕ) → Ring (list_head_init l head) head []
unfolding list_head_init Run Apart Off
list_head_init-Ring l head = record {
  linked = (rw (equal_self head) refl, rw (equal_self head) refl, tt);
  apart = (tt, tt);
}

last_prev :
    (l : Links) (head : ℕ) (xs : List ℕ) → Run l head (xs ++ head ∷ []) → l.prev head ≡ last head xs
unfolding Run last
last_prev l head xs r = let (_, rest) = Run-split l head xs (head ∷ []) r in go rest
  where
    go : Run l (last head xs) (head ∷ []) → l.prev head ≡ last head xs
    go (n, p, r) = p

-- `list_add` puts a node that is not in the list in front of its nodes, and `list_add_tail` behind them.
pub list_add_lem :
    (l : Links) (entry head : ℕ) (nodes : List ℕ)
    → Ring l head nodes
    → Off entry (head ∷ nodes)
    → Ring (list_add l entry head) head (entry ∷ nodes)
      × Ring (list_add_tail l entry head) head (nodes ++ entry ∷ [])
unfolding list_add list_add_tail last first
list_add_lem l entry head nodes r o =
    let (next, _, _) = to-Back l head nodes head r.linked in
    let whole = append-nil nodes in
    (
      subst (λ n. Ring (insert_between l entry head n) head (entry ∷ nodes)) (sym next)
          (insert-Ring head entry [] nodes r o),
      subst (λ p. Ring (insert_between l entry p head) head (nodes ++ entry ∷ []))
          (sym (last_prev l head nodes r.linked))
          (insert-Ring head entry nodes [] (subst (Ring l head) (sym whole) r)
            (subst (λ k. Off entry (head ∷ k)) (sym whole) o)),
    )

Off-remove : (x e : ℕ) (xs ys : List ℕ) → Off x (xs ++ e ∷ ys) → Off x (xs ++ ys) × (e ≢ x)
unfolding Off
Off-remove x e [] ys (h, o) = (o, h)
Off-remove x e (z ∷ xs) ys (k, o) = let (rest, h) = Off-remove x e xs ys o in ((k, rest), h)

Apart-remove : (e : ℕ) (xs ys : List ℕ) → Apart (xs ++ e ∷ ys) → Apart (xs ++ ys) × Off e (xs ++ ys)
unfolding Off Apart
Apart-remove e [] ys (o, d) = (d, o)
Apart-remove e (x ∷ xs) ys (o, d) =
    let (rest, off) = Apart-remove e xs ys d in
    let (o', h) = Off-remove x e xs ys o in ((o', rest), ((λ q. h (sym q)), off))

join-Same : (l : Links) (p n e : ℕ) → Same l (join l p n) p n e
unfolding join
join-Same l p n e = record {
  nexts = λ q h h'. rw (unequal q p h) refl;
  prevs = λ q h h'. rw (unequal q n h) refl;
}

join_next : (l : Links) (p n : ℕ) → (join l p n).next p ≡ n
unfolding join
join_next l p n = rw (equal_self p) refl

join_prev : (l : Links) (p n : ℕ) → (join l p n).prev n ≡ p
unfolding join
join_prev l p n = rw (equal_self n) refl

Off-head : (e : ℕ) (xs ys : List ℕ) (head : ℕ) → Off e (head ∷ (xs ++ ys)) → head ≢ e
unfolding Off
Off-head e xs ys head (h, o) = h

Off-back : (e : ℕ) (xs ys : List ℕ) (head : ℕ) → Off e (head ∷ (xs ++ ys)) → Off e ys
unfolding Off
Off-back e xs ys head (h, o) = (Off-split e xs ys o).1

un_step :
    (l : Links) (a x : ℕ) (zs : List ℕ)
    → Run l a (x ∷ zs)
    → (l.next a ≡ x) × (l.prev x ≡ a) × Run l x zs
unfolding Run
un_step l a x zs r = r

-- `list_del` takes a node out of the list, wherever it is, and keeps the others in their order.
pub list_del_lem :
    (l : Links) (entry head : ℕ) (xs ys : List ℕ)
    → Ring l head (xs ++ entry ∷ ys)
    → Ring (list_del l entry) head (xs ++ ys)
unfolding list_del
list_del_lem l entry head xs ys r =
    let p = last head xs in
    let n = first ys head in
    let l' = join l p n in
    let s = join-Same l p n entry in
    let (front, rest) =
      Run-split l head xs (entry ∷ (ys ++ head ∷ []))
        (subst (Run l head) (append_assoc xs (entry ∷ ys) (head ∷ [])) r.linked) in
    let (_, prev, later) = un_step l p entry (ys ++ head ∷ []) rest in
    let (next, _, back) = to-Back l entry ys head later in
    let (apart, off) = Apart-remove entry (head ∷ xs) ys r.apart in
    let ring : Ring l' head (xs ++ ys) = record {
      linked = subst (Run l' head) (sym (append_assoc xs ys (head ∷ []))) (
          Run-append l' head xs (ys ++ head ∷ []) (kept_front head entry xs ys s front apart off) (
            from-Back l' p ys head (join_next l p n) (join_prev l p n)
              (kept-Back head entry xs ys s back apart off)));
      apart = apart;
    } in
    subst (λ k. Ring k head (xs ++ ys)) (sym (ap₂ (join l) prev next)) ring

replace-insert :
    (l : Links) (old entry p n : ℕ)
    → l.prev old ≡ p
    → l.next old ≡ n
    → old ≢ n
    → list_replace l old entry ≡ insert_between l entry p n
unfolding list_replace insert_between
replace-insert l old entry p n e e' h = rw (e', equal_self entry, unequal old n h, e) refl

-- `list_replace` puts a node that is not in the list in the place of another.
pub list_replace_lem :
    (l : Links) (old entry head : ℕ) (xs ys : List ℕ)
    → Ring l head (xs ++ old ∷ ys)
    → Off entry (head ∷ (xs ++ old ∷ ys))
    → Ring (list_replace l old entry) head (xs ++ entry ∷ ys)
list_replace_lem l old entry head xs ys r o =
    let (front, rest) =
      Run-split l head xs (old ∷ (ys ++ head ∷ []))
        (subst (Run l head) (append_assoc xs (old ∷ ys) (head ∷ [])) r.linked) in
    let (_, prev, later) = un_step l (last head xs) old (ys ++ head ∷ []) rest in
    let (next, _, back) = to-Back l old ys head later in
    let (apart, off) = Apart-remove old (head ∷ xs) ys r.apart in
    subst (λ k. Ring k head (xs ++ entry ∷ ys))
      (sym (
        replace-insert l old entry (last head xs) (first ys head) prev next (λ e.
          first-Off old ys head (Off-back old xs ys head off) (Off-head old xs ys head off)
            (sym e))))
      (parts-Ring l head entry xs ys front back apart ((Off-remove entry old (head ∷ xs) ys o).0))

-- `list_empty` tells whether the list has no nodes.
pub list_empty_lem :
    (l : Links) (head : ℕ) (nodes : List ℕ)
    → Ring l head nodes
    → (list_empty l head ≡ true) ↔ (nodes ≡ [])
unfolding list_empty Apart Off first
list_empty_lem l head [] r =
    let (next, _, _) = to-Back l head [] head r.linked in
    ((λ e. refl), (λ e. ap (λ n. n == head) next ∙ equal_self head))
list_empty_lem l head (x ∷ nodes) r =
    let (next, _, _) = to-Back l head (x ∷ nodes) head r.linked in
    let (off, _) = r.apart in
    ((λ e. absurd (off.0 (sym next ∙ (==_iff (l.next head) head).0 e))), (λ e. cc))
