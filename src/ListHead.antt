-- ===== src/ListHead.antt =====
-- list.h: circular doubly linked lists through nodes that lie in other structures. A node is its address,
-- and the store is the two pointers that every node has.
pub mod Ring
pub mod Relink
pub mod Edit
mod Tests
use fast_http.Prelude.{ℕ, Bool, true, false, ◌==◌, if◌then◌else◌}

-- The `prev` and `next` of every `list_head_t`
pub record Links : Type 0 where
  pub prev : ℕ → ℕ
  pub next : ℕ → ℕ

-- `p->prev = v` and `p->next = v`
abbrev pub set_prev : Links → ℕ → ℕ → Links
set_prev l p v = record l { prev = λ q. if q == p then v else l.prev q }

abbrev pub set_next : Links → ℕ → ℕ → Links
set_next l p v = record l { next = λ q. if q == p then v else l.next q }

unfoldable pub list_head_init : Links → ℕ → Links
list_head_init l list = set_prev (set_next l list list) list list

-- `__list_add`
unfoldable pub insert_between : Links → ℕ → ℕ → ℕ → Links
insert_between l entry prev next =
    set_next (set_prev (set_next (set_prev l next entry) entry next) entry prev) prev entry

unfoldable pub list_add : Links → ℕ → ℕ → Links
list_add l entry head = insert_between l entry head (l.next head)

unfoldable pub list_add_tail : Links → ℕ → ℕ → Links
list_add_tail l entry head = insert_between l entry (l.prev head) head

-- `__list_del`
unfoldable pub join : Links → ℕ → ℕ → Links
join l prev next = set_next (set_prev l next prev) prev next

unfoldable pub list_del : Links → ℕ → Links
list_del l entry = join l (l.prev entry) (l.next entry)

unfoldable pub list_del_init : Links → ℕ → Links
list_del_init l entry = list_head_init (list_del l entry) entry

unfoldable pub list_replace : Links → ℕ → ℕ → Links
list_replace l old entry =
    let l1 = set_next l entry (l.next old) in
    let l2 = set_prev l1 (l1.next entry) entry in
    let l3 = set_prev l2 entry (l2.prev old) in set_next l3 (l3.prev entry) entry

unfoldable pub list_empty : Links → ℕ → Bool
list_empty l head = l.next head == head

unfoldable pub list_first : Links → ℕ → ℕ
list_first l head = l.next head

unfoldable pub list_last : Links → ℕ → ℕ
list_last l head = l.prev head
