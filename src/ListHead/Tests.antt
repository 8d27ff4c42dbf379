-- ===== src/ListHead/Tests.antt =====
-- The theorems on list.h at concrete lists.
use fast_http.Prelude.{◌+◌, ◌*◌, ◌≡◌, refl, [], ◌∷◌, ◌++◌, arith}
use fast_http.ListHead.{
  Links, list_head_init, list_add, list_add_tail, list_del, list_replace, list_first, list_last,
  insert_between,
}
use fast_http.ListHead.Ring.{Ring, Off}
use fast_http.ListHead.Edit.{list_head_init-Ring, list_add_lem, list_del_lem}

abbrev unset : Links
unset = record { prev = λ q. 0; next = λ q. 0 }

abbrev alone : Links
alone = list_head_init unset 1

abbrev one_node : Links
one_node = list_add alone 2 1

list_add_lem_example :
    Ring (list_add alone 2 1) 1 (2 ∷ []) × Ring (list_add_tail alone 2 1) 1 ([] ++ 2 ∷ [])
unfolding Off
list_add_lem_example = list_add_lem alone 2 1 [] (list_head_init-Ring unset 1) ((omega arith), tt)

abbrev two_nodes : Links
two_nodes = list_add_tail one_node 3 1

two_nodes-Ring : Ring two_nodes 1 (2 ∷ 3 ∷ [])
unfolding Off
two_nodes-Ring =
    (list_add_lem one_node 3 1 (2 ∷ []) list_add_lem_example.0
      ((omega arith), ((omega arith), tt))).1

list_del_lem_example : Ring (list_del two_nodes 2) 1 ([] ++ 3 ∷ [])
list_del_lem_example = list_del_lem two_nodes 2 1 [] (3 ∷ []) two_nodes-Ring

ends :
    list_first (list_replace two_nodes 3 4) 1 + 10 * list_last (list_replace two_nodes 3 4) 1 ≡ 42
unfolding list_first list_last list_replace list_add list_add_tail insert_between list_head_init
ends = refl
