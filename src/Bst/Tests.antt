-- ===== src/Bst/Tests.antt =====
-- The tree of core/collectors/omptp/bst.c on concrete regions.
use cbtf_krell.Prelude.{[], ◌∷◌, some, ◌≡◌, refl, arith}
use cbtf_krell.Bst.{Node, null, node, min_node, insert_node, remove_node, find_node, trace_of}
use cbtf_krell.Bst.Order.{IsOrdered, insert_node-IsOrdered, find_node-insert_node}
use cbtf_krell.Bst.Remove.{remove_node-ordered, remove_root_stack}

abbrev one : Node
one = node 1 (10 ∷ []) null null

abbrev three : Node
three = node 3 (30 ∷ []) null null

abbrev two_of_three : Node
two_of_three = node 2 (20 ∷ []) one three

two_of_three-IsOrdered : IsOrdered two_of_three
two_of_three-IsOrdered = ground arith

built_by_insertion :
    insert_node (insert_node (insert_node null 2 (20 ∷ [])) 1 (10 ∷ [])) 3 (30 ∷ []) ≡ two_of_three
unfolding insert_node
built_by_insertion = refl

insert_node-IsOrdered_example : IsOrdered (insert_node two_of_three 4 (40 ∷ []))
insert_node-IsOrdered_example =
    insert_node-IsOrdered two_of_three 4 (40 ∷ []) two_of_three-IsOrdered

find_node-insert_node_example :
    trace_of (find_node (insert_node two_of_three 4 (40 ∷ [])) 4) ≡ some (40 ∷ [])
unfolding find_node
find_node-insert_node_example = find_node-insert_node two_of_three 4 4 (40 ∷ [])

-- Region 3 is in the tree, and is not removed.
remove_node-ordered_example : remove_node two_of_three 3 ≡ two_of_three
remove_node-ordered_example =
    remove_node-ordered two_of_three 3 two_of_three-IsOrdered (ground arith)

remove_root_stack_example :
    (find_node two_of_three 3 ≡ three)
    × (trace_of (find_node (remove_node two_of_three 2) 3) ≡ some (20 ∷ []))
unfolding min_node
remove_root_stack_example = remove_root_stack 2 (20 ∷ []) one three two_of_three-IsOrdered refl refl
