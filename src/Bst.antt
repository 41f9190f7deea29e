-- ===== src/Bst.antt =====
-- core/collectors/omptp/bst.c: the binary search tree that maps the identifier of a parallel region
-- to the call stack of the region. A node owns its two subtrees, so the tree of nodes is a value;
-- the mutex of a node is not used by these functions.
pub mod Order
pub mod Remove
mod Tests
use cbtf_krell.Prelude.{ℕ, Bool, List, Option, none, some, ltb, if◌then◌else◌}

-- CBTF_bst_node. `trace` holds the first `stacktrace_size` addresses of `stacktrace`.
pub data Node : Type 0 where
  null : Node
  node : (id : ℕ) (trace : List ℕ) (l r : Node) → Node

abbrev pub is_null : Node → Bool
is_null null = Bool.true
is_null _ = Bool.false

-- CBTF_bst_insert_node: an identifier that is there keeps its stack.
unfoldable pub insert_node : Node → ℕ → List ℕ → Node
insert_node null id trace = node id trace null null
insert_node (node i t l r) id trace =
    let right = insert_node r id trace in
    let left = insert_node l id trace in
    if ltb i id then node i t l right else if ltb id i then node i t left r else node i t l r

-- CBTF_bst_min_node: the leftmost node, `null` for no node.
unfoldable pub min_node : Node → Node
min_node null = null
min_node (node i t null r) = node i t null r
min_node (node i t (node j u a b) r) = min_node (node j u a b)

-- The identifier of a node that is not null.
abbrev pub id_of : Node → ℕ
id_of null = 0
id_of (node i t l r) = i

-- The case of CBTF_bst_remove_node in which the node itself goes; `pruned` is the right subtree
-- without its least node.
abbrev pub remove_here : ℕ → List ℕ → Node → Node → Node → Node
remove_here i t null r pruned = r
remove_here i t (node j u a b) null pruned = node j u a b
remove_here i t (node j u a b) (node k v c d) pruned =
    node (id_of (min_node (node k v c d))) t (node j u a b) pruned

-- CBTF_bst_remove_node, as it is written: a smaller identifier is looked for in the right subtree, and
-- a larger one in the left.
unfoldable pub remove_node : Node → ℕ → Node
unfolding min_node
remove_node null id = null
remove_node (node i t l r) id =
    let right = remove_node r id in
    let left = remove_node l id in
    let pruned = remove_node r (id_of (min_node r)) in
    if ltb id i
    then node i t l right
    else if ltb i id
    then node i t left r
    else remove_here i t l r pruned

-- CBTF_bst_find_node: the subtree at the identifier.
unfoldable pub find_node : Node → ℕ → Node
find_node null id = null
find_node (node i t l r) id =
    let right = find_node r id in
    let left = find_node l id in if ltb i id then right else if ltb id i then left else node i t l r

-- The stack that a search returns.
abbrev pub trace_of : Node → Option (List ℕ)
trace_of null = none
trace_of (node i t l r) = some t
