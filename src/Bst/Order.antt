-- ===== src/Bst/Order.antt =====
-- The search tree as a map from identifiers to stacks.
use mathlib.Core.Option.{get_or}
use cbtf_krell.Prelude.{ℕ, ◌<◌, List, some, ◌≡◌, ◌==◌, if◌then◌else◌, arith}
use cbtf_krell.Bst.{Node, null, node, insert_node, find_node, trace_of}

-- Every identifier of the tree satisfies a predicate.
abbrev pub All : (ℕ → Type 0) → Node → Type 0
All P null = Unit
All P (node i t l r) = P i × All P l × All P r

-- Smaller identifiers stand to the left, larger ones to the right.
abbrev pub IsOrdered : Node → Type 0
IsOrdered null = Unit
IsOrdered (node i t l r) = All (λ j. j < i) l × All (λ j. i < j) r × IsOrdered l × IsOrdered r

pub All-insert_node :
    (P : ℕ → Type 0) (t : Node) (id : ℕ) (trace : List ℕ)
    → P id
    → All P t
    → All P (insert_node t id trace)
unfolding insert_node
All-insert_node P null id trace p h = (p, tt, tt)
All-insert_node P (node i u l r) id trace p h =
    ground (arith, All-insert_node P l id trace p h.1, All-insert_node P r id trace p h.2)

-- Insertion keeps the order.
pub insert_node-IsOrdered :
    (t : Node) (id : ℕ) (trace : List ℕ) → IsOrdered t → IsOrdered (insert_node t id trace)
unfolding insert_node
insert_node-IsOrdered null id trace h = (tt, tt, tt, tt)
insert_node-IsOrdered (node i u l r) id trace h = ground (
  arith,
  All-insert_node (λ j. j < i) l id trace,
  All-insert_node (λ j. i < j) r id trace,
  insert_node-IsOrdered l id trace,
  insert_node-IsOrdered r id trace,
)

-- On an ordered or unordered tree alike, a search for one identifier after an insertion of another
-- finds what it found before, and a search for the inserted one finds the stack that was there, or
-- else the new one.
pub find_node-insert_node :
    (t : Node) (id j : ℕ) (trace : List ℕ)
    → trace_of (find_node (insert_node t id trace) j) ≡ (
        if id == j
        then some (get_or (trace_of (find_node t id)) trace)
        else trace_of (find_node t j))
unfolding insert_node find_node
find_node-insert_node null id j trace = ground arith
find_node-insert_node (node i u l r) id j trace =
    ground (arith, find_node-insert_node l id j trace, find_node-insert_node r id j trace)
