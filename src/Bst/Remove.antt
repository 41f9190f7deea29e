-- ===== src/Bst/Remove.antt =====
-- CBTF_bst_remove_node on an ordered tree: what it removes and what it leaves.
use cbtf_krell.Prelude.{ℕ, ◌<◌, false, List, some, ◌≡◌, ◌≢◌, refl, arith}
use cbtf_krell.Bst.{Node, null, node, is_null, min_node, id_of, remove_node, find_node, trace_of}
use cbtf_krell.Bst.Order.{All, IsOrdered}

-- Where every identifier is larger, each step of the removal goes right, and ends at a null pointer.
remove_node_above : (t : Node) (id : ℕ) → All (λ j. id < j) t → remove_node t id ≡ t
unfolding remove_node
remove_node_above null id h = refl
remove_node_above (node i u l r) id h = ground (arith, remove_node_above r id h.2)

remove_node_below : (t : Node) (id : ℕ) → All (λ j. j < id) t → remove_node t id ≡ t
unfolding remove_node
remove_node_below null id h = refl
remove_node_below (node i u l r) id h = ground (arith, remove_node_below l id h.1)

All-map : (P Q : ℕ → Type 0) (t : Node) → ((j : ℕ) → P j → Q j) → All P t → All Q t
All-map P Q null f h = tt
All-map P Q (node i u l r) f h = (f i h.0, All-map P Q l f h.1, All-map P Q r f h.2)

remove_node_right : (r : Node) (i id : ℕ) → All (λ j. i < j) r → id < i → remove_node r id ≡ r
remove_node_right r i id h k =
    remove_node_above r id (All-map (λ j. i < j) (λ j. id < j) r (λ j q. omega arith) h)

remove_node_left : (l : Node) (i id : ℕ) → All (λ j. j < i) l → i < id → remove_node l id ≡ l
remove_node_left l i id h k =
    remove_node_below l id (All-map (λ j. j < i) (λ j. j < id) l (λ j q. omega arith) h)

-- The removal of any identifier but the one at the root leaves an ordered tree as it is: the search
-- goes into the subtree that cannot hold the identifier.
pub remove_node-ordered : (t : Node) (id : ℕ) → IsOrdered t → id ≢ id_of t → remove_node t id ≡ t
unfolding remove_node
remove_node-ordered null id h n = refl
remove_node-ordered (node i u l r) id h n =
    ground (arith, remove_node_right r i id h.1, remove_node_left l i id h.0)

All-min_node : (P : ℕ → Type 0) (t : Node) → is_null t ≡ false → All P t → P (id_of (min_node t))
unfolding min_node
All-min_node P null e h = absurd (cc)
All-min_node P (node i u null r) e h = h.0
All-min_node P (node i u (node k v c d) r) e h = All-min_node P (node k v c d) refl h.1

find_node-min_node :
    (t : Node) → is_null t ≡ false → IsOrdered t → find_node t (id_of (min_node t)) ≡ min_node t
unfolding find_node min_node
find_node-min_node null e h = absurd (cc)
find_node-min_node (node i u null r) e h = ground arith
find_node-min_node (node i u (node k v c d) r) e h = ground (
  arith,
  All-min_node (λ j. j < i) (node k v c d) refl h.0,
  find_node-min_node (node k v c d) refl h.2,
)

-- Removing the root of an ordered tree where it has two subtrees: the least identifier of the right
-- subtree, whose search returned that region's own stack before, afterwards returns the stack of
-- the region that was removed.
pub remove_root_stack :
    (i : ℕ) (u : List ℕ) (l r : Node)
    → IsOrdered (node i u l r)
    → is_null l ≡ false
    → is_null r ≡ false
    → let m = id_of (min_node r) in
      (find_node (node i u l r) m ≡ min_node r)
      × (trace_of (find_node (remove_node (node i u l r) i) m) ≡ some u)
unfolding find_node remove_node
remove_root_stack i u null r h a b = absurd (cc)
remove_root_stack i u (node j v c d) null h a b = absurd (cc)
remove_root_stack i u (node j v c d) (node k w e f) h a b = ground (
  arith,
  All-min_node (λ x. i < x) (node k w e f) refl h.1,
  find_node-min_node (node k w e f) refl h.3,
)
