-- ===== src/Libk/Tree/Neighbours.antt =====
-- libk/tree.c: the nodes before and after a node, the ends of the tree, and the walks.
use twcos.Common.{ℕ, zero, suc, ◌+◌, Option, none, some, List, [], ◌∷◌, ◌==◌, if◌then◌else◌}
use twcos.Libk.Tree.{Entry, Tree, leaf, node, Crumb, left_of, right_of, Place, subtree}

-- `while(node->left) node = node->left`
unfoldable pub leftmost : Tree → Entry → ℕ → ℕ → Tree → List Crumb → Place
leftmost leaf e p n r path = record {
  left = leaf;
  entry = e;
  priority = p;
  count = n;
  right = r;
  path = path;
}
leftmost (node l x xp xn s) e p n r path = leftmost l x xp xn s (left_of e p n r ∷ path)

-- `while(node->right) node = node->right`
unfoldable pub rightmost : Tree → Entry → ℕ → ℕ → Tree → List Crumb → Place
rightmost l e p n leaf path = record {
  left = l;
  entry = e;
  priority = p;
  count = n;
  right = leaf;
  path = path;
}
rightmost l e p n (node s x xp xn r) path = rightmost s x xp xn r (right_of l e p n ∷ path)

-- `while(node_is_right(node)) node = node->parent`, and the parent of a left child or NULL.
unfoldable pub climb_right : Tree → List Crumb → Option Place
climb_right t [] = none
climb_right t (left_of e p n s ∷ path) =
    some (record { left = t; entry = e; priority = p; count = n; right = s; path = path })
climb_right t (right_of s e p n ∷ path) = climb_right (node s e p n t) path

-- `while(node_is_left(node)) node = node->parent`, and the parent of a right child or NULL.
unfoldable pub climb_left : Tree → List Crumb → Option Place
climb_left t [] = none
climb_left t (left_of e p n s ∷ path) = climb_left (node t e p n s) path
climb_left t (right_of s e p n ∷ path) =
    some (record { left = s; entry = e; priority = p; count = n; right = t; path = path })

unfoldable pub node_next : Place → Option Place
unfolding leftmost climb_right
node_next x = elim x.right [
  | leaf ↦ climb_right (subtree x) x.path
  | node l e p n r ↦ some (leftmost l e p n r (right_of x.left x.entry x.priority x.count ∷ x.path))
]

unfoldable pub node_prev : Place → Option Place
unfolding rightmost climb_left
node_prev x = elim x.left [
  | leaf ↦ climb_left (subtree x) x.path
  | node l e p n r ↦
      some (rightmost l e p n r (left_of x.entry x.priority x.count x.right ∷ x.path))
]

unfoldable pub tree_node_first : Tree → Option Place
unfolding leftmost
tree_node_first leaf = none
tree_node_first (node l e p n r) = some (leftmost l e p n r [])

unfoldable pub tree_node_last : Tree → Option Place
unfolding rightmost
tree_node_last leaf = none
tree_node_last (node l e p n r) = some (rightmost l e p n r [])

-- How many nodes a tree has, by its links.
abbrev pub tree_size : Tree → ℕ
tree_size leaf = 0
tree_size (node l e p n r) = tree_size l + suc (tree_size r)

-- A call of `func` before those of the rest of the walk.
abbrev pub visited : Entry → Option (List Entry) → Option (List Entry)
visited e none = none
visited e (some es) = some (e ∷ es)

-- `tree_walk_nodes(start, end)`: the entries that `func` is called with, in order, and `none` if
-- the fuel ends before the walk. `node == end` compares addresses.
unfoldable pub tree_walk_nodes : ℕ → Option Place → Option Place → Option (List Entry)
unfolding node_next
tree_walk_nodes zero start end = none
tree_walk_nodes (suc f) none end = some []
tree_walk_nodes (suc f) (some x) none = visited x.entry (tree_walk_nodes f (node_next x) none)
tree_walk_nodes (suc f) (some x) (some y) =
    let on = visited x.entry (tree_walk_nodes f (node_next x) (some y)) in
    if x.entry.addr == y.entry.addr then some (x.entry ∷ []) else on
