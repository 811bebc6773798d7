-- ===== src/Libk/Tree/Ops.antt =====
-- libk/tree.c: the operations behind `tree_ops`.
use twcos.Common.{ℕ, suc, ◌+◌, ◌-◌, Bool, true, false, Option, none, some, List, [], ◌∷◌, Ordering}
use Prim.Native.Nat.Ordering.{lt, eq, gt}
use twcos.Libk.Tree.{
  Entry, Tree, leaf, node, node_count, Crumb, left_of, right_of, Place, plug, count_of,
}
use twcos.Libk.Tree.Balance.{
  top_place, node_splay, node_prioritize, node_count_balance, node_simple_balance,
}
use twcos.Libk.Tree.Neighbours.{
  tree_size, node_next, node_prev, tree_node_first, tree_node_last, tree_walk_nodes,
}

-- `enum treemode`; `simple` is any other number, as `tree_new(comp, 0)` passes.
pub data TreeMode : Type 0 where
  splay treap count simple : TreeMode

-- `enum map_eq_test`
pub data MapEqTest : Type 0 where
  map_lt map_le map_eq map_ge map_gt : MapEqTest

-- The sign of `comp(k1, k2)`: `lt` for a negative result, `gt` for a positive one.
abbrev pub Comp : Type 0
Comp = ℕ → ℕ → Ordering

-- `tree_t`
pub record TreeMap : Type 0 where
  pub root : Tree
  pub mode : TreeMode
  pub comp : Comp

-- `parent->count++` and `parent->count--` for each ancestor.
abbrev pub bump : List Crumb → List Crumb
bump [] = []
bump (left_of e p n s ∷ path) = left_of e p (n + 1) s ∷ bump path
bump (right_of s e p n ∷ path) = right_of s e p (n + 1) ∷ bump path

abbrev pub unbump : List Crumb → List Crumb
unbump [] = []
unbump (left_of e p n s ∷ path) = left_of e p (n - 1) s ∷ unbump path
unbump (right_of s e p n ∷ path) = right_of s e p (n - 1) ∷ unbump path

-- What `slab_alloc(nodes)` returns: an address, and the `priority` that the memory holds.
pub record Fresh : Type 0 where
  pub addr : ℕ
  pub priority : ℕ

-- `tree_node_new`, hung below the last of the path's nodes.
unfoldable pub tree_node_new : Fresh → ℕ → ℕ → List Crumb → Place
tree_node_new f key value path = record {
  left = leaf;
  entry = record { addr = f.addr; key = key; value = value };
  priority = f.priority;
  count = 1;
  right = leaf;
  path = bump path;
}

-- "Do any balancing". The root is then the node above all.
unfoldable pub balance : TreeMode → Place → Tree
balance splay x = node_splay x.left x.entry x.priority x.count x.right x.path
balance treap x = node_prioritize x
balance count x = node_count_balance x
balance simple x = node_simple_balance x

-- The loop of `tree_put` on the subtree below the path: the old data (0 for none), and the tree.
unfoldable pub put_node : Comp → TreeMode → Fresh → ℕ → ℕ → Tree → List Crumb → ℕ × Tree
unfolding tree_node_new balance
put_node comp mode f key value leaf path = (0, balance mode (tree_node_new f key value path))
put_node comp mode f key value (node l e p n r) path = elim (comp key e.key) [
  | lt ↦ put_node comp mode f key value l (left_of e p n r ∷ path)
  | gt ↦ put_node comp mode f key value r (right_of l e p n ∷ path)
  | eq ↦ (e.value, plug (node l (record e { key = key; value = value }) p n r) path)
]

unfoldable pub tree_put : Fresh → TreeMap → ℕ → ℕ → ℕ × TreeMap
unfolding put_node
tree_put f t key value =
    let (old, root') = put_node t.comp t.mode f key value t.root [] in
    (old, record t { root = root' })

-- What `tree_get_node` returns at the node where the search ends to its left or to its right.
abbrev pub end_left : MapEqTest → Place → Option Place
end_left map_gt x = some x
end_left map_ge x = some x
end_left map_lt x = node_prev x
end_left map_le x = node_prev x
end_left map_eq x = none

abbrev pub end_right : MapEqTest → Place → Option Place
end_right map_gt x = node_next x
end_right map_ge x = node_next x
end_right map_lt x = some x
end_right map_le x = some x
end_right map_eq x = none

-- At an equal key: the node asked for, and whether the tree is splayed at it.
abbrev pub end_equal : MapEqTest → Place → Option Place × Bool
end_equal map_lt x = (node_prev x, false)
end_equal map_gt x = (node_next x, false)
end_equal _ x = (some x, true)

-- The loop of `tree_get_node` on the subtree below the path. `end` is what the switch returns when
-- that child is NULL.
unfoldable pub get_node :
    Comp → ℕ → MapEqTest → Tree → List Crumb → (end : Option Place × Bool) → Option Place × Bool
unfolding node_prev node_next
get_node comp key cond leaf path end = end
get_node comp key cond (node l e p n r) path end =
    let here : Place = record {
      left = l;
      entry = e;
      priority = p;
      count = n;
      right = r;
      path = path;
    } in
    elim (comp key e.key) [
      | lt ↦ get_node comp key cond l (left_of e p n r ∷ path) (end_left cond here, false)
      | gt ↦ get_node comp key cond r (right_of l e p n ∷ path) (end_right cond here, false)
      | eq ↦ end_equal cond here
    ]

-- A node found by an equal key goes to the root of a splay tree.
unfoldable pub splay_found : TreeMap → Option Place × Bool → Option Place × TreeMap
unfolding node_splay
splay_found t (none, _) = (none, t)
splay_found t (some x, false) = (some x, t)
splay_found t (some x, true) = elim t.mode [
  | splay ↦
      let root' = node_splay x.left x.entry x.priority x.count x.right x.path in
      (top_place root' [], record t { root = root' })
  | _ ↦ (some x, t)
]

unfoldable pub tree_get_node : TreeMap → ℕ → MapEqTest → Option Place × TreeMap
unfolding get_node splay_found
tree_get_node t key cond = splay_found t (get_node t.comp key cond t.root [] (none, false))

-- `(node) ? node->data : 0`
abbrev pub data_of : Option Place → ℕ
data_of none = 0
data_of (some x) = x.entry.value

-- `tree_get`, through `tree_get_data`
unfoldable pub tree_get : TreeMap → ℕ → MapEqTest → ℕ × TreeMap
unfolding tree_get_node
tree_get t key cond = let (found, t') = tree_get_node t key cond in (data_of found, t')

-- `tree_walk`, with fuel for one round more than there are nodes.
unfoldable pub tree_walk : TreeMap → Option (List Entry)
unfolding tree_node_first tree_node_last tree_walk_nodes
tree_walk t =
    tree_walk_nodes (suc (tree_size t.root)) (tree_node_first t.root) (tree_node_last t.root)

unfoldable pub tree_walk_range : TreeMap → ℕ → ℕ → Option (List Entry) × TreeMap
unfolding tree_get_node tree_walk_nodes
tree_walk_range t from to =
    let (start, t') = tree_get_node t from map_ge in
    let (end, t'') = tree_get_node t' to map_lt in
    (tree_walk_nodes (suc (tree_size t''.root)) start end, t'')

-- "Bubble the node down to a leaf", on the node's subtrees and path; then it is unlinked, and the
-- counts above it go down. The entry is the same in every round, so it is left out.
unfoldable pub sink : Tree → Tree → List Crumb → Tree
sink (node a b bp bn c) r path = sink c r (right_of a b bp (1 + count_of c r + node_count a) ∷ path)
sink leaf (node c d dp dn e) path =
    sink leaf c (left_of d dp (1 + count_of leaf c + node_count e) e ∷ path)
sink leaf leaf path = plug leaf (unbump path)

unfoldable pub remove_node : Comp → ℕ → Tree → List Crumb → Option (ℕ × Tree)
unfolding sink
remove_node comp key leaf path = none
remove_node comp key (node l e p n r) path = elim (comp key e.key) [
  | lt ↦ remove_node comp key l (left_of e p n r ∷ path)
  | gt ↦ remove_node comp key r (right_of l e p n ∷ path)
  | eq ↦ some (e.value, sink l r path)
]

-- `tree_remove`: the data of the removed node, 0 for none, and the tree.
unfoldable pub tree_remove : TreeMap → ℕ → ℕ × TreeMap
unfolding remove_node
tree_remove t key = elim (remove_node t.comp key t.root []) [
  | none ↦ (0, t)
  | some (old, root') ↦ (old, record t { root = root' })
]
