-- ===== src/Libk/Tree.antt =====
-- libk/tree.c: nodes, rotations, and a node's place in its tree.
-- A `node_t *` whose parent links lead to the root is a place: the node's own fields and the path
-- of its ancestors, so that all links of the C tree are determined by it.
pub mod Balance
pub mod Cuts
pub mod Put
pub mod Remove
pub mod Pick
pub mod Nearest
pub mod Get
pub mod Map
pub mod Sorted
pub mod Inorder
pub mod Ops
pub mod Neighbours
pub mod Walk
pub mod Rounds
pub mod Ordinal
mod Tests
use twcos.Common.{ℕ, ◌+◌, ◌-◌, List, [], ◌∷◌, Ordering}

-- The fields of a `node_t` that no balancing changes: its address, its key and its data.
pub record Entry : Type 0 where
  pub addr : ℕ
  pub key : ℕ
  pub value : ℕ

-- A `node_t *`: NULL, or left child, entry, `priority`, `count`, right child.
pub data Tree : Type 0 where
  leaf : Tree
  node : Tree → Entry → ℕ → ℕ → Tree → Tree

-- `(t) ? t->count : 0`
abbrev pub node_count : Tree → ℕ
node_count leaf = 0
node_count (node l e p n r) = n

-- One ancestor, with what hangs on its other side: its entry, `priority`, `count` and subtree.
pub data Crumb : Type 0 where
  left_of : Entry → ℕ → ℕ → Tree → Crumb
  right_of : Tree → Entry → ℕ → ℕ → Crumb

-- A node in its tree. The nearest ancestor comes first.
pub record Place : Type 0 where
  pub left : Tree
  pub entry : Entry
  pub priority : ℕ
  pub count : ℕ
  pub right : Tree
  pub path : List Crumb

abbrev pub hang : Tree → Crumb → Tree
hang t (left_of e p n s) = node t e p n s
hang t (right_of s e p n) = node s e p n t

-- The whole tree, from a subtree and the path above it.
abbrev pub plug : Tree → List Crumb → Tree
plug t [] = t
plug t (c ∷ path) = plug (hang t c) path

abbrev pub subtree : Place → Tree
subtree x = node x.left x.entry x.priority x.count x.right

abbrev pub whole : Place → Tree
whole x = plug (subtree x) x.path

-- The counts that a rotation writes: of the lower node, and of the upper one.
abbrev pub count_of : Tree → Tree → ℕ
count_of l r = 1 + node_count l + node_count r

-- `node_rotate_left(b)`, with the letters of its picture: `d`, the right child of `b`, goes up.
unfoldable pub node_rotate_left :
    (a : Tree) (b : Entry) (b_priority : ℕ) (c : Tree) (d : Entry) (d_priority : ℕ) (e : Tree)
    → Tree
node_rotate_left a b bp c d dp e =
    node (node a b bp (count_of a c) c) d dp (1 + count_of a c + node_count e) e

-- `node_rotate_right(d)`: `b`, the left child of `d`, goes up.
unfoldable pub node_rotate_right :
    (a : Tree) (b : Entry) (b_priority : ℕ) (c : Tree) (d : Entry) (d_priority : ℕ) (e : Tree)
    → Tree
node_rotate_right a b bp c d dp e =
    node a b bp (1 + count_of c e + node_count a) (node c d dp (count_of c e) e)
