-- ===== src/Libk/Tree/Balance.antt =====
-- libk/tree.c: the four ways to balance after an insertion. Each takes the new node's place and
-- returns the whole tree. A node that is rotated up keeps its identity, so its place is followed.
use twcos.Common.{
  ℕ, zero, suc, ◌+◌, ◌*◌, ◌%◌, ◌^◌, Option, none, some, List, [], ◌∷◌, ltb, if◌then◌else◌, length,
}
use twcos.Libk.Tree.{
  Entry, Tree, leaf, node, node_count, Crumb, left_of, right_of, Place, plug, count_of,
  node_rotate_left, node_rotate_right,
}

-- The place of a rotation's upper node.
abbrev pub top_place : Tree → List Crumb → Option Place
top_place leaf path = none
top_place (node l e p n r) path =
    some (record { left = l; entry = e; priority = p; count = n; right = r; path = path })

-- `while(node->parent)`, on the fields of the node and its path. The third test of each half names
-- the same side as the second (`else if (node_is_right(node->parent))` after
-- `if (node_is_right(node->parent))`), so a right child of a left child is rotated once.
unfoldable pub node_splay : Tree → Entry → ℕ → ℕ → Tree → List Crumb → Tree
unfolding node_rotate_left node_rotate_right
node_splay l x p n r [] = node l x p n r
node_splay l x p n r (left_of e ep en s ∷ []) = node_rotate_right l x p r e ep s
node_splay l x p n r (left_of e ep en s ∷ left_of g gp gn t ∷ path) =
    let low = node s g gp (count_of s t) t in
    node_splay l x p (1 + count_of r low + node_count l) (node r e ep (count_of r low) low) path
node_splay l x p n r (left_of e ep en s ∷ right_of t g gp gn ∷ path) =
    let high = node r e ep (count_of r s) s in
    let low = node t g gp (count_of t l) l in
    node_splay low x p (1 + count_of t l + node_count high) high path
node_splay l x p n r (right_of s e ep en ∷ []) = node_rotate_left s e ep l x p r
node_splay l x p n r (right_of s e ep en ∷ right_of t g gp gn ∷ path) =
    let low = node t g gp (count_of t s) s in
    node_splay (node low e ep (count_of low l) l) x p (1 + count_of low l + node_count r) r path
node_splay l x p n r (right_of s e ep en ∷ left_of g gp gn t ∷ path) =
    node_splay (node s e ep (count_of s l) l) x p (1 + count_of s l + node_count r) r
      (left_of g gp gn t ∷ path)

-- `((uintptr_t)node * 997) & 0xff`
abbrev pub node_priority : ℕ → ℕ
node_priority addr = addr * 997 % 2 ^ 32 % 256

-- The loop of `node_prioritize`, after `node->priority` is set to `p`.
unfoldable pub prioritize_loop : Tree → Entry → ℕ → ℕ → Tree → List Crumb → Tree
prioritize_loop l x p n r [] = node l x p n r
prioritize_loop l x p n r (left_of e ep en s ∷ path) =
    let up =
      prioritize_loop l x p (1 + count_of r s + node_count l) (node r e ep (count_of r s) s) path in
    if ltb p ep then up else plug (node l x p n r) (left_of e ep en s ∷ path)
prioritize_loop l x p n r (right_of s e ep en ∷ path) =
    let up =
      prioritize_loop (node s e ep (count_of s l) l) x p (1 + count_of s l + node_count r) r path in
    if ltb p ep then up else plug (node l x p n r) (right_of s e ep en ∷ path)

unfoldable pub node_prioritize : Place → Tree
unfolding prioritize_loop
node_prioritize x =
    prioritize_loop x.left x.entry (node_priority x.entry.addr) x.count x.right x.path

-- `node_count_balance`. `balance` is rotated up or not, and then goes to its parent, if it has one.
unfoldable pub count_balance_loop : Tree → Entry → ℕ → ℕ → Tree → List Crumb → Tree
unfolding node_rotate_left node_rotate_right
count_balance_loop l x p n r [] = node l x p n r
count_balance_loop l x p n r (left_of e ep en s ∷ []) =
    if ltb (node_count s) (node_count l)
    then node_rotate_right l x p r e ep s
    else node (node l x p n r) e ep en s
count_balance_loop l x p n r (left_of e ep en s ∷ left_of g gp gn t ∷ path) =
    let up = count_balance_loop (node_rotate_right l x p r e ep s) g gp gn t path in
    let on = count_balance_loop (node l x p n r) e ep en s (left_of g gp gn t ∷ path) in
    if ltb (node_count s) (node_count l) then up else on
count_balance_loop l x p n r (left_of e ep en s ∷ right_of t g gp gn ∷ path) =
    let up = count_balance_loop t g gp gn (node_rotate_right l x p r e ep s) path in
    let on = count_balance_loop (node l x p n r) e ep en s (right_of t g gp gn ∷ path) in
    if ltb (node_count s) (node_count l) then up else on
count_balance_loop l x p n r (right_of s e ep en ∷ []) =
    if ltb (node_count s) (node_count r)
    then node_rotate_left s e ep l x p r
    else node s e ep en (node l x p n r)
count_balance_loop l x p n r (right_of s e ep en ∷ left_of g gp gn t ∷ path) =
    let up = count_balance_loop (node_rotate_left s e ep l x p r) g gp gn t path in
    let on = count_balance_loop s e ep en (node l x p n r) (left_of g gp gn t ∷ path) in
    if ltb (node_count s) (node_count r) then up else on
count_balance_loop l x p n r (right_of s e ep en ∷ right_of t g gp gn ∷ path) =
    let up = count_balance_loop t g gp gn (node_rotate_left s e ep l x p r) path in
    let on = count_balance_loop s e ep en (node l x p n r) (right_of t g gp gn ∷ path) in
    if ltb (node_count s) (node_count r) then up else on

unfoldable pub node_count_balance : Place → Tree
unfolding count_balance_loop
node_count_balance x = count_balance_loop x.left x.entry x.priority x.count x.right x.path

-- The switch of `node_simple_balance` for a left child: what the bits of `parent->right`,
-- `node->left` and `node->right` say. The result is the subtree in the place of `parent`, as the
-- node that is now on top and the crumb and fields at which the loop goes on.
abbrev pub Turn : Type 0
Turn = Option (Crumb × Tree × Entry × ℕ × ℕ × Tree)

-- 1010 is `single`, 1001 is `double`: `case 9` falls through into `case 10`.
unfoldable pub turn_left : Tree → Entry → ℕ → Tree → Entry → ℕ → Tree → Turn
turn_left (node a b bp bn c) x p leaf e ep leaf = some (
  right_of (node a b bp bn c) x p (1 + count_of leaf leaf + bn),
  leaf,
  e,
  ep,
  count_of leaf leaf,
  leaf,
)
turn_left leaf x p (node a b bp bn c) e ep leaf =
    let low = node leaf x p (count_of leaf a) a in
    some (right_of low b bp (1 + count_of c leaf + node_count low), c, e, ep, count_of c leaf, leaf)
turn_left l x p r e ep s = none

-- 0101 is `single`, 0110 is `double`: `case 6` falls through into `case 5`.
unfoldable pub turn_right : Tree → Entry → ℕ → Tree → Entry → ℕ → Tree → Turn
turn_right leaf e ep leaf x p (node a b bp bn c) = some (
  left_of x p (1 + count_of leaf leaf + bn) (node a b bp bn c),
  leaf,
  e,
  ep,
  count_of leaf leaf,
  leaf,
)
turn_right leaf e ep (node a b bp bn c) x p leaf =
    let low = node c x p (count_of c leaf) leaf in
    some (left_of b bp (1 + count_of leaf a + node_count low) low, leaf, e, ep, count_of leaf a, a)
turn_right s e ep l x p r = none

-- `while(parent)` of `node_simple_balance`. After a turn the next round is at the old parent,
-- whose new parent has two children, so it only moves on: two rounds for each ancestor suffice.
unfoldable pub simple_balance_loop : ℕ → Tree → Entry → ℕ → ℕ → Tree → List Crumb → Tree
unfolding turn_left turn_right
simple_balance_loop zero l x p n r path = plug (node l x p n r) path
simple_balance_loop (suc f) l x p n r [] = node l x p n r
simple_balance_loop (suc f) l x p n r (left_of e ep en s ∷ path) = elim (turn_left l x p r e ep s) [
  | none ↦ simple_balance_loop f (node l x p n r) e ep en s path
  | some (c, l', x', p', n', r') ↦ simple_balance_loop f l' x' p' n' r' (c ∷ path)
]
simple_balance_loop (suc f) l x p n r (right_of s e ep en ∷ path) =
    elim (turn_right s e ep l x p r) [
      | none ↦ simple_balance_loop f s e ep en (node l x p n r) path
      | some (c, l', x', p', n', r') ↦ simple_balance_loop f l' x' p' n' r' (c ∷ path)
    ]

unfoldable pub node_simple_balance : Place → Tree
unfolding simple_balance_loop
node_simple_balance x =
    simple_balance_loop (2 * length x.path) x.left x.entry x.priority x.count x.right x.path
