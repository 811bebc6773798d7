-- ===== src/Libk/Tree/Inorder.antt =====
-- The entries of a tree of libk/tree.c in order, and that no way to balance changes them.
use twcos.Common.{
  ℕ, zero, suc, ◌+◌, ◌*◌, ◌≡◌, none, some, List, [], ◌∷◌, ◌++◌, append_assoc, append-nil, ltb,
  Bool-cases, inl, inr, ap, ◌∙◌, sym, length,
}
use twcos.Libk.Tree.{
  Entry, Tree, leaf, node, node_count, Crumb, left_of, right_of, Place, plug, hang, count_of,
  subtree, whole, node_rotate_left, node_rotate_right,
}
use twcos.Libk.Tree.Balance.{
  node_splay, node_priority, prioritize_loop, node_prioritize, count_balance_loop,
  node_count_balance, Turn, turn_left, turn_right, simple_balance_loop, node_simple_balance,
}
use twcos.Libk.Tree.Ops.{TreeMode, splay, treap, count, simple, balance}

abbrev pub entries : Tree → List Entry
entries leaf = []
entries (node l e p n r) = entries l ++ (e ∷ entries r)

-- What stands before and after a subtree, by the path above it.
abbrev pub before : List Crumb → List Entry
before [] = []
before (left_of e p n s ∷ path) = before path
before (right_of s e p n ∷ path) = before path ++ (entries s ++ (e ∷ []))

abbrev pub after : List Crumb → List Entry
after [] = []
after (left_of e p n s ∷ path) = e ∷ (entries s ++ after path)
after (right_of s e p n ∷ path) = after path

-- The entries of a tree, by a subtree and its path.
abbrev pub around : List Entry → List Crumb → List Entry
around es path = before path ++ (es ++ after path)

pub entries-plug : (t : Tree) (path : List Crumb) → entries (plug t path) ≡ around (entries t) path
entries-plug t [] = rw append-nil
entries-plug t (left_of e p n s ∷ path) = simp (entries-plug (node t e p n s) path, append_assoc)
entries-plug t (right_of s e p n ∷ path) = simp (entries-plug (node s e p n t) path, append_assoc)

pub entries-node_splay :
    (l : Tree) (x : Entry) (p n : ℕ) (r : Tree) (path : List Crumb)
    → entries (node_splay l x p n r path) ≡ around (entries l ++ (x ∷ entries r)) path
unfolding node_splay
entries-node_splay l x p n r [] = simp append-nil
entries-node_splay l x p n r (left_of e ep en s ∷ []) = simp (append_assoc, append-nil)
entries-node_splay l x p n r (left_of e ep en s ∷ left_of g gp gn t ∷ path) =
    let low = node s g gp (count_of s t) t in
    simp (
      entries-node_splay l x p (1 + count_of r low + node_count l)
          (node r e ep (count_of r low) low) path,
      append_assoc,
    )
entries-node_splay l x p n r (left_of e ep en s ∷ right_of t g gp gn ∷ path) =
    let high = node r e ep (count_of r s) s in
    simp (
      entries-node_splay (node t g gp (count_of t l) l) x p (1 + count_of t l + node_count high)
          high path,
      append_assoc,
    )
entries-node_splay l x p n r (right_of s e ep en ∷ []) = simp (append_assoc, append-nil)
entries-node_splay l x p n r (right_of s e ep en ∷ right_of t g gp gn ∷ path) =
    let low = node t g gp (count_of t s) s in
    simp (
      entries-node_splay (node low e ep (count_of low l) l) x p (1 + count_of low l + node_count r)
          r path,
      append_assoc,
    )
entries-node_splay l x p n r (right_of s e ep en ∷ left_of g gp gn t ∷ path) = simp (
  entries-node_splay (node s e ep (count_of s l) l) x p (1 + count_of s l + node_count r) r
      (left_of g gp gn t ∷ path),
  append_assoc,
)

entries-prioritize_loop :
    (l : Tree) (x : Entry) (p n : ℕ) (r : Tree) (path : List Crumb)
    → entries (prioritize_loop l x p n r path) ≡ around (entries l ++ (x ∷ entries r)) path
unfolding prioritize_loop
entries-prioritize_loop l x p n r [] = simp append-nil
entries-prioritize_loop l x p n r (left_of e ep en s ∷ path) = elim (Bool-cases (ltb p ep)) [
  | inl up ↦ rw up (
      simp (
        entries-prioritize_loop l x p (1 + count_of r s + node_count l)
            (node r e ep (count_of r s) s) path,
        append_assoc,
      ))
  | inr stay ↦ rw stay (simp (entries-plug, append_assoc))
]
entries-prioritize_loop l x p n r (right_of s e ep en ∷ path) = elim (Bool-cases (ltb p ep)) [
  | inl up ↦ rw up (
      simp (
        entries-prioritize_loop (node s e ep (count_of s l) l) x p (1 + count_of s l + node_count r)
            r path,
        append_assoc,
      ))
  | inr stay ↦ rw stay (simp (entries-plug, append_assoc))
]

entries-count_balance_loop :
    (l : Tree) (x : Entry) (p n : ℕ) (r : Tree) (path : List Crumb)
    → entries (count_balance_loop l x p n r path) ≡ around (entries l ++ (x ∷ entries r)) path
unfolding count_balance_loop
entries-count_balance_loop l x p n r [] = simp append-nil
entries-count_balance_loop l x p n r (left_of e ep en s ∷ []) =
    elim (Bool-cases (ltb (node_count s) (node_count l))) [
      | inl up ↦ rw up (simp (append_assoc, append-nil))
      | inr stay ↦ rw stay (simp (append_assoc, append-nil))
    ]
entries-count_balance_loop l x p n r (right_of s e ep en ∷ []) =
    elim (Bool-cases (ltb (node_count s) (node_count r))) [
      | inl up ↦ rw up (simp (append_assoc, append-nil))
      | inr stay ↦ rw stay (simp (append_assoc, append-nil))
    ]
entries-count_balance_loop l x p n r (left_of e ep en s ∷ left_of g gp gn t ∷ path) =
    elim (Bool-cases (ltb (node_count s) (node_count l))) [
      | inl up ↦ rw up (
          simp (
            entries-count_balance_loop (node_rotate_right l x p r e ep s) g gp gn t path,
            append_assoc,
          ))
      | inr stay ↦ rw stay (
          simp (
            entries-count_balance_loop (node l x p n r) e ep en s (left_of g gp gn t ∷ path),
            append_assoc,
          ))
    ]
entries-count_balance_loop l x p n r (left_of e ep en s ∷ right_of t g gp gn ∷ path) =
    elim (Bool-cases (ltb (node_count s) (node_count l))) [
      | inl up ↦ rw up (
          simp (
            entries-count_balance_loop t g gp gn (node_rotate_right l x p r e ep s) path,
            append_assoc,
          ))
      | inr stay ↦ rw stay (
          simp (
            entries-count_balance_loop (node l x p n r) e ep en s (right_of t g gp gn ∷ path),
            append_assoc,
          ))
    ]
entries-count_balance_loop l x p n r (right_of s e ep en ∷ left_of g gp gn t ∷ path) =
    elim (Bool-cases (ltb (node_count s) (node_count r))) [
      | inl up ↦ rw up (
          simp (
            entries-count_balance_loop (node_rotate_left s e ep l x p r) g gp gn t path,
            append_assoc,
          ))
      | inr stay ↦ rw stay (
          simp (
            entries-count_balance_loop s e ep en (node l x p n r) (left_of g gp gn t ∷ path),
            append_assoc,
          ))
    ]
entries-count_balance_loop l x p n r (right_of s e ep en ∷ right_of t g gp gn ∷ path) =
    elim (Bool-cases (ltb (node_count s) (node_count r))) [
      | inl up ↦ rw up (
          simp (
            entries-count_balance_loop t g gp gn (node_rotate_left s e ep l x p r) path,
            append_assoc,
          ))
      | inr stay ↦ rw stay (
          simp (
            entries-count_balance_loop s e ep en (node l x p n r) (right_of t g gp gn ∷ path),
            append_assoc,
          ))
    ]

-- What a turn leaves in the parent's place.
abbrev TurnKeeps : List Entry → Turn → Type 0
TurnKeeps es none = Unit
TurnKeeps es (some (c, l, e, p, n, r)) = entries (hang (node l e p n r) c) ≡ es

turn_left-keeps :
    (l : Tree) (x : Entry) (p : ℕ) (r : Tree) (e : Entry) (ep : ℕ) (s : Tree)
    → TurnKeeps ((entries l ++ (x ∷ entries r)) ++ (e ∷ entries s)) (turn_left l x p r e ep s)
unfolding turn_left
turn_left-keeps leaf x p leaf e ep s = tt
turn_left-keeps leaf x p (node a b bp bn c) e ep leaf = simp append_assoc
turn_left-keeps leaf x p (node a b bp bn c) e ep (node _ _ _ _ _) = tt
turn_left-keeps (node a b bp bn c) x p leaf e ep leaf = simp append_assoc
turn_left-keeps (node a b bp bn c) x p leaf e ep (node _ _ _ _ _) = tt
turn_left-keeps (node a b bp bn c) x p (node _ _ _ _ _) e ep s = tt

turn_right-keeps :
    (s : Tree) (e : Entry) (ep : ℕ) (l : Tree) (x : Entry) (p : ℕ) (r : Tree)
    → TurnKeeps (entries s ++ (e ∷ (entries l ++ (x ∷ entries r)))) (turn_right s e ep l x p r)
unfolding turn_right
turn_right-keeps (node _ _ _ _ _) e ep l x p r = tt
turn_right-keeps leaf e ep leaf x p leaf = tt
turn_right-keeps leaf e ep leaf x p (node a b bp bn c) = simp append_assoc
turn_right-keeps leaf e ep (node a b bp bn c) x p leaf = simp append_assoc
turn_right-keeps leaf e ep (node a b bp bn c) x p (node _ _ _ _ _) = tt

pub around-hang :
    (t : Tree) (c : Crumb) (path : List Crumb)
    → around (entries t) (c ∷ path) ≡ around (entries (hang t c)) path
around-hang t c path = sym (entries-plug t (c ∷ path)) ∙ entries-plug (hang t c) path

-- The next round, at the parent or at what a turn left.
abbrev Round : Type 0
Round = Tree → Entry → ℕ → ℕ → Tree → List Crumb → Tree

next_round :
    (round : Round) (path : List Crumb) (stay : Tree) (es : List Entry) (t : Turn)
    → ((l : Tree) (x : Entry) (p n : ℕ) (r : Tree) (path : List Crumb)
        → entries (round l x p n r path) ≡ around (entries l ++ (x ∷ entries r)) path)
    → entries stay ≡ around es path
    → TurnKeeps es t
    → entries (elim t [ none ↦ stay | some (c, l, x, p, n, r) ↦ round l x p n r (c ∷ path) ])
      ≡ around es path
next_round round path stay es none ih same keeps = same
next_round round path stay es (some (c, l, x, p, n, r)) ih same keeps =
    ih l x p n r (c ∷ path) ∙ around-hang (node l x p n r) c path ∙ ap (λ es. around es path) keeps

entries-simple_balance_loop :
    (f : ℕ) (l : Tree) (x : Entry) (p n : ℕ) (r : Tree) (path : List Crumb)
    → entries (simple_balance_loop f l x p n r path) ≡ around (entries l ++ (x ∷ entries r)) path
unfolding simple_balance_loop
entries-simple_balance_loop zero l x p n r path = entries-plug (node l x p n r) path
entries-simple_balance_loop (suc f) l x p n r [] = simp append-nil
entries-simple_balance_loop (suc f) l x p n r (left_of e ep en s ∷ path) =
    next_round (simple_balance_loop f) path _ _ (turn_left l x p r e ep s)
      (entries-simple_balance_loop f)
      (entries-simple_balance_loop f (node l x p n r) e ep en s path)
      (turn_left-keeps l x p r e ep s)
    ∙ sym (around-hang (node l x p n r) (left_of e ep en s) path)
entries-simple_balance_loop (suc f) l x p n r (right_of s e ep en ∷ path) =
    next_round (simple_balance_loop f) path _ _ (turn_right s e ep l x p r)
      (entries-simple_balance_loop f)
      (entries-simple_balance_loop f s e ep en (node l x p n r) path)
      (turn_right-keeps s e ep l x p r)
    ∙ sym (around-hang (node l x p n r) (right_of s e ep en) path)

-- Whatever the mode, balancing keeps the entries of the tree and their order.
pub entries-balance : (mode : TreeMode) (x : Place) → entries (balance mode x) ≡ entries (whole x)
unfolding balance node_prioritize node_count_balance node_simple_balance
entries-balance mode x = by_mode mode ∙ sym (entries-plug (subtree x) x.path)
  where
    by_mode : (mode : TreeMode) → entries (balance mode x) ≡ around (entries (subtree x)) x.path
    by_mode splay = entries-node_splay x.left x.entry x.priority x.count x.right x.path
    by_mode treap =
        entries-prioritize_loop x.left x.entry (node_priority x.entry.addr) x.count x.right x.path
    by_mode count = entries-count_balance_loop x.left x.entry x.priority x.count x.right x.path
    by_mode simple =
        entries-simple_balance_loop (2 * length x.path) x.left x.entry x.priority x.count x.right
          x.path
