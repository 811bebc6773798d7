-- ===== src/Libk/Tree/Walk.antt =====
-- `tree_walk` of libk/tree.c visits every entry, in order.
use twcos.Common.{
  ℕ, zero, suc, ◌<◌, ◌≡◌, ◌≢◌, refl, sym, ap, ◌∙◌, subst, Option, none, some, List, [], ◌∷◌, ◌++◌,
  ◌==◌, arith, length, length-append, append-nil, append_assoc, All, ne→==, ==_refl, false,
}
use twcos.Libk.Tree.{Entry, Tree, leaf, node, Crumb, left_of, right_of, Place}
use twcos.Libk.Tree.Neighbours.{
  tree_size, leftmost, rightmost, climb_right, node_next, tree_node_first, tree_node_last,
  tree_walk_nodes,
}
use twcos.Libk.Tree.Ops.{TreeMap, tree_walk}
use twcos.Libk.Tree.Inorder.{entries, after}
use twcos.Libk.Tree.Cuts.{contents}

-- The entries from a node on.
abbrev pub entries_from : Option Place → List Entry
entries_from none = []
entries_from (some x) = x.entry ∷ entries x.right ++ after x.path

leftmost-entries :
    (l : Tree) (e : Entry) (p n : ℕ) (r : Tree) (path : List Crumb)
    → entries_from (some (leftmost l e p n r path)) ≡ entries (node l e p n r) ++ after path
unfolding leftmost
leftmost-entries leaf e p n r path = refl
leftmost-entries (node a b bp bn c) e p n r path =
    leftmost-entries a b bp bn c (left_of e p n r ∷ path)
    ∙ sym (append_assoc (entries (node a b bp bn c)) (e ∷ entries r) (after path))

climb_right-entries :
    (t : Tree) (path : List Crumb) → entries_from (climb_right t path) ≡ after path
unfolding climb_right
climb_right-entries t [] = refl
climb_right-entries t (left_of e p n s ∷ path) = refl
climb_right-entries t (right_of s e p n ∷ path) = climb_right-entries (node s e p n t) path

node_next-entries : (x : Place) → entries_from (node_next x) ≡ entries x.right ++ after x.path
unfolding node_next
node_next-entries x = by_right x.left x.entry x.priority x.count x.right x.path
  where
    by_right :
        (l : Tree) (e : Entry) (p n : ℕ) (r : Tree) (path : List Crumb)
        → entries_from (
            node_next
              (record { left = l; entry = e; priority = p; count = n; right = r; path = path }))
          ≡ entries r ++ after path
    by_right l e p n leaf path = climb_right-entries (node l e p n leaf) path
    by_right l e p n (node a b bp bn c) path =
        leftmost-entries a b bp bn c (right_of l e p n ∷ path)

abbrev head_or : Entry → List Entry → Entry
head_or d [] = d
head_or d (e ∷ es) = e

abbrev tail : List Entry → List Entry
tail [] = []
tail (e ∷ es) = es

walk_until :
    (f : ℕ) (o : Option Place) (y : Place) (pre : List Entry) (post : List Entry)
    → entries_from o ≡ pre ++ y.entry ∷ post
    → All (λ z. z.addr ≢ y.entry.addr) pre
    → length pre < f
    → tree_walk_nodes f o (some y) ≡ some (pre ++ y.entry ∷ [])
unfolding tree_walk_nodes
walk_until zero o y pre post e d h = absurd (omega arith)
walk_until (suc f) none y [] post e d h = absurd (omega (arith, ap length e))
walk_until (suc f) none y (z ∷ pre) post e d h = absurd (omega (arith, ap length e))
walk_until (suc f) (some x) y [] post e d h =
    let first : x.entry ≡ y.entry = ap (head_or x.entry) e in rw (first, ==_refl y.entry.addr)
walk_until (suc f) (some x) y (z ∷ pre) post e d h =
    let first : x.entry ≡ z = ap (head_or x.entry) e in
    let rest : entries_from (node_next x) ≡ pre ++ y.entry ∷ post =
      node_next-entries x ∙ ap tail e in
    let on : (x.entry.addr == y.entry.addr) ≡ false =
      subst (λ w. (w.addr == y.entry.addr) ≡ false) (sym first) (ne→== z.addr y.entry.addr d.0) in
    rw (on, walk_until f (node_next x) y pre post rest d.1 (omega arith))
      (ap (λ w. some (w ∷ pre ++ y.entry ∷ [])) first)

-- No two entries have the same address.
abbrev pub IsDistinct : List Entry → Type 0
IsDistinct [] = Unit
IsDistinct (e ∷ es) = All (λ z. z.addr ≢ e.addr) es × IsDistinct es

distinct_before :
    (pre : List Entry) (e : Entry) → IsDistinct (pre ++ e ∷ []) → All (λ z. z.addr ≢ e.addr) pre
distinct_before [] e d = tt
distinct_before (z ∷ pre) e d = ((λ h. last_ne pre d.0 (sym h)), distinct_before pre e d.1)
  where
    last_ne : (pre : List Entry) → All (λ y. y.addr ≢ z.addr) (pre ++ e ∷ []) → e.addr ≢ z.addr
    last_ne [] h = h.0
    last_ne (y ∷ pre) h = last_ne pre h.1

-- The entries before the last one.
rightmost-entries :
    (l : Tree) (e : Entry) (p n : ℕ) (r : Tree) (path : List Crumb)
    → (pre : List Entry) × (entries (node l e p n r) ≡ pre ++ (rightmost l e p n r path).entry ∷ [])
unfolding rightmost
rightmost-entries l e p n leaf path = (entries l, refl)
rightmost-entries l e p n (node a b bp bn c) path =
    let (pre, h) = rightmost-entries a b bp bn c (right_of l e p n ∷ path) in
    (
      entries l ++ e ∷ pre,
      ap (λ es. entries l ++ (e ∷ es)) h ∙ sym (append_assoc (entries l) (e ∷ pre) _),
    )

length-entries : (t : Tree) → length (entries t) ≡ tree_size t
length-entries leaf = refl
length-entries (node l e p n r) =
    omega (arith, length-append (entries l) (e ∷ entries r), length-entries l, length-entries r)

-- `tree_walk` ends and calls its function with every entry of the tree once, in the order of the
-- tree, provided that no two nodes have the same address.
pub tree_walk-contents : (t : TreeMap) → IsDistinct (contents t) → tree_walk t ≡ some (contents t)
unfolding tree_walk tree_node_first tree_node_last tree_walk_nodes
tree_walk-contents t d = by_root t.root d
  where
    by_root :
        (t : Tree)
        → IsDistinct (entries t)
        → tree_walk_nodes (suc (tree_size t)) (tree_node_first t) (tree_node_last t)
          ≡ some (entries t)
    by_root leaf d = refl
    by_root (node l e p n r) d =
        let (pre, h) = rightmost-entries l e p n r [] in
        let y = rightmost l e p n r [] in
        let size = length-entries (node l e p n r) in
        walk_until (suc (tree_size (node l e p n r))) (some (leftmost l e p n r [])) y pre []
          (leftmost-entries l e p n r [] ∙ append-nil _ ∙ h)
          (distinct_before pre y.entry (subst IsDistinct h d))
          (omega (arith, size, ap length h, length-append pre (y.entry ∷ [])))
        ∙ ap some (sym h)
