-- ===== src/Libk/Tree/Get.antt =====
-- `tree_get_node` of libk/tree.c, with each of its five conditions, against the list of entries.
use twcos.Common.{
  ℕ, ◌≡◌, refl, sym, ap, subst, ◌∙◌, List, [], ◌∷◌, ◌++◌, append_assoc, append-nil, Option, none,
  some, All-append, All-imp, compared, less, same, more, Bool, true, false,
}
use twcos.Libk.Tree.{Entry, Tree, leaf, node, Crumb, left_of, right_of, Place, subtree}
use twcos.Libk.Tree.Balance.{top_place, node_splay}
use twcos.Libk.Tree.Neighbours.{node_next, node_prev}
use twcos.Libk.Tree.Inorder.{entries, before, after, around, around-hang, entries-node_splay}
use twcos.Libk.Tree.Ops.{
  TreeMode, splay, treap, count, simple, MapEqTest, map_lt, map_le, map_eq, map_ge, map_gt, Comp,
  TreeMap, end_left, end_right, end_equal, get_node, splay_found, tree_get_node,
}
use twcos.Libk.Tree.Sorted.{
  IsComparison, AllBelow, AllAbove, IsSorted, cut, below_of_gt, below_of_eq, above_of_lt,
}
use twcos.Libk.Tree.Cuts.{contents, IsSearchTree}
use twcos.Libk.Tree.Pick.{first, last, pick, between, pick-between, at_equal, pick-equal}
use twcos.Libk.Tree.Nearest.{entry_of, last-append, neighbours}

-- The answer that is ready for when the child that the search goes to is NULL.
abbrev Ready : MapEqTest → Tree → List Crumb → Option Place × Bool → Type 0
Ready cond t path end =
    t ≡ leaf → (entry_of end.0 ≡ between cond (before path) (after path)) × (end.1 ≡ false)

module _ (cond : MapEqTest) (l : Tree) (e : Entry) (p n : ℕ) (r : Tree) (path : List Crumb) where
  abbrev here : Place
  here = record { left = l; entry = e; priority = p; count = n; right = r; path = path }

  end_left-Ready : Ready cond l (left_of e p n r ∷ path) (end_left cond here, false)
  end_left-Ready none_left = (by_cond cond, refl)
    where
      prev : entry_of (node_prev here) ≡ last (before path)
      prev = (neighbours l e p n r path).0 ∙ rw none_left (ap last (append-nil (before path)))

      by_cond :
          (cond : MapEqTest)
          → entry_of (end_left cond here)
            ≡ between cond (before path) (after (left_of e p n r ∷ path))
      by_cond map_lt = prev
      by_cond map_le = prev
      by_cond map_eq = refl
      by_cond map_ge = refl
      by_cond map_gt = refl

  end_right-Ready : Ready cond r (right_of l e p n ∷ path) (end_right cond here, false)
  end_right-Ready none_right = (by_cond cond, refl)
    where
      next : entry_of (node_next here) ≡ first (after path)
      next = (neighbours l e p n r path).1 ∙ rw none_right

      at_end : last (before path ++ (entries l ++ (e ∷ []))) ≡ some e
      at_end = rw (← append_assoc) (last-append (before path ++ entries l) e [])

      by_cond :
          (cond : MapEqTest)
          → entry_of (end_right cond here)
            ≡ between cond (before (right_of l e p n ∷ path)) (after path)
      by_cond map_lt = sym at_end
      by_cond map_le = sym at_end
      by_cond map_eq = refl
      by_cond map_ge = next
      by_cond map_gt = next

  entry_of-end_equal :
      entry_of (end_equal cond here).0
      ≡ at_equal cond (before path ++ entries l) e (entries r ++ after path)
  entry_of-end_equal = by_cond cond
    where
      by_cond :
          (cond : MapEqTest)
          → entry_of (end_equal cond here).0
            ≡ at_equal cond (before path ++ entries l) e (entries r ++ after path)
      by_cond map_lt = (neighbours l e p n r path).0
      by_cond map_le = refl
      by_cond map_eq = refl
      by_cond map_ge = refl
      by_cond map_gt = (neighbours l e p n r path).1

module _ {comp : Comp} (law : IsComparison comp) (key : ℕ) (cond : MapEqTest) where
  -- Wherever the search stands, it ends at the entry asked for.
  pick-get_node :
      (t : Tree) (path : List Crumb) (end : Option Place × Bool)
      → IsSorted comp (entries t)
      → AllBelow comp key (before path)
      → AllAbove comp key (after path)
      → Ready cond t path end
      → entry_of (get_node comp key cond t path end).0
        ≡ pick comp cond key (around (entries t) path)
  unfolding get_node
  pick-get_node leaf path end s b a ready =
      (ready refl).0 ∙ sym (pick-between comp cond key (before path) (after path) b a)
  pick-get_node (node l e p n r) path end s b a ready =
      let c = cut comp e (entries l) (entries r) s in
      elim (compared (comp key e.key)) [
        | less h ↦
            let a' = above_of_lt law key e (entries r) c.above h in
            rw (h, get_node)
              (pick-get_node l (left_of e p n r ∷ path)
                  (end_left cond (here cond l e p n r path), false) c.left b
                  (h, All-append _ (entries r) (after path) a'.1 a)
                  (end_left-Ready cond l e p n r path)
                ∙ ap (pick comp cond key) (simp append_assoc))
        | more h ↦
            let b' = below_of_gt law key e (entries l) c.below h in
            rw (h, get_node)
              (pick-get_node r (right_of l e p n ∷ path)
                  (end_right cond (here cond l e p n r path), false) c.right
                  (All-append _ (before path) _ b (All-append _ (entries l) (e ∷ []) b' (h, tt))) a
                  (end_right-Ready cond l e p n r path)
                ∙ ap (pick comp cond key) (simp append_assoc))
        | same h ↦
            let b' = below_of_eq law key e (entries l) c.below h in
            let a' : AllAbove comp key (entries r) =
              All-imp (λ y v. law.eq_of_eq key e.key y.key h ∙ v) (entries r) c.above in
            rw (h, get_node)
              (entry_of-end_equal cond l e p n r path
                ∙ sym (
                    pick-equal comp cond key e (before path ++ entries l) (entries r ++ after path)
                      (All-append _ (before path) (entries l) b b') h
                      (All-append _ (entries r) (after path) a' a))
                ∙ ap (pick comp cond key) (simp append_assoc))
      ]

-- A splayed node is the root.
entry_of-node_splay :
    (path : List Crumb) (l : Tree) (x : Entry) (p n : ℕ) (r : Tree)
    → entry_of (top_place (node_splay l x p n r path) []) ≡ some x
unfolding node_splay
entry_of-node_splay [] l x p n r = refl
entry_of-node_splay (left_of e ep en s ∷ []) l x p n r = refl
entry_of-node_splay (left_of e ep en s ∷ left_of g gp gn t ∷ path) l x p n r =
    entry_of-node_splay path l x p _ _
entry_of-node_splay (left_of e ep en s ∷ right_of t g gp gn ∷ path) l x p n r =
    entry_of-node_splay path _ x p _ _
entry_of-node_splay (right_of s e ep en ∷ []) l x p n r = refl
entry_of-node_splay (right_of s e ep en ∷ right_of t g gp gn ∷ path) l x p n r =
    entry_of-node_splay path _ x p _ r
entry_of-node_splay (right_of s e ep en ∷ left_of g gp gn t ∷ path) l x p n r =
    entry_of-node_splay (left_of g gp gn t ∷ path) _ x p _ r

-- A place at which the tree is to be splayed is a place of that tree.
abbrev IsWithin : List Entry → Option Place × Bool → Type 0
IsWithin es (none, _) = Unit
IsWithin es (some x, false) = Unit
IsWithin es (some x, true) = around (entries (subtree x)) x.path ≡ es

not_splayed : (es : List Entry) (o : Option Place) → IsWithin es (o, false)
not_splayed es none = tt
not_splayed es (some x) = tt

get_node-IsWithin :
    (comp : Comp) (key : ℕ) (cond : MapEqTest) (t : Tree) (path : List Crumb)
    (end : Option Place × Bool)
    → IsWithin (around (entries t) path) end
    → IsWithin (around (entries t) path) (get_node comp key cond t path end)
unfolding get_node
get_node-IsWithin comp key cond leaf path end h = h
get_node-IsWithin comp key cond (node l e p n r) path end h = elim (compared (comp key e.key)) [
  | less c ↦
      rw (c, get_node)
        (subst
          (λ es. IsWithin es (
            get_node comp key cond l (left_of e p n r ∷ path)
              (end_left cond (here cond l e p n r path), false)))
          (around-hang l (left_of e p n r) path)
          (get_node-IsWithin comp key cond l (left_of e p n r ∷ path)
            (end_left cond (here cond l e p n r path), false) (not_splayed _ _)))
  | more c ↦
      rw (c, get_node)
        (subst
          (λ es. IsWithin es (
            get_node comp key cond r (right_of l e p n ∷ path)
              (end_right cond (here cond l e p n r path), false)))
          (around-hang r (right_of l e p n) path)
          (get_node-IsWithin comp key cond r (right_of l e p n ∷ path)
            (end_right cond (here cond l e p n r path), false) (not_splayed _ _)))
  | same c ↦ rw (c, get_node) (by_cond cond)
]
  where
    by_cond :
        (cond : MapEqTest)
        → IsWithin
            (around (entries (node l e p n r)) path)
            (end_equal cond (here cond l e p n r path))
    by_cond map_lt = not_splayed _ _
    by_cond map_le = refl
    by_cond map_eq = refl
    by_cond map_ge = refl
    by_cond map_gt = not_splayed _ _

-- The found entry, and a tree with the same entries in the same order, comparison and mode.
abbrev pub Found : TreeMap → Option Entry → Option Place × TreeMap → Type 0
Found t o (found, t') =
    (entry_of found ≡ o) × (contents t' ≡ contents t) × (t'.comp ≡ t.comp) × (t'.mode ≡ t.mode)

splay_found-Found :
    (t : TreeMap) (r : Option Place × Bool)
    → IsWithin (contents t) r
    → Found t (entry_of r.0) (splay_found t r)
unfolding splay_found
splay_found-Found t (none, b) h = (refl, refl, refl, refl)
splay_found-Found t (some x, false) h = (refl, refl, refl, refl)
splay_found-Found t (some x, true) h = by_mode t.mode refl
  where
    by_mode : (m : TreeMode) → t.mode ≡ m → Found t (some x.entry) (splay_found t (some x, true))
    by_mode splay e =
        rw (e, splay_found)
          (
            entry_of-node_splay x.path x.left x.entry x.priority x.count x.right,
            entries-node_splay x.left x.entry x.priority x.count x.right x.path ∙ h,
            refl,
            e,
          )
    by_mode treap e = rw (e, splay_found) (refl, refl, refl, e)
    by_mode count e = rw (e, splay_found) (refl, refl, refl, e)
    by_mode simple e = rw (e, splay_found) (refl, refl, refl, e)

-- On a search tree `tree_get_node` finds, for each of the five conditions, the entry asked for: the
-- last one before the key, the first one after it, the one at it, or the latter where there is one.
-- It may splay the tree, and keeps its entries, their order, the comparison and the mode.
pub tree_get_node-pick :
    (t : TreeMap) (key : ℕ) (cond : MapEqTest)
    → IsComparison t.comp
    → IsSearchTree t
    → Found t (pick t.comp cond key (contents t)) (tree_get_node t key cond)
unfolding tree_get_node
tree_get_node-pick t key cond law s =
    let r = get_node t.comp key cond t.root [] (none, false) in
    let within : IsWithin (contents t) r =
      subst (λ es. IsWithin es r) (append-nil (contents t))
        (get_node-IsWithin t.comp key cond t.root [] (none, false) tt) in
    let answer : entry_of r.0 ≡ pick t.comp cond key (contents t) =
      pick-get_node law key cond t.root [] (none, false) s tt tt (at_root cond)
      ∙ ap (pick t.comp cond key) (append-nil (contents t)) in
    subst (λ o. Found t o (splay_found t r)) answer (splay_found-Found t r within)
  where
    at_root : (cond : MapEqTest) → Ready cond t.root [] (none, false)
    at_root map_lt e = (refl, refl)
    at_root map_le e = (refl, refl)
    at_root map_eq e = (refl, refl)
    at_root map_ge e = (refl, refl)
    at_root map_gt e = (refl, refl)
