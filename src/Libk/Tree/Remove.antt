-- ===== src/Libk/Tree/Remove.antt =====
-- `tree_remove` of libk/tree.c against the list of entries.
use twcos.Common.{
  ℕ, ◌+◌, ◌≡◌, refl, sym, ap, subst, ◌∙◌, List, [], ◌∷◌, ◌++◌, append_assoc, append-nil, Option,
  none, some, compared, less, same, more,
}
use Prim.Native.Nat.Ordering.{gt}
use twcos.Libk.Tree.{count_of, node_count, Entry, Tree, leaf, node, Crumb, left_of, right_of}
use twcos.Libk.Tree.Inorder.{entries, around, entries-plug}
use twcos.Libk.Tree.Ops.{Comp, TreeMap, unbump, sink, remove_node, tree_remove}
use twcos.Libk.Tree.Sorted.{
  IsComparison, AllBelow, AllAbove, IsSorted, value_at, remove_entry, cut, remove_entry-before,
  remove_entry-after, value_at-after, value_at-before, below_of_gt, below_of_eq, above_of_lt,
  remove_entry-IsSorted,
}
use twcos.Libk.Tree.Cuts.{
  contents, IsSearchTree, around-unbump, value_at-here, remove_entry-here, value_at-skip,
  remove_entry-skip,
}

sink-around :
    (l r : Tree) (path : List Crumb)
    → entries (sink l r path) ≡ around (entries l ++ entries r) path
unfolding sink
sink-around (node a b bp bn c) r path =
    simp (sink-around c r (right_of a b bp (1 + count_of c r + node_count a) ∷ path), append_assoc)
sink-around leaf (node c d dp dn e) path =
    simp (
      sink-around leaf c (left_of d dp (1 + count_of leaf c + node_count e) e ∷ path),
      append_assoc,
    )
sink-around leaf leaf path = entries-plug leaf (unbump path) ∙ around-unbump [] path

-- What `tree_remove` on a subtree does: the value and the tree that it returns, or nothing.
Removes : Comp → ℕ → Tree → List Crumb → Option (ℕ × Tree) → Type 0
Removes comp key t path none =
    (value_at comp key (entries t) ≡ 0) × (remove_entry comp key (entries t) ≡ entries t)
Removes comp key t path (some (old, t')) =
    (old ≡ value_at comp key (entries t))
    × (entries t' ≡ around (remove_entry comp key (entries t)) path)

module _ {comp : Comp} (law : IsComparison comp) (key : ℕ) where
  remove_left :
      (l : Tree) (e : Entry) (p n : ℕ) (r : Tree) (path : List Crumb) (o : Option (ℕ × Tree))
      → AllAbove comp key (e ∷ entries r)
      → Removes comp key l (left_of e p n r ∷ path) o
      → Removes comp key (node l e p n r) path o
  unfolding Removes
  remove_left l e p n r path none h (v, unchanged) = (
    value_at-before comp key (entries l) (e ∷ entries r) h ∙ v,
    remove_entry-before comp key e (entries l) (entries r) h
        ∙ ap (λ es. es ++ (e ∷ entries r)) unchanged,
  )
  remove_left l e p n r path (some (old, t')) h (v, now) = (
    v ∙ sym (value_at-before comp key (entries l) (e ∷ entries r) h),
    now ∙ rw (remove_entry-before comp key e (entries l) (entries r) h) (simp append_assoc),
  )

  remove_right :
      (l : Tree) (e : Entry) (p n : ℕ) (r : Tree) (path : List Crumb) (o : Option (ℕ × Tree))
      → AllBelow comp key (entries l)
      → comp key e.key ≡ gt
      → Removes comp key r (right_of l e p n ∷ path) o
      → Removes comp key (node l e p n r) path o
  unfolding Removes
  remove_right l e p n r path none below h (v, unchanged) = (
    value_at-after comp key (entries l) (e ∷ entries r) below
        ∙ value_at-skip comp key e (entries r) h
        ∙ v,
    remove_entry-after comp key (entries l) (e ∷ entries r) below
        ∙ ap (λ es. entries l ++ es)
            (remove_entry-skip comp key e (entries r) h ∙ ap (λ es. e ∷ es) unchanged),
  )
  remove_right l e p n r path (some (old, t')) below h (v, now) = (
    v
        ∙ sym (
            value_at-after comp key (entries l) (e ∷ entries r) below
            ∙ value_at-skip comp key e (entries r) h),
    now
        ∙ rw
            (
              remove_entry-after comp key (entries l) (e ∷ entries r) below,
              remove_entry-skip comp key e (entries r) h,
            )
            (simp append_assoc),
  )

  remove_node-Removes :
      (t : Tree) (path : List Crumb)
      → IsSorted comp (entries t)
      → Removes comp key t path (remove_node comp key t path)
  unfolding remove_node Removes
  remove_node-Removes leaf path s = (refl, refl)
  remove_node-Removes (node l e p n r) path s =
      let c = cut comp e (entries l) (entries r) s in
      elim (compared (comp key e.key)) [
        | less h ↦
            rw (h, remove_node)
              (remove_left l e p n r path _ (above_of_lt law key e (entries r) c.above h)
                (remove_node-Removes l (left_of e p n r ∷ path) c.left))
        | more h ↦
            rw (h, remove_node)
              (remove_right l e p n r path _ (below_of_gt law key e (entries l) c.below h) h
                (remove_node-Removes r (right_of l e p n ∷ path) c.right))
        | same h ↦
            let below = below_of_eq law key e (entries l) c.below h in
            rw (h, remove_node)
              (
                sym (
                    value_at-after comp key (entries l) (e ∷ entries r) below
                    ∙ value_at-here comp key e (entries r) h),
                sink-around l r path
                    ∙ ap (λ es. around es path)
                        (sym (
                          remove_entry-after comp key (entries l) (e ∷ entries r) below
                          ∙ ap (λ es. entries l ++ es)
                              (remove_entry-here comp key e (entries r) h))),
              )
      ]

-- The returned value is that of the key, the key's entry and no other is gone, and the tree is a
-- search tree with the comparison and the mode that it had.
abbrev pub Removed : TreeMap → ℕ → ℕ × TreeMap → Type 0
Removed t key (old, t') =
    (old ≡ value_at t.comp key (contents t))
    × (contents t' ≡ remove_entry t.comp key (contents t))
    × (t'.comp ≡ t.comp)
    × (t'.mode ≡ t.mode)
    × IsSearchTree t'

finish :
    (t : TreeMap) (key : ℕ) (o : Option (ℕ × Tree))
    → IsComparison t.comp
    → IsSearchTree t
    → Removes t.comp key t.root [] o
    → Removed t key
        (elim o [ none ↦ (0, t) | some (old, root') ↦ (old, record t { root = root' }) ])
unfolding Removes
finish t key none law s (v, unchanged) = (sym v, sym unchanged, refl, refl, s)
finish t key (some (old, root')) law s (v, now) =
    let e = now ∙ append-nil _ in
    (
      v,
      e,
      refl,
      refl,
      subst (IsSorted t.comp) (sym e) (remove_entry-IsSorted law key (contents t) s),
    )

-- On a search tree `tree_remove` returns the value that the key had (0 for none), takes the entry
-- with that key out and no other, and leaves a search tree with the same comparison and mode.
pub tree_remove-Removed :
    (t : TreeMap) (key : ℕ)
    → IsComparison t.comp
    → IsSearchTree t
    → Removed t key (tree_remove t key)
unfolding tree_remove
tree_remove-Removed t key law s =
    finish t key (remove_node t.comp key t.root []) law s (remove_node-Removes law key t.root [] s)
