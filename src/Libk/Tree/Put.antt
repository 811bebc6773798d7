-- ===== src/Libk/Tree/Put.antt =====
-- `tree_put` of libk/tree.c against the list of entries.
use twcos.Common.{
  ℕ, ◌≡◌, refl, sym, ap, subst, ◌∙◌, List, [], ◌∷◌, ◌++◌, append_assoc, append-nil, compared, less,
  same, more,
}
use twcos.Libk.Tree.{Entry, Tree, leaf, node, Crumb, left_of, right_of}
use twcos.Libk.Tree.Inorder.{entries, around, entries-plug, entries-balance}
use twcos.Libk.Tree.Ops.{TreeMode, Comp, TreeMap, bump, Fresh, tree_node_new, put_node, tree_put}
use twcos.Libk.Tree.Sorted.{
  IsComparison, IsSorted, value_at, put_entry, cut, put_entry-before, put_entry-after,
  value_at-after, value_at-before, below_of_gt, below_of_eq, above_of_lt, put_entry-IsSorted,
}
use twcos.Libk.Tree.Cuts.{
  contents, IsSearchTree, around-bump, value_at-here, put_entry-here, value_at-skip, put_entry-skip,
}

-- The entry that `tree_put` makes of a fresh node.
abbrev pub new_entry : Fresh → ℕ → ℕ → Entry
new_entry f key value = record { addr = f.addr; key = key; value = value }

-- What `tree_put` on a subtree does: the value that it returns, and the entries of the whole tree.
record Puts (comp : Comp) (x : Entry) (t : Tree) (path : List Crumb) (r : ℕ × Tree) : Type 0 where
  old : r.0 ≡ value_at comp x.key (entries t)
  now : entries r.1 ≡ around (put_entry comp x (entries t)) path

module _ {comp : Comp} (law : IsComparison comp) (mode : TreeMode) (f : Fresh) (key value : ℕ) where
  abbrev x : Entry
  x = new_entry f key value

  put_node-Puts :
      (t : Tree) (path : List Crumb)
      → IsSorted comp (entries t)
      → Puts comp x t path (put_node comp mode f key value t path)
  unfolding put_node
  put_node-Puts leaf path s = record {
    old = refl;
    now =
        entries-balance mode (tree_node_new f key value path)
        ∙ unfold tree_node_new in
          entries-plug (node leaf x f.priority 1 leaf) (bump path) ∙ around-bump (x ∷ []) path;
  }
  put_node-Puts (node l e p n r) path s =
      let c = cut comp e (entries l) (entries r) s in
      elim (compared (comp key e.key)) [
        | less h ↦
            let ih = put_node-Puts l (left_of e p n r ∷ path) c.left in
            rw (h, put_node)
              (record {
                old =
                    ih.old
                    ∙ sym (
                        value_at-before comp key (entries l) (e ∷ entries r)
                          (above_of_lt law key e (entries r) c.above h));
                now =
                    ih.now
                    ∙ rw (put_entry-before comp x e (entries l) (entries r) h) (simp append_assoc);
              })
        | more h ↦
            let ih = put_node-Puts r (right_of l e p n ∷ path) c.right in
            let below = below_of_gt law key e (entries l) c.below h in
            rw (h, put_node)
              (record {
                old =
                    ih.old
                    ∙ sym (
                        value_at-after comp key (entries l) (e ∷ entries r) below
                        ∙ value_at-skip comp key e (entries r) h);
                now =
                    ih.now
                    ∙ rw
                        (
                          put_entry-after comp x (entries l) (e ∷ entries r) below,
                          put_entry-skip comp x e (entries r) h,
                        )
                        (simp append_assoc);
              })
        | same h ↦
            let below = below_of_eq law key e (entries l) c.below h in
            rw (h, put_node)
              (record {
                old = sym (
                    value_at-after comp key (entries l) (e ∷ entries r) below
                    ∙ value_at-here comp key e (entries r) h);
                now =
                    entries-plug (node l (record x { addr = e.addr }) p n r) path
                    ∙ ap (λ es. around es path)
                        (sym (
                          put_entry-after comp x (entries l) (e ∷ entries r) below
                          ∙ ap (λ es. entries l ++ es) (put_entry-here comp x e (entries r) h)));
              })
      ]

-- On a search tree, in every mode, `tree_put` returns the value that the key had, puts the new
-- entry in its place in the order of the keys (or the new key and value into the entry with an
-- equal key), and leaves a search tree with the same comparison and mode.
pub tree_put-put_entry :
    (f : Fresh) (t : TreeMap) (key value : ℕ)
    → IsComparison t.comp
    → IsSearchTree t
    → let (old, t') = tree_put f t key value in
      (old ≡ value_at t.comp key (contents t))
      × (contents t' ≡ put_entry t.comp (new_entry f key value) (contents t))
      × (t'.comp ≡ t.comp)
      × (t'.mode ≡ t.mode)
      × IsSearchTree t'
unfolding tree_put
tree_put-put_entry f t key value law s =
    let h = put_node-Puts law t.mode f key value t.root [] s in
    let now = h.now ∙ append-nil _ in
    (
      h.old,
      now,
      refl,
      refl,
      subst (IsSorted t.comp) (sym now)
          (put_entry-IsSorted law (new_entry f key value) (contents t) s),
    )
