-- ===== src/Libk/Tree/Map.antt =====
-- libk/tree.c as a map: what a client reads with `tree_get` after `tree_put` and `tree_remove`.
use twcos.Common.{ℕ, ◌≡◌, refl, sym, ap, subst, ◌∙◌, List, [], ◌∷◌, Option, none, some, arith}
use Prim.Native.Nat.Ordering.{eq}
use twcos.Libk.Tree.{Entry}
use twcos.Libk.Tree.Ops.{
  map_eq, Comp, TreeMap, Fresh, tree_put, tree_get_node, data_of, tree_get, tree_remove,
}
use twcos.Libk.Tree.Sorted.{IsComparison, value_at, value_at-put_entry, value_at-remove_entry}
use twcos.Libk.Tree.Cuts.{contents, IsSearchTree}
use twcos.Libk.Tree.Pick.{pick}
use twcos.Libk.Tree.Nearest.{entry_of}
use twcos.Libk.Tree.Get.{tree_get_node-pick}
use twcos.Libk.Tree.Put.{new_entry, tree_put-put_entry}
use twcos.Libk.Tree.Remove.{tree_remove-Removed}

abbrev value_of : Option Entry → ℕ
value_of none = 0
value_of (some e) = e.value

value_of-pick :
    (comp : Comp) (k : ℕ) (es : List Entry) → value_of (pick comp map_eq k es) ≡ value_at comp k es
value_of-pick comp k [] = refl
value_of-pick comp k (e ∷ es) = ground (arith, value_of-pick comp k es)

-- `tree_get` with MAP_EQ reads the value at the key, or 0.
pub tree_get-value_at :
    (t : TreeMap) (key : ℕ)
    → IsComparison t.comp
    → IsSearchTree t
    → (tree_get t key map_eq).0 ≡ value_at t.comp key (contents t)
unfolding tree_get
tree_get-value_at t key law s =
    data_of-value_of (tree_get_node t key map_eq).0
    ∙ ap value_of (tree_get_node-pick t key map_eq law s).0
    ∙ value_of-pick t.comp key (contents t)
  where
    data_of-value_of : (o : Option _) → data_of o ≡ value_of (entry_of o)
    data_of-value_of none = refl
    data_of-value_of (some x) = refl

-- On a search tree, after `tree_put` of a value at a key, `tree_get` reads that value at every key
-- that compares equal, and at any other key what it read before.
pub tree_get-tree_put :
    (f : Fresh) (t : TreeMap) (key value k : ℕ)
    → IsComparison t.comp
    → IsSearchTree t
    → (tree_get (tree_put f t key value).1 k map_eq).0
      ≡ elim (t.comp k key) [ eq ↦ value | _ ↦ (tree_get t k map_eq).0 ]
tree_get-tree_put f t key value k law s =
    let (old, now, c, m, s') = tree_put-put_entry f t key value law s in
    let t' = (tree_put f t key value).1 in
    tree_get-value_at t' k (subst IsComparison (sym c) law) s'
    ∙ ap (λ c. value_at c k (contents t')) c
    ∙ ap (value_at t.comp k) now
    ∙ value_at-put_entry law k (new_entry f key value) (contents t)
    ∙ ap (λ v. elim (t.comp k key) [ eq ↦ value | _ ↦ v ]) (sym (tree_get-value_at t k law s))

-- On a search tree, after `tree_remove` of a key, `tree_get` reads 0 at every key that compares
-- equal, and at any other key what it read before.
pub tree_get-tree_remove :
    (t : TreeMap) (key k : ℕ)
    → IsComparison t.comp
    → IsSearchTree t
    → (tree_get (tree_remove t key).1 k map_eq).0
      ≡ elim (t.comp k key) [ eq ↦ 0 | _ ↦ (tree_get t k map_eq).0 ]
tree_get-tree_remove t key k law s =
    let (old, now, c, m, s') = tree_remove-Removed t key law s in
    let t' = (tree_remove t key).1 in
    tree_get-value_at t' k (subst IsComparison (sym c) law) s'
    ∙ ap (λ c. value_at c k (contents t')) c
    ∙ ap (value_at t.comp k) now
    ∙ value_at-remove_entry law k key (contents t) s
    ∙ ap (λ v. elim (t.comp k key) [ eq ↦ 0 | _ ↦ v ]) (sym (tree_get-value_at t k law s))
