-- ===== src/Libk/Tree/Tests.antt =====
-- Runs of libk/tree.c on a tree of three nodes, and the theorems at it.
use twcos.Common.{arith, ℕ, ◌*◌, ◌≡◌, refl, [], ◌∷◌, some, compare}
use twcos.Libk.Tree.{Entry, Tree, leaf, node, Place, right_of, whole}
use twcos.Libk.Tree.Balance.{node_splay}
use twcos.Libk.Tree.Ops.{
  splay, map_lt, map_eq, TreeMap, Fresh, balance, tree_put, tree_get_node, tree_get, tree_remove,
  tree_walk, tree_walk_range,
}
use twcos.Libk.Tree.Sorted.{compare-IsComparison, value_at, put_entry}
use twcos.Libk.Tree.Cuts.{contents, IsSearchTree}
use twcos.Libk.Tree.Put.{new_entry, tree_put-put_entry}
use twcos.Libk.Tree.Remove.{Removed, tree_remove-Removed}
use twcos.Libk.Tree.Pick.{pick}
use twcos.Libk.Tree.Inorder.{entries, entries-balance}
use twcos.Libk.Tree.Walk.{IsDistinct, tree_walk-contents}
use twcos.Libk.Tree.Get.{Found, tree_get_node-pick}
use twcos.Libk.Tree.Ordinal.{found, node_ordinal, node_ordinal-entries}
use twcos.Libk.Tree.Map.{tree_get-tree_put, tree_get-tree_remove}

abbrev entry : ℕ → ℕ → Entry
entry key value = record { addr = key * 16; key = key; value = value }

abbrev lower : Tree
lower = node leaf (entry 10 1) 5 1 leaf

abbrev upper : Tree
upper = node leaf (entry 30 3) 9 1 leaf

abbrev three : TreeMap
three = record { root = node lower (entry 20 2) 7 3 upper; mode = splay; comp = compare }

three-IsSearchTree : IsSearchTree three
three-IsSearchTree = ((refl, (refl, tt)), ((refl, tt), (tt, tt)))

abbrev fresh : Fresh
fresh = record { addr = 640; priority = 0 }

put_run :
    contents (tree_put fresh three 25 9).1
    ≡ entry 10 1 ∷ entry 20 2 ∷ new_entry fresh 25 9 ∷ entry 30 3 ∷ []
unfolding tree_put node_splay
put_run = refl

walk_run : tree_walk three ≡ some (contents three)
unfolding tree_walk
walk_run = refl

range_run : (tree_walk_range three 15 25).0 ≡ some (entry 20 2 ∷ [])
unfolding tree_walk_range
range_run = refl

tree_put-put_entry_example :
    let (old, t') = tree_put fresh three 25 9 in
    (old ≡ value_at compare 25 (contents three))
    × (contents t' ≡ put_entry compare (new_entry fresh 25 9) (contents three))
    × (t'.comp ≡ compare)
    × (t'.mode ≡ splay)
    × IsSearchTree t'
tree_put-put_entry_example =
    tree_put-put_entry fresh three 25 9 compare-IsComparison three-IsSearchTree

tree_remove-Removed_example : Removed three 20 (tree_remove three 20)
tree_remove-Removed_example = tree_remove-Removed three 20 compare-IsComparison three-IsSearchTree

tree_get_node-pick_example :
    Found three (pick compare map_lt 25 (contents three)) (tree_get_node three 25 map_lt)
tree_get_node-pick_example =
    tree_get_node-pick three 25 map_lt compare-IsComparison three-IsSearchTree

tree_get-tree_put_example : (tree_get (tree_put fresh three 25 9).1 25 map_eq).0 ≡ 9
tree_get-tree_put_example =
    tree_get-tree_put fresh three 25 9 25 compare-IsComparison three-IsSearchTree

tree_get-tree_remove_example : (tree_get (tree_remove three 20).1 20 map_eq).0 ≡ 0
tree_get-tree_remove_example =
    tree_get-tree_remove three 20 20 compare-IsComparison three-IsSearchTree

entries-balance_example :
    let x : Place = record {
      left = leaf;
      entry = entry 30 3;
      priority = 9;
      count = 1;
      right = leaf;
      path = right_of lower (entry 20 2) 7 3 ∷ [];
    } in
    entries (balance splay x) ≡ entries (whole x)
entries-balance_example = entries-balance splay (record {
  left = leaf;
  entry = entry 30 3;
  priority = 9;
  count = 1;
  right = leaf;
  path = right_of lower (entry 20 2) 7 3 ∷ [];
})

tree_walk-contents_example : tree_walk three ≡ some (contents three)
tree_walk-contents_example = tree_walk-contents three three-IsDistinct
  where
    three-IsDistinct : IsDistinct (contents three)
    three-IsDistinct = (
      ((λ e. absurd (omega (arith, e))), ((λ e. absurd (omega (arith, e))), tt)),
      (((λ e. absurd (omega (arith, e))), tt), (tt, tt)),
    )

node_ordinal-entries_example : node_ordinal three.root 1 ≡ found (entry 20 2)
node_ordinal-entries_example =
    node_ordinal-entries three.root 1 ((tt, refl, tt), refl, (tt, refl, tt))
