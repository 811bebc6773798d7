-- ===== src/Libk/Map/Tests.antt =====
-- Maps and keys of libk/map.c that the theorems of this component are applied to.
use twcos.Common.{◌≡◌, ◌≢◌, compare, refl}
use twcos.Libk.Tree.{leaf}
use twcos.Libk.Tree.Ops.{treap}
use twcos.Libk.Tree.Sorted.{compare-IsComparison}
use twcos.Libk.Map.{MapOps, map_get, map_put, map_put_all}
use twcos.Libk.Map.Contract.{IsMap, map_get-map_put_all}
use twcos.Libk.Map.Trees.{TreeState, IsTreeState, tree_ops, same_key, tree-IsMap}

-- Treaps in the order of the numbers, with nodes of priority 7.
abbrev ops : MapOps TreeState
ops = tree_ops (λ a. 7) (λ t. t)

law : IsMap ops (same_key compare) (IsTreeState compare)
law = tree-IsMap (λ a. 7) (λ t. t) compare compare-IsComparison

abbrev empty : TreeState
empty = record { tree = record { root = leaf; mode = treap; comp = compare }; next = 100 }

empty-IsTreeState : IsTreeState compare empty
empty-IsTreeState = record { comp_kept = refl; search = tt; distinct = tt; below = tt }

abbrev files : TreeState
files = (map_put ops empty 3 30).1

map_get-map_put_all_example :
    ((map_get ops files 3).0 ≢ 0
      → (map_get ops (map_put_all ops ops empty files) 3).0 ≡ (map_get ops files 3).0)
    × ((map_get ops files 3).0 ≡ 0
        → (map_get ops empty 3).0 ≡ 0
        → (map_get ops (map_put_all ops ops empty files) 3).0 ≡ 0)
map_get-map_put_all_example =
    map_get-map_put_all ops ops (same_key compare) (IsTreeState compare) (IsTreeState compare) law
      law empty files 3 empty-IsTreeState (law.put-Valid empty 3 30 empty-IsTreeState)
