-- ===== src/Libk/ArrayMap/Tests.antt =====
-- Runs of libk/arraymap.c on a map of three slots, and the theorems at it.
use twcos.Common.{◌≡◌, refl, List, [], ◌∷◌, some, arith, compare, inr}
use twcos.Libk.Tree.Sorted.{compare-IsComparison}
use twcos.Libk.ArrayMap.{Slot, ArrayMap, stored, arraymap_put, arraymap_walk, arraymap_walk_range}
use twcos.Libk.ArrayMap.Slots.{IsAscending}
use twcos.Libk.ArrayMap.Insertion.{Puts, arraymap_put-Puts}

abbrev slots : List Slot
slots = (10, 1) ∷ (20, 2) ∷ (30, 3) ∷ []

slots-IsAscending : IsAscending compare slots
slots-IsAscending = ((refl, (refl, tt)), ((refl, tt), (tt, tt)))

abbrev cities : ArrayMap
cities = record { capacity = 4; comp = compare; slots = slots }

put_run :
    arraymap_put 3 cities 25 9
    ≡ stored 0 (record cities { slots = (10, 1) ∷ (20, 2) ∷ (25, 9) ∷ (30, 3) ∷ [] })
unfolding arraymap_put
put_run = refl

walk_run : arraymap_walk cities ≡ slots
unfolding arraymap_walk
walk_run = refl

range_run : arraymap_walk_range 3 (0, 0) cities 20 31 ≡ some ((20, 2) ∷ (30, 3) ∷ [])
unfolding arraymap_walk_range
range_run = refl

arraymap_put-Puts_example : Puts cities (25, 9) (arraymap_put 3 cities 25 9)
arraymap_put-Puts_example =
    arraymap_put-Puts 3 cities 25 9 compare-IsComparison slots-IsAscending (omega arith)
      (inr (λ h. ground arith))
