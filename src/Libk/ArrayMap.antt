-- ===== src/Libk/ArrayMap.antt =====
-- libk/arraymap.c: a map in an array of sorted keys. `count` is the length of `slots`, the entries in
-- use; the slots behind them, which `calloc` cleared, hold key 0 and data 0 until the capacity.
pub mod Slots
pub mod Insertion
pub mod Search
mod Tests
use twcos.Common.{
  ℕ, zero, suc, ◌+◌, ◌-◌, ◌/◌, Option, none, some, List, [], ◌∷◌, ltb, ◌==◌, if◌then◌else◌, length,
  get_or, set, Ordering, ◌>>=◌,
}
use Prim.Native.Nat.Ordering.{lt, eq, gt}
use twcos.Libk.Tree.Ops.{MapEqTest, map_lt, map_le, map_eq, map_ge, map_gt, Comp}

-- One slot: a key and its data.
abbrev pub Slot : Type 0
Slot = ℕ × ℕ

pub record ArrayMap : Type 0 where
  pub capacity : ℕ
  pub comp : Comp
  pub slots : List Slot

abbrev pub no_slot : Slot
no_slot = (0, 0)

-- `amap->data[i].key`
abbrev pub key_at : List Slot → ℕ → ℕ
key_at slots i = (get_or slots i no_slot).0

-- What the switches return: an index, or -1 as `none`. `i-1` is -1 at `i = 0`.
abbrev pub pred_index : ℕ → Option ℕ
pred_index zero = none
pred_index (suc i) = some i

-- `(i<amap->count) ? i+1 : -1`
abbrev pub succ_index : ℕ → ℕ → Option ℕ
succ_index count i = if ltb i count then some (i + 1) else none

abbrev pub index_below : MapEqTest → ℕ → Option ℕ
index_below map_gt i = some i
index_below map_ge i = some i
index_below map_lt i = pred_index i
index_below map_le i = pred_index i
index_below map_eq i = none

abbrev pub index_above : MapEqTest → ℕ → ℕ → Option ℕ
index_above map_gt count i = succ_index count i
index_above map_ge count i = succ_index count i
index_above map_lt count i = some i
index_above map_le count i = some i
index_above map_eq count i = none

abbrev pub index_equal : MapEqTest → ℕ → ℕ → Option ℕ
index_equal map_lt count i = pred_index i
index_equal map_gt count i = succ_index count i
index_equal _ count i = some i

-- `while(1)` of `arraymap_get_index`. The outer `none` means that the fuel ran out. `low == high-1`
-- is between `int`s: it fails at `high = 0`.
unfoldable pub get_index_loop : ℕ → Comp → List Slot → ℕ → MapEqTest → ℕ → ℕ → Option (Option ℕ)
get_index_loop zero comp slots key cond low high = none
get_index_loop (suc f) comp slots key cond low high =
    let i = (low + high) / 2 in
    let down = get_index_loop f comp slots key cond low i in
    let up = get_index_loop f comp slots key cond i high in
    elim (comp key (key_at slots i)) [
      | lt ↦ if low + 1 == i then some (index_below cond i) else down
      | gt ↦ if i + 1 == high then some (index_above cond (length slots) i) else up
      | eq ↦ some (index_equal cond (length slots) i)
    ]

unfoldable pub arraymap_get_index : ℕ → ArrayMap → ℕ → MapEqTest → Option (Option ℕ)
unfolding get_index_loop
arraymap_get_index fuel m key cond = get_index_loop fuel m.comp m.slots key cond 0 (length m.slots)

-- `arraymap_get`: 0 for no entry. `get_or` reads a slot behind those in use as the cleared one.
unfoldable pub arraymap_get : ℕ → ArrayMap → ℕ → MapEqTest → Option ℕ
unfolding arraymap_get_index
arraymap_get fuel m key cond = elim (arraymap_get_index fuel m key cond) [
  | none ↦ none
  | some none ↦ some 0
  | some (some i) ↦ some (get_or m.slots i no_slot).1
]

-- The calls of `func` in `for(int i=...; ...; i++)`, with `n` rounds left.
unfoldable pub walk_slots : List Slot → ℕ → ℕ → List Slot
walk_slots slots i zero = []
walk_slots slots i (suc n) = get_or slots i no_slot ∷ walk_slots slots (i + 1) n

unfoldable pub arraymap_walk : ArrayMap → List Slot
unfolding walk_slots
arraymap_walk m = walk_slots m.slots 0 (length m.slots)

-- `for(int i=indexfrom; i<=indexto; i++)` of `arraymap_walk_range`. An `indexfrom` of -1 reads
-- `data[-1]`, before the slots: that slot is the argument `outside`.
abbrev pub walk_between : Slot → List Slot → Option ℕ → Option ℕ → List Slot
walk_between outside slots none none = outside ∷ []
walk_between outside slots none (some j) = outside ∷ walk_slots slots 0 (j + 1)
walk_between outside slots (some i) none = []
walk_between outside slots (some i) (some j) = walk_slots slots i (j + 1 - i)

unfoldable pub arraymap_walk_range : ℕ → Slot → ArrayMap → ℕ → ℕ → Option (List Slot)
unfolding arraymap_get_index walk_slots
arraymap_walk_range fuel outside m from to = do
  index_from ← arraymap_get_index fuel m from map_ge
  index_to ← arraymap_get_index fuel m to map_lt
  some (walk_between outside m.slots index_from index_to)

-- What the do loop of `arraymap_put` ends with: an equal key at an index, or `low`.
pub data PutAt : Type 0 where
  replace : ℕ → PutAt
  below : ℕ → PutAt
  no_end : PutAt

-- `do { ... } while(low<high-1)`
unfoldable pub put_loop : ℕ → Comp → List Slot → ℕ → ℕ → ℕ → PutAt
put_loop zero comp slots key low high = no_end
put_loop (suc f) comp slots key low high =
    let i = (low + high) / 2 in
    let down = put_loop f comp slots key low i in
    let up = put_loop f comp slots key i high in
    elim (comp key (key_at slots i)) [
      | lt ↦ if ltb (low + 1) i then down else below low
      | gt ↦ if ltb (i + 1) high then up else below i
      | eq ↦ replace i
    ]

-- `for(int i=insert; i<amap->count; i++)`: each slot takes what the one before it held.
unfoldable pub shuffle : List Slot → ℕ → Slot → List Slot
shuffle [] insert new = new ∷ []
shuffle (s ∷ slots) zero new = new ∷ shuffle slots zero s
shuffle (s ∷ slots) (suc i) new = s ∷ shuffle slots i new

-- The result of `arraymap_put`: the old data (0 for none) and the map, or the exception
-- `ArrayMapFullException`, which leaves the map as it was.
pub data PutResult : Type 0 where
  stored : ℕ → ArrayMap → PutResult
  full : PutResult
  out_of_fuel : PutResult

-- "Insert after low index"
abbrev pub insert_at : Ordering → ℕ → ℕ
insert_at lt low = low
insert_at eq low = low
insert_at gt low = low + 1

-- What follows the loop.
unfoldable pub put_at : ArrayMap → Slot → PutAt → PutResult
unfolding shuffle
put_at m x no_end = out_of_fuel
put_at m x (replace i) =
    stored (get_or m.slots i no_slot).1 (record m { slots = set m.slots i (key_at m.slots i, x.1) })
put_at m x (below low) =
    let insert = insert_at (m.comp x.0 (key_at m.slots low)) low in
    if length m.slots == m.capacity
    then full
    else stored 0 (record m { slots = shuffle m.slots insert x })

unfoldable pub arraymap_put : ℕ → ArrayMap → ℕ → ℕ → PutResult
unfolding put_loop put_at
arraymap_put fuel m key value =
    if length m.slots == 0
    then stored 0 (record m { slots = (key, value) ∷ [] })
    else put_at m (key, value) (put_loop fuel m.comp m.slots key 0 (length m.slots))

-- `for(; i<amap->count; i++)` of `arraymap_remove`: the slots behind `i` move down by one.
unfoldable pub close_gap : List Slot → ℕ → List Slot
close_gap [] i = []
close_gap (s ∷ slots) zero = slots
close_gap (s ∷ slots) (suc i) = s ∷ close_gap slots i

unfoldable pub arraymap_remove : ℕ → ArrayMap → ℕ → Option (ℕ × ArrayMap)
unfolding arraymap_get_index close_gap
arraymap_remove fuel m key = elim (arraymap_get_index fuel m key map_eq) [
  | none ↦ none
  | some none ↦ some (0, m)
  | some (some i) ↦ some ((get_or m.slots i no_slot).1, record m { slots = close_gap m.slots i })
]

-- `arraymap_new`; `comp` is `map_keycmp` where the argument is NULL.
unfoldable pub arraymap_new : Comp → ℕ → ArrayMap
arraymap_new comp capacity = record { capacity = capacity; comp = comp; slots = [] }
