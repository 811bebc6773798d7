-- ===== src/Libk/ArrayMap/Search.antt =====
-- `arraymap_get_index` of libk/arraymap.c, and the operations that search with it.
use twcos.Common.{
  ℕ, zero, suc, ◌+◌, ◌/◌, ◌<◌, ◌≤◌, ◌≡◌, sym, ap, List, ◌∷◌, ◌++◌, arith, length, get_or, ◌==◌, inl,
  inr, ltb, Bool-cases, compared, less, same, more, ◌∙◌, if◌then◌else◌, compare, false, none, some,
  get_or-append_here, length-append,
}
use Prim.Native.Nat.Ordering.{lt, eq, gt}
use twcos.Libk.Tree.Ops.{Comp, map_eq}
use twcos.Libk.Tree.Sorted.{IsComparison}
use twcos.Libk.ArrayMap.{
  Slot, ArrayMap, no_slot, key_at, get_index_loop, arraymap_get_index, arraymap_get, put_loop,
  below, put_at, arraymap_put, stored, full, arraymap_remove, shuffle, close_gap,
}
use twcos.Libk.ArrayMap.Slots.{IsAscending, ascending, close_gap-append, shuffle-first}

module _ (comp : Comp) (slots : List Slot) (key : ℕ) where
  -- The slot `j` is the one that the key is at.
  abbrev IsAt : ℕ → Type 0
  IsAt j =
      ((i : ℕ) → i < length slots → comp key (key_at slots i) ≡ lt → j < i)
      × ((i : ℕ) → i < length slots → comp key (key_at slots i) ≡ gt → i < j)
      × ((i : ℕ) → i < length slots → comp key (key_at slots i) ≡ eq → i ≡ j)

  -- An equal key behind the first slot is found.
  get_index_loop-found :
      (fuel low high j : ℕ)
      → low < j
      → j < high
      → high ≤ length slots
      → high ≤ low + fuel
      → IsAt j
      → get_index_loop fuel comp slots key map_eq low high ≡ some (some j)
  unfolding get_index_loop
  get_index_loop-found zero low high j l h b f at = absurd (omega arith)
  get_index_loop-found (suc fuel) low high j l h b f at =
      let i = (low + high) / 2 in
      let le : low ≤ i = omega arith in
      let ub : i < high = omega arith in
      elim (compared (comp key (key_at slots i))) [
        | same e ↦ rw (e, get_index_loop) (ap (λ k. some (some k)) (at.2 i (omega arith) e))
        | less e ↦
            let right : j < i = at.0 i (omega arith) e in
            let go : (low + 1 == i) ≡ false = ground arith in
            rw (e, get_index_loop, go)
              (get_index_loop-found fuel low i j l right (omega arith) (omega arith) at)
        | more e ↦
            let right : i < j = at.1 i (omega arith) e in
            let go : (i + 1 == high) ≡ false = ground arith in
            rw (e, get_index_loop, go)
              (get_index_loop-found fuel i high j right h b (omega arith) at)
      ]

  -- A key before the second slot is not found in two slots or more, also where the first has it.
  get_index_loop-missed :
      (fuel high : ℕ)
      → 2 ≤ high
      → high ≤ length slots
      → high ≤ fuel
      → ((i : ℕ) → 1 ≤ i → i < length slots → comp key (key_at slots i) ≡ lt)
      → get_index_loop fuel comp slots key map_eq 0 high ≡ some none
  unfolding get_index_loop
  get_index_loop-missed zero high l h f above = absurd (omega arith)
  get_index_loop-missed (suc fuel) high l h f above =
      let i = (0 + high) / 2 in
      let e = above i (omega arith) (omega arith) in
      elim (Bool-cases (0 + 1 == i)) [
        | inl stop ↦ rw (e, get_index_loop, stop)
        | inr go ↦
            rw (e, get_index_loop, go)
              (get_index_loop-missed fuel i (ground arith) (omega arith) (omega arith) above)
      ]

  put_loop-missed :
      (fuel high : ℕ)
      → 2 ≤ high
      → high ≤ length slots
      → high ≤ fuel
      → ((i : ℕ) → 1 ≤ i → i < length slots → comp key (key_at slots i) ≡ lt)
      → put_loop fuel comp slots key 0 high ≡ below 0
  unfolding put_loop
  put_loop-missed zero high l h f above = absurd (omega arith)
  put_loop-missed (suc fuel) high l h f above =
      let i = (0 + high) / 2 in
      let e = above i (omega arith) (omega arith) in
      elim (Bool-cases (ltb (0 + 1) i)) [
        | inl go ↦
            rw (e, put_loop, go)
              (put_loop-missed fuel i (ground arith) (omega arith) (omega arith) above)
        | inr stop ↦ rw (e, put_loop, stop)
      ]

module _ {comp : Comp} (law : IsComparison comp) (slots : List Slot)
    (s : IsAscending comp slots) where
  open law use {gt_of_lt, eq_of_eq}

  -- How a key compares that is equal to the one at `j`.
  pub compared_at :
      (key i j : ℕ)
      → comp key (key_at slots j) ≡ eq
      → i < length slots
      → j < length slots
      → comp key (key_at slots i) ≡ compare j i
  compared_at key i j e b c = elim (compared (compare j i)) [
    | less l ↦
        eq_of_eq key (key_at slots j) (key_at slots i) e
        ∙ ascending comp slots j i s (ground arith) b
        ∙ sym l
    | same l ↦
        let h : j ≡ i = ground arith in ap (λ k. comp key (key_at slots k)) (sym h) ∙ e ∙ sym l
    | more l ↦
        eq_of_eq key (key_at slots j) (key_at slots i) e
        ∙ gt_of_lt (key_at slots i) (key_at slots j) (ascending comp slots i j s (ground arith) c)
        ∙ sym l
  ]

  pub compared-IsAt :
      (key j : ℕ) → comp key (key_at slots j) ≡ eq → j < length slots → IsAt comp slots key j
  compared-IsAt key j e c = (
    (λ i b h. ground (arith, compared_at key i j e b c)),
    (λ i b h. ground (arith, compared_at key i j e b c)),
    (λ i b h. ground (arith, compared_at key i j e b c)),
  )

-- A key that equals that of a slot behind the first is found: with fuel for as many rounds as
-- there are slots `arraymap_get` returns that slot's data, and `arraymap_remove` returns it and
-- takes out that slot alone.
pub arraymap_get-found :
    (fuel capacity : ℕ) (comp : Comp) (first : Slot) (pre : List Slot) (s : Slot) (post : List Slot)
    (key : ℕ)
    → IsComparison comp
    → IsAscending comp (first ∷ pre ++ s ∷ post)
    → comp key s.0 ≡ eq
    → length (first ∷ pre ++ s ∷ post) ≤ fuel
    → let m : ArrayMap = record {
      capacity = capacity;
      comp = comp;
      slots = first ∷ pre ++ s ∷ post;
    } in
      (arraymap_get fuel m key map_eq ≡ some s.1)
      × (arraymap_remove fuel m key ≡ some (s.1, record m { slots = first ∷ pre ++ post }))
unfolding arraymap_get arraymap_remove arraymap_get_index
arraymap_get-found fuel capacity comp first pre s post key law asc e f =
    let slots = first ∷ pre ++ s ∷ post in
    let j = suc (length pre) in
    let here : get_or slots j no_slot ≡ s = get_or-append_here pre post s no_slot in
    let b : j < length slots = omega (arith, length-append pre (s ∷ post)) in
    let found : get_index_loop fuel comp slots key map_eq 0 (length slots) ≡ some (some j) =
      get_index_loop-found comp slots key fuel 0 (length slots) j (omega arith) b (omega arith)
        (omega arith) (compared-IsAt law slots asc key j (rw (here, key_at) e) b) in
    let closed : close_gap slots j ≡ first ∷ pre ++ post = close_gap-append (first ∷ pre) s post in
    (
      rw (found, arraymap_get, arraymap_get_index, here),
      rw (found, arraymap_remove, arraymap_get_index, here, closed),
    )

-- A key that equals that of the first of two slots or more is not found: `arraymap_get` returns 0,
-- `arraymap_remove` returns 0 and removes nothing, and `arraymap_put` adds a second slot with
-- that key in front, or throws when the map is full.
pub arraymap_get-missed :
    (fuel capacity : ℕ) (comp : Comp) (s t : Slot) (slots : List Slot) (key value : ℕ)
    → IsComparison comp
    → IsAscending comp (s ∷ t ∷ slots)
    → comp key s.0 ≡ eq
    → length (s ∷ t ∷ slots) ≤ fuel
    → let m : ArrayMap = record { capacity = capacity; comp = comp; slots = s ∷ t ∷ slots } in
      (arraymap_get fuel m key map_eq ≡ some 0)
      × (arraymap_remove fuel m key ≡ some (0, m))
      × (arraymap_put fuel m key value ≡ (
          if length m.slots == capacity
          then full
          else stored 0 (record m { slots = (key, value) ∷ m.slots })))
unfolding arraymap_get arraymap_remove arraymap_get_index arraymap_put put_at shuffle
arraymap_get-missed fuel capacity comp s t slots key value law asc e f =
    let all = s ∷ t ∷ slots in
    let above : (i : ℕ) → 1 ≤ i → i < length all → comp key (key_at all i) ≡ lt =
      λ i l b. ground (arith, compared_at law all asc key i 0 e b (omega arith)) in
    let missed : get_index_loop fuel comp all key map_eq 0 (length all) ≡ some none =
      get_index_loop-missed comp all key fuel (length all) (omega arith) (omega arith) f above in
    let in_front : put_loop fuel comp all key 0 (length all) ≡ below 0 =
      put_loop-missed comp all key fuel (length all) (omega arith) (omega arith) f above in
    let not_empty : (length all == 0) ≡ false = ground arith in
    (
      rw (missed, arraymap_get, arraymap_get_index),
      rw (missed, arraymap_remove, arraymap_get_index),
      rw (in_front, arraymap_put, not_empty, put_at, e, shuffle-first (key, value) all),
    )
