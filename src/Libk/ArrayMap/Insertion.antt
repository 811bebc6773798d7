-- ===== src/Libk/ArrayMap/Insertion.antt =====
-- `arraymap_put` of libk/arraymap.c: where the loop ends, and what is stored.
use twcos.Common.{
  ℕ, zero, suc, ◌+◌, ◌/◌, ◌<◌, ◌≤◌, ◌≡◌, ◌≢◌, refl, sym, ap, set, List, [], ◌∷◌, arith, length,
  ◌==◌, ◌⊎◌, inl, inr, ltb, if◌then◌else◌, Bool-cases, compared, less, same, more, true, false,
  subst, ==→eq,
}
use Prim.Native.Nat.Ordering.{lt, eq, gt}
use twcos.Libk.Tree.Ops.{Comp}
use twcos.Libk.Tree.Sorted.{IsComparison}
use twcos.Libk.ArrayMap.{
  Slot, ArrayMap, key_at, PutAt, replace, below, no_end, put_loop, put_at, PutResult, stored, full,
  out_of_fuel, arraymap_put, shuffle,
}
use twcos.Libk.ArrayMap.Slots.{
  IsAscending, put_slot, data_at, shuffle-put_slot, set-put_slot, data_at-equal, gt_below, gt_of_eq,
  data_at-between,
}

module _ (comp : Comp) (slots : List Slot) (key : ℕ) where
  -- The key belongs behind slot `low`, if that is not the first, and before slot `high`, if that
  -- is one.
  abbrev IsBehind : ℕ → Type 0
  IsBehind low = (low ≡ 0) ⊎ (comp key (key_at slots low) ≡ gt)

  abbrev IsBefore : ℕ → Type 0
  IsBefore high = (high ≡ length slots) ⊎ (comp key (key_at slots high) ≡ lt)

  -- Where the loop may end.
  abbrev Ends : PutAt → Type 0
  Ends (replace i) = (i < length slots) × (comp key (key_at slots i) ≡ eq)
  Ends (below low) =
      (low < length slots)
      × IsBehind low
      × IsBefore (low + 1)
      × (length slots ≡ 1 → comp key (key_at slots low) ≢ eq)
  Ends no_end = false ≡ true

  put_loop-Ends :
      (fuel low high : ℕ)
      → low < high
      → high ≤ length slots
      → high ≤ low + fuel
      → IsBehind low
      → IsBefore high
      → Ends (put_loop fuel comp slots key low high)
  unfolding put_loop
  put_loop-Ends zero low high l h f b a = absurd (omega arith)
  put_loop-Ends (suc fuel) low high l h f b a =
      let i = (low + high) / 2 in
      let le : low ≤ i = omega arith in
      let ub : i < high = omega arith in
      elim (compared (comp key (key_at slots i))) [
        | same at ↦ rw (at, put_loop) (omega arith, at)
        | less at ↦ elim (Bool-cases (ltb (low + 1) i)) [
          | inl go ↦
              rw (at, put_loop, go)
                (put_loop-Ends fuel low i (ground arith) (ground arith) (ground arith) b (inr at))
          | inr stop ↦
              rw (at, put_loop, stop)
                (
                  omega arith,
                  b,
                  next low high i (ground arith) (λ e. omega arith) at a,
                  single low i (λ e. omega arith) at,
                )
        ]
        | more at ↦ elim (Bool-cases (ltb (i + 1) high)) [
          | inl go ↦
              rw (at, put_loop, go)
                (put_loop-Ends fuel i high (ground arith) h (ground arith) (inr at) a)
          | inr stop ↦
              let e : i + 1 ≡ high = ground arith in
              rw (at, put_loop, stop) (omega arith, inr at, rw e a, λ _ q. ground arith)
        ]
      ]
    where
      single :
          (low i : ℕ)
          → (length slots ≡ 1 → i ≡ low)
          → comp key (key_at slots i) ≡ lt
          → length slots ≡ 1
          → comp key (key_at slots low) ≢ eq
      single low i e at one q =
          let here : comp key (key_at slots i) ≡ eq =
            subst (λ j. comp key (key_at slots j) ≡ eq) (sym (e one)) q in
          ground arith

      next :
          (low high i : ℕ)
          → (i ≡ low) ⊎ (i ≡ low + 1)
          → (i ≡ low → high ≡ low + 1)
          → comp key (key_at slots i) ≡ lt
          → IsBefore high
          → IsBefore (low + 1)
      next low high i (inl e) last at a = subst IsBefore (last e) a
      next low high i (inr e) last at a = inr (subst (λ j. comp key (key_at slots j) ≡ lt) e at)

-- A slot that is added, but for the first one, had room.
abbrev pub HadRoom : ArrayMap → ArrayMap → Type 0
HadRoom m m' =
    (length m'.slots ≡ length m.slots)
    ⊎ (length m.slots ≡ 0)
    ⊎ (length m.slots ≢ m.capacity) × (length m'.slots ≡ suc (length m.slots))

-- What `arraymap_put` does with a map whose slots are sorted: data replaced, a slot added, or the
-- exception, which is thrown for a new key on a full map only.
abbrev pub Puts : ArrayMap → Slot → PutResult → Type 0
Puts m x (stored old m') =
    (old ≡ data_at m.comp x.0 m.slots)
    × (m'.slots ≡ put_slot m.comp x m.slots)
    × (m'.comp ≡ m.comp)
    × (m'.capacity ≡ m.capacity)
    × HadRoom m m'
Puts m x full = (length m.slots ≡ m.capacity) × (data_at m.comp x.0 m.slots ≡ 0)
Puts m x out_of_fuel = false ≡ true

length-shuffle :
    (slots : List Slot) (i : ℕ) (x : Slot) → length (shuffle slots i x) ≡ suc (length slots)
unfolding shuffle
length-shuffle [] i x = refl
length-shuffle (s ∷ slots) zero x = ap suc (length-shuffle slots zero s)
length-shuffle (s ∷ slots) (suc i) x = ap suc (length-shuffle slots i x)

length-set : (slots : List Slot) (i : ℕ) (x : Slot) → length (set slots i x) ≡ length slots
length-set [] i x = refl
length-set (s ∷ slots) zero x = refl
length-set (s ∷ slots) (suc i) x = ap suc (length-set slots i x)

module _ (m : ArrayMap) (key value : ℕ) (law : IsComparison m.comp)
    (s : IsAscending m.comp m.slots) where
  stored_between :
      (i : ℕ)
      → i ≤ length m.slots
      → ((j : ℕ) → j < i → m.comp key (key_at m.slots j) ≡ gt)
      → (i < length m.slots → m.comp key (key_at m.slots i) ≡ lt)
      → Puts m
          (key, value)
          (if length m.slots == m.capacity
            then full
            else stored 0 (record m { slots = shuffle m.slots i (key, value) }))
  stored_between i b smaller greater =
      let none = data_at-between law key m.slots i s smaller greater in
      elim (Bool-cases (length m.slots == m.capacity)) [
        | inl h ↦ rw h (==→eq _ _ h, none)
        | inr h ↦ rw h (
          sym none,
          shuffle-put_slot m.comp (key, value) m.slots i b smaller greater,
          refl,
          refl,
          inr (inr (λ e. ground (arith, e, h), length-shuffle m.slots i (key, value))),
        )
      ]

  put_at-Puts :
      (at : PutAt)
      → Ends m.comp m.slots key at
      → (length m.slots ≤ 1) ⊎ (m.comp key (key_at m.slots 0) ≢ eq)
      → Puts m (key, value) (put_at m (key, value) at)
  unfolding put_at
  put_at-Puts (replace i) (b, e) first =
      let smaller : (j : ℕ) → j < i → m.comp key (key_at m.slots j) ≡ gt =
        λ j h. gt_of_eq law key m.slots i j s b e h in
      (
        data_at-equal m.comp key m.slots i b smaller e,
        set-put_slot m.comp (key, value) m.slots i b smaller e,
        refl,
        refl,
        inl (length-set m.slots i (key_at m.slots i, value)),
      )
  put_at-Puts no_end h first = h
  put_at-Puts (below low) (b, behind, before, single) first =
      elim (compared (m.comp key (key_at m.slots low))) [
        | more h ↦ rw (h) (
            stored_between (low + 1) (omega arith)
              (λ j l. gt_below law key m.slots low j s b h (omega arith)) (at_next before))
        | less h ↦
            let first_slot : low ≡ 0 = at_first behind (ground arith) in
            rw h (stored_between low (omega arith) (λ j l. absurd (omega arith)) (λ _. h))
        | same h ↦ absurd (not_equal first (at_first behind (ground arith)) h)
      ]
    where
      at_first : IsBehind m.comp m.slots key low → m.comp key (key_at m.slots low) ≢ gt → low ≡ 0
      at_first (inl e) n = e
      at_first (inr h) n = absurd (n h)

      not_equal :
          (length m.slots ≤ 1) ⊎ (m.comp key (key_at m.slots 0) ≢ eq)
          → low ≡ 0
          → m.comp key (key_at m.slots low) ≢ eq
      not_equal (inl one) e h = single (omega arith) h
      not_equal (inr n) e h = n (subst (λ j. m.comp key (key_at m.slots j) ≡ eq) e h)

      at_next :
          IsBefore m.comp m.slots key (low + 1)
          → low + 1 < length m.slots
          → m.comp key (key_at m.slots (low + 1)) ≡ lt
      at_next (inl e) l = absurd (omega arith)
      at_next (inr h) l = h

-- With fuel for as many rounds as there are slots, a put on a map with sorted slots returns the
-- data at its key, 0 for none, and leaves the slots with the key's slot put in its place, or it
-- throws since the map is full and holds no such key. A slot is added to a map that is not full
-- only, or as the first one of a map without slots. For a map of two slots or more the key must
-- differ from that of the first slot.
pub arraymap_put-Puts :
    (fuel : ℕ) (m : ArrayMap) (key value : ℕ)
    → IsComparison m.comp
    → IsAscending m.comp m.slots
    → length m.slots ≤ fuel
    → (length m.slots ≤ 1) ⊎ (m.comp key (key_at m.slots 0) ≢ eq)
    → Puts m (key, value) (arraymap_put fuel m key value)
unfolding arraymap_put
arraymap_put-Puts fuel m key value law s f first = elim (Bool-cases (length m.slots == 0)) [
  | inl h ↦ rw h (empty m.slots (==→eq _ _ h))
  | inr h ↦ rw h (
      put_at-Puts m key value law s (put_loop fuel m.comp m.slots key 0 (length m.slots))
        (put_loop-Ends m.comp m.slots key fuel 0 (length m.slots) (ground arith) (omega arith)
          (omega arith) (inl refl) (inl refl))
        first)
]
  where
    empty :
        (slots : List Slot)
        → length slots ≡ 0
        → (0 ≡ data_at m.comp key slots)
          × ((key, value) ∷ [] ≡ put_slot m.comp (key, value) slots)
          × (m.comp ≡ m.comp)
          × (m.capacity ≡ m.capacity)
          × ((1 ≡ length slots)
              ⊎ (length slots ≡ 0)
              ⊎ (length slots ≢ m.capacity) × (1 ≡ suc (length slots)))
    empty [] h = (refl, refl, refl, refl, inr (inl refl))
    empty (x ∷ slots) h = absurd (omega arith)
