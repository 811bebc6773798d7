-- ===== src/Libk/ArrayMap/Slots.antt =====
-- What libk/arraymap.c keeps: slots in the order of their keys, and what a change does to them.
use twcos.Common.{
  ℕ, zero, suc, ◌<◌, ◌≤◌, ◌≡◌, refl, List, [], ◌∷◌, ◌++◌, arith, All, length, get_or, set, ◌∙◌,
  compared, less, same, more, compare,
}
use Prim.Native.Nat.Ordering.{lt, eq, gt}
use twcos.Libk.Tree.Ops.{Comp}
use twcos.Libk.Tree.Sorted.{IsComparison}
use twcos.Libk.ArrayMap.{Slot, no_slot, key_at, shuffle, close_gap}

abbrev pub IsAscending : Comp → List Slot → Type 0
IsAscending comp [] = Unit
IsAscending comp (s ∷ slots) = All (λ x. comp s.0 x.0 ≡ lt) slots × IsAscending comp slots

-- A new slot in its place, or new data in the slot with an equal key.
abbrev pub put_slot : Comp → Slot → List Slot → List Slot
put_slot comp x [] = x ∷ []
put_slot comp x (s ∷ slots) = elim (comp x.0 s.0) [
  | lt ↦ x ∷ s ∷ slots
  | eq ↦ (s.0, x.1) ∷ slots
  | gt ↦ s ∷ put_slot comp x slots
]

-- The data at a key, 0 for none.
abbrev pub data_at : Comp → ℕ → List Slot → ℕ
data_at comp k [] = 0
data_at comp k (s ∷ slots) = elim (comp k s.0) [ eq ↦ s.1 | _ ↦ data_at comp k slots ]

All-get_or :
    (P : Slot → Type 0) (slots : List Slot) (i : ℕ)
    → All P slots
    → i < length slots
    → P (get_or slots i no_slot)
All-get_or P [] i h b = absurd (omega arith)
All-get_or P (s ∷ slots) zero h b = h.0
All-get_or P (s ∷ slots) (suc i) h b = All-get_or P slots i h.1 (omega arith)

pub ascending :
    (comp : Comp) (slots : List Slot) (i j : ℕ)
    → IsAscending comp slots
    → i < j
    → j < length slots
    → comp (key_at slots i) (key_at slots j) ≡ lt
ascending comp [] i j s h b = absurd (omega arith)
ascending comp (x ∷ slots) i zero s h b = absurd (omega arith)
ascending comp (x ∷ slots) zero (suc j) s h b =
    All-get_or (λ y. comp x.0 y.0 ≡ lt) slots j s.0 (omega arith)
ascending comp (x ∷ slots) (suc i) (suc j) s h b =
    ascending comp slots i j s.1 (omega arith) (omega arith)

pub shuffle-first : (s : Slot) (slots : List Slot) → shuffle slots zero s ≡ s ∷ slots
unfolding shuffle
shuffle-first s [] = refl
shuffle-first s (t ∷ slots) = rw (shuffle-first t slots)

-- A slot that goes in behind all smaller keys and before a greater one.
pub shuffle-put_slot :
    (comp : Comp) (x : Slot) (slots : List Slot) (i : ℕ)
    → i ≤ length slots
    → ((j : ℕ) → j < i → comp x.0 (key_at slots j) ≡ gt)
    → (i < length slots → comp x.0 (key_at slots i) ≡ lt)
    → shuffle slots i x ≡ put_slot comp x slots
unfolding shuffle
shuffle-put_slot comp x [] i b below above = refl
shuffle-put_slot comp x (s ∷ slots) zero b below above =
    let first : comp x.0 s.0 ≡ lt = above (omega arith) in
    rw (first, put_slot, shuffle-first s slots)
shuffle-put_slot comp x (s ∷ slots) (suc i) b below above =
    let first : comp x.0 s.0 ≡ gt = below zero (omega arith) in
    rw (
      first,
      put_slot,
      shuffle-put_slot comp x slots i (omega arith) (λ j h. below (suc j) (omega arith))
          (λ h. above (omega arith)),
    )

-- New data in the slot with an equal key.
pub set-put_slot :
    (comp : Comp) (x : Slot) (slots : List Slot) (i : ℕ)
    → i < length slots
    → ((j : ℕ) → j < i → comp x.0 (key_at slots j) ≡ gt)
    → comp x.0 (key_at slots i) ≡ eq
    → set slots i (key_at slots i, x.1) ≡ put_slot comp x slots
set-put_slot comp x [] i b below h = absurd (omega arith)
set-put_slot comp x (s ∷ slots) zero b below h =
    let here : comp x.0 s.0 ≡ eq = h in rw (here, put_slot)
set-put_slot comp x (s ∷ slots) (suc i) b below h =
    let first : comp x.0 s.0 ≡ gt = below zero (omega arith) in
    rw (
      first,
      put_slot,
      set-put_slot comp x slots i (omega arith) (λ j h. below (suc j) (omega arith)) h,
    )

pub data_at-equal :
    (comp : Comp) (k : ℕ) (slots : List Slot) (i : ℕ)
    → i < length slots
    → ((j : ℕ) → j < i → comp k (key_at slots j) ≡ gt)
    → comp k (key_at slots i) ≡ eq
    → (get_or slots i no_slot).1 ≡ data_at comp k slots
data_at-equal comp k [] i b below h = refl
data_at-equal comp k (s ∷ slots) zero b below h =
    let here : comp k s.0 ≡ eq = h in rw (here, data_at)
data_at-equal comp k (s ∷ slots) (suc i) b below h =
    let first : comp k s.0 ≡ gt = below zero (omega arith) in
    rw (first, data_at)
      (data_at-equal comp k slots i (omega arith) (λ j h. below (suc j) (omega arith)) h)

data_at-above :
    (comp : Comp) (k : ℕ) (slots : List Slot)
    → All (λ y. comp k y.0 ≡ lt) slots
    → data_at comp k slots ≡ 0
data_at-above comp k [] h = refl
data_at-above comp k (s ∷ slots) h = rw (h.0, data_at) (data_at-above comp k slots h.1)

pub close_gap-append :
    (pre : List Slot) (s : Slot) (post : List Slot)
    → close_gap (pre ++ s ∷ post) (length pre) ≡ pre ++ post
unfolding close_gap
close_gap-append [] s post = refl
close_gap-append (x ∷ pre) s post = rw (close_gap-append pre s post)

module _ {comp : Comp} (law : IsComparison comp) where
  open law use {gt_of_lt, lt_of_gt, eq_of_eq, lt_trans}

  -- A key that is after one slot, or equal to it, is after all slots before that one.
  pub gt_below :
      (k : ℕ) (slots : List Slot) (i j : ℕ)
      → IsAscending comp slots
      → i < length slots
      → comp k (key_at slots i) ≡ gt
      → j ≤ i
      → comp k (key_at slots j) ≡ gt
  gt_below k slots i j s b h le = elim (compared (compare j i)) [
    | less h' ↦ gt_of_lt (key_at slots j) k (
        lt_trans (key_at slots j) (key_at slots i) k (ascending comp slots j i s (ground arith) b)
          (lt_of_gt k (key_at slots i) h))
    | same h' ↦ let e : j ≡ i = ground arith in rw e h
    | more h' ↦ absurd (ground arith)
  ]

  pub gt_of_eq :
      (k : ℕ) (slots : List Slot) (i j : ℕ)
      → IsAscending comp slots
      → i < length slots
      → comp k (key_at slots i) ≡ eq
      → j < i
      → comp k (key_at slots j) ≡ gt
  gt_of_eq k slots i j s b h l =
      eq_of_eq k (key_at slots i) (key_at slots j) h
      ∙ gt_of_lt (key_at slots j) (key_at slots i) (ascending comp slots j i s l b)

  All-put_slot :
      (k : ℕ) (x : Slot) (slots : List Slot)
      → comp k x.0 ≡ lt
      → All (λ y. comp k y.0 ≡ lt) slots
      → All (λ y. comp k y.0 ≡ lt) (put_slot comp x slots)
  All-put_slot k x [] p h = (p, tt)
  All-put_slot k x (s ∷ slots) p h = ground (arith, All-put_slot k x slots p h.1)

  above_of_lt :
      (x s : Slot) (slots : List Slot)
      → All (λ y. comp s.0 y.0 ≡ lt) slots
      → comp x.0 s.0 ≡ lt
      → All (λ y. comp x.0 y.0 ≡ lt) slots
  above_of_lt x s [] h l = tt
  above_of_lt x s (y ∷ slots) h l = (lt_trans x.0 s.0 y.0 l h.0, above_of_lt x s slots h.1 l)

  pub put_slot-IsAscending :
      (x : Slot) (slots : List Slot)
      → IsAscending comp slots
      → IsAscending comp (put_slot comp x slots)
  put_slot-IsAscending x [] s = (tt, tt)
  put_slot-IsAscending x (e ∷ slots) s = ground (
    arith,
    above_of_lt x e slots s.0,
    λ (h : comp x.0 e.0 ≡ gt). All-put_slot e.0 x slots (lt_of_gt x.0 e.0 h) s.0,
    put_slot-IsAscending x slots s.1,
  )

  -- A key that belongs between two slots is at none.
  pub data_at-between :
      (k : ℕ) (slots : List Slot) (i : ℕ)
      → IsAscending comp slots
      → ((j : ℕ) → j < i → comp k (key_at slots j) ≡ gt)
      → (i < length slots → comp k (key_at slots i) ≡ lt)
      → data_at comp k slots ≡ 0
  data_at-between k [] i s below above = refl
  data_at-between k (e ∷ slots) zero s below above =
      let first : comp k e.0 ≡ lt = above (omega arith) in
      rw (first, data_at) (data_at-above comp k slots (above_of_lt (k, 0) e slots s.0 first))
  data_at-between k (e ∷ slots) (suc i) s below above =
      let first : comp k e.0 ≡ gt = below zero (omega arith) in
      rw (first, data_at)
        (data_at-between k slots i s.1 (λ j h. below (suc j) (omega arith))
          (λ h. above (omega arith)))
