-- ===== src/Libk/Tree/Sorted.antt =====
-- What a client of libk/tree.c may think of: entries in the order of their keys, and what the
-- operations do to such a list.
use twcos.Common.{compare, ℕ, ◌≡◌, refl, List, [], ◌∷◌, ◌++◌, arith, All, All-split, All-imp, ◌∙◌}
use Prim.Native.Nat.Ordering.{lt, eq, gt}
use twcos.Libk.Tree.{Entry}
use twcos.Libk.Tree.Ops.{Comp}

-- What the code asks of a comparison function: an order in which keys may be equal.
pub record IsComparison (comp : Comp) : Type 0 where
  pub gt_of_lt : (a b : ℕ) → comp a b ≡ lt → comp b a ≡ gt
  pub lt_of_gt : (a b : ℕ) → comp a b ≡ gt → comp b a ≡ lt
  pub eq_of_eq : (a b c : ℕ) → comp a b ≡ eq → comp a c ≡ comp b c
  pub lt_trans : (a b c : ℕ) → comp a b ≡ lt → comp b c ≡ lt → comp a c ≡ lt

-- Numbers in their own order, as `map_keycmp` compares keys.
pub compare-IsComparison : IsComparison compare
compare-IsComparison = record {
  gt_of_lt = λ a b h. ground arith;
  lt_of_gt = λ a b h. ground arith;
  eq_of_eq = λ a b c h. ground arith;
  lt_trans = λ a b c h g. ground arith;
}

-- Every key of the list comes after `k`; every key of the list comes before `k`.
abbrev pub AllAbove : Comp → ℕ → List Entry → Type 0
AllAbove comp k = All (λ x. comp k x.key ≡ lt)

abbrev pub AllBelow : Comp → ℕ → List Entry → Type 0
AllBelow comp k = All (λ x. comp k x.key ≡ gt)

abbrev pub IsSorted : Comp → List Entry → Type 0
IsSorted comp [] = Unit
IsSorted comp (e ∷ es) = AllAbove comp e.key es × IsSorted comp es

-- The value at a key, 0 for none.
abbrev pub value_at : Comp → ℕ → List Entry → ℕ
value_at comp k [] = 0
value_at comp k (e ∷ es) = elim (comp k e.key) [ eq ↦ e.value | _ ↦ value_at comp k es ]

-- A new entry in its place, or a new key and value in the entry with an equal key.
abbrev pub put_entry : Comp → Entry → List Entry → List Entry
put_entry comp x [] = x ∷ []
put_entry comp x (e ∷ es) = elim (comp x.key e.key) [
  | lt ↦ x ∷ e ∷ es
  | eq ↦ record x { addr = e.addr } ∷ es
  | gt ↦ e ∷ put_entry comp x es
]

abbrev pub remove_entry : Comp → ℕ → List Entry → List Entry
remove_entry comp k [] = []
remove_entry comp k (e ∷ es) = elim (comp k e.key) [ eq ↦ es | _ ↦ e ∷ remove_entry comp k es ]

-- A sorted list, cut at an entry.
pub record Cut (comp : Comp) (e : Entry) (xs ys : List Entry) : Type 0 where
  pub left : IsSorted comp xs
  pub right : IsSorted comp ys
  pub below : All (λ x. comp x.key e.key ≡ lt) xs
  pub above : AllAbove comp e.key ys

pub cut :
    (comp : Comp) (e : Entry) (xs ys : List Entry)
    → IsSorted comp (xs ++ (e ∷ ys))
    → Cut comp e xs ys
cut comp e [] ys s = record { left = tt; right = s.1; below = tt; above = s.0 }
cut comp e (x ∷ xs) ys s =
    let c = cut comp e xs ys s.1 in
    let (near, rest) = All-split (λ y. comp x.key y.key ≡ lt) xs (e ∷ ys) s.0 in
    record { left = (near, c.left); right = c.right; below = (rest.0, c.below); above = c.above }

pub put_entry-before :
    (comp : Comp) (x e : Entry) (xs ys : List Entry)
    → comp x.key e.key ≡ lt
    → put_entry comp x (xs ++ (e ∷ ys)) ≡ put_entry comp x xs ++ (e ∷ ys)
put_entry-before comp x e [] ys h = rw h
put_entry-before comp x e (y ∷ xs) ys h = ground (arith, put_entry-before comp x e xs ys h)

pub put_entry-after :
    (comp : Comp) (x : Entry) (xs ys : List Entry)
    → AllBelow comp x.key xs
    → put_entry comp x (xs ++ ys) ≡ xs ++ put_entry comp x ys
put_entry-after comp x [] ys h = refl
put_entry-after comp x (y ∷ xs) ys h = rw (h.0, put_entry-after comp x xs ys h.1)

pub remove_entry-above :
    (comp : Comp) (k : ℕ) (ys : List Entry) → AllAbove comp k ys → remove_entry comp k ys ≡ ys
remove_entry-above comp k [] h = refl
remove_entry-above comp k (y ∷ ys) h = ground (arith, remove_entry-above comp k ys h.1)

pub remove_entry-before :
    (comp : Comp) (k : ℕ) (e : Entry) (xs ys : List Entry)
    → AllAbove comp k (e ∷ ys)
    → remove_entry comp k (xs ++ (e ∷ ys)) ≡ remove_entry comp k xs ++ (e ∷ ys)
remove_entry-before comp k e [] ys h = remove_entry-above comp k (e ∷ ys) h
remove_entry-before comp k e (y ∷ xs) ys h = ground (arith, remove_entry-before comp k e xs ys h)

pub remove_entry-after :
    (comp : Comp) (k : ℕ) (xs ys : List Entry)
    → AllBelow comp k xs
    → remove_entry comp k (xs ++ ys) ≡ xs ++ remove_entry comp k ys
remove_entry-after comp k [] ys h = refl
remove_entry-after comp k (y ∷ xs) ys h = rw (h.0, remove_entry-after comp k xs ys h.1)

pub value_at-after :
    (comp : Comp) (k : ℕ) (xs ys : List Entry)
    → AllBelow comp k xs
    → value_at comp k (xs ++ ys) ≡ value_at comp k ys
value_at-after comp k [] ys h = refl
value_at-after comp k (y ∷ xs) ys h = rw (h.0, value_at-after comp k xs ys h.1)

pub value_at-above :
    (comp : Comp) (k : ℕ) (ys : List Entry) → AllAbove comp k ys → value_at comp k ys ≡ 0
value_at-above comp k [] h = refl
value_at-above comp k (y ∷ ys) h = ground (arith, value_at-above comp k ys h.1)

pub value_at-before :
    (comp : Comp) (k : ℕ) (xs ys : List Entry)
    → AllAbove comp k ys
    → value_at comp k (xs ++ ys) ≡ value_at comp k xs
value_at-before comp k [] ys h = value_at-above comp k ys h
value_at-before comp k (x ∷ xs) ys h = ground (arith, value_at-before comp k xs ys h)

module _ {comp : Comp} (law : IsComparison comp) where
  open law use {gt_of_lt, lt_of_gt, eq_of_eq, lt_trans}

  -- A key that is not before `e` is after all that are before `e`.
  pub below_of_gt :
      (k : ℕ) (e : Entry) (xs : List Entry)
      → All (λ x. comp x.key e.key ≡ lt) xs
      → comp k e.key ≡ gt
      → AllBelow comp k xs
  below_of_gt k e xs s h =
      All-imp (λ x b. gt_of_lt x.key k (lt_trans x.key e.key k b (lt_of_gt k e.key h))) xs s

  pub below_of_eq :
      (k : ℕ) (e : Entry) (xs : List Entry)
      → All (λ x. comp x.key e.key ≡ lt) xs
      → comp k e.key ≡ eq
      → AllBelow comp k xs
  below_of_eq k e xs s h = All-imp (λ x b. eq_of_eq k e.key x.key h ∙ gt_of_lt x.key e.key b) xs s

  pub above_of_lt :
      (k : ℕ) (e : Entry) (ys : List Entry)
      → AllAbove comp e.key ys
      → comp k e.key ≡ lt
      → AllAbove comp k (e ∷ ys)
  above_of_lt k e ys s h = (h, All-imp (λ y b. lt_trans k e.key y.key h b) ys s)

  eq_symm : (a b : ℕ) → comp a b ≡ eq → comp b a ≡ eq
  eq_symm a b h = ground (arith, gt_of_lt b a, lt_of_gt b a)

  -- A statement about keys that holds of a list and of an entry put into it.
  All-put_entry :
      (P : ℕ → Type 0) (x : Entry) (es : List Entry)
      → P x.key
      → All (λ y. P y.key) es
      → All (λ y. P y.key) (put_entry comp x es)
  All-put_entry P x [] p h = (p, tt)
  All-put_entry P x (e ∷ es) p h = ground (arith, All-put_entry P x es p h.1)

  All-remove_entry :
      (P : ℕ → Type 0) (k : ℕ) (es : List Entry)
      → All (λ y. P y.key) es
      → All (λ y. P y.key) (remove_entry comp k es)
  All-remove_entry P k [] h = tt
  All-remove_entry P k (e ∷ es) h = ground (arith, All-remove_entry P k es h.1)

  -- The list stays sorted under each change.
  pub put_entry-IsSorted :
      (x : Entry) (es : List Entry) → IsSorted comp es → IsSorted comp (put_entry comp x es)
  put_entry-IsSorted x [] s = (tt, tt)
  put_entry-IsSorted x (e ∷ es) s = ground (
    arith,
    above_of_lt x.key e es s.0,
    λ (h : comp x.key e.key ≡ eq). All-imp (λ y b. eq_of_eq x.key e.key y.key h ∙ b) es s.0,
    λ (h : comp x.key e.key ≡ gt).
        All-put_entry (λ k. comp e.key k ≡ lt) x es (lt_of_gt x.key e.key h) s.0,
    put_entry-IsSorted x es s.1,
  )

  pub remove_entry-IsSorted :
      (k : ℕ) (es : List Entry) → IsSorted comp es → IsSorted comp (remove_entry comp k es)
  remove_entry-IsSorted k [] s = tt
  remove_entry-IsSorted k (e ∷ es) s =
      ground
        (arith, All-remove_entry (λ k. comp e.key k ≡ lt) k es s.0, remove_entry-IsSorted k es s.1)

  -- What a client reads after each change.
  pub value_at-put_entry :
      (k : ℕ) (x : Entry) (es : List Entry)
      → value_at comp k (put_entry comp x es)
        ≡ elim (comp k x.key) [ eq ↦ x.value | _ ↦ value_at comp k es ]
  value_at-put_entry k x [] = refl
  value_at-put_entry k x (e ∷ es) = ground (
    arith,
    value_at-put_entry k x es,
    eq_of_eq k e.key x.key,
    eq_of_eq k x.key e.key,
    eq_symm x.key e.key,
  )

  -- `k` is removed once, so a sorted list no longer holds it.
  pub value_at-remove_entry :
      (k j : ℕ) (es : List Entry)
      → IsSorted comp es
      → value_at comp k (remove_entry comp j es)
        ≡ elim (comp k j) [ eq ↦ 0 | _ ↦ value_at comp k es ]
  value_at-remove_entry k j [] s = ground arith
  value_at-remove_entry k j (e ∷ es) s = ground (
    arith,
    value_at-remove_entry k j es s.1,
    eq_of_eq k j e.key,
    eq_of_eq k e.key j,
    eq_symm j e.key,
    λ (h : comp k j ≡ eq) (g : comp j e.key ≡ eq).
        value_at-above comp k es
          (All-imp (λ y b. eq_of_eq k j y.key h ∙ eq_of_eq j e.key y.key g ∙ b) es s.0),
  )
