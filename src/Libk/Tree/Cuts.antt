-- ===== src/Libk/Tree/Cuts.antt =====
-- The entries around a path whose counts change, and a sorted list at the entry that is searched.
use twcos.Common.{ℕ, ◌≡◌, refl, List, [], ◌∷◌, arith}
use Prim.Native.Nat.Ordering.{eq, gt}
use twcos.Libk.Tree.{Entry, Crumb, left_of, right_of}
use twcos.Libk.Tree.Inorder.{entries, before, after, around}
use twcos.Libk.Tree.Ops.{Comp, TreeMap, bump, unbump}
use twcos.Libk.Tree.Sorted.{IsSorted, value_at, put_entry, remove_entry}

-- The map that the tree stands for, and its order.
abbrev pub contents : TreeMap → List Entry
contents t = entries t.root

abbrev pub IsSearchTree : TreeMap → Type 0
IsSearchTree t = IsSorted t.comp (contents t)

pub around-bump : (es : List Entry) (path : List Crumb) → around es (bump path) ≡ around es path
around-bump es path = rw (before-bump path, after-bump path)
  where
    before-bump : (path : List Crumb) → before (bump path) ≡ before path
    before-bump [] = refl
    before-bump (left_of e p n s ∷ path) = before-bump path
    before-bump (right_of s e p n ∷ path) = rw (before-bump path)

    after-bump : (path : List Crumb) → after (bump path) ≡ after path
    after-bump [] = refl
    after-bump (left_of e p n s ∷ path) = rw (after-bump path)
    after-bump (right_of s e p n ∷ path) = after-bump path

pub around-unbump : (es : List Entry) (path : List Crumb) → around es (unbump path) ≡ around es path
around-unbump es path = rw (before-unbump path, after-unbump path)
  where
    before-unbump : (path : List Crumb) → before (unbump path) ≡ before path
    before-unbump [] = refl
    before-unbump (left_of e p n s ∷ path) = before-unbump path
    before-unbump (right_of s e p n ∷ path) = rw (before-unbump path)

    after-unbump : (path : List Crumb) → after (unbump path) ≡ after path
    after-unbump [] = refl
    after-unbump (left_of e p n s ∷ path) = rw (after-unbump path)
    after-unbump (right_of s e p n ∷ path) = after-unbump path

pub value_at-here :
    (comp : Comp) (k : ℕ) (e : Entry) (es : List Entry)
    → comp k e.key ≡ eq
    → value_at comp k (e ∷ es) ≡ e.value
value_at-here comp k e es h = ground arith

pub value_at-skip :
    (comp : Comp) (k : ℕ) (e : Entry) (es : List Entry)
    → comp k e.key ≡ gt
    → value_at comp k (e ∷ es) ≡ value_at comp k es
value_at-skip comp k e es h = ground arith

pub put_entry-skip :
    (comp : Comp) (x e : Entry) (es : List Entry)
    → comp x.key e.key ≡ gt
    → put_entry comp x (e ∷ es) ≡ e ∷ put_entry comp x es
put_entry-skip comp x e es h = ground arith

pub remove_entry-skip :
    (comp : Comp) (k : ℕ) (e : Entry) (es : List Entry)
    → comp k e.key ≡ gt
    → remove_entry comp k (e ∷ es) ≡ e ∷ remove_entry comp k es
remove_entry-skip comp k e es h = ground arith

pub put_entry-here :
    (comp : Comp) (x e : Entry) (es : List Entry)
    → comp x.key e.key ≡ eq
    → put_entry comp x (e ∷ es) ≡ record x { addr = e.addr } ∷ es
put_entry-here comp x e es h = ground arith

pub remove_entry-here :
    (comp : Comp) (k : ℕ) (e : Entry) (es : List Entry)
    → comp k e.key ≡ eq
    → remove_entry comp k (e ∷ es) ≡ es
remove_entry-here comp k e es h = ground arith
