-- ===== src/Libk/Tree/Pick.antt =====
-- Which entry of a sorted list `tree_get_node` of libk/tree.c is asked for, by its condition.
use twcos.Common.{
  ℕ, ◌≡◌, refl, ap, ◌∙◌, List, [], ◌∷◌, ◌++◌, append-nil, Option, none, some, arith, All, Ordering,
}
use Prim.Native.Nat.Ordering.{lt, eq, gt}
use twcos.Libk.Tree.{Entry}
use twcos.Libk.Tree.Ops.{MapEqTest, map_lt, map_le, map_eq, map_ge, map_gt, Comp}
use twcos.Libk.Tree.Sorted.{AllBelow, AllAbove}

-- The ends of a list.
abbrev pub first : List Entry → Option Entry
first [] = none
first (e ∷ es) = some e

abbrev pub last : List Entry → Option Entry
last [] = none
last (e ∷ es) = elim (last es) [ none ↦ some e | some x ↦ some x ]

-- The entries whose keys are less than `k`, equal to it, or greater.
abbrev pub with_order : Ordering → Comp → ℕ → List Entry → List Entry
with_order o comp k [] = []
with_order o comp k (e ∷ es) =
    let rest = with_order o comp k es in
    elim o [
      | lt ↦ elim (comp k e.key) [ lt ↦ e ∷ rest | _ ↦ rest ]
      | eq ↦ elim (comp k e.key) [ eq ↦ e ∷ rest | _ ↦ rest ]
      | gt ↦ elim (comp k e.key) [ gt ↦ e ∷ rest | _ ↦ rest ]
    ]

abbrev pub or_else : Option Entry → Option Entry → Option Entry
or_else none o = o
or_else (some e) o = some e

-- The entry asked for: the last one before the key, the first one after it, or the one at it.
abbrev pub pick : Comp → MapEqTest → ℕ → List Entry → Option Entry
pick comp cond k es =
    let less = last (with_order gt comp k es) in
    let at = first (with_order eq comp k es) in
    let more = first (with_order lt comp k es) in
    elim cond [
      | map_lt ↦ less
      | map_le ↦ or_else at less
      | map_eq ↦ at
      | map_ge ↦ or_else at more
      | map_gt ↦ more
    ]

with_order-append :
    (o : Ordering) (comp : Comp) (k : ℕ) (xs ys : List Entry)
    → with_order o comp k (xs ++ ys) ≡ with_order o comp k xs ++ with_order o comp k ys
with_order-append o comp k [] ys = refl
with_order-append o comp k (x ∷ xs) ys = ground (arith, with_order-append o comp k xs ys)

-- All keys of the list compare as `o` says.
abbrev AllAre : Ordering → Comp → ℕ → List Entry → Type 0
AllAre o comp k = All (λ x. comp k x.key ≡ o)

with_order-all :
    (o : Ordering) (comp : Comp) (k : ℕ) (es : List Entry)
    → AllAre o comp k es
    → with_order o comp k es ≡ es
with_order-all o comp k [] h = refl
with_order-all o comp k (e ∷ es) h = ground (arith, with_order-all o comp k es h.1)

with_order-none :
    (o o' : Ordering) (comp : Comp) (k : ℕ) (es : List Entry)
    → AllAre o comp k es
    → ¬ (o ≡ o')
    → with_order o' comp k es ≡ []
with_order-none o o' comp k [] h d = refl
with_order-none o o' comp k (e ∷ es) h d = ground (arith, with_order-none o o' comp k es h.1 d)

order_at :
    (o : Ordering) (comp : Comp) (k : ℕ) (pre post : List Entry)
    → AllAre gt comp k pre
    → AllAre lt comp k post
    → with_order o comp k (pre ++ post) ≡ elim o [ gt ↦ pre | eq ↦ [] | lt ↦ post ]
order_at lt comp k pre post b a = rw (
  with_order-append lt comp k pre post,
  with_order-none gt lt comp k pre b (cc),
  with_order-all lt comp k post a,
)
order_at eq comp k pre post b a = rw (
  with_order-append eq comp k pre post,
  with_order-none gt eq comp k pre b (cc),
  with_order-none lt eq comp k post a (cc),
)
order_at gt comp k pre post b a =
    rw
      (
        with_order-append gt comp k pre post,
        with_order-all gt comp k pre b,
        with_order-none lt gt comp k post a (cc),
      )
      (append-nil pre)

order_at_equal :
    (o : Ordering) (comp : Comp) (k : ℕ) (e : Entry) (pre post : List Entry)
    → AllAre gt comp k pre
    → comp k e.key ≡ eq
    → AllAre lt comp k post
    → with_order o comp k (pre ++ (e ∷ post)) ≡ elim o [ gt ↦ pre | eq ↦ e ∷ [] | lt ↦ post ]
order_at_equal lt comp k e pre post b h a =
    rw (with_order-append lt comp k pre (e ∷ post), with_order-none gt lt comp k pre b (cc))
      (ground (arith, with_order-all lt comp k post a))
order_at_equal eq comp k e pre post b h a =
    rw (with_order-append eq comp k pre (e ∷ post), with_order-none gt eq comp k pre b (cc))
      (ground (arith, with_order-none lt eq comp k post a (cc)))
order_at_equal gt comp k e pre post b h a =
    rw (with_order-append gt comp k pre (e ∷ post), with_order-all gt comp k pre b)
      (ap (λ es. pre ++ es) (ground (arith, with_order-none lt gt comp k post a (cc)))
        ∙ append-nil pre)

-- The answer where the search ends between two parts of the list.
abbrev pub between : MapEqTest → List Entry → List Entry → Option Entry
between map_lt pre post = last pre
between map_le pre post = last pre
between map_eq pre post = none
between map_ge pre post = first post
between map_gt pre post = first post

pub pick-between :
    (comp : Comp) (cond : MapEqTest) (k : ℕ) (pre post : List Entry)
    → AllBelow comp k pre
    → AllAbove comp k post
    → pick comp cond k (pre ++ post) ≡ between cond pre post
pick-between comp map_lt k pre post b a = rw (order_at gt comp k pre post b a)
pick-between comp map_le k pre post b a =
    rw (order_at gt comp k pre post b a, order_at eq comp k pre post b a)
pick-between comp map_eq k pre post b a = rw (order_at eq comp k pre post b a)
pick-between comp map_ge k pre post b a =
    rw (order_at lt comp k pre post b a, order_at eq comp k pre post b a)
pick-between comp map_gt k pre post b a = rw (order_at lt comp k pre post b a)

-- The answer where the search ends at an entry with the key.
abbrev pub at_equal : MapEqTest → List Entry → Entry → List Entry → Option Entry
at_equal map_lt pre e post = last pre
at_equal map_gt pre e post = first post
at_equal _ pre e post = some e

pub pick-equal :
    (comp : Comp) (cond : MapEqTest) (k : ℕ) (e : Entry) (pre post : List Entry)
    → AllBelow comp k pre
    → comp k e.key ≡ eq
    → AllAbove comp k post
    → pick comp cond k (pre ++ (e ∷ post)) ≡ at_equal cond pre e post
pick-equal comp map_lt k e pre post b h a = rw (order_at_equal gt comp k e pre post b h a)
pick-equal comp map_gt k e pre post b h a = rw (order_at_equal lt comp k e pre post b h a)
pick-equal comp map_eq k e pre post b h a = rw (order_at_equal eq comp k e pre post b h a)
pick-equal comp map_le k e pre post b h a = rw (order_at_equal eq comp k e pre post b h a)
pick-equal comp map_ge k e pre post b h a = rw (order_at_equal eq comp k e pre post b h a)
