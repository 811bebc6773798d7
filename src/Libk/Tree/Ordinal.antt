-- ===== src/Libk/Tree/Ordinal.antt =====
-- node_ordinal of libk/tree.c, which finds a node by its place in the order.
use twcos.Common.{
  ℕ, zero, suc, ◌+◌, ◌-◌, ◌≤◌, ◌<◌, ◌≡◌, refl, sym, ap, ◌∙◌, Option, none, some, List, [], ◌∷◌,
  ◌++◌, arith, leb, if◌then◌else◌, length, get_elem?, compare, less, same, more, compared,
  Bool-cases, inl, inr, length-append,
}
use Prim.Native.Nat.Ordering.{lt, eq, gt}
use twcos.Libk.Tree.{Entry, Tree, leaf, node, node_count}
use twcos.Libk.Tree.Inorder.{entries}

-- How `node_ordinal` ends: with a node, with its last `return 0`, with OutOfBoundsException, or with a
-- read of the count of NULL.
pub data Ordinal : Type 0 where
  found : Entry → Ordinal
  not_found : Ordinal
  out_of_bounds : Ordinal
  null_read : Ordinal

-- `while(node)`, for an `i` that is not negative. The end, "Can't happen!", is `not_found`.
unfoldable pub ordinal_loop : Tree → ℕ → Ordinal
ordinal_loop leaf i = not_found
ordinal_loop (node l e p n r) i =
    let left = ordinal_loop l i in
    let right = ordinal_loop r (i - (node_count l + 1)) in
    elim (compare i (node_count l)) [ lt ↦ left | eq ↦ found e | gt ↦ right ]

unfoldable pub node_ordinal : Tree → ℕ → Ordinal
unfolding ordinal_loop
node_ordinal leaf i = null_read
node_ordinal (node l e p n r) i = if leb n i then out_of_bounds else ordinal_loop (node l e p n r) i

-- Each `count` is the number of nodes below and at its node.
abbrev pub IsCounted : Tree → Type 0
IsCounted leaf = Unit
IsCounted (node l e p n r) = IsCounted l × (n ≡ length (entries (node l e p n r))) × IsCounted r

node_count-length : (t : Tree) → IsCounted t → node_count t ≡ length (entries t)
node_count-length leaf c = refl
node_count-length (node l e p n r) c = c.1

get_elem?-left :
    (xs ys : List Entry) (i : ℕ) → i < length xs → get_elem? (xs ++ ys) i ≡ get_elem? xs i
get_elem?-left [] ys i h = absurd (omega arith)
get_elem?-left (x ∷ xs) ys zero h = refl
get_elem?-left (x ∷ xs) ys (suc i) h = get_elem?-left xs ys i (omega arith)

get_elem?-right :
    (xs ys : List Entry) (i : ℕ) → get_elem? (xs ++ ys) (length xs + i) ≡ get_elem? ys i
get_elem?-right [] ys i = ap (get_elem? ys) {x = 0 + i} (omega arith)
get_elem?-right (x ∷ xs) ys i =
    ap (get_elem? (x ∷ xs ++ ys)) {y = suc (length xs + i)} (omega arith) ∙ get_elem?-right xs ys i

-- The outcome for the entry at a place, where there is one.
abbrev pub ordinal_of : Option Entry → Ordinal
ordinal_of none = not_found
ordinal_of (some e) = found e

ordinal_loop-entries :
    (t : Tree) (i : ℕ) → IsCounted t → ordinal_loop t i ≡ ordinal_of (get_elem? (entries t) i)
unfolding ordinal_loop
ordinal_loop-entries leaf i c = refl
ordinal_loop-entries (node l e p n r) i c =
    let size = node_count-length l c.0 in
    elim (compared (compare i (node_count l))) [
      | less h ↦
          rw (ordinal_loop, h)
            (ordinal_loop-entries l i c.0
              ∙ ap ordinal_of
                  (sym (get_elem?-left (entries l) (e ∷ entries r) i (ground (arith, h, size)))))
      | same h ↦
          let at : i ≡ length (entries l) + 0 = ground (arith, h, size) in
          rw (ordinal_loop, h)
            (ap ordinal_of (
              sym (
                ap (get_elem? (entries l ++ e ∷ entries r)) at
                ∙ get_elem?-right (entries l) (e ∷ entries r) 0)))
      | more h ↦
          let k = i - (node_count l + 1) in
          let at : i ≡ length (entries l) + suc k = ground (arith, h, size) in
          rw (ordinal_loop, h)
            (ordinal_loop-entries r k c.2
              ∙ ap ordinal_of (
                  sym (
                    ap (get_elem? (entries l ++ e ∷ entries r)) at
                    ∙ get_elem?-right (entries l) (e ∷ entries r) (suc k))))
    ]

get_elem?_behind : (xs : List Entry) (i : ℕ) → length xs ≤ i → get_elem? xs i ≡ none
get_elem?_behind [] i h = refl
get_elem?_behind (x ∷ xs) zero h = absurd (omega arith)
get_elem?_behind (x ∷ xs) (suc i) h = get_elem?_behind xs i (omega arith)

get_elem?_inside :
    (xs : List Entry) (i : ℕ) → i < length xs → (e : Entry) × (get_elem? xs i ≡ some e)
get_elem?_inside [] i h = absurd (omega arith)
get_elem?_inside (x ∷ xs) zero h = (x, refl)
get_elem?_inside (x ∷ xs) (suc i) h = get_elem?_inside xs i (omega arith)

-- What a client is told about a place in a list of entries.
abbrev pub at_place : List Entry → ℕ → Ordinal
at_place [] i = null_read
at_place (x ∷ xs) i = elim (get_elem? (x ∷ xs) i) [ none ↦ out_of_bounds | some e ↦ found e ]

at_place-some :
    (xs : List Entry) (i : ℕ) (e : Entry) → get_elem? xs i ≡ some e → at_place xs i ≡ found e
at_place-some [] i e h = cc
at_place-some (x ∷ xs) i e h = rw (at_place, h)

at_place-none :
    (xs : List Entry) (i : ℕ)
    → 0 < length xs
    → get_elem? xs i ≡ none
    → at_place xs i ≡ out_of_bounds
at_place-none [] i p h = absurd (omega arith)
at_place-none (x ∷ xs) i p h = rw (at_place, h)

entries-positive : (l r : Tree) (e : Entry) (p n : ℕ) → 0 < length (entries (node l e p n r))
entries-positive l r e p n = ground (arith, length-append (entries l) (e ∷ entries r))

-- Where the counts are right, `node_ordinal` finds the entry at a place in the order of the keys; for
-- a place behind the last one it throws its exception, and never comes to its last return. On an
-- empty tree it reads through NULL.
pub node_ordinal-entries :
    (t : Tree) (i : ℕ) → IsCounted t → node_ordinal t i ≡ at_place (entries t) i
unfolding node_ordinal
node_ordinal-entries leaf i c = refl
node_ordinal-entries (node l e p n r) i c =
    let t : Tree = node l e p n r in
    elim (Bool-cases (leb n i)) [
      | inl behind ↦ rw behind (
          sym (
            at_place-none (entries t) i (entries-positive l r e p n)
              (get_elem?_behind (entries t) i (ground (arith, c.1, behind)))))
      | inr inside ↦
          let (x, there) = get_elem?_inside (entries t) i (ground (arith, c.1, inside)) in
          rw inside (
            ordinal_loop-entries t i c
            ∙ ap ordinal_of there
            ∙ sym (at_place-some (entries t) i x there))
    ]
