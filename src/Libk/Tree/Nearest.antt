-- ===== src/Libk/Tree/Nearest.antt =====
-- The neighbours of a node of libk/tree.c, in the order of the tree.
use twcos.Common.{
  ℕ, ◌≡◌, refl, sym, ap, ◌∙◌, List, [], ◌∷◌, ◌++◌, append_assoc, append-nil, Option, none, some,
  arith,
}
use twcos.Libk.Tree.{Entry, Tree, leaf, node, Crumb, left_of, right_of, Place}
use twcos.Libk.Tree.Neighbours.{leftmost, rightmost, climb_left, climb_right, node_next, node_prev}
use twcos.Libk.Tree.Inorder.{entries, before, after}
use twcos.Libk.Tree.Pick.{first, last}

abbrev pub entry_of : Option Place → Option Entry
entry_of none = none
entry_of (some x) = some x.entry

pub last-append :
    (xs : List Entry) (y : Entry) (ys : List Entry) → last (xs ++ (y ∷ ys)) ≡ last (y ∷ ys)
last-append [] y ys = refl
last-append (x ∷ xs) y ys = ground (arith, last-append xs y ys)

last-rightmost :
    (zs : List Entry) (l : Tree) (e : Entry) (p n : ℕ) (r : Tree) (path : List Crumb)
    → some (rightmost l e p n r path).entry ≡ last (zs ++ (entries l ++ (e ∷ entries r)))
unfolding rightmost
last-rightmost zs l e p n leaf path = sym (rw (← append_assoc) (last-append (zs ++ entries l) e []))
last-rightmost zs l e p n (node s x xp xn r) path =
    let regroup : (zs ++ (entries l ++ (e ∷ []))) ++ (entries s ++ (x ∷ entries r))
        ≡ zs ++ (entries l ++ (e ∷ (entries s ++ (x ∷ entries r)))) =
      simp append_assoc in
    last-rightmost (zs ++ (entries l ++ (e ∷ []))) s x xp xn r (right_of l e p n ∷ path)
    ∙ ap last regroup

first-leftmost :
    (l : Tree) (e : Entry) (p n : ℕ) (r : Tree) (path : List Crumb) (zs : List Entry)
    → some (leftmost l e p n r path).entry ≡ first ((entries l ++ (e ∷ entries r)) ++ zs)
unfolding leftmost
first-leftmost leaf e p n r path zs = refl
first-leftmost (node l x xp xn s) e p n r path zs =
    let regroup : (entries l ++ (x ∷ entries s)) ++ (e ∷ (entries r ++ zs))
        ≡ ((entries l ++ (x ∷ entries s)) ++ (e ∷ entries r)) ++ zs =
      simp append_assoc in
    first-leftmost l x xp xn s (left_of e p n r ∷ path) (e ∷ (entries r ++ zs)) ∙ ap first regroup

last-climb_left : (t : Tree) (path : List Crumb) → entry_of (climb_left t path) ≡ last (before path)
unfolding climb_left
last-climb_left t [] = refl
last-climb_left t (left_of e p n s ∷ path) = last-climb_left (node t e p n s) path
last-climb_left t (right_of s e p n ∷ path) =
    sym (rw (← append_assoc) (last-append (before path ++ entries s) e []))

first-climb_right :
    (t : Tree) (path : List Crumb) → entry_of (climb_right t path) ≡ first (after path)
unfolding climb_right
first-climb_right t [] = refl
first-climb_right t (left_of e p n s ∷ path) = refl
first-climb_right t (right_of s e p n ∷ path) = first-climb_right (node s e p n t) path

-- `node_prev` is the last node before a node, `node_next` the first one after it, both in the order
-- of the tree, and NULL where there is none.
pub neighbours :
    (l : Tree) (e : Entry) (p n : ℕ) (r : Tree) (path : List Crumb)
    → let x : Place = record {
      left = l;
      entry = e;
      priority = p;
      count = n;
      right = r;
      path = path;
    } in
      (entry_of (node_prev x) ≡ last (before path ++ entries l))
      × (entry_of (node_next x) ≡ first (entries r ++ after path))
unfolding node_prev node_next
neighbours l e p n r path = (prev l, next r)
  where
    prev :
        (l : Tree)
        → entry_of (
            node_prev
              (record { left = l; entry = e; priority = p; count = n; right = r; path = path }))
          ≡ last (before path ++ entries l)
    prev leaf = last-climb_left (node leaf e p n r) path ∙ ap last (sym (append-nil (before path)))
    prev (node s x xp xn t) = last-rightmost (before path) s x xp xn t (left_of e p n r ∷ path)

    next :
        (r : Tree)
        → entry_of (
            node_next
              (record { left = l; entry = e; priority = p; count = n; right = r; path = path }))
          ≡ first (entries r ++ after path)
    next leaf = first-climb_right (node l e p n leaf) path
    next (node s x xp xn t) = first-leftmost s x xp xn t (right_of l e p n ∷ path) (after path)
