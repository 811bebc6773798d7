-- ===== src/Libk/Map/Trees.antt =====
-- A tree of libk/tree.c as a map of libk/map.c.
use twcos.Common.{
  ℕ, ◌+◌, ◌<◌, ◌≡◌, ◌≢◌, refl, sym, ap, subst, ◌∙◌, Bool, true, false, Option, none, some, List, [],
  ◌∷◌, if◌then◌else◌, maybe, arith, All, All-imp, map, Ordering,
}
use Prim.Native.Nat.Ordering.{lt, eq, gt}
use twcos.Libk.Tree.{Entry}
use twcos.Libk.Tree.Ops.{
  Comp, TreeMap, Fresh, map_eq, tree_put, tree_get, tree_remove, tree_walk, tree_walk_range,
}
use twcos.Libk.Tree.Sorted.{IsComparison, IsSorted, value_at, put_entry}
use twcos.Libk.Tree.Cuts.{contents, IsSearchTree}
use twcos.Libk.Tree.Walk.{IsDistinct, tree_walk-contents}
use twcos.Libk.Tree.Put.{new_entry, tree_put-put_entry}
use twcos.Libk.Tree.Map.{tree_get-value_at, tree_get-tree_put}
use twcos.Libk.Map.{MapOps, map_put, map_get, map_walk}
use twcos.Libk.Map.Contract.{IsMap, find_last}

-- A tree with the address that its next node gets.
pub record TreeState : Type 0 where
  pub tree : TreeMap
  pub next : ℕ

-- The calls of `func` that a walk makes.
abbrev pub calls : Option (List Entry) → List (ℕ × ℕ)
calls none = []
calls (some es) = map (λ e. (e.key, e.value)) es

-- `tree_ops`, where `priority` is what the memory of a new node holds and `optimize` stands
-- for tree_optimize.
unfoldable pub tree_ops : (priority : ℕ → ℕ) → (TreeMap → TreeMap) → MapOps TreeState
unfolding tree_put tree_get tree_remove tree_walk tree_walk_range
tree_ops priority optimize = record {
  walk = λ m. calls (tree_walk m.tree);
  walk_range = λ m from to. calls (tree_walk_range m.tree from to).0;
  put = λ m key value.
      let (old, t) =
        tree_put (record { addr = m.next; priority = priority m.next }) m.tree key value in
      (old, record { tree = t; next = m.next + 1 });
  get = λ m key cond. let (value, t) = tree_get m.tree key cond in (value, record m { tree = t });
  remove = λ m key. let (value, t) = tree_remove m.tree key in (value, record m { tree = t });
  optimize = λ m. record m { tree = optimize m.tree };
}

-- The keys that compare equal.
abbrev pub same_key : Comp → ℕ → ℕ → Bool
same_key comp k key = elim (comp k key) [ eq ↦ true | _ ↦ false ]

pub record IsTreeState (comp : Comp) (m : TreeState) : Type 0 where
  pub comp_kept : m.tree.comp ≡ comp
  pub search : IsSearchTree m.tree
  pub distinct : IsDistinct (contents m.tree)
  pub below : All (λ e. e.addr < m.next) (contents m.tree)

put_entry_addr :
    (P : ℕ → Type 0) (comp : Comp) (x : Entry) (es : List Entry)
    → P x.addr
    → All (λ e. P e.addr) es
    → All (λ e. P e.addr) (put_entry comp x es)
put_entry_addr P comp x [] px h = (px, tt)
put_entry_addr P comp x (e ∷ es) px h =
    by_order (comp x.key e.key) (put_entry_addr P comp x es px h.1)
  where
    by_order :
        (o : Ordering)
        → All (λ e. P e.addr) (put_entry comp x es)
        → All
            (λ e. P e.addr)
            (elim o [
              | lt ↦ x ∷ e ∷ es
              | eq ↦ record x { addr = e.addr } ∷ es
              | gt ↦ e ∷ put_entry comp x es
            ])
    by_order lt next = (px, h)
    by_order eq next = h
    by_order gt next = (h.0, next)

put_entry-IsDistinct :
    (comp : Comp) (x : Entry) (es : List Entry)
    → All (λ e. e.addr ≢ x.addr) es
    → IsDistinct es
    → IsDistinct (put_entry comp x es)
put_entry-IsDistinct comp x [] n d = (tt, tt)
put_entry-IsDistinct comp x (e ∷ es) n d =
    by_order (comp x.key e.key) (put_entry-IsDistinct comp x es n.1 d.1)
  where
    by_order :
        (o : Ordering)
        → IsDistinct (put_entry comp x es)
        → IsDistinct (elim o [
          | lt ↦ x ∷ e ∷ es
          | eq ↦ record x { addr = e.addr } ∷ es
          | gt ↦ e ∷ put_entry comp x es
        ])
    by_order lt next = (n, d)
    by_order eq next = d
    by_order gt next = (put_entry_addr (λ a. a ≢ e.addr) comp x es (λ h. n.0 (sym h)) d.0, next)

abbrev own_key : Ordering → Bool
own_key o = elim o [ eq ↦ true | _ ↦ false ]

-- Behind an entry with an equal key there is none in a sorted list.
no_later_entry :
    (comp : Comp) (k : ℕ) (es : List Entry)
    → All (λ x. comp k x.key ≡ lt) es
    → find_last (same_key comp) k (map (λ e. (e.key, e.value)) es) ≡ none
no_later_entry comp k [] h = refl
no_later_entry comp k (e ∷ es) h =
    rw (no_later_entry comp k es h.1) (ap (λ o. if own_key o then some e.value else none) h.0)

find_last-value_at :
    (comp : Comp) (k : ℕ) (es : List Entry)
    → IsComparison comp
    → IsSorted comp es
    → value_at comp k es
      ≡ maybe 0 (λ v. v) (find_last (same_key comp) k (map (λ e. (e.key, e.value)) es))
find_last-value_at comp k [] law s = refl
find_last-value_at comp k (e ∷ es) law s =
    by_order (comp k e.key) refl (find_last-value_at comp k es law s.1)
  where
    later : Option ℕ
    later = find_last (same_key comp) k (map (λ e. (e.key, e.value)) es)

    not_own :
        {v : ℕ} (last : Option ℕ)
        → v ≡ maybe 0 (λ v. v) last
        → v ≡ maybe 0 (λ v. v) (elim last [ some v ↦ some v | none ↦ none ])
    not_own none h = h
    not_own (some w) h = h

    by_order :
        (o : Ordering)
        → comp k e.key ≡ o
        → value_at comp k es ≡ maybe 0 (λ v. v) later
        → elim o [ eq ↦ e.value | _ ↦ value_at comp k es ]
          ≡ maybe 0
              (λ v. v)
              (elim later [ some v ↦ some v | none ↦ if own_key o then some e.value else none ])
    by_order lt h next = not_own later next
    by_order gt h next = not_own later next
    by_order eq h next =
        let nothing : later ≡ none =
          no_later_entry comp k es (All-imp (λ x l. law.eq_of_eq k e.key x.key h ∙ l) es s.0) in
        sym (ap (λ o. maybe 0 (λ v. v) (elim o [ some v ↦ some v | none ↦ some e.value ])) nothing)

module _ (priority : ℕ → ℕ) (optimize : TreeMap → TreeMap) (comp : Comp)
    (law : IsComparison comp) where
  put_keeps :
      (m : TreeState) (key value : ℕ)
      → IsTreeState comp m
      → IsTreeState comp (map_put (tree_ops priority optimize) m key value).1
  unfolding map_put tree_ops
  put_keeps m key value v =
      let f : Fresh = record { addr = m.next; priority = priority m.next } in
      let (old, now, c, mode, s) =
        tree_put-put_entry f m.tree key value (subst IsComparison (sym v.comp_kept) law) v.search in
      record {
        comp_kept = c ∙ v.comp_kept;
        search = s;
        distinct = rw now (
            put_entry-IsDistinct m.tree.comp (new_entry f key value) (contents m.tree)
              (All-imp (λ e l h. ground (arith, l, h)) (contents m.tree) v.below) v.distinct);
        below = rw now (
            put_entry_addr (λ a. a < m.next + 1) m.tree.comp (new_entry f key value)
              (contents m.tree) (omega arith)
              (All-imp (λ e l. omega (arith, l)) (contents m.tree) v.below));
      }

  -- The trees with a comparison are a kind of map.
  pub tree-IsMap : IsMap (tree_ops priority optimize) (same_key comp) (IsTreeState comp)
  unfolding map_put map_get map_walk tree_ops
  tree-IsMap = record {
    put-Valid = put_keeps;
    get-put = λ m key value k v.
        tree_get-tree_put (record { addr = m.next; priority = priority m.next }) m.tree key value k
          (subst IsComparison (sym v.comp_kept) law) v.search
        ∙ by_order (m.tree.comp k key) value (tree_get m.tree k map_eq).0
        ∙ ap (λ c. if same_key c k key then value else (tree_get m.tree k map_eq).0) v.comp_kept;
    get-walk = λ m k v.
        tree_get-value_at m.tree k (subst IsComparison (sym v.comp_kept) law) v.search
        ∙ find_last-value_at m.tree.comp k (contents m.tree)
            (subst IsComparison (sym v.comp_kept) law) v.search
        ∙ ap
            (λ c.
              maybe 0 (λ v. v)
                (find_last (same_key c) k (map (λ e. (e.key, e.value)) (contents m.tree))))
            v.comp_kept
        ∙ ap (λ o. maybe 0 (λ v. v) (find_last (same_key comp) k (calls o)))
            (sym (tree_walk-contents m.tree v.distinct));
  }
    where
      by_order : (o : Ordering) (x y : ℕ) → elim o [ eq ↦ x | _ ↦ y ] ≡ (if own_key o then x else y)
      by_order lt x y = refl
      by_order eq x y = refl
      by_order gt x y = refl
