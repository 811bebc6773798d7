-- ===== src/Libk/Slab/Reached.antt =====
-- The mark phase of libk/slab.c ends, and marks the slots that its pointers lead to.
use twcos.Common.{
  ℕ, zero, suc, ◌<◌, ◌≡◌, refl, sym, ap, ◌∙◌, Bool, true, false, not, Option, none, some, List, [],
  ◌∷◌, arith, ◌>>=◌,
}
use twcos.Libk.Slab.{
  SlabType, Slab, slab_get, slot_of, available_at, set_available, pointers, mark_each, slab_gc_mark,
}
use twcos.Libk.Slab.Marks.{AreFull, total, set_available-Cleared, slab_get-set_available, no_true}
use twcos.Libk.Slab.Collect.{is_marked, slot_marked, Marked, Marked-then, Marked-slot}

module _ (memory : ℕ → ℕ) where
  abbrev pub Marks : List Slab → List ℕ → Option (List Slab) → Type 0
  Marks heap ps none = false ≡ true
  Marks heap ps (some heap') = Marked memory heap ps heap'

  Marked-nothing :
      (heap : List Slab) (p : ℕ)
      → AreFull heap
      → is_marked heap p ≡ true
      → Marked memory heap (p ∷ []) heap
  Marked-nothing heap p full h = record {
    full = full;
    fewer = omega arith;
    same = λ q. refl;
    less = λ q j a. a;
    done = (h, tt);
    reason = λ q j a b. absurd (no_true (sym a ∙ b));
  }

  Marked-nobody : (heap : List Slab) → AreFull heap → Marked memory heap [] heap
  Marked-nobody heap full = record {
    full = full;
    fewer = omega arith;
    same = λ q. refl;
    less = λ q j a. a;
    done = tt;
    reason = λ q j a b. absurd (no_true (sym a ∙ b));
  }

  pub mark_each-Marks :
      (mark : List Slab → ℕ → Option (List Slab)) (f : ℕ)
      → ((heap : List Slab) (p : ℕ)
          → AreFull heap
          → total heap < f
          → Marks heap (p ∷ []) (mark heap p))
      → (heap : List Slab) (ps : List ℕ) → AreFull heap
      → total heap < f
      → Marks heap ps (mark_each mark heap ps)
  unfolding mark_each
  mark_each-Marks mark f one heap [] full l = Marked-nobody heap full
  mark_each-Marks mark f one heap (p ∷ ps) full l =
      first (mark heap p) (one heap p full l) (λ heap1. mark_each-Marks mark f one heap1 ps)
    where
      rest :
          (heap1 : List Slab) (o : Option (List Slab))
          → Marked memory heap (p ∷ []) heap1
          → Marks heap1 ps o
          → Marks heap (p ∷ ps) o
      rest heap1 none m n = n
      rest heap1 (some heap2) m n = Marked-then memory heap heap1 heap2 p ps m n

      first :
          (o : Option (List Slab))
          → Marks heap (p ∷ []) o
          → ((heap1 : List Slab)
              → AreFull heap1
              → total heap1 < f
              → Marks heap1 ps (mark_each mark heap1 ps))
          → Marks heap (p ∷ ps) (o >>= (λ heap1. mark_each mark heap1 ps))
      first none m next = m
      first (some heap1) m next =
          rest heap1 (mark_each mark heap1 ps) m (next heap1 m.full (omega (arith, m.fewer, l)))

  pub slab_gc_mark-Marks :
      (f : ℕ) (heap : List Slab) (p : ℕ)
      → AreFull heap
      → total heap < f
      → Marks heap (p ∷ []) (slab_gc_mark f memory heap p)
  unfolding slab_gc_mark
  slab_gc_mark-Marks zero heap p full l = absurd (omega (arith, l))
  slab_gc_mark-Marks (suc f) heap p full l =
      at_target (slab_get heap p) refl
        (λ heap1 ps. mark_each-Marks (slab_gc_mark f memory) f (slab_gc_mark-Marks f) heap1 ps)
    where
      after : ℕ → SlabType → Option (List Slab)
      after page t =
          mark_each (slab_gc_mark f memory) (set_available heap page (slot_of page t p) false)
            (pointers memory t p)

      of_children :
          (page : ℕ) (t : SlabType) (o : Option (List Slab))
          → slab_get heap p ≡ some (page, t)
          → available_at heap page (slot_of page t p) ≡ true
          → Marks (set_available heap page (slot_of page t p) false) (pointers memory t p) o
          → Marks heap (p ∷ []) o
      of_children page t none e h m = m
      of_children page t (some heap2) e h m =
          let i = slot_of page t p in
          Marked-slot memory heap (set_available heap page i false) heap2 p page t e
            (slab_get-set_available heap page i false) (set_available-Cleared heap page i full h) m

      at_bit :
          (page : ℕ) (t : SlabType) (b : Bool)
          → slab_get heap p ≡ some (page, t)
          → available_at heap page (slot_of page t p) ≡ b
          → (b ≡ true
              → Marks
                  (set_available heap page (slot_of page t p) false)
                  (pointers memory t p)
                  (after page t))
          → Marks heap (p ∷ []) (elim b [ true ↦ after page t | false ↦ some heap ])
      at_bit page t true e h next = of_children page t (after page t) e h (next refl)
      at_bit page t false e h next =
          Marked-nothing heap p full (ap (slot_marked heap p) e ∙ ap not h)

      at_target :
          (o : Option (ℕ × SlabType))
          → slab_get heap p ≡ o
          → ((heap1 : List Slab) (ps : List ℕ)
              → AreFull heap1
              → total heap1 < f
              → Marks heap1 ps (mark_each (slab_gc_mark f memory) heap1 ps))
          → Marks heap (p ∷ []) (elim o [
            | none ↦ some heap
            | some (page, t) ↦ elim (available_at heap page (slot_of page t p)) [
              | true ↦ after page t
              | false ↦ some heap
            ]
          ])
      at_target none e next = Marked-nothing heap p full (ap (slot_marked heap p) e)
      at_target (some (page, t)) e next =
          let i = slot_of page t p in
          at_bit page t (available_at heap page i) e refl (λ h.
            let c = set_available-Cleared heap page i full h in
            next (set_available heap page i false) (pointers memory t p) c.full
              (omega (arith, c.fewer, l)))
