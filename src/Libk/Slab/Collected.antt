-- ===== src/Libk/Slab/Collected.antt =====
-- The collection of libk/slab.c: what can be reached is kept, and nothing else.
use twcos.Common.{
  ℕ, suc, ◌+◌, ◌*◌, ◌<◌, ◌≡◌, ◌⊎◌, refl, sym, ap, ap₂, subst, ◌∙◌, Bool, true, false, Option, none,
  some, List, [], ◌∷◌, arith, All, Bool-cases, inl, inr, ◌==◌, if◌then◌else◌, leb, maybe, ==→eq,
  ==_refl,
}
use twcos.Libk.Slab.{
  SlabType, Slab, page_align, slab_data, slab_get, slot_of, available_at, pointers, words_at,
  mark_each, slab_mark_available_all, slab_gc_begin, slab_gc_mark, slab_gc_mark_block,
}
use twcos.Kernel.Pages.Bits.{bit}
use twcos.Libk.Slab.Maps.{IsValid, slab_mark_available_all-IsValid, slab_mark_available_all-all}
use twcos.Libk.Slab.Marks.{AreFull, total}
use twcos.Libk.Slab.Collect.{In, Reach, root, step, is_marked, slot_marked, of_not, Marked}
use twcos.Libk.Slab.Reached.{Marks, mark_each-Marks, slab_gc_mark-Marks}

-- The type of the first slab at a page.
type_at : List Slab → ℕ → Option SlabType
type_at [] page = none
type_at (s ∷ heap) page = if s.page == page then some s.type else type_at heap page

-- What `slab_get` returns: the page of the pointer, with the type of its slab.
slab_get-page :
    (heap : List Slab) (p page : ℕ) (t : SlabType)
    → slab_get heap p ≡ some (page, t)
    → (page ≡ page_align p) × (type_at heap page ≡ some t)
unfolding slab_get type_at
slab_get-page [] p page t h = ground (arith, h)
slab_get-page (s ∷ heap) p page t h =
    at_slab (s.page == page_align p) (leb (slab_data s.page s.type) p) refl h
      (slab_get-page heap p page t)
  where
    at_slab :
        (b c : Bool)
        → (s.page == page_align p) ≡ b
        → (if b then (if c then some (s.page, s.type) else none) else slab_get heap p)
          ≡ some (page, t)
        → (slab_get heap p ≡ some (page, t) → (page ≡ page_align p) × (type_at heap page ≡ some t))
        → (page ≡ page_align p)
          × ((if s.page == page then some s.type else type_at heap page) ≡ some t)
    at_slab true true e h next =
        let same : s.page ≡ page = ap (maybe 0 (λ x. x.0)) h in
        (sym same ∙ ==→eq _ _ e, rw (same, ==_refl page) (ap (maybe none (λ x. some x.1)) h))
    at_slab true false e h next = ground (arith, h)
    at_slab false c e h next = let (at, ty) = next h in (at, rw (at, e, ← at) ty)

available_of_type :
    (heap : List Slab) (page i : ℕ) (t : SlabType)
    → All IsValid heap
    → i < t.count
    → type_at (slab_gc_begin heap) page ≡ some t
    → available_at (slab_gc_begin heap) page i ≡ true
unfolding type_at slab_gc_begin available_at slab_mark_available_all
available_of_type [] page i t v l h = ground (arith, h)
available_of_type (s ∷ heap) page i t v l h =
    at_slab (s.page == page) h (available_of_type heap page i t v.1 l)
  where
    at_slab :
        (b : Bool)
        → (if b then some s.type else type_at (slab_gc_begin heap) page) ≡ some t
        → (type_at (slab_gc_begin heap) page ≡ some t
            → available_at (slab_gc_begin heap) page i ≡ true)
        → (if b
            then bit (slab_mark_available_all s).available i
            else available_at (slab_gc_begin heap) page i)
          ≡ true
    at_slab true h next =
        let same : s.type ≡ t = ap (maybe s.type (λ x. x)) h in
        slab_mark_available_all-all s i v.0 (subst (λ t. i < t.count) (sym same) l)
    at_slab false h next = next h

-- When a collection begins, all slots are available.
available_at-slab_gc_begin :
    (heap : List Slab) (p page i : ℕ) (t : SlabType)
    → All IsValid heap
    → slab_get (slab_gc_begin heap) p ≡ some (page, t)
    → i < t.count
    → available_at (slab_gc_begin heap) page i ≡ true
available_at-slab_gc_begin heap p page i t v h l =
    available_of_type heap page i t v l (slab_get-page (slab_gc_begin heap) p page t h).1

pub slab_gc_begin-AreFull : (heap : List Slab) → All IsValid heap → AreFull (slab_gc_begin heap)
unfolding slab_gc_begin
slab_gc_begin-AreFull [] v = tt
slab_gc_begin-AreFull (s ∷ heap) v =
    ((slab_mark_available_all-IsValid s v.0).full, slab_gc_begin-AreFull heap v.1)

-- A pointer outside of the slots, or to the start of one.
abbrev pub IsStart : List Slab → ℕ → Type 0
IsStart heap p =
    (page : ℕ) (t : SlabType)
    → slab_get heap p ≡ some (page, t)
    → (slot_of page t p < t.count) × (p ≡ slab_data page t + t.esize * slot_of page t p)

abbrev pub KeepsReached : (ℕ → ℕ) → List Slab → List ℕ → Option (List Slab) → Type 0
KeepsReached memory heap roots none = false ≡ true
KeepsReached memory heap roots (some heap') =
    (p : ℕ) → Reach memory heap roots p → is_marked heap' p ≡ true

abbrev pub FreesOthers : (ℕ → ℕ) → List Slab → List ℕ → Option (List Slab) → Type 0
FreesOthers memory heap roots none = false ≡ true
FreesOthers memory heap roots (some heap') =
    (page slot : ℕ)
    → available_at heap page slot ≡ true
    → (available_at heap' page slot ≡ true)
      ⊎ ((p : ℕ) × (t : SlabType) × Reach memory heap roots p
          × (slab_get heap p ≡ some (page, t))
          × (slot ≡ slot_of page t p))

All-In : (P : ℕ → Type 0) (ps : List ℕ) (p : ℕ) → All P ps → In p ps → P p
All-In P [] p a i = absurd (omega (arith, i))
All-In P (q ∷ ps) p a (inl e) = subst P (sym e) a.0
All-In P (q ∷ ps) p a (inr i) = All-In P ps p a.1 i

mark_each-words_at :
    (memory : ℕ → ℕ) (heap : List Slab) (block n : ℕ)
    → AreFull heap
    → Marks memory heap
        (words_at memory block n)
        (mark_each (slab_gc_mark (suc (total heap)) memory) heap (words_at memory block n))
mark_each-words_at memory heap block n full =
    mark_each-Marks memory (slab_gc_mark (suc (total heap)) memory) (suc (total heap))
      (slab_gc_mark-Marks memory (suc (total heap))) heap (words_at memory block n) full
      (omega arith)

-- In a collection that has just begun, all that can be reached is marked.
no_pointer_missed :
    (memory : ℕ → ℕ) (heap heap' : List Slab) (roots : List ℕ)
    → All IsValid heap
    → ((p : ℕ) → Reach memory (slab_gc_begin heap) roots p → IsStart (slab_gc_begin heap) p)
    → Marked memory (slab_gc_begin heap) roots heap'
    → (p : ℕ) → Reach memory (slab_gc_begin heap) roots p
    → is_marked heap' p ≡ true
no_pointer_missed memory heap heap' roots v start m p (root i) =
    All-In (λ p. is_marked heap' p ≡ true) roots p m.done i
no_pointer_missed memory heap heap' roots v start m q (step {p = p} {page = page} {t = t} w e i) =
    let begun = slab_gc_begin heap in
    let slot = slot_of page t p in
    let at = start p w page t e in
    let gone : available_at heap' page slot ≡ false = of_not _ (
      sym (ap (slot_marked heap' p) (m.same p ∙ e))
      ∙ no_pointer_missed memory heap heap' roots v start m p w) in
    let (r, t', w', e', same, marks) =
      m.reason page slot (available_at-slab_gc_begin heap p page slot t v e at.0) gone in
    let at' = start r w' page t' e' in
    let types : t' ≡ t =
      ap (maybe t (λ x. x))
        (sym (slab_get-page begun r page t' e').1 ∙ (slab_get-page begun p page t e).1) in
    let pointer : r ≡ p =
      at'.1 ∙ ap₂ (λ t j. slab_data page t + t.esize * j) types (sym same) ∙ sym at.1 in
    All-In (λ c. is_marked heap' c ≡ true) (pointers memory t p) q
      (subst (λ x. All (λ c. is_marked heap' c ≡ true) x) (ap₂ (pointers memory) types pointer)
        marks)
      i

-- Marking a block in a collection that has just begun ends, with fuel for one round more than there are
-- slots, and if all pointers that it comes to point to the start of a slot or outside of the slots, each
-- slot that they point to is kept: it is not available.
pub slab_gc_mark_block-KeepsReached :
    (memory : ℕ → ℕ) (heap : List Slab) (block n : ℕ)
    → All IsValid heap
    → ((p : ℕ)
        → Reach memory (slab_gc_begin heap) (words_at memory block n) p
        → IsStart (slab_gc_begin heap) p)
    → KeepsReached memory
        (slab_gc_begin heap)
        (words_at memory block n)
        (slab_gc_mark_block (suc (total (slab_gc_begin heap))) memory (slab_gc_begin heap) block n)
unfolding slab_gc_mark_block
slab_gc_mark_block-KeepsReached memory heap block n v start =
    of_marks (mark_each (slab_gc_mark (suc (total begun)) memory) begun roots)
      (mark_each-words_at memory begun block n (slab_gc_begin-AreFull heap v))
  where
    begun : List Slab
    begun = slab_gc_begin heap

    roots : List ℕ
    roots = words_at memory block n

    of_marks :
        (o : Option (List Slab)) → Marks memory begun roots o → KeepsReached memory begun roots o
    of_marks none m = m
    of_marks (some heap') m = λ p w. no_pointer_missed memory heap heap' roots v start m p w

-- Marking a block ends, with fuel for one round more than there are bits set, and each slot that was
-- available is so after it, unless a pointer that it comes to points to the slot.
pub slab_gc_mark_block-FreesOthers :
    (memory : ℕ → ℕ) (heap : List Slab) (block n : ℕ)
    → AreFull heap
    → FreesOthers memory heap
        (words_at memory block n)
        (slab_gc_mark_block (suc (total heap)) memory heap block n)
unfolding slab_gc_mark_block
slab_gc_mark_block-FreesOthers memory heap block n full =
    of_marks (mark_each (slab_gc_mark (suc (total heap)) memory) heap roots)
      (mark_each-words_at memory heap block n full)
  where
    roots : List ℕ
    roots = words_at memory block n

    of_marks :
        (o : Option (List Slab)) → Marks memory heap roots o → FreesOthers memory heap roots o
    of_marks none m = m
    of_marks (some heap') m = λ page slot a. elim (Bool-cases (available_at heap' page slot)) [
      | inl h ↦ inl h
      | inr h ↦ let (p, t, w, e, at, marks) = m.reason page slot a h in inr (p, t, w, e, at)
    ]
