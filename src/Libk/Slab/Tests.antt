-- ===== src/Libk/Slab/Tests.antt =====
-- Slabs of libk/slab.c that the theorems of this component are applied to, and runs.
use twcos.Common.{
  ℕ, zero, suc, ◌+◌, ◌*◌, ◌<◌, ◌≡◌, ◌⊎◌, refl, sym, ap, subst, Bool, true, false, Option, none,
  some, List, [], ◌∷◌, arith, ◌==◌, if◌then◌else◌, inl, inr, Bool-cases, leb, maybe,
}
use twcos.Libk.Slab.{
  SlabType, Slab, slab_count, slab_data, slab_new, slab_alloc, slab_get, slot_of, page_align,
  pointers, words_at, slab_gc_begin, slab_gc_mark_block, slab_mark_available_all, available_at,
}
use twcos.Libk.Slab.Sweep.{slab_gc_end}
use twcos.Libk.Slab.Maps.{slab_new-IsValid}
use twcos.Libk.Slab.Marks.{total}
use twcos.Libk.Slab.Alloc.{Allocates, slab_alloc-Allocates}
use twcos.Libk.Slab.Collect.{In, Reach, root, step}
use twcos.Libk.Slab.Collected.{
  IsStart, KeepsReached, FreesOthers, slab_gc_mark_block-KeepsReached,
  slab_gc_mark_block-FreesOthers, slab_gc_begin-AreFull,
}

-- Four slots of 1000 bytes; the first one of a slab at 4096 is at 4132.
abbrev thousand : SlabType
thousand = record { esize = 1000; count = 4; mark = none; finalized = false }

abbrev huge : SlabType
huge = record { esize = 4088; count = 0; mark = none; finalized = false }

thousand-slab_count : 4 ≡ slab_count 1000
unfolding slab_count
thousand-slab_count = refl

huge-slab_count : 0 ≡ slab_count 4088
unfolding slab_count
huge-slab_count = refl

slab_alloc-Allocates_example : Allocates thousand 4096 [] (slab_alloc thousand (4096 ∷ []) [])
slab_alloc-Allocates_example = slab_alloc-Allocates thousand 4096 [] tt (omega arith)

-- The word at 8 points to the first slot, and the first word there to the third slot.
abbrev memory : ℕ → ℕ
memory a = if a == 8 then 4132 else if a == 4132 then 6132 else 0

abbrev heap : List Slab
heap = slab_new thousand 4096 ∷ []

abbrev begun : List Slab
begun = slab_gc_begin heap

-- A word of memory is one of three.
abbrev IsWord : ℕ → Type 0
IsWord p = (p ≡ 0) ⊎ ((p ≡ 4132) ⊎ (p ≡ 6132))

memory-IsWord : (a : ℕ) → IsWord (memory a)
memory-IsWord a = elim (Bool-cases (a == 8)) [
  | inl h ↦ rw h (inr (inl refl))
  | inr h ↦ elim (Bool-cases (a == 4132)) [
    | inl g ↦ rw (h, g) (inr (inr refl))
    | inr g ↦ rw (h, g) (inl refl)
  ]
]

words_at-IsWord : (from n p : ℕ) → In p (words_at memory from n) → IsWord p
unfolding words_at
words_at-IsWord from zero p i = absurd (omega (arith, i))
words_at-IsWord from (suc n) p (inl e) = subst IsWord (sym e) (memory-IsWord from)
words_at-IsWord from (suc n) p (inr i) = words_at-IsWord (from + 4) n p i

slab_get-begun :
    (p page : ℕ) (t : SlabType) → slab_get begun p ≡ some (page, t) → (t ≡ thousand) × (page ≡ 4096)
unfolding slab_get slab_gc_begin slab_mark_available_all slab_new
slab_get-begun p page t h = of_tests (4096 == page_align p) (leb 4132 p) h
  where
    only : Option (ℕ × SlabType)
    only = some (4096, thousand)

    of_tests :
        (b c : Bool)
        → (if b then (if c then only else none) else none) ≡ some (page, t)
        → (t ≡ thousand) × (page ≡ 4096)
    of_tests true true h =
        (sym (ap (maybe thousand (λ x. x.1)) h), sym (ap (maybe 4096 (λ x. x.0)) h))
    of_tests true false h = ground (arith, h)
    of_tests false c h = ground (arith, h)

reached-IsWord : (p : ℕ) → Reach memory begun (words_at memory 8 1) p → IsWord p
unfolding pointers
reached-IsWord p (root i) = words_at-IsWord 8 1 p i
reached-IsWord p (step {p = q} {page = page} {t = t} w e i) =
    words_at-IsWord q 250 p
      (subst (λ t. In p (pointers memory t q)) (slab_get-begun q page t e).0 i)

-- No word points into a slot behind its start.
start_of_word :
    (p page : ℕ) (t : SlabType)
    → IsWord p
    → slab_get begun p ≡ some (page, t)
    → (slot_of 4096 thousand p < 4) × (p ≡ slab_data 4096 thousand + 1000 * slot_of 4096 thousand p)
unfolding slab_get slab_gc_begin slab_mark_available_all slab_new
start_of_word p page t (inl z) e =
    let none_there : slab_get begun 0 ≡ some (page, t) =
      subst (λ p. slab_get begun p ≡ some (page, t)) z e in
    ground (arith, none_there)
start_of_word p page t (inr (inl z)) e = rw z (omega arith, refl)
start_of_word p page t (inr (inr z)) e = rw z (omega arith, refl)

starts : (p : ℕ) → Reach memory begun (words_at memory 8 1) p → IsStart begun p
starts p w page t e =
    let (type_here, page_here) = slab_get-begun p page t e in
    rw (type_here, page_here) (start_of_word p page t (reached-IsWord p w) e)

slab_gc_mark_block-KeepsReached_example :
    KeepsReached memory begun
      (words_at memory 8 1)
      (slab_gc_mark_block (suc (total begun)) memory begun 8 1)
slab_gc_mark_block-KeepsReached_example =
    slab_gc_mark_block-KeepsReached memory heap 8 1 (slab_new-IsValid thousand 4096, tt) starts

slab_gc_mark_block-FreesOthers_example :
    FreesOthers memory begun
      (words_at memory 8 1)
      (slab_gc_mark_block (suc (total begun)) memory begun 8 1)
slab_gc_mark_block-FreesOthers_example =
    slab_gc_mark_block-FreesOthers memory begun 8 1
      (slab_gc_begin-AreFull heap (slab_new-IsValid thousand 4096, tt))

-- The first and the third slot are kept.
gc_run :
    maybe []
      (λ h. available_at h 4096 0 ∷ available_at h 4096 1 ∷ available_at h 4096 2 ∷ [])
      (slab_gc_mark_block 5 memory begun 8 1)
    ≡ false ∷ true ∷ false ∷ []
unfolding slab_gc_mark_block slab_gc_begin slab_mark_available_all slab_new available_at
gc_run = refl

-- Of four slots, the first two were in use before the collection and the second still is.
sweep_run :
    (slab_gc_end (
      record {
        page = 4096;
        type = record thousand { finalized = true };
        available = (true ∷ false ∷ true ∷ true ∷ []) ∷ [];
        finalize = (false ∷ false ∷ true ∷ true ∷ []) ∷ [];
      }
      ∷ [])).0
    ≡ 4132 ∷ []
unfolding slab_gc_end
sweep_run = refl
