-- ===== src/Libk/Slab/Alloc.antt =====
-- What `slab_alloc` and `malloc` of libk/slab.c return.
use twcos.Common.{
  ℕ, ◌+◌, ◌*◌, ◌≤◌, ◌<◌, ◌≡◌, ◌⊎◌, refl, sym, ap, subst, ◌∙◌, true, false, Option, none, some, List,
  [], ◌∷◌, ◌++◌, arith, All, inl, inr, All-append,
}
use native.Mathlib.Decide.{dec_lt}
use twcos.Kernel.Threads.{list_prepend}
use twcos.Kernel.Pages.{Word, set_bit, take_page}
use twcos.Kernel.Pages.Bits.{bit, ones_of, ones, Scanned, take_page-Scanned, set_bit-Written}
use twcos.Libk.Slab.{
  SlabType, Slab, slab_count, slab_data, slab_new, scan_slabs, slab_alloc, pools, pool_for,
}
use twcos.Libk.Slab.Maps.{IsValid, slab_new-IsValid, slab_new-all}

-- The slabs of a type.
abbrev pub AreSlabs : SlabType → List Slab → Type 0
AreSlabs t = All (λ s. IsValid s × (s.type ≡ t))

-- One slot of one slab was available and no longer is; all else is as it was.
abbrev pub Taken : SlabType → List Slab → (page slot : ℕ) → List Slab → Type 0
Taken t slabs page slot slabs' =
    (before : List Slab) × (s : Slab) × (behind : List Slab) × (slabs ≡ before ++ s ∷ behind)
    × (slabs' ≡ before ++ record s { available = set_bit s.available slot false } ∷ behind)
    × (s.page ≡ page)
    × (slot < t.count)
    × (bit s.available slot ≡ true)

abbrev pub Found : SlabType → List Slab → Option (ℕ × ℕ × List Slab) → Type 0
Found t slabs none = All (λ s. ones s.available ≡ 0) slabs
Found t slabs (some (page, slot, slabs')) = Taken t slabs page slot slabs'

inside_of_bit : (s : Slab) (i : ℕ) → IsValid s → bit s.available i ≡ true → i < s.type.count
inside_of_bit s i v was = elim (dec_lt i s.type.count) [
  | yes h ↦ h
  | no h ↦ cc (v.clear i (omega arith))
]

scan_slabs-Found :
    (t : SlabType) (slabs : List Slab) → AreSlabs t slabs → Found t slabs (scan_slabs slabs)
unfolding scan_slabs
scan_slabs-Found t [] v = tt
scan_slabs-Found t (s ∷ slabs) (v, vs) =
    at_slab (take_page s.type.count 0 s.available) (scan_slabs slabs)
      (take_page-Scanned s.type.count 0 s.available v.0.full (λ i h. v.0.clear i (omega arith)))
      (scan_slabs-Found t slabs vs)
  where
    at_slab :
        (o : Option (ℕ × List Word)) (next : Option (ℕ × ℕ × List Slab))
        → Scanned s.type.count 0 s.available o
        → Found t slabs next
        → Found t (s ∷ slabs) (elim o [
          | some (slot, words) ↦ some (s.page, slot, record s { available = words } ∷ slabs)
          | none ↦ elim next [
            | none ↦ none
            | some (page, slot, slabs') ↦ some (page, slot, s ∷ slabs')
          ]
        ])
    at_slab none none o n = (o, n)
    at_slab none (some (page, slot, slabs')) o (before, s', behind, e, e', at, low, was) =
        (s ∷ before, s', behind, ap (λ l. s ∷ l) e, ap (λ l. s ∷ l) e', at, low, was)
    at_slab (some (q, words)) next (i, at, inside, was, now) n =
        let e : i ≡ q = omega (arith, at) in
        let low : i < s.type.count = inside_of_bit s i v.0 was in
        (
          [],
          s,
          slabs,
          refl,
          ap (λ w. record s { available = w } ∷ slabs)
              (now ∙ ap (λ i. set_bit s.available i false) e),
          refl,
          subst (λ t. q < t.count) v.1 (omega (arith, low, e)),
          sym (ap (λ i. bit s.available i) e) ∙ was,
        )

AreSlabs-list_prepend :
    (t : SlabType) (slabs : List Slab) (s : Slab)
    → AreSlabs t slabs
    → IsValid s × (s.type ≡ t)
    → AreSlabs t (list_prepend slabs s)
AreSlabs-list_prepend t [] s vs v = (v, tt)
AreSlabs-list_prepend t (head ∷ slabs) s vs v = (v, All-append _ slabs (head ∷ []) vs.1 (vs.0, tt))

-- A bit that is set is counted.
ones_of_bit : (s : Slab) (i : ℕ) → IsValid s → bit s.available i ≡ true → 1 ≤ ones s.available
ones_of_bit s i v was =
    let l : i < s.type.count = inside_of_bit s i v was in
    let w = set_bit-Written s.available i false v.full (omega (arith, v.size, l)) in
    omega (arith, w.total, ap ones_of was)

type-slab_new : (t : SlabType) (page : ℕ) → (slab_new t page).type ≡ t
unfolding slab_new
type-slab_new t page = refl

new-AreSlabs :
    (t : SlabType) (page : ℕ) (slabs : List Slab)
    → AreSlabs t slabs
    → AreSlabs t (list_prepend slabs (slab_new t page))
new-AreSlabs t page slabs v =
    AreSlabs-list_prepend t slabs (slab_new t page) v
      (slab_new-IsValid t page, type-slab_new t page)

-- A new slab has a slot for the scan.
new_slot :
    (t : SlabType) (slabs : List Slab) (page : ℕ)
    → 0 < t.count
    → Found t (list_prepend slabs (slab_new t page)) none
    → 1 ≤ 0
new_slot t slabs page h f =
    subst (λ n. 1 ≤ n) (of_head slabs f)
      (ones_of_bit (slab_new t page) 0 (slab_new-IsValid t page) (slab_new-all t page 0 h))
  where
    of_head :
        (slabs : List Slab)
        → Found t (list_prepend slabs (slab_new t page)) none
        → ones (slab_new t page).available ≡ 0
    of_head [] f = f.0
    of_head (head ∷ slabs) f = f.0

-- What `slab_alloc` gives with one page: a slot that was available, of a slab there was or of the new
-- one.
abbrev pub Allocates : SlabType → ℕ → List Slab → Option (ℕ × List Slab) → Type 0
Allocates t page slabs none = false ≡ true
Allocates t page slabs (some (p, slabs')) =
    (from : ℕ) × (slot : ℕ) × (p ≡ slab_data from t + t.esize * slot)
    × (Taken t slabs from slot slabs'
        ⊎ Taken t (list_prepend slabs (slab_new t page)) from slot slabs')

-- `slab_alloc` of a type that has slots, over its slabs, returns with at most one new page: the address
-- of a slot that was available, in one of the slabs or in a new slab on that page, and of all bits of all
-- slabs that slot's alone is changed.
pub slab_alloc-Allocates :
    (t : SlabType) (page : ℕ) (slabs : List Slab)
    → AreSlabs t slabs
    → 0 < t.count
    → Allocates t page slabs (slab_alloc t (page ∷ []) slabs)
unfolding slab_alloc
slab_alloc-Allocates t page slabs v h = with_old (scan_slabs slabs) (scan_slabs-Found t slabs v)
  where
    more : List Slab
    more = list_prepend slabs (slab_new t page)

    with_new :
        (o : Option (ℕ × ℕ × List Slab))
        → Found t more o
        → Allocates t page slabs (elim o [
          | some (from, slot, slabs') ↦ some (slab_data from t + t.esize * slot, slabs')
          | none ↦ none
        ])
    with_new none f = absurd (omega (arith, new_slot t slabs page h f))
    with_new (some (from, slot, slabs')) f = (from, slot, refl, inr f)

    with_old :
        (o : Option (ℕ × ℕ × List Slab))
        → Found t slabs o
        → Allocates t page slabs (elim o [
          | some (from, slot, slabs') ↦ some (slab_data from t + t.esize * slot, slabs')
          | none ↦ slab_alloc t [] (list_prepend slabs (slab_new t page))
        ])
    with_old none f =
        with_new (scan_slabs more) (scan_slabs-Found t more (new-AreSlabs t page slabs v))
    with_old (some (from, slot, slabs')) f = (from, slot, refl, inl f)

scan_slabs_no_slots :
    (t : SlabType) (slabs : List Slab) → t.count ≡ 0 → AreSlabs t slabs → scan_slabs slabs ≡ none
scan_slabs_no_slots t slabs e v = of_found (scan_slabs slabs) (scan_slabs-Found t slabs v)
  where
    of_found : (o : Option (ℕ × ℕ × List Slab)) → Found t slabs o → o ≡ none
    of_found none f = refl
    of_found (some (page, slot, slabs')) (before, s, behind, a, b, c, low, was) =
        absurd (omega (arith, low, e))

slab_alloc_endless :
    (t : SlabType) (pages : List ℕ) (slabs : List Slab)
    → t.count ≡ 0
    → AreSlabs t slabs
    → slab_alloc t pages slabs ≡ none
unfolding slab_alloc
slab_alloc_endless t [] slabs e v = rw (slab_alloc, scan_slabs_no_slots t slabs e v) refl
slab_alloc_endless t (page ∷ pages) slabs e v =
    rw (slab_alloc, scan_slabs_no_slots t slabs e v)
      (slab_alloc_endless t pages (list_prepend slabs (slab_new t page)) e
        (new-AreSlabs t page slabs v))

-- `malloc` of 2044 to 4087 bytes chooses the last pool, whose slots have 4088 bytes. No such slot fits
-- in a slab: the pool's `slab_alloc` takes any number of pages and does not return.
pub malloc_endless :
    (size : ℕ) (t : SlabType) (pages : List ℕ)
    → 2044 ≤ size
    → size < 4088
    → t.esize ≡ 4088
    → t.count ≡ slab_count t.esize
    → (pool_for pools size ≡ some t.esize) × (slab_alloc t pages [] ≡ none)
unfolding pool_for slab_count
malloc_endless size t pages low high e c =
    (ground (arith, e), slab_alloc_endless t pages [] (c ∙ ap slab_count e) tt)
