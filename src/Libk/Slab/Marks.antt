-- ===== src/Libk/Slab/Marks.antt =====
-- What clearing one bit of the heap of libk/slab.c changes.
use twcos.Common.{
  ℕ, zero, suc, ◌+◌, ◌*◌, ◌/◌, ◌%◌, ◌≤◌, ◌<◌, ◌≡◌, ◌≢◌, refl, sym, ap, ◌∙◌, Bool, true, false, none,
  some, List, [], ◌∷◌, arith, All, leb, ◌==◌, if◌then◌else◌, Bool-cases, inl, inr, ==_refl, length,
  get_or, ==→eq,
}
use native.Mathlib.Decide.{dec_lt, ℕ_discrete}
use twcos.Kernel.Pages.{Word, set_bit}
use twcos.Kernel.Pages.Bits.{bit, ones, ones_of, IsFull, set_bit-Written}
use twcos.Libk.Slab.{Slab, page_align, slab_data, slab_get, available_at, set_available}

-- All bit maps are made of words.
abbrev pub AreFull : List Slab → Type 0
AreFull = All (λ s. IsFull s.available)

-- How many bits of the heap are set.
abbrev pub total : List Slab → ℕ
total [] = 0
total (s ∷ heap) = ones s.available + total heap

-- A heap in which one more slot is marked than in another.
pub record Cleared (heap : List Slab) (page i : ℕ) (heap' : List Slab) : Type 0 where
  pub full : AreFull heap'
  pub fewer : total heap' + 1 ≡ total heap
  pub here : available_at heap' page i ≡ false
  pub there :
      (q j : ℕ)
      → available_at heap q j ≡ true
      → available_at heap' q j ≡ false
      → (q ≡ page) × (j ≡ i)
  pub less : (q j : ℕ) → available_at heap q j ≡ false → available_at heap' q j ≡ false

pub slab_get-set_available :
    (heap : List Slab) (page i : ℕ) (b : Bool) (p : ℕ)
    → slab_get (set_available heap page i b) p ≡ slab_get heap p
unfolding slab_get set_available
slab_get-set_available [] page i b p = refl
slab_get-set_available (s ∷ heap) page i b p = elim (Bool-cases (s.page == page)) [
  | inl h ↦ rw h refl
  | inr h ↦ rw h (
      ap
        (λ o.
          if s.page == page_align p
          then (if leb (slab_data s.page s.type) p then some (s.page, s.type) else none)
          else o)
        (slab_get-set_available heap page i b p))
]

pub no_true : true ≢ false
no_true e = ground (arith, e)

get_or_behind : (words : List Word) (k : ℕ) → length words ≤ k → get_or words k [] ≡ []
get_or_behind [] k h = refl
get_or_behind (w ∷ words) zero h = absurd (omega arith)
get_or_behind (w ∷ words) (suc k) h = get_or_behind words k (omega arith)

-- A bit that is set is one of the words.
set_bit_inside : (words : List Word) (i : ℕ) → bit words i ≡ true → i < 32 * length words
set_bit_inside words i h = elim (dec_lt (i / 32) (length words)) [
  | yes l ↦ omega arith
  | no l ↦ absurd (
      no_true
        (sym h ∙ ap (λ w. get_or w (i % 32) false) (get_or_behind words (i / 32) (omega arith))))
]

-- What holds of a conditional on a slab's page, holds of the branch, and conversely.
of_then : (b x y v : Bool) → b ≡ true → (if b then x else y) ≡ v → x ≡ v
of_then b x y v e h = sym (ap (λ b. if b then x else y) e) ∙ h

of_else : (b x y v : Bool) → b ≡ false → (if b then x else y) ≡ v → y ≡ v
of_else b x y v e h = sym (ap (λ b. if b then x else y) e) ∙ h

branches : (b x y v : Bool) → (b ≡ true → x ≡ v) → (b ≡ false → y ≡ v) → (if b then x else y) ≡ v
branches true x y v t e = t refl
branches false x y v t e = e refl

-- The slab at the page is the first of the heap.
first_slab_clears :
    (s : Slab) (heap : List Slab) (i : ℕ)
    → AreFull (s ∷ heap)
    → bit s.available i ≡ true
    → Cleared (s ∷ heap) s.page i (record s { available = set_bit s.available i false } ∷ heap)
unfolding available_at
first_slab_clears s heap i f h =
    let w = set_bit-Written s.available i false f.0 (set_bit_inside s.available i h) in
    record {
      full = (w.full, f.1);
      fewer = omega (arith, w.total, ap ones_of h);
      here = rw (==_refl s.page) w.here;
      there = λ q j a b. elim (Bool-cases (s.page == q)) [
        | inl e ↦ elim (ℕ_discrete j i) [
          | yes j≡i ↦ (sym (==→eq _ _ e), j≡i)
          | no ne ↦ absurd (
              no_true (
                sym (of_then (s.page == q) (bit s.available j) _ true e a)
                ∙ sym (w.there j ne)
                ∙ of_then (s.page == q) (bit (set_bit s.available i false) j) _ false e b))
        ]
        | inr e ↦ absurd (
            no_true (
              sym (of_else (s.page == q) (bit s.available j) _ true e a)
              ∙ of_else (s.page == q) (bit (set_bit s.available i false) j) _ false e b))
      ];
      less = λ q j a.
          branches (s.page == q) (bit (set_bit s.available i false) j) (available_at heap q j) false
            (λ e. still_false j (of_then (s.page == q) (bit s.available j) _ false e a))
            (λ e. of_else (s.page == q) (bit s.available j) _ false e a);
    }
  where
    still_false : (j : ℕ) → bit s.available j ≡ false → bit (set_bit s.available i false) j ≡ false
    still_false j e =
        let w = set_bit-Written s.available i false f.0 (set_bit_inside s.available i h) in
        elim (ℕ_discrete j i) [
          | yes j≡i ↦ ap (bit (set_bit s.available i false)) j≡i ∙ w.here
          | no ne ↦ w.there j ne ∙ e
        ]

later_slab_clears :
    (s : Slab) (heap : List Slab) (page i : ℕ) (heap' : List Slab)
    → AreFull (s ∷ heap)
    → (s.page == page) ≡ false
    → Cleared heap page i heap'
    → Cleared (s ∷ heap) page i (s ∷ heap')
unfolding available_at
later_slab_clears s heap page i heap' f e c = record {
  full = (f.0, c.full);
  fewer = omega (arith, c.fewer);
  here = rw e c.here;
  there = λ q j a b. elim (Bool-cases (s.page == q)) [
    | inl h ↦ absurd (
        no_true (
          sym (of_then (s.page == q) (bit s.available j) _ true h a)
          ∙ of_then (s.page == q) (bit s.available j) _ false h b))
    | inr h ↦
        c.there q j (of_else (s.page == q) (bit s.available j) _ true h a)
          (of_else (s.page == q) (bit s.available j) _ false h b)
  ];
  less = λ q j a.
      branches (s.page == q) (bit s.available j) (available_at heap' q j) false
        (λ h. of_then (s.page == q) (bit s.available j) _ false h a)
        (λ h. c.less q j (of_else (s.page == q) (bit s.available j) _ false h a));
}

pub set_available-Cleared :
    (heap : List Slab) (page i : ℕ)
    → AreFull heap
    → available_at heap page i ≡ true
    → Cleared heap page i (set_available heap page i false)
unfolding available_at set_available
set_available-Cleared [] page i f h = absurd (no_true (sym h))
set_available-Cleared (s ∷ heap) page i f h = elim (Bool-cases (s.page == page)) [
  | inl e ↦
      rw (e, ← ==→eq s.page page e)
        (first_slab_clears s heap i f
          (sym (ap (λ b. if b then bit s.available i else available_at heap page i) e) ∙ h))
  | inr e ↦ rw e (
      later_slab_clears s heap page i (set_available heap page i false) f e (
        set_available-Cleared heap page i f.1
          (sym (ap (λ b. if b then bit s.available i else available_at heap page i) e) ∙ h)))
]
