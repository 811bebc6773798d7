-- ===== src/Kernel/Pages/Alloc.antt =====
-- A range of kernel/core.c hands out each of its free pages once.
use twcos.Common.{
  ℕ, ◌+◌, ◌-◌, ◌*◌, ◌/◌, ◌≤◌, ◌<◌, ◌≡◌, ◌≢◌, refl, ap, ◌∙◌, Bool, true, false, Option, none, some,
  List, ◌∷◌, arith, ltb, length, Bool-cases, inl, inr, lt→ltb, le→ltb,
}
use native.Mathlib.Decide.{dec_lt}
use twcos.Kernel.Pages.{Word, Range, Mmap, set_bit, page_free, take_page, range_alloc}
use twcos.Kernel.Pages.Bits.{
  bit, ones_of, ones, IsFull, set_bit-Written, Scanned, take_page-Scanned,
}

-- One bit for each page, none set behind the last page, and `free` counts the bits that are set.
pub record IsValid (r : Range) : Type 0 where
  pub full : IsFull r.available
  pub size : length r.available ≡ (r.count + 31) / 32
  pub counted : r.free ≡ ones r.available
  pub clear : (p : ℕ) → r.count ≤ p → bit r.available p ≡ false

-- Page `base + p` of the range is free.
abbrev pub is_free : Range → ℕ → Bool
is_free r p = bit r.available p

-- The bit of one page changes, and the number of free pages with it.
pub record Changed (r : Range) (p : ℕ) (b : Bool) (r' : Range) : Type 0 where
  pub base_kept : r'.base ≡ r.base
  pub count_kept : r'.count ≡ r.count
  pub valid : IsValid r'
  pub here : is_free r' p ≡ b
  pub there : (q : ℕ) → q ≢ p → is_free r' q ≡ is_free r q

changed :
    (r : Range) (p free' : ℕ) (b : Bool)
    → IsValid r
    → p < r.count
    → free' + ones_of (is_free r p) ≡ r.free + ones_of b
    → Changed r p b (record r { available = set_bit r.available p b; free = free' })
changed r p free' b v lt e =
    let w = set_bit-Written r.available p b v.full (omega (arith, v.size)) in
    record {
      base_kept = refl;
      count_kept = refl;
      valid = record {
        full = w.full;
        size = w.size ∙ v.size;
        counted = omega (arith, w.total, v.counted);
        clear = λ q h. w.there q (omega arith) ∙ v.clear q h;
      };
      here = w.here;
      there = w.there;
    }

free-lt-count : (r : Range) (p : ℕ) → IsValid r → is_free r p ≡ true → p < r.count
free-lt-count r p v was = elim (dec_lt p r.count) [
  | yes h ↦ h
  | no h ↦ cc (v.clear p (omega arith))
]

-- What an allocation from a range returns: nothing if no page is free; otherwise a page of the
-- range that was free and no longer is, while no other page changes.
abbrev pub Allocated : Range → Option (ℕ × Range) → Type 0
Allocated r none = r.free ≡ 0
Allocated r (some (page, r')) =
    (p : ℕ) × (page ≡ r.base + p)
    × (p < r.count)
    × (is_free r p ≡ true)
    × Changed r p false r'
    × (r'.free + 1 ≡ r.free)

-- One round of `page_alloc` on a valid range finds a free page of it unless no page is free; the
-- page is then no longer free, no other page changes, and the range stays valid.
pub range_alloc-Allocated : (r : Range) → IsValid r → Allocated r (range_alloc r)
unfolding range_alloc
range_alloc-Allocated r v = elim (Bool-cases (ltb 0 r.free)) [
  | inr empty ↦ rw (empty, range_alloc) (ground arith)
  | inl some_free ↦
      rw (some_free, range_alloc)
        (scanned (take_page r.count 0 r.available)
          (take_page-Scanned r.count 0 r.available v.full (λ i h. v.clear i (omega arith))))
]
  where
    scanned :
        (o : Option (ℕ × List Word))
        → Scanned r.count 0 r.available o
        → Allocated r (elim o [
          | none ↦ none
          | some (p, words) ↦ some (r.base + p, record r { available = words; free = r.free - 1 })
        ])
    scanned none h = v.counted ∙ h
    scanned (some (q, words)) (i, at, inside, was, now) =
        let within : i < r.count = free-lt-count r i v was in
        let positive : 0 < r.free = free_pos i was inside in
        rw (now, at)
          (
            i,
            omega arith,
            within,
            was,
            changed r i (r.free - 1) false v within (rw was (omega arith)),
            omega arith,
          )
      where
        free_pos : (i : ℕ) → bit r.available i ≡ true → i < 32 * length r.available → 0 < r.free
        free_pos i was inside = omega (
          arith,
          v.counted,
          (set_bit-Written r.available i false v.full inside).total,
          ap ones_of was,
        )

-- `page_free` of a page of a valid range that is not free, and is not the one that the range begins
-- with, makes that page free, and no other; the range stays valid.
pub page_free-Changed :
    (page : ℕ) (r : Range) (mmap : Mmap)
    → IsValid r
    → r.base < page
    → page - r.base < r.count
    → is_free r (page - r.base) ≡ false
    → (r' : Range) × (page_free page (r ∷ mmap) ≡ r' ∷ mmap)
      × Changed r (page - r.base) true r'
      × (r'.free ≡ r.free + 1)
unfolding page_free
page_free-Changed page r mmap v above inside taken = (
  record r { available = set_bit r.available (page - r.base) true; free = r.free + 1 },
  rw (lt→ltb _ _ above, lt→ltb _ _ inside),
  changed r (page - r.base) (r.free + 1) true v inside (rw taken (omega arith)),
  refl,
)

-- `page_free` of the page that a range begins with leaves that range as it is: the page can never
-- be handed out.
pub page_free-base :
    (r : Range) (mmap : Mmap) → page_free r.base (r ∷ mmap) ≡ r ∷ page_free r.base mmap
unfolding page_free
page_free-base r mmap = rw (le→ltb r.base r.base (omega arith))
