-- ===== src/Kernel/Pages.antt =====
-- kernel/core.c: the allocator of physical pages. A `uint32_t` of a bitmap is the list of its 32
-- bits, the highest first: the mask `0x80000000 >> i` is the bit at index `i`. Page numbers are
-- below 2 ^ 20, so that `page - base` as an `int` is negative exactly where the page is lower.
pub mod Bits
mod Tests
pub mod Alloc
use twcos.Common.{
  ℕ, zero, suc, ◌+◌, ◌-◌, ◌*◌, ◌/◌, ◌%◌, Bool, true, false, ◌&&◌, Option, none, some, List, [], ◌∷◌,
  ◌++◌, ltb, ◌==◌, if◌then◌else◌, length, get_or, set, replicate,
}

abbrev pub Word : Type 0
Word = List Bool

-- `struct kernel_mmap`
pub record Range : Type 0 where
  pub base : ℕ
  pub count : ℕ
  pub free : ℕ
  pub available : List Word

-- The first `mmap_count` entries of `mmap`.
abbrev pub Mmap : Type 0
Mmap = List Range

-- `page_add_range`: a range with no free page. `none` is the write behind the 32 entries of `mmap`,
-- which nothing in the code rules out.
unfoldable pub page_add_range : ℕ → ℕ → Mmap → Option Mmap
page_add_range base count mmap =
    let range : Range = record {
      base = base;
      count = count;
      free = 0;
      available = replicate ((count + 31) / 32) (replicate 32 false);
    } in
    if ltb (length mmap) 32 then some (mmap ++ (range ∷ [])) else none

-- `mmap[i].available[p/32] |= (0x80000000 >> p%32)`
abbrev pub set_bit : List Word → ℕ → Bool → List Word
set_bit words p b = set words (p / 32) (set (get_or words (p / 32) []) (p % 32) b)

-- The loop of `page_free` over the ranges. The page that a range begins with fails `p > 0`.
unfoldable pub page_free : ℕ → Mmap → Mmap
page_free page [] = []
page_free page (r ∷ mmap) =
    let rest = page_free page mmap in
    if ltb r.base page && ltb (page - r.base) r.count
    then record r { available = set_bit r.available (page - r.base) true; free = r.free + 1 } ∷ mmap
    else r ∷ rest

-- `for(; mask; mask >>= 1, p++)`: the first bit that is set, and the word with that bit cleared;
-- `none` for the word 0.
unfoldable pub take_bit : Word → Option (ℕ × Word)
take_bit [] = none
take_bit (true ∷ w) = some (0, false ∷ w)
take_bit (false ∷ w) = elim (take_bit w) [ none ↦ none | some (i, w') ↦ some (suc i, false ∷ w') ]

-- `for(p=0; p<mmap[m].count; p+=32)`, over the words from bit `p` on. A word that is not 0 ends it.
unfoldable pub take_page : (count p : ℕ) → List Word → Option (ℕ × List Word)
unfolding take_bit
take_page count p [] = none
take_page count p (w ∷ words) =
    let rest : Option (ℕ × List Word) = elim (take_page count (p + 32) words) [
      | none ↦ none
      | some (q, words') ↦ some (q, w ∷ words')
    ] in
    if ltb p count
    then elim (take_bit w) [ none ↦ rest | some (i, w') ↦ some (p + i, w' ∷ words) ]
    else none

-- One round of `page_alloc`: the page from this range, if there is one.
unfoldable pub range_alloc : Range → Option (ℕ × Range)
unfolding take_page
range_alloc r =
    let found : Option (ℕ × Range) = elim (take_page r.count 0 r.available) [
      | none ↦ none
      | some (p, words) ↦ some (r.base + p, record r { available = words; free = r.free - 1 })
    ] in
    if ltb 0 r.free then found else none

-- The loop of `page_alloc`, from the last range down to the first.
unfoldable pub alloc_from : Mmap → Option (ℕ × Mmap)
unfolding range_alloc
alloc_from [] = none
alloc_from (r ∷ mmap) = elim (alloc_from mmap) [
  | some (page, mmap') ↦ some (page, r ∷ mmap')
  | none ↦ elim (range_alloc r) [ none ↦ none | some (page, r') ↦ some (page, r' ∷ mmap) ]
]

-- `page_alloc`: 0 if there is no page.
unfoldable pub page_alloc : Mmap → ℕ × Mmap
unfolding alloc_from
page_alloc mmap = elim (alloc_from mmap) [ none ↦ (0, mmap) | some r ↦ r ]
