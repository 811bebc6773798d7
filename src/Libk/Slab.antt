-- ===== src/Libk/Slab.antt =====
-- libk/slab.c: the allocator of small blocks, and its mark and sweep. A slab is a page: its record of
-- seven words, two bit maps and the slots. A bit map is a list of words as in kernel/core.c. The heap
-- is the list of the slabs of all types, type after type; a pointer to a slab is its page.
-- The memory that marking reads is that of the slots, which marking does not change.
pub mod Bounds
pub mod Maps
pub mod Alloc
pub mod Marks
pub mod Collect
pub mod Reached
pub mod Collected
pub mod Sweep
mod Tests
use twcos.Common.{
  ℕ, zero, suc, ◌+◌, ◌-◌, ◌*◌, ◌/◌, ◌%◌, Bool, true, false, ◌&&◌, not, Option, none, some, List, [],
  ◌∷◌, ◌++◌, ltb, leb, ◌==◌, if◌then◌else◌, length, get_or, set, replicate, map, ◌>>=◌,
}
use twcos.Kernel.Pages.{Word, set_bit, take_page}
use twcos.Kernel.Threads.{list_prepend}

-- `slab_type_t`: `mark` gives the pointers that the function of that name marks from an address.
pub record SlabType : Type 0 where
  pub esize : ℕ
  pub count : ℕ
  pub mark : Option (ℕ → List ℕ)
  pub finalized : Bool

-- `slab_t`
pub record Slab : Type 0 where
  pub page : ℕ
  pub type : SlabType
  pub available : List Word
  pub finalize : List Word

abbrev pub page_size : ℕ
page_size = 4096

-- `sizeof(slab_t)`
abbrev pub slab_size : ℕ
slab_size = 28

-- `stype->count` of `slab_new`
unfoldable pub slab_count : ℕ → ℕ
slab_count esize = (8 * (page_size - slab_size) - 64) / (8 * esize + 2)

-- `(slab->type->count+32)/32`, the words of a bit map
abbrev pub map_words : SlabType → ℕ
map_words t = (t.count + 32) / 32

-- `slab->data`
abbrev pub slab_data : ℕ → SlabType → ℕ
slab_data page t = page + slab_size + 4 * map_words t + 4 * map_words t

-- `mask`: all bits, or the highest `left` ones.
abbrev pub mask_word : ℕ → Word
mask_word left =
    if ltb left 32 then replicate left true ++ replicate (32 - left) false else replicate 32 true

-- `for(int i=0; i<count; i+=32)` over the words of a bit map, where `left` is `count-i`. A word that
-- the loop does not reach keeps its bits.
unfoldable pub write_masks : ℕ → List Word → List Word
write_masks left [] = []
write_masks left (w ∷ words) =
    if ltb 0 left then mask_word left ∷ write_masks (left - 32) words else w ∷ words

-- The rest of `slab_new` on a page that `page_heap_alloc` has cleared.
unfoldable pub slab_new : SlabType → ℕ → Slab
unfolding write_masks
slab_new t page = record {
  page = page;
  type = t;
  available = write_masks t.count (replicate (map_words t) (replicate 32 false));
  finalize = replicate (map_words t) (replicate 32 false);
}

-- `while(slab)` of `slab_alloc` over the slabs there are: the page and the slot found first.
unfoldable pub scan_slabs : List Slab → Option (ℕ × ℕ × List Slab)
scan_slabs [] = none
scan_slabs (s ∷ slabs) = elim (take_page s.type.count 0 s.available) [
  | some (slot, words) ↦ some (s.page, slot, record s { available = words } ∷ slabs)
  | none ↦ elim (scan_slabs slabs) [
    | none ↦ none
    | some (page, slot, slabs') ↦ some (page, slot, s ∷ slabs')
  ]
]

-- `slab_alloc`: the slabs of the type, scanned again with a new one for as long as there is no slot.
-- `pages` are those that `page_heap_alloc` gives; `none` is a search that has used them all.
unfoldable pub slab_alloc : SlabType → (pages : List ℕ) → List Slab → Option (ℕ × List Slab)
unfolding scan_slabs slab_new
slab_alloc t [] slabs = elim (scan_slabs slabs) [
  | some (page, slot, slabs') ↦ some (slab_data page t + t.esize * slot, slabs')
  | none ↦ none
]
slab_alloc t (new ∷ pages) slabs = elim (scan_slabs slabs) [
  | some (page, slot, slabs') ↦ some (slab_data page t + t.esize * slot, slabs')
  | none ↦ slab_alloc t pages (list_prepend slabs (slab_new t new))
]

-- `ARCH_PAGE_ALIGN`
abbrev pub page_align : ℕ → ℕ
page_align p = p / page_size * page_size

-- `slab_get`: the slab on whose page the pointer is, if it points behind the bit maps. Pages with no
-- slab fail the test of the magic numbers.
unfoldable pub slab_get : List Slab → ℕ → Option (ℕ × SlabType)
slab_get [] p = none
slab_get (s ∷ heap) p =
    let rest = slab_get heap p in
    if s.page == page_align p
    then (if leb (slab_data s.page s.type) p then some (s.page, s.type) else none)
    else rest

-- `((char*)root - slab->data) / slab->type->esize`
abbrev pub slot_of : ℕ → SlabType → ℕ → ℕ
slot_of page t p = (p - slab_data page t) / t.esize

-- `slab->available[i/32] & mask`, in the slab at `page`
unfoldable pub available_at : List Slab → (page slot : ℕ) → Bool
available_at [] page i = false
available_at (s ∷ heap) page i =
    let rest = available_at heap page i in
    if s.page == page then get_or (get_or s.available (i / 32) []) (i % 32) false else rest

-- `slab->available[i/32] &= ~mask`, or `|= mask`
unfoldable pub set_available : List Slab → (page slot : ℕ) → Bool → List Slab
set_available [] page i b = []
set_available (s ∷ heap) page i b =
    let rest = set_available heap page i b in
    if s.page == page then record s { available = set_bit s.available i b } ∷ heap else s ∷ rest

-- `slab_free`: the heap, and the pointers that are finalized.
unfoldable pub slab_free : List Slab → ℕ → List ℕ × List Slab
unfolding slab_get set_available
slab_free heap p = elim (slab_get heap p) [
  | none ↦ ([], heap)
  | some (page, t) ↦
      (if t.finalized then p ∷ [] else [], set_available heap page (slot_of page t p) true)
]

-- `slab->finalize[i/32] = slab->available[i/32]` of that loop
unfoldable pub copy_words : ℕ → List Word → List Word → List Word
copy_words left [] words = []
copy_words left (w ∷ old) [] = w ∷ old
copy_words left (w ∷ old) (v ∷ words) =
    if ltb 0 left then v ∷ copy_words (left - 32) old words else w ∷ old

-- `slab_mark_available_all`
unfoldable pub slab_mark_available_all : Slab → Slab
unfolding write_masks copy_words
slab_mark_available_all s = record s {
  finalize = copy_words s.type.count s.finalize s.available;
  available = write_masks s.type.count s.available;
}

unfoldable pub slab_gc_begin : List Slab → List Slab
unfolding slab_mark_available_all
slab_gc_begin heap = map (λ s. slab_mark_available_all s) heap

-- The words of a block from an address on: `*p` for `n` values of `p`.
unfoldable pub words_at : (ℕ → ℕ) → (from n : ℕ) → List ℕ
words_at memory from zero = []
words_at memory from (suc n) = memory from ∷ words_at memory (from + 4) n

-- The pointers that are marked from a block, by its type or all its words.
unfoldable pub pointers : (ℕ → ℕ) → SlabType → ℕ → List ℕ
unfolding words_at
pointers memory t root = elim t.mark [
  | some marks ↦ marks root
  | none ↦ words_at memory root (t.esize / 4)
]

-- One call of `slab_gc_mark` after the other.
unfoldable pub mark_each :
    (List Slab → ℕ → Option (List Slab)) → List Slab → List ℕ → Option (List Slab)
mark_each mark heap [] = some heap
mark_each mark heap (p ∷ ps) = mark heap p >>= (λ heap'. mark_each mark heap' ps)

-- `slab_gc_mark`, with fuel.
unfoldable pub slab_gc_mark : ℕ → (ℕ → ℕ) → List Slab → ℕ → Option (List Slab)
unfolding slab_get available_at set_available pointers mark_each
slab_gc_mark zero memory heap root = none
slab_gc_mark (suc f) memory heap root = elim (slab_get heap root) [
  | none ↦ some heap
  | some (page, t) ↦
      let i = slot_of page t root in
      let marked =
        mark_each (slab_gc_mark f memory) (set_available heap page i false)
          (pointers memory t root) in
      elim (available_at heap page i) [ true ↦ marked | false ↦ some heap ]
]

-- `slab_gc_mark_block`, and `slab_gc_mark_range` with the number of words between its ends.
unfoldable pub slab_gc_mark_block : ℕ → (ℕ → ℕ) → List Slab → (block n : ℕ) → Option (List Slab)
unfolding mark_each slab_gc_mark words_at
slab_gc_mark_block f memory heap block n =
    mark_each (slab_gc_mark f memory) heap (words_at memory block n)

-- The element sizes of `pools`.
abbrev pub pools : List ℕ
pools =
    8
    ∷ 12
    ∷ 16
    ∷ 24
    ∷ 32
    ∷ 48
    ∷ 64
    ∷ 96
    ∷ 128
    ∷ 196
    ∷ 256
    ∷ 384
    ∷ 512
    ∷ 768
    ∷ 1024
    ∷ 1536
    ∷ ((page_size - 2 * 4) / 2)
    ∷ (page_size - 2 * 4)
    ∷ []

-- The loop of `malloc`: the element size of the pool that it allocates from, `none` for the exception
-- AllocationTooBigException.
unfoldable pub pool_for : List ℕ → ℕ → Option ℕ
pool_for [] size = none
pool_for (esize ∷ sizes) size =
    let next = pool_for sizes size in if ltb size esize then some esize else next
