-- ===== src/Arch/Vmap.antt =====
-- arch/i386/vmap.c: page tables. The eight page directories `pgdirs` are seen through the page
-- tables themselves: the array `pgtbls` stands at 0xfe000000, and each access to it goes through
-- the directory in use, as the processor resolves every address. A pointer into `pgtbls` is its
-- index there. An operation may not return: `none` is a page fault in the page tables, which
-- `vmap_fault` does not resolve, the undefined `lowi` and the overflow of `seq`, and the end of
-- the fuel. `invlpg` changes nothing in memory.
mod Asids
mod Entries
pub mod Tables
mod Missing
mod Directories
pub mod Mapping
pub mod Spaces
pub mod Init
pub mod Examples
mod Tests
use twcos.Common.{
  ℕ, zero, suc, ◌+◌, ◌-◌, ◌*◌, ◌/◌, ◌%◌, ◌^◌, Bool, true, false, ◌&&◌, Option, none, some, List, [],
  ◌∷◌, ltb, ◌==◌, if◌then◌else◌, get_or, set,
}
use twcos.Kernel.Pages.{Mmap, page_alloc}

-- A slot of `asids`.
pub record Asid : Type 0 where
  pub vid : ℕ
  pub seq : ℕ

-- The slots, the static `seq`, the words of each physical page, the page of the directory in use,
-- the page of `pgdirs[0]`, and the state of the page allocator.
pub record Vmap : Type 0 where
  pub asids : List Asid
  pub seq : ℕ
  pub memory : ℕ → ℕ → ℕ
  pub dir : ℕ
  pub pgdirs : ℕ
  pub mmap : Mmap

abbrev pub M : Type 0 → Type 0
M A = Vmap → Option (A × Vmap)

infixl 5 ◌>>=◌ ◌>>◌
abbrev pub ◌>>=◌ : {A B : Type 0} → M A → (A → M B) → M B
◌>>=◌ m f s = elim (m s) [ none ↦ none | some (a, s') ↦ f a s' ]

abbrev pub ◌>>◌ : {B : Type 0} → M (Unit {0}) → M B → M B
m >> k = m >>= λ _. k

abbrev pub pure : {A : Type 0} → A → M A
pure a s = some (a, s)

abbrev pub int32_max : ℕ
int32_max = 2 ^ 31 - 1

-- The first loop of `vmap_get_pgtable`.
unfoldable pub find_vid : ℕ → List Asid → Option ℕ
find_vid vid [] = none
find_vid vid (a ∷ asids) =
    let rest : Option ℕ = elim (find_vid vid asids) [ none ↦ none | some i ↦ some (suc i) ] in
    if vid == a.vid then some 0 else rest

-- The second loop, at slot `i`: the slot of the lowest `seq`, if one is below `lowseq`.
unfoldable pub lowest : List Asid → (i lowseq : ℕ) → Option ℕ → Option ℕ
lowest [] i lowseq lowi = lowi
lowest (a ∷ asids) i lowseq lowi =
    lowest asids (i + 1) (if ltb a.seq lowseq then a.seq else lowseq)
      (if ltb a.seq lowseq then some i else lowi)

no_asid : Asid
no_asid = record { vid = 0; seq = 0 }

-- A hit.
unfoldable pub use_asid : ℕ → M ℕ
unfolding no_asid
use_asid i s =
    some (i, record s { asids = set s.asids i (record (get_or s.asids i no_asid) { seq = s.seq }) })

-- A miss.
unfoldable pub new_asid : ℕ → M ℕ
unfolding lowest
new_asid vid s = elim (lowest s.asids 0 int32_max none) [
  | none ↦ none
  | some i ↦
      if ltb s.seq int32_max
      then some (
        i,
        record s { asids = set s.asids i (record { vid = vid; seq = s.seq + 1 }); seq = s.seq + 1 },
      )
      else none
]

-- `vmap_get_pgtable`: the slot whose table the pointer is to.
unfoldable pub vmap_get_pgtable : ℕ → M ℕ
unfolding find_vid use_asid new_asid
vmap_get_pgtable vid s =
    if vid == 0
    then some (0, s)
    else elim (find_vid vid s.asids) [ none ↦ new_asid vid s | some i ↦ use_asid i s ]

-- The physical page of a virtual page, through the directory in use.
unfoldable pub translate : Vmap → ℕ → Option ℕ
translate s v =
    let pde = s.memory s.dir (v / 1024) in
    let pte = s.memory (pde / 4096) (v % 1024) in
    if pde % 2 == 1 && pte % 2 == 1 then some (pte / 4096) else none

-- The address of `pgtbls[n]`.
abbrev pub pgtbls : ℕ → ℕ
pgtbls n = 0xfe00_0000 + 4 * n

abbrev pub write : (ℕ → ℕ → ℕ) → (page i x : ℕ) → ℕ → ℕ → ℕ
write memory page i x p k = if p == page && k == i then x else memory p k

-- `pgtbls[n]`
unfoldable pub load : ℕ → M ℕ
unfolding translate
load n s = elim (translate s (pgtbls n / 4096)) [
  | none ↦ none
  | some page ↦ some (s.memory page (n % 1024), s)
]

-- `pgtbls[n] = x`
unfoldable pub store : ℕ → ℕ → M (Unit {0})
unfolding translate
store n x s = elim (translate s (pgtbls n / 4096)) [
  | none ↦ none
  | some page ↦ some (tt, record s { memory = write s.memory page (n % 1024) x })
]

-- `pgtbls+ARCH_PAGE_TABLE_SIZE*i`
abbrev pub table : ℕ → ℕ → ℕ
table i vpage = 2 ^ 20 * i + vpage

unfoldable pub vmap_get_pgdir : ℕ → M ℕ
vmap_get_pgdir vid = do
  i ← vmap_get_pgtable vid
  pure (if vid == 0 then table i (2 ^ 20 - 8) else table i (2 ^ 20 - 8 + i))

-- `vmap_set_asid`; `set_page_dir` loads the register of the directory in use.
unfoldable pub vmap_set_asid : ℕ → M (Unit {0})
vmap_set_asid vid = do
  pgdir ← vmap_get_pgdir vid
  entry ← load pgdir
  λ s. some (tt, record s { dir = entry / 4096 })

unfoldable pub vmap_get_page : ℕ → ℕ → M ℕ
vmap_get_page vid vaddress = do
  i ← vmap_get_pgtable vid
  pte ← load (table i (vaddress / 4096))
  pure (if pte % 2 == 1 then pte / 4096 else 0)

unfoldable pub vmap_get_pte : ℕ → ℕ → M ℕ
vmap_get_pte vid vaddress = do
  i ← vmap_get_pgtable vid
  page ← vmap_get_page vid (pgtbls (vaddress / 4096))
  if page == 0 then pure 0 else load (table i (vaddress / 4096))

-- The entry that `vmap_map` makes; a `uint32_t`.
abbrev pub bits : ℕ → Bool → Bool → ℕ
bits page rw user = page * 4096 % 2 ^ 32 + 1 + (if rw then 2 else 0) + (if user then 4 else 0)

-- The loop of `vmap_set_pte` over the address spaces, from space `i` on: the new page becomes the
-- page table in each. `set_pte` is `vmap_set_pte` for the kernel's space.
unfoldable pub map_tables : (ℕ → ℕ → M (Unit {0})) → (n i vpage page : ℕ) → M (Unit {0})
map_tables set_pte zero i vpage page = pure tt
map_tables set_pte (suc n) i vpage page = do
  set_pte (pgtbls (table i vpage)) (bits page true false)
  map_tables set_pte n (i + 1) vpage page

-- `page_alloc` of kernel/core.c
unfoldable pub alloc : M ℕ
alloc s = some ((page_alloc s.mmap).0, record s { mmap = (page_alloc s.mmap).1 })

-- The page table that is missing.
unfoldable pub add_table : (ℕ → ℕ → M (Unit {0})) → ℕ → M (Unit {0})
add_table set_pte vpage = do page ← alloc; map_tables set_pte 8 0 vpage page

-- `vmap_set_pte` and `vmap_map` call each other, here to the depth of the fuel.
unfoldable pub vmap_set_pte : (fuel vid vaddress pte : ℕ) → M (Unit {0})
vmap_set_pte zero vid vaddress pte s = none
vmap_set_pte (suc fuel) vid vaddress pte s =
    (do
      i ← vmap_get_pgtable vid
      page ← vmap_get_page vid (pgtbls (vaddress / 4096))
      if page == 0 then add_table (vmap_set_pte fuel 0) (vaddress / 4096) else pure tt
      store (table i (vaddress / 4096)) pte)
      s

-- The page tables' own page tables are never missing, so that one call within the other is enough.
abbrev pub depth : ℕ
depth = 2

unfoldable pub vmap_map : (vid vaddress page : ℕ) (rw user : Bool) → M (Unit {0})
vmap_map vid vaddress page rw user = vmap_set_pte depth vid vaddress (bits page rw user)

-- The loop of `vmap_mapn`, `n` rounds from page `page` on; addresses wrap.
unfoldable pub vmap_mapn : (vid n vaddress page : ℕ) (rw user : Bool) → M (Unit {0})
vmap_mapn vid zero vaddress page rw user = pure tt
vmap_mapn vid (suc n) vaddress page rw user = do
  vmap_map vid vaddress page rw user
  vmap_mapn vid n ((vaddress + 4096) % 2 ^ 32) (page + 1) rw user

unfoldable pub vmap_ismapped : ℕ → ℕ → M ℕ
vmap_ismapped vid vaddress = do pte ← vmap_get_pte vid vaddress; pure (pte % 2)

unfoldable pub vmap_iswriteable : ℕ → ℕ → M ℕ
vmap_iswriteable vid vaddress = do pte ← vmap_get_pte vid vaddress; pure (pte / 2 % 2 * 2)

unfoldable pub vmap_isuser : ℕ → ℕ → M ℕ
vmap_isuser vid vaddress = do pte ← vmap_get_pte vid vaddress; pure (pte / 4 % 2 * 4)

unfoldable pub vmap_unmap : ℕ → ℕ → M (Unit {0})
vmap_unmap vid vaddress = vmap_set_pte depth vid vaddress 0
