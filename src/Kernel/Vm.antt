-- ===== src/Kernel/Vm.antt =====
-- kernel/vm.c: objects, segments and page faults. Pointers are numbers, 0 for NULL; the store gives
-- what each points to. The map of pages of an object, a vector of libk/vector.c in the program, is a
-- kind of map (libk/map.c) and a parameter; `vmpages` is a function of the page, with what the calls
-- of its vector do outside of the tables (Noting). The address spaces are trees (libk/tree.c), and a
-- page fault ends in the page tables of arch/i386/vmap.c. The locks of the maps are left out.
pub mod Rmap
pub mod Noting
pub mod Segments
pub mod Mappings
pub mod Kas
pub mod Objects
pub mod Faults
pub mod Traps
mod Tests
use twcos.Common.{
  ℕ, zero, suc, ◌+◌, ◌-◌, ◌*◌, ◌/◌, ◌%◌, ◌^◌, Bool, true, false, ◌&&◌, Option, none, some, List, [],
  ◌∷◌, ltb, ◌==◌, if◌then◌else◌,
}
use twcos.Libk.Tree.Ops.{TreeMap, map_le, tree_get}
use twcos.Libk.Map.{MapOps, map_get, map_put, map_walk}
use twcos.Arch.Vmap
use twcos.Arch.Vmap.{Vmap, alloc, vmap_get_page, vmap_map}

-- `struct vmobject_t`, with the functions of `ops` as the case.
pub data VmObject (Pages : Type 0) : Type 0 where
  direct : (base size : ℕ) → VmObject Pages
  anon : (pages : Pages) (clean : ℕ) → VmObject Pages
  vnode : ℕ → VmObject Pages

-- `perms`, a flag each: SEGMENT_W, SEGMENT_U and SEGMENT_P. SEGMENT_R and SEGMENT_X are not used.
pub record Perms : Type 0 where
  pub w : Bool
  pub u : Bool
  pub p : Bool

-- `struct segment_t`
pub record Segment : Type 0 where
  pub base : ℕ
  pub size : ℕ
  pub perms : Perms
  pub dirty : ℕ
  pub read_offset : ℕ
  pub clean : ℕ

-- A mapping of a physical page, and `vmpage_t`.
pub record Mapping : Type 0 where
  pub as' : ℕ
  pub address : ℕ

pub record VmPage : Type 0 where
  pub flags : ℕ
  pub age : ℕ
  pub maps : List Mapping

-- The objects and segments, the address that the next of each gets, the address spaces, the kernel's
-- one and the one of the current process (0 for none), `vmpages` by page with the level of the top
-- table of its vector, and the page tables.
pub record Vm (Pages : Type 0) : Type 0 where
  pub objects : ℕ → Option (VmObject Pages)
  pub next_object : ℕ
  pub segments : ℕ → Option Segment
  pub next_segment : ℕ
  pub spaces : ℕ → TreeMap
  pub kas : ℕ
  pub process_as : ℕ
  pub vmpages : ℕ → Option VmPage
  pub level : ℕ
  pub vmap : Vmap

-- What stops a call: vm_invalid_pointer panics, a call through NULL or through a number that is not
-- the address of a map, IntValueException, an access outside the tables of a vector, and what the
-- page tables do not return from.
pub data Stop : Type 0 where
  invalid_pointer : ℕ → Stop
  null_pointer : Stop
  wild_pointer : ℕ → Stop
  int_value : Stop
  outside : Stop
  endless : Stop

pub data Result {ℓ} (A : Type ℓ) : Type ℓ where
  ok : A → Result A
  stop : Stop → Result A

abbrev pub M : Type 0 → Type 0 → Type 0
M Pages A = Vm Pages → Result (A × Vm Pages)

infixl 5 ◌>>=◌ ◌>>◌
abbrev pub ◌>>=◌ : {Pages A B : Type 0} → M Pages A → (A → M Pages B) → M Pages B
◌>>=◌ m f s = elim (m s) [ ok (a, s') ↦ f a s' | stop e ↦ stop e ]

abbrev pub ◌>>◌ : {Pages B : Type 0} → M Pages (Unit {0}) → M Pages B → M Pages B
m >> k = m >>= λ _. k

abbrev pub pure : {Pages A : Type 0} → A → M Pages A
pure a s = ok (a, s)

-- A call of arch/i386/vmap.c or of page_alloc.
unfoldable pub in_vmap : {Pages A : Type 0} → Vmap.M A → M Pages A
in_vmap m s = elim (m s.vmap) [ none ↦ stop endless | some (a, v) ↦ ok (a, record s { vmap = v }) ]

-- A store with a new value at an address.
abbrev pub store_at {ℓ} : {A : Type ℓ} → (ℕ → A) → ℕ → A → ℕ → A
store_at f p x q = if q == p then x else f q

module _ {Pages : Type 0} (page_ops : MapOps Pages) where
  -- The page that an object has noted, and noting one.
  unfoldable pub noted_page : Pages → ℕ → ℕ
  noted_page pages offset = (map_get page_ops pages (offset / 4096)).0

  unfoldable pub note_page : (o offset page : ℕ) → M Pages (Unit {0})
  note_page o offset page s = elim (s.objects o) [
    | some (anon pages clean) ↦ ok (
      tt,
      record s {
        objects =
            store_at s.objects o
              (some (anon (map_put page_ops pages (offset / 4096) page).1 clean));
      },
    )
    | _ ↦ stop null_pointer
  ]

  -- The end of `vm_anon_get_page`: a page of its own.
  unfoldable pub fresh_page : (o offset : ℕ) → M Pages ℕ
  fresh_page o offset = do new ← in_vmap alloc; note_page o offset new; pure new

-- `vnode_get_page` of kernel/vfs.c, for a vnode and an offset, is a parameter.
module _ {Pages : Type 0} (page_ops : MapOps Pages) (vnode_get_page : ℕ → ℕ → M Pages ℕ) where
  -- `object->ops->get_page(object, offset)`. An object is newer than its clean object, so that the
  -- number of objects bounds the calls.
  unfoldable pub get_page : (fuel o offset : ℕ) → M Pages ℕ
  get_page zero o offset s = stop endless
  get_page (suc fuel) o offset s = elim (s.objects o) [
    | none ↦ stop null_pointer
    | some (direct base size) ↦ ok (if ltb offset size then base + offset / 4096 else 0, s)
    | some (vnode v) ↦ vnode_get_page v offset s
    | some (anon pages clean) ↦
        let noted = noted_page page_ops pages offset in
        let below = get_page fuel clean offset in
        (do
          page ← if noted == 0 && ltb 0 clean then below else pure noted
          if page == 0 then fresh_page page_ops o offset else pure page)
          s
  ]
