-- ===== src/Kernel/Vm/Rmap.antt =====
-- kernel/vm.c: where each physical page is mapped. The lock `vmpages_lock` makes each call one step.
-- `realloc` keeps the old part; the flags and the age of a new `vmpage_t` are what its memory holds,
-- a parameter.
use twcos.Common.{
  ℕ, ◌-◌, ◌/◌, ◌^◌, Bool, true, false, ◌&&◌, not, Option, none, some, List, [], ◌∷◌, ◌++◌, ◌==◌,
  if◌then◌else◌,
}
use Prim.Native.Nat.{bit_and, bit_or, bit_xor}
use twcos.Arch.Vmap
use twcos.Arch.Vmap.{Vmap, vmap_ismapped, vmap_unmap}
use twcos.Kernel.Vm.{Mapping, VmPage, store_at}

abbrev pub VmPages : Type 0
VmPages = ℕ → Option VmPage

abbrev pub same_mapping : Mapping → Mapping → Bool
same_mapping m n = m.as' == n.as' && m.address == n.address

-- The loop that looks for a mapping.
unfoldable pub has_mapping : Mapping → List Mapping → Bool
has_mapping m [] = false
has_mapping m (n ∷ maps) = let rest = has_mapping m maps in if same_mapping n m then true else rest

-- `vm_vmpage_map`, where `junk` is what new memory holds.
unfoldable pub vm_vmpage_map : VmPage → VmPages → (page as' p : ℕ) → VmPages
unfolding has_mapping
vm_vmpage_map junk vmpages page as' p =
    let m : Mapping = record { as' = as'; address = p } in
    elim (vmpages page) [
      | none ↦ store_at vmpages page (some (record junk { maps = m ∷ [] }))
      | some v ↦
          if has_mapping m v.maps
          then vmpages
          else store_at vmpages page (some (record v { maps = v.maps ++ (m ∷ []) }))
    ]

-- `maps[count-1]`, and `maps` without it.
abbrev pub last_or : Mapping → List Mapping → Mapping
last_or m [] = m
last_or m (n ∷ maps) = last_or n maps

abbrev pub but_last : List Mapping → List Mapping
but_last [] = []
but_last (m ∷ []) = []
but_last (m ∷ n ∷ maps) = m ∷ but_last (n ∷ maps)

-- The loop of `vm_vmpage_unmap`: the last mapping takes the place of the one found.
unfoldable pub remove_mapping : Mapping → List Mapping → List Mapping
remove_mapping m [] = []
remove_mapping m (n ∷ maps) =
    let rest = n ∷ remove_mapping m maps in
    let filled : List Mapping = elim maps [
      | [] ↦ []
      | k ∷ maps' ↦ last_or k maps' ∷ but_last (k ∷ maps')
    ] in
    if same_mapping n m then filled else rest

unfoldable pub vm_vmpage_unmap : VmPages → (page as' p : ℕ) → VmPages
unfolding remove_mapping
vm_vmpage_unmap vmpages page as' p = elim (vmpages page) [
  | none ↦ vmpages
  | some v ↦
      store_at vmpages page
        (some (record v { maps = remove_mapping (record { as' = as'; address = p }) v.maps }))
]

unfoldable pub vm_vmpage_setflags : VmPages → (page flags : ℕ) → VmPages
vm_vmpage_setflags vmpages page flags = elim (vmpages page) [
  | none ↦ vmpages
  | some v ↦ store_at vmpages page (some (record v { flags = bit_or v.flags flags }))
]

-- `flags &= ~flags` on 32 bits
unfoldable pub vm_vmpage_resetflags : VmPages → (page flags : ℕ) → VmPages
vm_vmpage_resetflags vmpages page flags = elim (vmpages page) [
  | none ↦ vmpages
  | some v ↦
      store_at vmpages page
        (some (record v { flags = bit_and v.flags (bit_xor (2 ^ 32 - 1) flags) }))
]

-- A round of `vm_vmpage_trapwrites` and `vm_vmpage_trapaccess`: a mapping that is present is removed
-- from the page tables.
unfoldable pub unmap_one : Mapping → Vmap.M (Unit {0})
unmap_one m s = elim (vmap_ismapped m.as' m.address s) [
  | none ↦ none
  | some (mapped, s1) ↦ (if mapped == 0 then Vmap.pure tt else vmap_unmap m.as' m.address) s1
]

unfoldable pub unmap_each : List Mapping → Vmap.M (Unit {0})
unmap_each [] s = some (tt, s)
unmap_each (m ∷ maps) s = elim (unmap_one m s) [ none ↦ none | some (_, s') ↦ unmap_each maps s' ]

unfoldable pub vm_vmpage_trapwrites : VmPages → (page : ℕ) → Vmap.M (Unit {0})
vm_vmpage_trapwrites vmpages page = elim (vmpages page) [
  | none ↦ Vmap.pure tt
  | some v ↦ unmap_each v.maps
]

unfoldable pub vm_vmpage_trapaccess : VmPages → (page : ℕ) → Vmap.M (Unit {0})
vm_vmpage_trapaccess vmpages page = elim (vmpages page) [
  | none ↦ Vmap.pure tt
  | some v ↦ unmap_each v.maps
]

-- `flags & VMPAGE_ACCESSED`
abbrev pub accessed : VmPage → Bool
accessed v = not (bit_and v.flags 2 == 0)

-- `vm_vmpage_age`, for an age that is not negative.
unfoldable pub vm_vmpage_age : VmPages → (page : ℕ) → VmPages
vm_vmpage_age vmpages page = elim (vmpages page) [
  | none ↦ vmpages
  | some v ↦ store_at vmpages page (
      some (record v {
        age =
            if v.age == 0
            then (if accessed v then 4 else 0)
            else (if accessed v then bit_or (v.age / 2) 0x100 else v.age / 2);
      }))
]
