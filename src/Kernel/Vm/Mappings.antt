-- ===== src/Kernel/Vm/Mappings.antt =====
-- kernel/vm.c keeps, for each physical page, a set of mappings.
use twcos.Common.{
  ℕ, ◌+◌, ◌≤◌, ◌≡◌, refl, true, false, ◌&&◌, none, some, List, [], ◌∷◌, ◌++◌, arith, ◌==◌,
  if◌then◌else◌, Bool-cases, Option-cases, inl, inr, ==→eq,
}
use twcos.Kernel.Vm.{Mapping, VmPage}
use twcos.Kernel.Vm.Rmap.{
  VmPages, same_mapping, has_mapping, last_or, but_last, remove_mapping, vm_vmpage_map,
  vm_vmpage_setflags, vm_vmpage_unmap,
}

-- How often a mapping is listed.
pub count : Mapping → List Mapping → ℕ
count m [] = 0
count m (n ∷ maps) = (if same_mapping n m then 1 else 0) + count m maps

-- How often the mapping of a page is noted.
pub noted : VmPages → ℕ → Mapping → ℕ
noted vmpages page m = elim (vmpages page) [ none ↦ 0 | some v ↦ count m v.maps ]

-- No page has a mapping twice.
abbrev pub IsSetOfMaps : VmPages → Type 0
IsSetOfMaps vmpages = (page : ℕ) (m : Mapping) → noted vmpages page m ≤ 1

count-last :
    (k m : Mapping) (maps : List Mapping)
    → count k (last_or m maps ∷ but_last (m ∷ maps)) ≡ count k (m ∷ maps)
unfolding count
count-last k m [] = refl
count-last k m (n ∷ maps) = omega (arith, count-last k n maps)

has_mapping-count :
    (m : Mapping) (maps : List Mapping)
    → has_mapping m maps ≡ (if count m maps == 0 then false else true)
unfolding has_mapping count
has_mapping-count m [] = refl
has_mapping-count m (n ∷ maps) = ground (arith, has_mapping-count m maps)

count-remove_mapping :
    (k m : Mapping) (maps : List Mapping)
    → count k (remove_mapping m maps) + (if same_mapping m k && has_mapping m maps then 1 else 0)
      ≡ count k maps
unfolding remove_mapping count has_mapping
count-remove_mapping k m [] = ground arith
count-remove_mapping k m (n ∷ []) = ground arith
count-remove_mapping k m (n ∷ o ∷ maps) =
    ground (arith, count-last k o maps, count-remove_mapping k m (o ∷ maps))

count-append :
    (k m : Mapping) (maps : List Mapping)
    → count k (maps ++ m ∷ []) ≡ count k maps + (if same_mapping m k then 1 else 0)
unfolding count
count-append k m [] = omega arith
count-append k m (n ∷ maps) = omega (arith, count-append k m maps)

count-same :
    (k m : Mapping) (maps : List Mapping) → same_mapping m k ≡ true → count k maps ≡ count m maps
unfolding count
count-same k m [] h = refl
count-same k m (n ∷ maps) h = ground (arith, count-same k m maps h)

abbrev pub mapping : ℕ → ℕ → Mapping
mapping as' p = record { as' = as'; address = p }

module _ (vmpages : VmPages) (page as' p : ℕ) (w : IsSetOfMaps vmpages) (q : ℕ) (k : Mapping) where
  here_once : (v : VmPage) → vmpages page ≡ some v → (m : Mapping) → count m v.maps ≤ 1
  unfolding noted
  here_once v e m = rw (noted, e) at (w page m)

  -- `vm_vmpage_map` adds its mapping to the set of its page, once, and no other anywhere.
  pub noted-vm_vmpage_map :
      (junk : VmPage)
      → noted (vm_vmpage_map junk vmpages page as' p) q k
        ≡ (if q == page && same_mapping (mapping as' p) k then 1 else noted vmpages q k)
  unfolding noted vm_vmpage_map
  noted-vm_vmpage_map junk = elim (Option-cases (vmpages page)) [
    | inl absent ↦ elim (Bool-cases (q == page)) [
      | inr other ↦ rw (vm_vmpage_map, absent, noted, other)
      | inl same ↦
          rw (vm_vmpage_map, absent, same, ==→eq q page same, noted, absent)
            (unfold count in ground arith)
    ]
    | inr (v, present) ↦ elim (Bool-cases (q == page)) [
      | inr other ↦ elim (Bool-cases (has_mapping (mapping as' p) v.maps)) [
        | inl old ↦ rw (vm_vmpage_map, present, old, noted, other)
        | inr new ↦ rw (vm_vmpage_map, present, new, noted, other)
      ]
      | inl same ↦ elim (Bool-cases (has_mapping (mapping as' p) v.maps)) [
        | inl old ↦
            rw (vm_vmpage_map, present, old, same, ==→eq q page same, noted, present)
              (ground (
                arith,
                old,
                has_mapping-count (mapping as' p) v.maps,
                count-same k (mapping as' p) v.maps,
                here_once v present k,
              ))
        | inr new ↦
            rw (vm_vmpage_map, present, new, same, ==→eq q page same, noted, present)
              (ground (
                arith,
                new,
                has_mapping-count (mapping as' p) v.maps,
                count-same k (mapping as' p) v.maps,
                count-append k (mapping as' p) v.maps,
              ))
      ]
    ]
  ]

  -- `vm_vmpage_unmap` takes its mapping out of the set of its page, and no other anywhere.
  pub noted-vm_vmpage_unmap :
      noted (vm_vmpage_unmap vmpages page as' p) q k
      ≡ (if q == page && same_mapping (mapping as' p) k then 0 else noted vmpages q k)
  unfolding noted vm_vmpage_unmap
  noted-vm_vmpage_unmap = elim (Option-cases (vmpages page)) [
    | inl absent ↦ elim (Bool-cases (q == page)) [
      | inr other ↦ rw (vm_vmpage_unmap, absent, noted, other)
      | inl same ↦
          rw (vm_vmpage_unmap, absent, same, ==→eq q page same, noted, absent) (ground arith)
    ]
    | inr (v, present) ↦ elim (Bool-cases (q == page)) [
      | inr other ↦ rw (vm_vmpage_unmap, present, noted, other)
      | inl same ↦
          rw (vm_vmpage_unmap, present, same, ==→eq q page same, noted, present)
            (ground (
              arith,
              has_mapping-count (mapping as' p) v.maps,
              count-same k (mapping as' p) v.maps,
              count-remove_mapping k (mapping as' p) v.maps,
              here_once v present k,
            ))
    ]
  ]

-- Flags are not mappings.
pub noted-vm_vmpage_setflags :
    (vmpages : VmPages) (page flags q : ℕ) (k : Mapping)
    → noted (vm_vmpage_setflags vmpages page flags) q k ≡ noted vmpages q k
unfolding noted vm_vmpage_setflags
noted-vm_vmpage_setflags vmpages page flags q k = elim (Option-cases (vmpages page)) [
  | inl absent ↦ rw (vm_vmpage_setflags, absent)
  | inr (v, present) ↦ elim (Bool-cases (q == page)) [
    | inl same ↦ rw (vm_vmpage_setflags, present, noted, same, ==→eq q page same, present)
    | inr other ↦ rw (vm_vmpage_setflags, present, noted, other)
  ]
]

pub nothing-IsSetOfMaps : IsSetOfMaps (λ page. none)
unfolding noted
nothing-IsSetOfMaps page m = omega arith

pub vm_vmpage_map-IsSetOfMaps :
    (junk : VmPage) (vmpages : VmPages) (page as' p : ℕ)
    → IsSetOfMaps vmpages
    → IsSetOfMaps (vm_vmpage_map junk vmpages page as' p)
vm_vmpage_map-IsSetOfMaps junk vmpages page as' p w q k =
    ground (arith, noted-vm_vmpage_map vmpages page as' p w q k junk, w q k)
