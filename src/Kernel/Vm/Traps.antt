-- ===== src/Kernel/Vm/Traps.antt =====
-- What taking a page out of all address spaces (kernel/vm.c) leaves in the page tables.
use twcos.Common.{
  ℕ, ◌+◌, ◌*◌, ◌/◌, ◌%◌, ◌<◌, ◌≤◌, ◌≡◌, ◌≢◌, refl, ◌∙◌, true, some, List, [], ◌∷◌, arith, ◌==◌,
  length, All, Bool-cases, inl, inr, ==→eq,
}
use twcos.Arch.Vmap.{Vmap, int32_max, vmap_ismapped, vmap_unmap, vmap_get_pte}
use twcos.Arch.Vmap
use twcos.Arch.Vmap.Tables.{end_page, entry, has_table, IsVmap, vmap_get_pte-entry}
use twcos.Arch.Vmap.Mapping.{vmap_set_pte-Entered}
use twcos.Kernel.Vm.{Mapping, VmPage}
use twcos.Kernel.Vm.Rmap.{
  VmPages, unmap_one, unmap_each, vm_vmpage_trapaccess, vm_vmpage_trapwrites,
}

abbrev pub page_of : Mapping → ℕ
page_of m = m.address / 4096

-- No mapping of the list is present, what was not present is not now, and pages that are not in the
-- list keep their entries.
pub record Unmapped (maps : List Mapping) (s s' : Vmap) : Type 0 where
  pub valid : IsVmap s'
  pub gone : All (λ m. entry s' (page_of m) % 2 ≡ 0) maps
  pub absent : (u : ℕ) → u < end_page → entry s u % 2 ≡ 0 → entry s' u % 2 ≡ 0
  pub others : (u : ℕ) → u < end_page → All (λ m. u ≢ page_of m) maps → entry s' u ≡ entry s u
  pub soon : s'.seq ≤ s.seq + 2 * length maps

-- One mapping.
record Removed (m : Mapping) (s s' : Vmap) : Type 0 where
  valid : IsVmap s'
  here : entry s' (page_of m) % 2 ≡ 0
  beside : (u : ℕ) → u < end_page → u ≢ page_of m → entry s' u ≡ entry s u
  soon : s'.seq ≤ s.seq + 2

unmap_one-Removed :
    (m : Mapping) (s : Vmap)
    → IsVmap s
    → s.seq + 2 < int32_max
    → page_of m < end_page
    → (s' : Vmap) × (unmap_one m s ≡ some (tt, s')) × Removed m s s'
unfolding unmap_one vmap_ismapped vmap_unmap
unmap_one-Removed m s w early low =
    let (s1, read, looked) = vmap_get_pte-entry m.as' m.address s w (omega arith) low in
    let same : (u : ℕ) → entry s1 u ≡ entry s u =
      λ u. rw (looked.memory_kept, looked.pgdirs_kept) in
    elim (Bool-cases (entry s (page_of m) % 2 == 0)) [
      | inl absent ↦ (
        s1,
        rw (unmap_one, vmap_ismapped, Vmap.◌>>=◌, read, absent),
        record {
          valid = looked.valid;
          here = rw (same (page_of m)) (==→eq _ _ absent);
          beside = λ u hu ne. same u;
          soon = omega (arith, looked.soon);
        },
      )
      | inr present ↦
          let there : has_table s (page_of m) ≡ true = ground (arith, present) in
          let there1 : has_table s1 (page_of m) ≡ true =
            rw (looked.memory_kept, looked.pgdirs_kept) there in
          let r =
            vmap_set_pte-Entered 0 m.as' m.address 0 s1 looked.valid (omega (arith, looked.soon))
              low (inl there1) in
          (
            r.0,
            rw (unmap_one, vmap_ismapped, Vmap.◌>>=◌, read, present, vmap_unmap, r.1),
            record {
              valid = r.2.valid;
              here = rw r.2.here;
              beside = λ u hu ne. r.2.beside u hu ne (inl there1) ∙ same u;
              soon = omega (arith, looked.soon, r.3);
            },
          )
    ]

unmap_each-Unmapped :
    (maps : List Mapping) (s : Vmap)
    → IsVmap s
    → s.seq + 2 * length maps < int32_max
    → All (λ m. page_of m < end_page) maps
    → (s' : Vmap) × (unmap_each maps s ≡ some (tt, s')) × Unmapped maps s s'
unfolding unmap_each
unmap_each-Unmapped [] s w early low = (
  s,
  refl,
  record {
    valid = w;
    gone = tt;
    absent = λ u hu h. h;
    others = λ u hu h. refl;
    soon = omega arith;
  },
)
unmap_each-Unmapped (m ∷ maps) s w early low =
    let (s1, run, one) = unmap_one-Removed m s w (omega arith) low.0 in
    let (s2, rest, all) = unmap_each-Unmapped maps s1 one.valid (omega (arith, one.soon)) low.1 in
    (
      s2,
      rw (unmap_each, run, rest),
      record {
        valid = all.valid;
        gone = (all.absent (page_of m) low.0 one.here, all.gone);
        absent = λ u hu h. all.absent u hu (elim (Bool-cases (u == page_of m)) [
          | inl same ↦ rw (==→eq u (page_of m) same) one.here
          | inr other ↦ rw (one.beside u hu (ground (arith, other))) h
        ]);
        others = λ u hu h. all.others u hu h.1 ∙ one.beside u hu h.0;
        soon = omega (arith, all.soon, one.soon);
      },
    )

-- After `vm_vmpage_trapwrites` of a page, and after `vm_vmpage_trapaccess` likewise, none of the
-- mappings noted for the page is present. Virtual pages that are not noted keep their entries.
pub vm_vmpage_trapwrites-Unmapped :
    (vmpages : VmPages) (page : ℕ) (v : VmPage) (s : Vmap)
    → vmpages page ≡ some v
    → IsVmap s
    → s.seq + 2 * length v.maps < int32_max
    → All (λ m. page_of m < end_page) v.maps
    → (s' : Vmap) × (vm_vmpage_trapwrites vmpages page s ≡ some (tt, s'))
      × (vm_vmpage_trapaccess vmpages page s ≡ some (tt, s'))
      × Unmapped v.maps s s'
unfolding vm_vmpage_trapwrites vm_vmpage_trapaccess
vm_vmpage_trapwrites-Unmapped vmpages page v s noted w early low =
    let r = unmap_each-Unmapped v.maps s w early low in
    (r.0, rw (vm_vmpage_trapwrites, noted, r.1), rw (vm_vmpage_trapaccess, noted, r.1), r.2)
