-- ===== src/Kernel/Vm/Faults.antt =====
-- What a page fault of kernel/vm.c leaves in the page tables.
use twcos.Common.{
  ℕ, suc, ◌+◌, ◌/◌, ◌%◌, ◌<◌, ◌≡◌, ◌≢◌, refl, sym, ◌∙◌, Bool, true, false, ◌&&◌, some, arith, inl,
  ne→==, lt→ltb, subst,
}
use twcos.Libk.Map.{MapOps}
use twcos.Kernel.Vm.Objects.{get_page-vnode}
use twcos.Arch.Vmap.Spaces.{vmap_get_page-entry}
use twcos.Arch.Vmap.{bits, int32_max, vmap_map, vmap_get_page}
use twcos.Arch.Vmap.Tables.{Looked, end_page, entry, has_table, IsVmap}
use twcos.Arch.Vmap.Mapping.{Entered, HasRoom, vmap_set_pte-Entered}
use twcos.Kernel.Vm.{Mapping, anon, vnode, noted_page, get_page, VmPage, Vm, ok, M, ◌>>=◌, in_vmap}
use twcos.Kernel.Vm.Rmap.{VmPages, vm_vmpage_map, vm_vmpage_setflags}
use twcos.Kernel.Vm.Noting.{InVector, note_fault-ok}
use twcos.Kernel.Vm.Segments.{
  AddressInfo, fault_page, vm_resolve_address, object_page, map_dirty, fault_absent, fault_write,
  vm_page_fault,
}
use twcos.Kernel.Vm.Mappings.{
  noted, IsSetOfMaps, mapping, noted-vm_vmpage_map, noted-vm_vmpage_setflags,
}

-- What a fault leaves: the entry of the page, and the mapping noted for the physical page.
pub record Serviced {Pages : Type 0} (s : Vm Pages) (space p page : ℕ) (w u : Bool) (s' : Vm Pages)
    : Type 0 where
  pub entered : Entered s.vmap (p / 4096) (bits page w u) s'.vmap
  pub objects_kept : s'.objects ≡ s.objects
  pub once : noted s'.vmpages page (mapping space (fault_page p)) ≡ 1
  pub elsewhere : (q : ℕ) (k : Mapping) → q ≢ page → noted s'.vmpages q k ≡ noted s.vmpages q k

module _ {Pages : Type 0} (page_ops : MapOps Pages) (new_pages : Pages) (junk : VmPage)
    (vnode_get_page : ℕ → ℕ → M Pages ℕ) where
  -- A fault on a page of a segment that is not present, where the dirty object has a page: it ends
  -- with that page in the address space of the segment, writeable for a write to a segment that
  -- may be written, and noted as mapped there; the vector of noted pages has a place for the page.
  pub vm_page_fault-Serviced :
      (p : ℕ) (write : Bool) (s s1 : Vm Pages) (info : AddressInfo) (page : ℕ)
      → vm_resolve_address s p ≡ some info
      → info.offset < info.seg.size
      → object_page page_ops new_pages junk vnode_get_page info.seg.dirty info.offset s
        ≡ ok (page, s1)
      → page ≢ 0
      → IsVmap s1.vmap
      → s1.vmap.seq < int32_max
      → p / 4096 < end_page
      → HasRoom s1.vmap (p / 4096)
      → IsSetOfMaps s1.vmpages
      → InVector s1.level page
      → (s' : Vm Pages) × (vm_page_fault page_ops new_pages junk vnode_get_page p write false s
          ≡ ok (tt, s'))
        × Serviced s1 info.space p page (write && info.seg.perms.w) info.seg.perms.u s'
  unfolding vm_page_fault fault_absent map_dirty in_vmap vmap_map
  vm_page_fault-Serviced p write s s1 info page found inside has_page nonzero w early low room once
        fits =
      let w' : Bool = write && info.seg.perms.w in
      let u : Bool = info.seg.perms.u in
      let aligned : fault_page p / 4096 ≡ p / 4096 = omega arith in
      let r =
        vmap_set_pte-Entered 0 info.space (fault_page p) (bits page w' u) s1.vmap w early
          (omega arith) (subst (HasRoom s1.vmap) (sym aligned) room) in
      let mapped : VmPages = vm_vmpage_map junk s1.vmpages page info.space (fault_page p) in
      let noting =
        note_fault-ok junk page info.space (fault_page p) 4 (record s1 { vmap = r.0 }) fits in
      (
        record s1 { vmap = r.0; vmpages = vm_vmpage_setflags mapped page 4; level = noting.0 },
        rw (
          vm_page_fault,
          found,
          lt→ltb _ _ inside,
          fault_absent,
          ◌>>=◌,
          has_page,
          ne→== page 0 nonzero,
          map_dirty,
          in_vmap,
          vmap_map,
          r.1,
          noting.1,
        ),
        record {
          entered = subst (λ v. Entered s1.vmap v (bits page w' u) r.0) aligned r.2;
          objects_kept = refl;
          once =
              noted-vm_vmpage_setflags mapped page 4 page (mapping info.space (fault_page p))
              ∙ noted-vm_vmpage_map s1.vmpages page info.space (fault_page p) once page
                  (mapping info.space (fault_page p)) junk
              ∙ ground arith;
          elsewhere = λ q k ne.
              noted-vm_vmpage_setflags mapped page 4 q k
              ∙ noted-vm_vmpage_map s1.vmpages page info.space (fault_page p) once q k junk
              ∙ rw (ne→== q page ne);
        },
      )

  -- A write to a private segment of a file, in a page that its dirty object has not noted, ends with
  -- the file's own page mapped, writeable if the segment is, and not with a copy; the objects stay
  -- as reading the file left them. The vector of noted pages has a place for the page.
  pub vm_page_fault-file_page :
      (p n clean file q : ℕ) (pages : Pages) (s s1 : Vm Pages) (info : AddressInfo)
      → vm_resolve_address s p ≡ some info
      → info.offset < info.seg.size
      → s.next_object ≡ suc (suc n)
      → s.objects info.seg.dirty ≡ some (anon pages clean)
      → 0 < clean
      → s.objects clean ≡ some (vnode file)
      → noted_page page_ops pages info.offset ≡ 0
      → vnode_get_page file info.offset s ≡ ok (q, s1)
      → q ≢ 0
      → IsVmap s1.vmap
      → s1.vmap.seq < int32_max
      → p / 4096 < end_page
      → HasRoom s1.vmap (p / 4096)
      → IsSetOfMaps s1.vmpages
      → InVector s1.level q
      → (s' : Vm Pages) × (vm_page_fault page_ops new_pages junk vnode_get_page p true false s
          ≡ ok (tt, s'))
        × Serviced s1 info.space p q info.seg.perms.w info.seg.perms.u s'
  unfolding object_page
  vm_page_fault-file_page p n clean file q pages s s1 info found inside many object below behind
        fresh read some_page w early low room once fits =
      vm_page_fault-Serviced p true s s1 info q found inside
        (subst (λ k. get_page page_ops vnode_get_page k info.seg.dirty info.offset s ≡ ok (q, s1))
          (sym many)
          (get_page-vnode page_ops vnode_get_page n info.seg.dirty info.offset clean file q pages s
            s1 object below behind fresh read some_page))
        some_page w early low room once fits

  -- A write to a page that is present but read-only, in a segment that may be written: the page that
  -- is mapped becomes writeable. It is the same page, not a copy. The vector of noted pages has a place
  -- for the page.
  pub vm_page_fault-same_page :
      (p page : ℕ) (s : Vm Pages) (info : AddressInfo)
      → vm_resolve_address s p ≡ some info
      → info.offset < info.seg.size
      → info.seg.perms.w ≡ true
      → IsVmap s.vmap
      → s.vmap.seq + 1 < int32_max
      → p / 4096 < end_page
      → has_table s.vmap (p / 4096) ≡ true
      → entry s.vmap (p / 4096) % 2 ≡ 1
      → entry s.vmap (p / 4096) / 4096 ≡ page
      → IsSetOfMaps s.vmpages
      → InVector s.level page
      → (s1 s' : Vm Pages) × (vm_page_fault page_ops new_pages junk vnode_get_page p true true s
          ≡ ok (tt, s'))
        × Looked s.vmap s1.vmap
        × Serviced s1 info.space p page true info.seg.perms.u s'
  unfolding vm_page_fault fault_write in_vmap vmap_map
  vm_page_fault-same_page p page s info found inside may w early low there present same once fits =
      let u : Bool = info.seg.perms.u in
      let aligned : fault_page p / 4096 ≡ p / 4096 = omega arith in
      let (v1, read, looked) =
        vmap_get_page-entry info.space (fault_page p) s.vmap w (omega arith) (omega arith) in
      let s1 : Vm Pages = record s { vmap = v1 } in
      let read' : vmap_get_page info.space (fault_page p) s.vmap ≡ some (page, v1) =
        read ∙ rw (aligned, present, same, there) refl in
      let there1 : has_table v1 (p / 4096) ≡ true =
        rw (looked.memory_kept, looked.pgdirs_kept) there in
      let r =
        vmap_set_pte-Entered 0 info.space (fault_page p) (bits page true u) v1 looked.valid
          (omega (arith, looked.soon)) (omega arith) (inl (rw aligned there1)) in
      let mapped : VmPages = vm_vmpage_map junk s.vmpages page info.space (fault_page p) in
      let noting =
        note_fault-ok junk page info.space (fault_page p) 6 (record s { vmap = r.0 }) fits in
      (
        s1,
        record s { vmap = r.0; vmpages = vm_vmpage_setflags mapped page 6; level = noting.0 },
        rw (
          vm_page_fault,
          found,
          lt→ltb _ _ inside,
          may,
          fault_write,
          ◌>>=◌,
          in_vmap,
          read',
          vmap_map,
          may,
          r.1,
          noting.1,
        ),
        looked,
        record {
          entered = subst (λ v. Entered v1 v (bits page true u) r.0) aligned r.2;
          objects_kept = refl;
          once =
              noted-vm_vmpage_setflags mapped page 6 page (mapping info.space (fault_page p))
              ∙ noted-vm_vmpage_map s.vmpages page info.space (fault_page p) once page
                  (mapping info.space (fault_page p)) junk
              ∙ ground arith;
          elsewhere = λ q k ne.
              noted-vm_vmpage_setflags mapped page 6 q k
              ∙ noted-vm_vmpage_map s.vmpages page info.space (fault_page p) once q k junk
              ∙ rw (ne→== q page ne);
        },
      )
