-- ===== src/Kernel/Vm/Segments.antt =====
-- kernel/vm.c: making and copying segments, finding the segment of an address, and the page fault.
use twcos.Common.{
  ℕ, ◌+◌, ◌-◌, ◌*◌, ◌/◌, ◌%◌, ◌^◌, Bool, true, false, ◌&&◌, ◌||◌, Option, none, some, ltb, ◌==◌,
  if◌then◌else◌,
}
use twcos.Libk.Tree.Ops.{map_le, tree_get}
use twcos.Libk.Map.{MapOps, map_put_all}
use twcos.Arch.Vmap.{alloc, vmap_get_page, vmap_ismapped, vmap_map, vmap_unmap}
use twcos.Kernel.Vm.{
  VmObject, direct, anon, vnode, Perms, Segment, VmPage, Vm, ok, stop, invalid_pointer,
  null_pointer, wild_pointer, int_value, M, ◌>>=◌, ◌>>◌, pure, in_vmap, store_at, get_page,
  note_page,
}
use twcos.Kernel.Vm.Rmap.{vm_vmpage_unmap}
use twcos.Kernel.Vm.Noting.{on_vmpages, read_vmpage, note_fault}

-- What `vm_resolve_address` stores in `address_info_t`.
pub record AddressInfo : Type 0 where
  pub space : ℕ
  pub seg : Segment
  pub offset : ℕ

abbrev pub fault_page : ℕ → ℕ
fault_page p = p / 4096 * 4096

-- `(char*)p - (char*)base`, a signed difference, as an `off_t` of 64 bits.
abbrev pub offset_of : (p base : ℕ) → ℕ
offset_of p base =
    let d = (p + 2 ^ 32 - base) % 2 ^ 32 in if ltb d (2 ^ 31) then d else d + 2 ^ 64 - 2 ^ 32

unfoldable pub resolved : (space p : ℕ) → Segment → AddressInfo
resolved space p seg = record { space = space; seg = seg; offset = offset_of p seg.base }

module _ {Pages : Type 0} where
  -- `slab_alloc(objects)`, with the fields set.
  unfoldable pub new_object : VmObject Pages → M Pages ℕ
  new_object x s = ok (
    s.next_object,
    record s {
      objects = store_at s.objects s.next_object (some x);
      next_object = s.next_object + 1;
    },
  )

  unfoldable pub vm_object_direct : (base size : ℕ) → M Pages ℕ
  vm_object_direct base size = new_object (direct base size)

  unfoldable pub vm_object_vnode : ℕ → M Pages ℕ
  vm_object_vnode v = new_object (vnode v)

  unfoldable pub set_segment : ℕ → Segment → M Pages (Unit {0})
  set_segment seg x s = ok (tt, record s { segments = store_at s.segments seg (some x) })

  unfoldable pub vm_segment_base : (p size : ℕ) → Perms → (clean offset : ℕ) → M Pages (ℕ × Segment)
  vm_segment_base p size perms clean offset s =
      let seg : Segment = record {
        base = p;
        size = size;
        perms = perms;
        dirty = clean;
        read_offset = offset;
        clean = clean;
      } in
      ok (
        (s.next_segment, seg),
        record s {
          segments = store_at s.segments s.next_segment (some seg);
          next_segment = s.next_segment + 1;
        },
      )

  unfoldable pub vm_segment_direct : (p size : ℕ) → Perms → (base : ℕ) → M Pages ℕ
  vm_segment_direct p size perms base = do
    object ← vm_object_direct base size
    seg ← vm_segment_base p size perms object 0
    pure (seg.0)

  -- `vm_get_segment`: the segment that begins at `p` or last before it. The tree of an address space
  -- is a treap, which a search leaves as it is.
  unfoldable pub vm_get_segment : Vm Pages → (space p : ℕ) → Option Segment
  vm_get_segment s space p = s.segments (tree_get (s.spaces space) p map_le).0

  -- `vm_resolve_address`: the kernel's segments first, then those of the process.
  unfoldable pub vm_resolve_address : Vm Pages → ℕ → Option AddressInfo
  unfolding vm_get_segment resolved
  vm_resolve_address s p = elim (vm_get_segment s s.kas p) [
    | some seg ↦ some (resolved s.kas p seg)
    | none ↦ if s.process_as == 0 then none else elim (vm_get_segment s s.process_as p) [
      | none ↦ none
      | some seg ↦ some (resolved s.process_as p seg)
    ]
  ]

module _ {Pages : Type 0} (page_ops : MapOps Pages) (new_pages : Pages) (junk : VmPage)
    (vnode_get_page : ℕ → ℕ → M Pages ℕ) where
  unfoldable pub vm_object_anon : ℕ → M Pages ℕ
  vm_object_anon clean = new_object (anon new_pages clean)

  -- `vm_object_anon_copy`: a walk puts each page of the old object in the new one. An object of a
  -- file is refused by check_int_is. One of direct memory has the type OBJECT_ANON too: its `base` is
  -- read as its map.
  unfoldable pub vm_object_anon_copy : ℕ → M Pages ℕ
  vm_object_anon_copy from s = elim (s.objects from) [
    | some (anon pages clean) ↦
        new_object (anon (map_put_all page_ops page_ops new_pages pages) clean) s
    | some (direct base size) ↦ stop (wild_pointer base)
    | some (vnode v) ↦ stop int_value
    | none ↦ stop null_pointer
  ]

  unfoldable pub vm_segment_vnode : (p size : ℕ) → Perms → (file offset : ℕ) → M Pages ℕ
  vm_segment_vnode p size perms file offset = do
    object ← vm_object_vnode file
    seg ← vm_segment_base p size (record perms { p = true }) object offset
    dirty ← if perms.p then vm_object_anon object else pure object
    set_segment seg.0 (record seg.1 { dirty = dirty })
    pure (seg.0)

  unfoldable pub vm_segment_anonymous : (p size : ℕ) → Perms → M Pages ℕ
  vm_segment_anonymous p size perms = do
    seg ← vm_segment_base p size (record perms { p = true }) 0 0
    dirty ← vm_object_anon 0
    set_segment seg.0 (record seg.1 { dirty = dirty })
    pure (seg.0)

  -- The dirty object of a private copy.
  unfoldable pub copy_dirty : Segment → M Pages ℕ
  copy_dirty from =
      if from.clean == from.dirty then vm_object_anon from.clean else vm_object_anon_copy from.dirty

  unfoldable pub vm_segment_copy : Segment → (private : Bool) → M Pages ℕ
  vm_segment_copy from private = do
    seg ← vm_segment_base from.base from.size from.perms from.clean from.read_offset
    dirty ← if private then copy_dirty from else pure from.clean
    set_segment seg.0
        (record seg.1 { perms = record from.perms { p = private || from.perms.p }; dirty = dirty })
    pure (seg.0)

  -- `object->ops->get_page`, with a call for each object below at most.
  unfoldable pub object_page : (o offset : ℕ) → M Pages ℕ
  object_page o offset s = get_page page_ops vnode_get_page s.next_object o offset s

  -- A page that the dirty object has.
  unfoldable pub map_dirty : AddressInfo → (p : ℕ) (write : Bool) (page : ℕ) → M Pages ℕ
  map_dirty info p write page = do
    in_vmap (vmap_map info.space p page (write && info.seg.perms.w) info.seg.perms.u)
    pure page

  -- A page of the clean object.
  unfoldable pub map_clean : AddressInfo → (p : ℕ) → M Pages ℕ
  map_clean info p = do
    page ← object_page info.seg.clean ((info.offset + info.seg.read_offset) % 2 ^ 64)
    in_vmap (vmap_map info.space p page false info.seg.perms.u)
    pure page

  -- A fault on a page that is not present. `VMPAGE_ACCESSED | (write) ? VMPAGE_DIRTY : 0` is
  -- VMPAGE_DIRTY, whatever `write` is.
  unfoldable pub fault_absent : AddressInfo → (p : ℕ) (write : Bool) → M Pages (Unit {0})
  fault_absent info p write = do
    found ← object_page info.seg.dirty info.offset
    page ← if found == 0 then map_clean info p else map_dirty info p write found
    note_fault junk page info.space p 4

  -- A write to a page that is present.
  unfoldable pub fault_write : AddressInfo → (p : ℕ) → M Pages (Unit {0})
  fault_write info p = do
    page ← in_vmap (vmap_get_page info.space p)
    in_vmap (vmap_map info.space p page info.seg.perms.w info.seg.perms.u)
    note_fault junk page info.space p 6

  -- `vm_page_fault`; `vm_invalid_pointer` panics.
  unfoldable pub vm_page_fault : (p : ℕ) (write present : Bool) → M Pages (Unit {0})
  vm_page_fault p write present s = elim (vm_resolve_address s p) [
    | none ↦ stop (invalid_pointer p)
    | some info ↦
        if ltb info.offset info.seg.size
        then (if present
            then (if write && info.seg.perms.w
                then fault_write info (fault_page p) s
                else stop (invalid_pointer (fault_page p)))
            else fault_absent info (fault_page p) write s)
        else stop (invalid_pointer p)
  ]

  -- The pages that `vm_page_steal` takes out of an object.
  unfoldable pub steal_noted : AddressInfo → (p page : ℕ) → M Pages ℕ
  steal_noted info p page = do
    note_page page_ops info.seg.dirty info.offset 0
    read_vmpage page
    on_vmpages (λ v. vm_vmpage_unmap v page info.space p)
    mapped ← in_vmap (vmap_ismapped info.space p)
    if mapped == 0 then pure tt else in_vmap (vmap_unmap info.space p)
    pure page

  unfoldable pub steal : AddressInfo → (p : ℕ) → M Pages ℕ
  steal info p = do
    page ← object_page info.seg.dirty info.offset
    if page == 0 then in_vmap alloc else steal_noted info p page

  -- `vm_page_steal`
  unfoldable pub vm_page_steal : ℕ → M Pages ℕ
  vm_page_steal p s = elim (vm_resolve_address s p) [
    | none ↦ ok (0, s)
    | some info ↦ if info.seg.perms.p then steal info p s else ok (0, s)
  ]
