-- ===== src/Kernel/Vm/Tests.antt =====
-- Tests of kernel/vm.c, and its theorems at concrete inputs: a kernel segment over the image and
-- the addresses behind it, which maps file 5 privately.
use twcos.Common.{
  zero, suc, ◌<◌, ◌≤◌, ◌≢◌, ◌^◌, Option, inr, ℕ, ◌/◌, ◌%◌, ◌≡◌, refl, true, false, ◌&&◌, none, some,
  [], ◌∷◌, arith, compare, if◌then◌else◌, ◌==◌, inl,
}
use twcos.Libk.Tree.{leaf, node}
use twcos.Libk.Tree.Ops.{TreeMap, treap, tree_get, tree_get_node, get_node, splay_found}
use native.Mathlib.Nat.{one-le-pow, pow-suc}
use twcos.Libk.Vector.{Vector, vector_new}
use twcos.Libk.Vector.Lookup.{room}
use twcos.Libk.Vector.Keys.{
  vector_ops, IsKey, IsOneTable, vector-IsMapOn, vector_new-IsOneTable, get-vector_new,
}
use twcos.Kernel.Vm.Noting.{InVector}
use twcos.Arch.Vmap.{Vmap}
use twcos.Arch.Vmap.Tables.{entry, Looked}
use twcos.Arch.Vmap.Examples.{ready, ready_code, ready-IsVmap, ready_seq, ready_table}
use twcos.Kernel.Vm.{anon, vnode, Segment, VmPage, Vm, ok, M, store_at, noted_page, get_page}
use twcos.Kernel.Vm.Rmap.{
  VmPages, same_mapping, vm_vmpage_map, vm_vmpage_unmap, vm_vmpage_trapwrites, vm_vmpage_trapaccess,
}
use twcos.Kernel.Vm.Segments.{
  vm_resolve_address, vm_get_segment, resolved, vm_page_fault, object_page, vm_object_anon_copy,
}
use twcos.Kernel.Vm.Mappings.{
  IsSetOfMaps, mapping, noted, nothing-IsSetOfMaps, vm_vmpage_map-IsSetOfMaps,
  noted-vm_vmpage_unmap,
}
use twcos.Kernel.Vm.Objects.{Noted, get_page-Noted, vm_object_anon_copy-Shares, get_page-vnode}
use twcos.Kernel.Vm.Faults.{
  Serviced, vm_page_fault-Serviced, vm_page_fault-file_page, vm_page_fault-same_page,
}
use twcos.Kernel.Vm.Traps.{Unmapped, vm_vmpage_trapwrites-Unmapped}

abbrev no_pages : Option Vector
no_pages = some vector_new

abbrev seg : Segment
seg = record {
  base = 0xc010_0000;
  size = 0x20_0000;
  perms = record { w = true; u = false; p = true };
  dirty = 2;
  read_offset = 0;
  clean = 1;
}

abbrev space : TreeMap
space = record {
  root = node leaf (record { addr = 30; key = 0xc010_0000; value = 10 }) 7 1 leaf;
  mode = treap;
  comp = compare;
}

abbrev vm : Vm (Option Vector)
vm = record {
  objects =
      store_at (store_at (store_at (λ o. none) 1 (some (vnode 5))) 2 (some (anon no_pages 1))) 3
        (some (anon no_pages 0));
  next_object = 4;
  segments = store_at (λ s. none) 10 (some seg);
  next_segment = 11;
  spaces = λ a. space;
  kas = 20;
  process_as = 0;
  vmpages = λ p. none;
  level = 2;
  vmap = ready;
}

-- The file system reads page 60.
abbrev read_file : ℕ → ℕ → M (Option Vector) ℕ
read_file file offset s = ok (60, s)

abbrev junk : VmPage
junk = record { flags = 0; age = 0; maps = [] }

found :
    vm_resolve_address vm 0xc013_0123 ≡ some (record { space = 20; seg = seg; offset = 0x3_0123 })
unfolding vm_resolve_address vm_get_segment resolved tree_get tree_get_node get_node splay_found
found = refl

found_code :
    vm_resolve_address vm 0xc010_0123 ≡ some (record { space = 20; seg = seg; offset = 0x123 })
unfolding vm_resolve_address vm_get_segment resolved tree_get tree_get_node get_node splay_found
found_code = refl

none_noted : (at : ℕ) → IsKey (at / 4096) → noted_page vector_ops no_pages at ≡ 0
unfolding noted_page
none_noted at h = get-vector_new (at / 4096) h

-- A vector of three tables has places for the pages below 64 ^ 3, but for 64 and 64 ^ 2.
in_vector : (page : ℕ) → page < 262144 → page ≢ 64 → page ≢ 4096 → InVector 2 page
in_vector page h one two = record {
  level_low = omega arith;
  page_low = omega arith;
  apart = λ n e. outside n e;
  near = inr (omega arith);
}
  where
    outside : (n : ℕ) → page ≡ room n → ⊥
    outside zero e = one e
    outside (suc zero) e = two e
    outside (suc (suc n)) e =
        let wide : 1 ≤ 64 ^ n = one-le-pow n 64 (omega arith) in
        let a = pow-suc 64 n in
        let b = pow-suc 64 (suc n) in
        let c = pow-suc 64 (suc (suc n)) in omega (arith, e, h, wide, a, b, c)

read_2 : object_page vector_ops no_pages junk read_file 2 0x3_0123 vm ≡ ok (60, vm)
unfolding object_page
read_2 =
    get_page-vnode vector_ops read_file 2 2 0x3_0123 1 5 60 no_pages vm vm refl (omega arith) refl
      (none_noted 0x3_0123 (omega arith)) refl (λ e. omega arith)

vm_page_fault-Serviced_example :
    (s' : Vm (Option Vector)) × (vm_page_fault vector_ops no_pages junk read_file 0xc013_0123 false
        false vm
      ≡ ok (tt, s'))
    × Serviced vm 20 0xc013_0123 60 false false s'
vm_page_fault-Serviced_example =
    vm_page_fault-Serviced vector_ops no_pages junk read_file 0xc013_0123 false vm vm
      (record { space = 20; seg = seg; offset = 0x3_0123 }) 60 found (omega arith) read_2
      (λ e. omega arith) ready-IsVmap (omega (arith, ready_seq)) (omega arith)
      (inl (ready_table 0xc0130 refl)) nothing-IsSetOfMaps
      (in_vector 60 (omega arith) (λ e. omega arith) (λ e. omega arith))

vm_page_fault-file_page_example :
    (s' : Vm (Option Vector)) × (vm_page_fault vector_ops no_pages junk read_file 0xc013_0123 true
        false vm
      ≡ ok (tt, s'))
    × Serviced vm 20 0xc013_0123 60 true false s'
vm_page_fault-file_page_example =
    vm_page_fault-file_page vector_ops no_pages junk read_file 0xc013_0123 2 1 5 60 no_pages vm vm
      (record { space = 20; seg = seg; offset = 0x3_0123 }) found (omega arith) refl refl
      (omega arith) refl (none_noted 0x3_0123 (omega arith)) refl (λ e. omega arith) ready-IsVmap
      (omega (arith, ready_seq)) (omega arith) (inl (ready_table 0xc0130 refl)) nothing-IsSetOfMaps
      (in_vector 60 (omega arith) (λ e. omega arith) (λ e. omega arith))

code_present : entry ready 0xc0100 % 2 ≡ 1
code_present = rw ready_code

code_page : entry ready 0xc0100 / 4096 ≡ 0x100
code_page = rw ready_code

vm_page_fault-same_page_example :
    (s1 s' : Vm (Option Vector)) × (vm_page_fault vector_ops no_pages junk read_file 0xc010_0123
        true true vm
      ≡ ok (tt, s'))
    × Looked ready s1.vmap
    × Serviced s1 20 0xc010_0123 0x100 true false s'
vm_page_fault-same_page_example =
    vm_page_fault-same_page vector_ops no_pages junk read_file 0xc010_0123 0x100 vm
      (record { space = 20; seg = seg; offset = 0x123 }) found_code (omega arith) refl ready-IsVmap
      (omega (arith, ready_seq)) (omega arith) (ready_table 0xc0100 refl) code_present code_page
      nothing-IsSetOfMaps (in_vector 0x100 (omega arith) (λ e. omega arith) (λ e. omega arith))

get_page-Noted_example :
    (page : ℕ) × (s' : Vm (Option Vector)) × (pages' : Option Vector) × (get_page vector_ops
        read_file 4 3 0x5000 vm
      ≡ ok (page, s'))
    × (s'.objects 3 ≡ some (anon pages' 0))
    × Noted vector_ops IsOneTable IsKey no_pages 0x5000 page pages'
    × ((at : ℕ)
        → page ≢ 0
        → at / 4096 ≡ 0x5000 / 4096
        → get_page vector_ops read_file 4 3 at s' ≡ ok (page, s'))
get_page-Noted_example =
    get_page-Noted vector_ops IsKey IsOneTable vector-IsMapOn read_file 3 3 0x5000 no_pages vm refl
      (omega arith) vector_new-IsOneTable

vm_object_anon_copy-Shares_example :
    (s' : Vm (Option Vector)) × (pages' : Option Vector) × (vm_object_anon_copy vector_ops no_pages
        junk read_file 3 vm
      ≡ ok (4, s'))
    × (s'.objects 4 ≡ some (anon pages' 0))
    × ((at : ℕ)
        → IsKey (at / 4096)
        → noted_page vector_ops pages' at ≡ noted_page vector_ops no_pages at)
vm_object_anon_copy-Shares_example =
    vm_object_anon_copy-Shares vector_ops IsKey IsOneTable vector-IsMapOn read_file no_pages junk 3
      no_pages 0 vm refl vector_new-IsOneTable vector_new-IsOneTable none_noted

-- Page 60 is mapped once.
abbrev mapped_once : VmPages
mapped_once = vm_vmpage_map junk (λ p. none) 60 20 0xc020_0000

mapped_once-IsSetOfMaps : IsSetOfMaps mapped_once
mapped_once-IsSetOfMaps =
    vm_vmpage_map-IsSetOfMaps junk (λ p. none) 60 20 0xc020_0000 nothing-IsSetOfMaps

noted-vm_vmpage_unmap_example :
    noted (vm_vmpage_unmap mapped_once 60 20 0xc020_0000) 60 (mapping 20 0xc020_0000) ≡ (
      if 60 == 60 && same_mapping (mapping 20 0xc020_0000) (mapping 20 0xc020_0000)
      then 0
      else noted mapped_once 60 (mapping 20 0xc020_0000))
noted-vm_vmpage_unmap_example =
    noted-vm_vmpage_unmap mapped_once 60 20 0xc020_0000 mapped_once-IsSetOfMaps 60
      (mapping 20 0xc020_0000)

abbrev mapped_twice : VmPage
mapped_twice = record {
  flags = 0;
  age = 0;
  maps = mapping 20 0xc020_0000 ∷ mapping 21 0xc010_0000 ∷ [];
}

vm_vmpage_trapwrites-Unmapped_example :
    (s' : Vmap) × (vm_vmpage_trapwrites (λ p. some mapped_twice) 60 ready ≡ some (tt, s'))
    × (vm_vmpage_trapaccess (λ p. some mapped_twice) 60 ready ≡ some (tt, s'))
    × Unmapped mapped_twice.maps ready s'
vm_vmpage_trapwrites-Unmapped_example =
    vm_vmpage_trapwrites-Unmapped (λ p. some mapped_twice) 60 mapped_twice ready refl ready-IsVmap
      (omega (arith, ready_seq)) (omega arith)
