-- ===== src/Arch/Vmap/Tests.antt =====
-- Tests of arch/i386/vmap.c, and its theorems at concrete inputs: an image of one page of code and
-- one of data at 0xc0100000, with its page table.
use twcos.Common.{ℕ, ◌+◌, ◌≤◌, ◌≡◌, refl, true, false, none, some, List, arith, inl, maybe}
use twcos.Arch.Vmap.{
  Asid, Vmap, ◌>>◌, find_vid, lowest, vmap_get_pgtable, vmap_get_page, vmap_get_pte, vmap_ismapped,
  vmap_iswriteable, vmap_isuser, vmap_map, vmap_set_pte, vmap_unmap, load, store, alloc, add_table,
  map_tables, use_asid, new_asid,
}
use twcos.Arch.Vmap.Asids.{Evicted, vmap_get_pgtable-Evicted}
use twcos.Arch.Vmap.Missing.{put_tables}
use twcos.Arch.Vmap.Mapping.{Entered, vmap_set_pte-Entered}
use twcos.Arch.Vmap.Spaces.{vmap_get_page-vmap_map, vmap_ismapped-vmap_unmap}
use twcos.Arch.Vmap.Init.{fill_table, init_tables, install_directories, vmap_init}
use twcos.Arch.Vmap.Init.Image.{Initialised, vmap_init-Initialised}
use twcos.Arch.Vmap.Examples.{
  booted, booted-IsBooted, image, ready, ready-IsVmap, ready_seq, ready_table,
}
use twcos.Kernel.Pages.{page_alloc}

-- What one address space maps another has too.
shared_test :
    maybe 0
      (λ (r : ℕ × Vmap). r.0)
      ((do vmap_map 7 0xc020_0000 77 true false; vmap_get_page 9 0xc020_0000) ready)
    ≡ 77
unfolding vmap_map vmap_set_pte vmap_get_pgtable use_asid new_asid find_vid lowest vmap_get_page
    load store init_tables install_directories fill_table put_tables alloc add_table map_tables
shared_test = refl

-- A page table that was missing is made.
missing_test :
    maybe 0
      (λ (r : ℕ × Vmap). r.0)
      ((do vmap_map 7 0x1000 77 true true; vmap_isuser 9 0x1000) ready)
    ≡ 4
unfolding vmap_map vmap_set_pte vmap_get_pgtable use_asid new_asid find_vid lowest vmap_get_page
    load store init_tables install_directories fill_table put_tables alloc add_table map_tables
    vmap_isuser vmap_get_pte page_alloc
missing_test = refl

missing : find_vid 5 booted.asids ≡ none
unfolding find_vid
missing = refl

vmap_get_pgtable-Evicted_example : (i : ℕ) × (asids : List Asid) × Evicted 5 booted i asids 1
vmap_get_pgtable-Evicted_example =
    vmap_get_pgtable-Evicted 5 booted booted-IsBooted.clocked (λ e. omega arith) missing
      (omega arith)

vmap_init-Initialised_example :
    (s' : Vmap) × (vmap_init image booted ≡ some (tt, s')) × Initialised image booted s'
vmap_init-Initialised_example = vmap_init-Initialised image booted booted-IsBooted refl

vmap_set_pte-Entered_example :
    (s' : Vmap) × (vmap_set_pte 2 7 0xc020_0000 0x4d003 ready ≡ some (tt, s'))
    × Entered ready 0xc0200 0x4d003 s'
    × (s'.seq ≤ ready.seq + 1)
vmap_set_pte-Entered_example =
    vmap_set_pte-Entered 0 7 0xc020_0000 0x4d003 ready ready-IsVmap (omega (arith, ready_seq))
      (omega arith) (inl (ready_table 0xc0200 refl))

vmap_get_page-vmap_map_example :
    (s' s1 s2 s3 s4 : Vmap) × (vmap_map 7 0xc020_0000 77 true false ready ≡ some (tt, s'))
    × (vmap_get_page 9 0xc020_0000 s' ≡ some (77, s1))
    × (vmap_ismapped 9 0xc020_0000 s' ≡ some (1, s2))
    × (vmap_iswriteable 9 0xc020_0000 s' ≡ some (2, s3))
    × (vmap_isuser 9 0xc020_0000 s' ≡ some (0, s4))
vmap_get_page-vmap_map_example =
    vmap_get_page-vmap_map 7 9 0xc020_0000 77 true false ready ready-IsVmap
      (omega (arith, ready_seq)) (omega arith) (omega arith) (inl (ready_table 0xc0200 refl))

vmap_ismapped-vmap_unmap_example :
    (s' s1 : Vmap) × (vmap_unmap 7 0xc020_0000 ready ≡ some (tt, s'))
    × (vmap_ismapped 9 0xc020_0000 s' ≡ some (0, s1))
vmap_ismapped-vmap_unmap_example =
    vmap_ismapped-vmap_unmap 7 9 0xc020_0000 ready ready-IsVmap (omega (arith, ready_seq))
      (omega arith) (inl (ready_table 0xc0200 refl))
