-- ===== src/Arch/Vmap/Init.antt =====
-- `vmap_init` of arch/i386/vmap.c: the directories, the page table of the kernel's image, and the
-- image itself. `INIT_ONCE` of kernel/core.c is left out: this is the first call.
pub mod Directory
pub mod Image
use twcos.Common.{ℕ, zero, suc, ◌+◌, ◌-◌, ◌*◌, ◌/◌, ◌%◌, ◌^◌, Bool, true, false}
use twcos.Arch.Vmap.{Vmap, M, ◌>>=◌, ◌>>◌, pure, write, vmap_set_asid, vmap_map}
use twcos.Arch.Vmap.Missing.{put_tables}

-- What the linker and the boot code fix: the ends of the image (addresses), the distance between its
-- addresses and its memory, and the physical page of `pgktbl`.
pub record Layout : Type 0 where
  pub code_start : ℕ
  pub data_start : ℕ
  pub heap_page : ℕ
  pub offset : ℕ
  pub pgktbl : ℕ

-- The first loop, from entry `d` on, at the directory `pgdirs_p`.
unfoldable pub install_directories : (pg_dir pgdirs n d pgdirs_p : ℕ) → (ℕ → ℕ → ℕ) → ℕ → ℕ → ℕ
install_directories pg_dir pgdirs zero d pgdirs_p memory = memory
install_directories pg_dir pgdirs (suc n) d pgdirs_p memory =
    install_directories pg_dir pgdirs n (d + 1) (pgdirs_p + 1)
      (put_tables pgdirs 8 0 d (pgdirs_p * 4096 + 3) (write memory pg_dir d (pgdirs_p * 4096 + 3)))

-- The second loop: `n` pages from page `d` on stand in the kernel's table for themselves.
unfoldable pub fill_table : (pgktbl n d : ℕ) → (ℕ → ℕ → ℕ) → ℕ → ℕ → ℕ
fill_table pgktbl zero d memory = memory
fill_table pgktbl (suc n) d memory =
    fill_table pgktbl n (d + 1) (write memory pgktbl d (d * 4096 + 3))

-- The rounds of a loop from `p` in steps of a page while it is below `end`.
abbrev pub page_rounds : ℕ → ℕ → ℕ
page_rounds p end = (end - p + 4095) / 4096

-- `vmap_map(0, p, (uint32_t)(p-offset) >> ARCH_PAGE_SIZE_LOG2, rw, 0)` for `n` rounds.
unfoldable pub map_image : (offset n p : ℕ) (writeable : Bool) → M (Unit {0})
map_image offset zero p writeable = pure tt
map_image offset (suc n) p writeable = do
  vmap_map 0 p ((p + 2 ^ 32 - offset) % 2 ^ 32 / 4096) writeable false
  map_image offset n ((p + 4096) % 2 ^ 32) writeable

-- The directories and the kernel's table, before the first use of them. The directory in use is
-- `pg_dir`.
unfoldable pub init_tables : Layout → Vmap → Vmap
init_tables layout s =
    let pstart = layout.code_start - layout.offset in
    let pend = layout.heap_page - layout.offset in
    let installed = install_directories s.dir s.pgdirs 8 1016 s.pgdirs s.memory in
    let filled =
      fill_table layout.pgktbl (page_rounds (pstart / 4096 * 4096) pend) (pstart / 4096)
        installed in
    record s {
      memory =
          put_tables s.pgdirs 8 0 (layout.code_start / 2 ^ 22) (layout.pgktbl * 4096 + 3) filled;
    }

-- Code is mapped without the right to write.
unfoldable pub vmap_init : Layout → M (Unit {0})
vmap_init layout s =
    let code = page_rounds layout.code_start layout.data_start in
    let p = layout.code_start + 4096 * code in
    (do
      vmap_set_asid 0
      map_image layout.offset code layout.code_start false
      map_image layout.offset (page_rounds p layout.heap_page) p true)
      (init_tables layout s)
