-- ===== src/Arch/Vmap/Tables.antt =====
-- Reading the page tables of arch/i386/vmap.c.
use twcos.Common.{
  ℕ, ◌+◌, ◌/◌, ◌%◌, ◌<◌, ◌≤◌, ◌≡◌, ◌≢◌, refl, Bool, some, List, arith, ◌==◌, if◌then◌else◌,
  Bool-cases, inl, inr, ==→eq, ne→==,
}
use twcos.Arch.Vmap.{Asid, Vmap, ◌>>=◌, load, table, pgtbls, int32_max, vmap_get_page, vmap_get_pte}
use twcos.Arch.Vmap.Asids.{
  IsClocked, HasSlot, asid_slot, vmap_get_pgtable-held, vmap_get_pgtable-HasSlot,
}
use twcos.Arch.Vmap.Entries.{IsInstalled, load_lem, load-directory}

-- A page that can be a page table: it is not 0 and no directory.
pub record IsTable (dir pgdirs p : ℕ) : Type 0 where
  pub nonzero : p ≢ 0
  pub not_used : p ≢ dir
  pub no_directory : (i : ℕ) → i < 8 → p ≢ pgdirs + i

-- The directories are installed, they agree below the tables' own entries, and the tables that
-- they name are pages of their own, each named once.
pub record IsMapped (memory : ℕ → ℕ → ℕ) (dir pgdirs : ℕ) : Type 0 where
  pub installed : IsInstalled memory dir pgdirs
  pub positive : 0 < pgdirs
  pub shared : (i k : ℕ) → i < 8 → k < 1016 → memory (pgdirs + i) k ≡ memory pgdirs k
  pub tables :
      (k : ℕ) → k < 1016 → memory pgdirs k % 2 ≡ 1 → IsTable dir pgdirs (memory pgdirs k / 4096)
  pub distinct :
      (k l : ℕ)
      → k < 1016
      → l < 1016
      → memory pgdirs k % 2 ≡ 1
      → memory pgdirs l % 2 ≡ 1
      → memory pgdirs k / 4096 ≡ memory pgdirs l / 4096
      → k ≡ l

pub record IsVmap (s : Vmap) : Type 0 where
  pub clocked : IsClocked s.asids s.seq
  pub mapped : IsMapped s.memory s.dir s.pgdirs

-- There is a page table for virtual page `v`.
abbrev pub has_table : Vmap → ℕ → Bool
has_table s v = s.memory s.pgdirs (v / 1024) % 2 == 1

-- The page table entry of virtual page `v`, 0 without a page table: no address space stands here.
abbrev pub entry : Vmap → ℕ → ℕ
entry s v = if has_table s v then s.memory (s.memory s.pgdirs (v / 1024) / 4096) (v % 1024) else 0

-- A step that changes the slots alone.
pub record Looked (s s' : Vmap) : Type 0 where
  pub valid : IsVmap s'
  pub memory_kept : s'.memory ≡ s.memory
  pub dir_kept : s'.dir ≡ s.dir
  pub pgdirs_kept : s'.pgdirs ≡ s.pgdirs
  pub mmap_kept : s'.mmap ≡ s.mmap
  pub soon : s'.seq ≤ s.seq + 1

-- Virtual pages below the page tables.
abbrev pub end_page : ℕ
end_page = 0xfe000

-- The entry that `vmap_get_pte` and `vmap_set_pte` test is the directory's entry for `v`.
pub vmap_get_page-pgtbls :
    (vid v i : ℕ) (s : Vmap)
    → IsVmap s
    → asid_slot vid s.asids ≡ some i
    → i < 8
    → v < end_page
    → (asids : List Asid) × (vmap_get_page vid (pgtbls v) s
        ≡ some (
          if has_table s v then s.memory s.pgdirs (v / 1024) / 4096 else 0,
          record s { asids = asids },
        ))
      × HasSlot vid s i asids s.seq
unfolding vmap_get_page
vmap_get_page-pgtbls vid v i s w held hi hv =
    let r = vmap_get_pgtable-held vid s i w.clocked held in
    let s1 : Vmap = record s { asids = r.0 } in
    let at : load (table i (pgtbls v / 4096)) s1 ≡ some (s.memory (s.pgdirs + 0) (v / 1024), s1) =
      load-directory s1 w.mapped.installed i 0 (pgtbls v / 4096) (v / 1024) hi (omega arith)
        (omega arith) (omega arith) in
    let first : s.memory (s.pgdirs + 0) (v / 1024) ≡ s.memory s.pgdirs (v / 1024) =
      w.mapped.shared 0 (v / 1024) (omega arith) (omega arith) in
    (r.0, rw (vmap_get_page, ◌>>=◌, r.1.run, at, first), r.1)

-- For every address below the page tables and every address space, `vmap_get_pte` returns the one
-- entry that stands for the address, and changes the slots alone.
pub vmap_get_pte-entry :
    (vid vaddress : ℕ) (s : Vmap)
    → IsVmap s
    → s.seq < int32_max
    → vaddress / 4096 < end_page
    → (s' : Vmap) × (vmap_get_pte vid vaddress s ≡ some (entry s (vaddress / 4096), s'))
      × Looked s s'
unfolding vmap_get_pte
vmap_get_pte-entry vid vaddress s w early low =
    let (i, asids, seq, first) = vmap_get_pgtable-HasSlot vid s w.clocked early in
    let s1 : Vmap = record s { asids = asids; seq = seq } in
    let w1 : IsVmap s1 = record { clocked = first.clocked; mapped = w.mapped } in
    let v : ℕ = vaddress / 4096 in
    let r = vmap_get_page-pgtbls vid v i s1 w1 first.held first.inside low in
    let s2 : Vmap = record s1 { asids = r.0 } in
    let k : v / 1024 < 1016 = omega arith in
    let same : s.memory (s.pgdirs + i) (v / 1024) ≡ s.memory s.pgdirs (v / 1024) =
      w.mapped.shared i (v / 1024) first.inside k in
    let looked : Looked s s2 = record {
      valid = record { clocked = r.2.clocked; mapped = w.mapped };
      memory_kept = refl;
      dir_kept = refl;
      pgdirs_kept = refl;
      mmap_kept = refl;
      soon = first.soon;
    } in
    (
      s2,
      elim (Bool-cases (has_table s v)) [
        | inl present ↦
            let t = w.mapped.tables (v / 1024) k (==→eq _ _ present) in
            let at = load_lem s2 w.mapped.installed i v first.inside (omega arith) in
            rw
              (vmap_get_pte, ◌>>=◌, first.run, r.1, present, ne→== _ 0 t.nonzero, at, same, present)
        | inr missing ↦ rw (vmap_get_pte, ◌>>=◌, first.run, r.1, missing)
      ],
      looked,
    )
