-- ===== src/Arch/Vmap/Init/Directory.antt =====
-- The directories that `vmap_init` of arch/i386/vmap.c sets up.
use twcos.Common.{
  ℕ, zero, suc, ◌+◌, ◌-◌, ◌*◌, ◌/◌, ◌^◌, ◌<◌, ◌≤◌, ◌≡◌, ◌≢◌, refl, sym, ◌∙◌, true, false, arith,
  subst,
}
use twcos.Arch.Vmap.{Vmap, write, bits}
use twcos.Arch.Vmap.Asids.{IsClocked}
use twcos.Arch.Vmap.Entries.{odd}
use twcos.Arch.Vmap.Tables.{has_table, IsMapped, IsTable, IsVmap}
use twcos.Arch.Vmap.Missing.{put_tables, put_tables-word, put_tables-page, put_tables-here}
use twcos.Arch.Vmap.Directories.{IsFresh, with_table, with_table-IsMapped, with_table-first}
use twcos.Arch.Vmap.Init.{Layout, install_directories, fill_table, init_tables, page_rounds}

module _ (pg_dir pgdirs : ℕ) where
  install_directories-word :
      (n d page : ℕ) (memory : ℕ → ℕ → ℕ) (q l : ℕ)
      → l < d
      → install_directories pg_dir pgdirs n d page memory q l ≡ memory q l
  unfolding install_directories
  install_directories-word zero d page memory q l lt = refl
  install_directories-word (suc n) d page memory q l lt =
      install_directories-word n (d + 1) (page + 1) _ q l (omega arith)
      ∙ put_tables-word pgdirs d (page * 4096 + 3) 8 0 (write memory pg_dir d (page * 4096 + 3)) q l
          (omega arith)
      ∙ ground arith

  install_directories-each :
      (n d page : ℕ) (memory : ℕ → ℕ → ℕ) (i j : ℕ)
      → i < 8
      → j < n
      → install_directories pg_dir pgdirs n d page memory (pgdirs + i) (d + j)
        ≡ (page + j) * 4096 + 3
  unfolding install_directories
  install_directories-each zero d page memory i j hi lt = absurd (omega arith)
  install_directories-each (suc n) d page memory i zero hi lt =
      subst
        (λ l.
          install_directories pg_dir pgdirs (suc n) d page memory (pgdirs + i) l
          ≡ (page + 0) * 4096 + 3)
        {x = d} {y = d + 0} (omega arith)
        (install_directories-word n (d + 1) (page + 1) _ (pgdirs + i) d (omega arith)
          ∙ put_tables-here pgdirs d (page * 4096 + 3) 8 0 (write memory pg_dir d (page * 4096 + 3))
              i (omega arith) (omega arith)
          ∙ omega arith)
  install_directories-each (suc n) d page memory i (suc j) hi lt =
      subst
        (λ l.
          install_directories pg_dir pgdirs (suc n) d page memory (pgdirs + i) l
          ≡ (page + suc j) * 4096 + 3)
        {x = d + 1 + j} {y = d + suc j} (omega arith)
        (install_directories-each n (d + 1) (page + 1) _ i j hi (omega arith) ∙ omega arith)

  install_directories-here :
      (n d page : ℕ) (memory : ℕ → ℕ → ℕ) (j : ℕ)
      → ((i : ℕ) → i < 8 → pg_dir ≢ pgdirs + i)
      → j < n
      → install_directories pg_dir pgdirs n d page memory pg_dir (d + j) ≡ (page + j) * 4096 + 3
  unfolding install_directories
  install_directories-here zero d page memory j apart lt = absurd (omega arith)
  install_directories-here (suc n) d page memory zero apart lt =
      subst
        (λ l.
          install_directories pg_dir pgdirs (suc n) d page memory pg_dir l ≡ (page + 0) * 4096 + 3)
        {x = d} {y = d + 0} (omega arith)
        (install_directories-word n (d + 1) (page + 1) _ pg_dir d (omega arith)
          ∙ put_tables-page pgdirs d (page * 4096 + 3) 8 0 (write memory pg_dir d (page * 4096 + 3))
              pg_dir d (λ i h. apart i (omega arith))
          ∙ ground arith)
  install_directories-here (suc n) d page memory (suc j) apart lt =
      subst
        (λ l.
          install_directories pg_dir pgdirs (suc n) d page memory pg_dir l
          ≡ (page + suc j) * 4096 + 3)
        {x = d + 1 + j} {y = d + suc j} (omega arith)
        (install_directories-here n (d + 1) (page + 1) _ j apart (omega arith) ∙ omega arith)

fill_table-page :
    (pgktbl n d : ℕ) (memory : ℕ → ℕ → ℕ) (q l : ℕ)
    → q ≢ pgktbl
    → fill_table pgktbl n d memory q l ≡ memory q l
unfolding fill_table
fill_table-page pgktbl zero d memory q l ne = refl
fill_table-page pgktbl (suc n) d memory q l ne =
    fill_table-page pgktbl n (d + 1) (write memory pgktbl d (d * 4096 + 3)) q l ne ∙ ground arith

-- The state that the boot code leaves: empty directories and slots, `pg_dir` in use, a page for the
-- kernel's table, and the image within the addresses of one page table.
pub record IsBooted (layout : Layout) (s : Vmap) : Type 0 where
  pub clocked : IsClocked s.asids s.seq
  pub positive : 0 < s.pgdirs
  pub apart : (i : ℕ) → i < 8 → s.dir ≢ s.pgdirs + i
  pub empty : (i k : ℕ) → i < 8 → k < 1016 → s.memory (s.pgdirs + i) k ≡ 0
  pub its_page : IsTable s.dir s.pgdirs layout.pgktbl
  pub small : layout.pgktbl < 2 ^ 20
  pub low : layout.code_start / 2 ^ 22 < 1016
  pub one_table : layout.heap_page ≤ (layout.code_start / 2 ^ 22 + 1) * 2 ^ 22
  pub ordered : (layout.code_start ≤ layout.data_start) × (layout.data_start ≤ layout.heap_page)

module _ (layout : Layout) (s : Vmap) (b : IsBooted layout s) (n d : ℕ) where
  -- The memory before the kernel's table is named.
  filled : ℕ → ℕ → ℕ
  filled =
      fill_table layout.pgktbl n d (install_directories s.dir s.pgdirs 8 1016 s.pgdirs s.memory)

  filled-each :
      (i k : ℕ)
      → i < 8
      → filled (s.pgdirs + i) k
        ≡ install_directories s.dir s.pgdirs 8 1016 s.pgdirs s.memory (s.pgdirs + i) k
  unfolding filled
  filled-each i k hi =
      fill_table-page layout.pgktbl n d _ (s.pgdirs + i) k
        (λ e. b.its_page.no_directory i hi (sym e))

  filled-zero : (i k : ℕ) → i < 8 → k < 1016 → filled (s.pgdirs + i) k ≡ 0
  filled-zero i k hi lt =
      filled-each i k hi
      ∙ install_directories-word s.dir s.pgdirs 8 1016 s.pgdirs s.memory (s.pgdirs + i) k
          (omega arith)
      ∙ b.empty i k hi lt

  filled-first : (k : ℕ) → k < 1016 → filled s.pgdirs k ≡ 0
  filled-first k lt =
      subst (λ q. filled q k ≡ 0) {x = s.pgdirs + 0} (omega arith)
        (filled-zero 0 k (omega arith) lt)

  filled-IsMapped : IsMapped filled s.dir s.pgdirs
  unfolding filled
  filled-IsMapped = record {
    installed = record {
      here = λ j lt.
          fill_table-page layout.pgktbl n d _ s.dir (1016 + j) (λ e. b.its_page.not_used (sym e))
          ∙ install_directories-here s.dir s.pgdirs 8 1016 s.pgdirs s.memory j b.apart lt;
      each = λ i j hi lt.
          filled-each i (1016 + j) hi
          ∙ install_directories-each s.dir s.pgdirs 8 1016 s.pgdirs s.memory i j hi lt;
    };
    positive = b.positive;
    shared = λ i k hi lt. filled-zero i k hi lt ∙ sym (filled-first k lt);
    tables = λ k lt odd. absurd (omega (arith, filled-first k lt));
    distinct = λ k l lt lt' odd odd' e. absurd (omega (arith, filled-first k lt));
  }

  filled-IsFresh : IsFresh filled s.dir s.pgdirs layout.pgktbl
  filled-IsFresh = record {
    table_page = b.its_page;
    small = b.small;
    unused = λ k lt odd. absurd (omega (arith, filled-first k lt));
  }

-- With the kernel's table named, the page tables are valid, and the table is there for every page
-- of the image.
pub init_tables-IsVmap :
    (layout : Layout) (s : Vmap)
    → IsBooted layout s
    → IsVmap (init_tables layout s)
      × ((v : ℕ)
          → v / 1024 ≡ layout.code_start / 2 ^ 22
          → has_table (init_tables layout s) v ≡ true)
      × ((init_tables layout s).seq ≡ s.seq)
unfolding init_tables with_table filled
init_tables-IsVmap layout s b =
    let n : ℕ =
      page_rounds ((layout.code_start - layout.offset) / 4096 * 4096)
        (layout.heap_page - layout.offset) in
    let d : ℕ = (layout.code_start - layout.offset) / 4096 in
    let k : ℕ = layout.code_start / 2 ^ 22 in
    let f : ℕ → ℕ → ℕ = filled layout s b n d in
    let name : bits layout.pgktbl true false ≡ layout.pgktbl * 4096 + 3 = omega (arith, b.small) in
    (
      record {
        clocked = b.clocked;
        mapped =
            subst (λ x. IsMapped (put_tables s.pgdirs 8 0 k x f) s.dir s.pgdirs) name
              (with_table-IsMapped f s.dir s.pgdirs k layout.pgktbl b.low
                (filled-IsMapped layout s b n d) (filled-IsFresh layout s b n d));
      },
      λ v same.
          let at : put_tables s.pgdirs 8 0 k (layout.pgktbl * 4096 + 3) f s.pgdirs k
              ≡ layout.pgktbl * 4096 + 3 =
            subst (λ x. put_tables s.pgdirs 8 0 k x f s.pgdirs k ≡ x) name
              (with_table-first f s.dir s.pgdirs k layout.pgktbl) in
          rw (same, at, odd layout.pgktbl),
      refl,
    )
