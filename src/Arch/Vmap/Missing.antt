-- ===== src/Arch/Vmap/Missing.antt =====
-- The page table that `vmap_set_pte` of arch/i386/vmap.c adds: one page, which becomes the page
-- table of the same addresses in all eight directories.
use twcos.Common.{
  ℕ, zero, suc, ◌+◌, ◌/◌, ◌<◌, ◌≤◌, ◌≡◌, ◌≢◌, refl, ◌∙◌, true, false, some, arith, ◌==◌, Bool-cases,
  inl, inr, ==→eq, ne→==,
}
use twcos.Arch.Vmap.{
  Vmap, ◌>>=◌, load, store, write, table, pgtbls, bits, vmap_get_pgtable, vmap_get_page,
  vmap_set_pte, map_tables,
}
use twcos.Arch.Vmap.Entries.{IsInstalled, load-directory, store-directory, odd, page}
use twcos.Arch.Vmap.Tables.{end_page}

-- Entry `k` of directories `j` to `j + n - 1` becomes `x`.
unfoldable pub put_tables : (pgdirs n j k x : ℕ) → (ℕ → ℕ → ℕ) → ℕ → ℕ → ℕ
put_tables pgdirs zero j k x memory = memory
put_tables pgdirs (suc n) j k x memory =
    put_tables pgdirs n (j + 1) k x (write memory (pgdirs + j) k x)

module _ (pgdirs k x : ℕ) where
  pub put_tables-word :
      (n j : ℕ) (memory : ℕ → ℕ → ℕ) (q l : ℕ)
      → l ≢ k
      → put_tables pgdirs n j k x memory q l ≡ memory q l
  unfolding put_tables
  put_tables-word zero j memory q l ne = refl
  put_tables-word (suc n) j memory q l ne =
      put_tables-word n (j + 1) (write memory (pgdirs + j) k x) q l ne ∙ ground arith

  pub put_tables-page :
      (n j : ℕ) (memory : ℕ → ℕ → ℕ) (q l : ℕ)
      → ((i : ℕ) → i < j + n → q ≢ pgdirs + i)
      → put_tables pgdirs n j k x memory q l ≡ memory q l
  unfolding put_tables
  put_tables-page zero j memory q l ne = refl
  put_tables-page (suc n) j memory q l ne =
      put_tables-page n (j + 1) (write memory (pgdirs + j) k x) q l (λ i h. ne i (omega arith))
      ∙ rw (ne→== q (pgdirs + j) (ne j (omega arith)))

  put_tables-before :
      (n j : ℕ) (memory : ℕ → ℕ → ℕ) (i l : ℕ)
      → i < j
      → put_tables pgdirs n j k x memory (pgdirs + i) l ≡ memory (pgdirs + i) l
  unfolding put_tables
  put_tables-before zero j memory i l lt = refl
  put_tables-before (suc n) j memory i l lt =
      put_tables-before n (j + 1) (write memory (pgdirs + j) k x) i l (omega arith) ∙ ground arith

  pub put_tables-here :
      (n j : ℕ) (memory : ℕ → ℕ → ℕ) (i : ℕ)
      → j ≤ i
      → i < j + n
      → put_tables pgdirs n j k x memory (pgdirs + i) k ≡ x
  unfolding put_tables
  put_tables-here zero j memory i le lt = absurd (omega arith)
  put_tables-here (suc n) j memory i le lt = elim (Bool-cases (i == j)) [
    | inl same ↦
        let at : i ≡ j = ==→eq i j same in
        put_tables-before n (j + 1) (write memory (pgdirs + j) k x) i k (omega arith) ∙ ground arith
    | inr other ↦
        put_tables-here n (j + 1) (write memory (pgdirs + j) k x) i (ground arith) (omega arith)
  ]

pub write-IsInstalled :
    (memory : ℕ → ℕ → ℕ) (dir pgdirs page k x : ℕ)
    → k < 1016
    → IsInstalled memory dir pgdirs
    → IsInstalled (write memory page k x) dir pgdirs
write-IsInstalled memory dir pgdirs page k x h w = record {
  here = λ j lt. ground (arith, w.here j lt);
  each = λ i j hi lt. ground (arith, w.each i j hi lt);
}

-- A call for an entry of the page tables does not need a page table.
vmap_set_pte-kernel :
    (fuel j v x : ℕ) (s : Vmap)
    → IsInstalled s.memory s.dir s.pgdirs
    → 0 < s.pgdirs
    → j < 8
    → v < end_page
    → vmap_set_pte (suc fuel) 0 (pgtbls (table j v)) x s
      ≡ some (tt, record s { memory = write s.memory (s.pgdirs + j) (v / 1024) x })
unfolding vmap_set_pte vmap_get_pgtable vmap_get_page
vmap_set_pte-kernel fuel j v x s w pos hj hv =
    let v' : ℕ = pgtbls (table j v) / 4096 in
    let first : load (table 0 (pgtbls v' / 4096)) s ≡ some (s.memory (s.pgdirs + 0) (1016 + j), s) =
      load-directory s w 0 0 (pgtbls v' / 4096) (1016 + j) (omega arith) (omega arith) (omega arith)
        (omega arith) in
    let last : store (table 0 v') x s
        ≡ some (tt, record s { memory = write s.memory (s.pgdirs + j) (v / 1024) x }) =
      store-directory s w 0 j v' (v / 1024) (omega arith) hj (omega arith) (omega arith) x in
    let present : (s.pgdirs + j == 0) ≡ false = ne→== _ 0 (omega arith) in
    rw (
      vmap_set_pte,
      ◌>>=◌,
      vmap_get_page,
      first,
      w.each 0 j (omega arith) hj,
      odd (s.pgdirs + j),
      page (s.pgdirs + j),
      present,
      last,
    )

-- The loop of `vmap_set_pte` writes the new page into each directory.
pub map_tables_lem :
    (fuel n j v page : ℕ) (s : Vmap)
    → IsInstalled s.memory s.dir s.pgdirs
    → 0 < s.pgdirs
    → j + n ≤ 8
    → v < end_page
    → map_tables (vmap_set_pte (suc fuel) 0) n j v page s
      ≡ some (
        tt,
        record s { memory = put_tables s.pgdirs n j (v / 1024) (bits page true false) s.memory },
      )
unfolding map_tables put_tables
map_tables_lem fuel zero j v page s w pos hj hv = refl
map_tables_lem fuel (suc n) j v page s w pos hj hv =
    let x : ℕ = bits page true false in
    rw (map_tables, ◌>>=◌, vmap_set_pte-kernel fuel j v x s w pos (omega arith) hv)
      (map_tables_lem fuel n (j + 1) v page
        (record s { memory = write s.memory (s.pgdirs + j) (v / 1024) x })
        (write-IsInstalled s.memory s.dir s.pgdirs (s.pgdirs + j) (v / 1024) x (omega arith) w) pos
        (omega arith) hv)
