-- ===== src/Arch/Vmap/Mapping.antt =====
-- Writing a page table entry in arch/i386/vmap.c.
use twcos.Common.{
  if◌then◌else◌, ℕ, suc, ◌+◌, ◌/◌, ◌%◌, ◌<◌, ◌≤◌, ◌≡◌, ◌≢◌, refl, ◌∙◌, true, false, some, arith,
  ◌==◌, Bool-cases, inl, inr, ==→eq, ne→==, ◌⊎◌,
}
use twcos.Kernel.Pages.{page_alloc}
use twcos.Arch.Vmap.{Vmap, ◌>>=◌, store, write, table, alloc, add_table, vmap_set_pte, int32_max}
use twcos.Arch.Vmap.Asids.{vmap_get_pgtable-HasSlot}
use twcos.Arch.Vmap.Entries.{store_lem}
use twcos.Arch.Vmap.Tables.{end_page, entry, has_table, IsTable, IsVmap, vmap_get_page-pgtbls}
use twcos.Arch.Vmap.Missing.{map_tables_lem}
use twcos.Arch.Vmap.Directories.{
  IsFresh, write-IsMapped, with_table, with_table-IsMapped, with_table-first, with_table-word,
  with_table-page, bits_lem,
}

-- The state after a write of the entry of `v` into its page table.
abbrev with_entry : Vmap → ℕ → ℕ → Vmap
with_entry s v pte = record s {
  memory = write s.memory (s.memory s.pgdirs (v / 1024) / 4096) (v % 1024) pte;
}

module _ (s : Vmap) (v pte : ℕ) (w : IsVmap s) (hv : v < end_page)
    (present : has_table s v ≡ true) where
  module _ (k : v / 1024 < 1016) where
    present-IsTable : IsTable s.dir s.pgdirs (s.memory s.pgdirs (v / 1024) / 4096)
    present-IsTable = w.mapped.tables (v / 1024) k (==→eq _ _ present)

    with_entry-IsVmap : IsVmap (with_entry s v pte)
    with_entry-IsVmap = record {
      clocked = w.clocked;
      mapped = write-IsMapped s.memory s.dir s.pgdirs _ (v % 1024) pte present-IsTable w.mapped;
    }

    with_entry-directory : (l : ℕ) → (with_entry s v pte).memory s.pgdirs l ≡ s.memory s.pgdirs l
    with_entry-directory l = rw (
        ne→== s.pgdirs (s.memory s.pgdirs (v / 1024) / 4096)
          (λ e. present-IsTable.no_directory 0 (omega arith) (omega (arith, e))))

    store-with_entry : (i : ℕ) → i < 8 → store (table i v) pte s ≡ some (tt, with_entry s v pte)
    store-with_entry i hi =
        store_lem s w.mapped.installed i v hi (omega arith) pte
        ∙ rw (w.mapped.shared i (v / 1024) hi k, present) refl

    entry-with_entry : entry (with_entry s v pte) v ≡ pte
    entry-with_entry = rw (with_entry-directory, present) (ground arith)

    entry-with_entry_ne : (u : ℕ) → u < end_page → u ≢ v → entry (with_entry s v pte) u ≡ entry s u
    entry-with_entry_ne u hu ne = elim (Bool-cases (has_table s u)) [
      | inr missing ↦ rw (with_entry-directory (u / 1024), missing)
      | inl other ↦
          rw (with_entry-directory (u / 1024), other)
            (elim (Bool-cases
              (s.memory s.pgdirs (u / 1024) / 4096 == s.memory s.pgdirs (v / 1024) / 4096)) [
                | inr apart ↦ rw apart
                | inl same ↦
                    let e : u / 1024 ≡ v / 1024 =
                      w.mapped.distinct (u / 1024) (v / 1024) (omega arith) k (==→eq _ _ other)
                        (==→eq _ _ present) (==→eq _ _ same) in
                    let low : (u % 1024 == v % 1024) ≡ false = ne→== _ _ (omega arith) in
                    rw (same, low)
              ])
    ]

-- Entry `v` is `pte`, in a page table that is there. The other entries stay, but for those of a
-- page table that was missing: they become the words that the new page held before. A page is
-- allocated for a missing page table, and none else.
pub record Entered (s : Vmap) (v pte : ℕ) (s' : Vmap) : Type 0 where
  pub valid : IsVmap s'
  pub present : has_table s' v ≡ true
  pub here : entry s' v ≡ pte
  pub kept : (u : ℕ) → u < end_page → has_table s u ≡ true → has_table s' u ≡ true
  pub beside :
      (u : ℕ)
      → u < end_page
      → u ≢ v
      → has_table s v ≡ true ⊎ u / 1024 ≢ v / 1024
      → entry s' u ≡ entry s u
  pub stale :
      (u : ℕ)
      → u < end_page
      → u ≢ v
      → has_table s v ≡ false
      → u / 1024 ≡ v / 1024
      → entry s' u ≡ s.memory (page_alloc s.mmap).0 (u % 1024)
  pub taken : s'.mmap ≡ (if has_table s v then s.mmap else (page_alloc s.mmap).1)

-- The entry of a page table that is there.
with_entry-Entered :
    (s : Vmap) (v pte : ℕ)
    → IsVmap s
    → v < end_page
    → has_table s v ≡ true
    → Entered s v pte (with_entry s v pte)
with_entry-Entered s v pte w hv present =
    let k : v / 1024 < 1016 = omega arith in
    record {
      valid = with_entry-IsVmap s v pte w hv present k;
      present = rw (with_entry-directory s v pte w hv present k (v / 1024)) present;
      here = entry-with_entry s v pte w hv present k;
      kept = λ u hu there. rw (with_entry-directory s v pte w hv present k (u / 1024)) there;
      beside = λ u hu ne _. entry-with_entry_ne s v pte w hv present k u hu ne;
      stale = λ u hu ne missing _. cc;
      taken = rw present refl;
    }

-- The state with the new page table, before the entry is written.
abbrev with_new_table : Vmap → ℕ → Vmap
with_new_table s v = record s {
  memory = with_table s.memory s.dir s.pgdirs (v / 1024) (page_alloc s.mmap).0;
  mmap = (page_alloc s.mmap).1;
}

module _ (s : Vmap) (v pte : ℕ) (w : IsVmap s) (hv : v < end_page)
    (fresh : IsFresh s.memory s.dir s.pgdirs (page_alloc s.mmap).0) where
  with_new_table-IsVmap : IsVmap (with_new_table s v)
  with_new_table-IsVmap = record {
    clocked = w.clocked;
    mapped =
        with_table-IsMapped s.memory s.dir s.pgdirs (v / 1024) (page_alloc s.mmap).0 (omega arith)
          w.mapped fresh;
  }

  has_table-with_new_table : has_table (with_new_table s v) v ≡ true
  has_table-with_new_table = rw (
    with_table-first s.memory s.dir s.pgdirs (v / 1024) (page_alloc s.mmap).0,
    (bits_lem (page_alloc s.mmap).0 true false fresh.small).0,
  )

  -- The entries of the new table are the words of its page.
  entry-with_new_table :
      (u : ℕ)
      → u / 1024 ≡ v / 1024
      → entry (with_new_table s v) u ≡ s.memory (page_alloc s.mmap).0 (u % 1024)
  entry-with_new_table u same =
      let p : ℕ = (page_alloc s.mmap).0 in
      let b = bits_lem p true false fresh.small in
      rw (same, with_table-first s.memory s.dir s.pgdirs (v / 1024) p, b.0, b.1)
        (with_table-page s.memory s.dir s.pgdirs (v / 1024) p p (u % 1024)
          fresh.table_page.no_directory)

  entry-with_new_table_ne :
      (u : ℕ) → u < end_page → u / 1024 ≢ v / 1024 → entry (with_new_table s v) u ≡ entry s u
  entry-with_new_table_ne u hu ne =
      let p : ℕ = (page_alloc s.mmap).0 in
      let directory = with_table-word s.memory s.dir s.pgdirs (v / 1024) p s.pgdirs (u / 1024) ne in
      elim (Bool-cases (has_table s u)) [
        | inr missing ↦ rw (directory, missing)
        | inl there ↦
            let t = w.mapped.tables (u / 1024) (omega arith) (==→eq _ _ there) in
            rw (
              directory,
              there,
              with_table-page s.memory s.dir s.pgdirs (v / 1024) p
                  (s.memory s.pgdirs (u / 1024) / 4096) (u % 1024) t.no_directory,
            )
      ]

  has_table-with_new_table_ne :
      (u : ℕ) → u < end_page → has_table s u ≡ true → has_table (with_new_table s v) u ≡ true
  has_table-with_new_table_ne u hu there = elim (Bool-cases (u / 1024 == v / 1024)) [
    | inl same ↦ rw (==→eq (u / 1024) (v / 1024) same) has_table-with_new_table
    | inr other ↦
        rw
          (with_table-word s.memory s.dir s.pgdirs (v / 1024) (page_alloc s.mmap).0 s.pgdirs
            (u / 1024) (ground arith))
          there
  ]

  with_new_table-Entered :
      has_table s v ≡ false → Entered s v pte (with_entry (with_new_table s v) v pte)
  with_new_table-Entered missing =
      let e =
        with_entry-Entered (with_new_table s v) v pte with_new_table-IsVmap hv
          has_table-with_new_table in
      record {
        valid = e.valid;
        present = e.present;
        here = e.here;
        kept = λ u hu there. e.kept u hu (has_table-with_new_table_ne u hu there);
        beside = λ u hu ne apart. elim apart [
          | inl there ↦ cc
          | inr far ↦
              e.beside u hu ne (inl has_table-with_new_table) ∙ entry-with_new_table_ne u hu far
        ];
        stale = λ u hu ne _ same.
            e.beside u hu ne (inl has_table-with_new_table) ∙ entry-with_new_table u same;
        taken = rw missing refl;
      }

-- There is a page table for virtual page `v`, or a page for it.
abbrev pub HasRoom : Vmap → ℕ → Type 0
HasRoom s v = (has_table s v ≡ true) ⊎ IsFresh s.memory s.dir s.pgdirs (page_alloc s.mmap).0

IsFresh-of_missing :
    (s : Vmap) (v : ℕ)
    → has_table s v ≡ false
    → HasRoom s v
    → IsFresh s.memory s.dir s.pgdirs (page_alloc s.mmap).0
IsFresh-of_missing s v missing (inl there) = cc
IsFresh-of_missing s v missing (inr fresh) = fresh

-- Below the page tables, and for any address space, `vmap_set_pte` makes the entry of the page and
-- adds the page table if it is missing, which takes the one page that page_alloc gives. At most one round of the clock
-- of the slots passes.
pub vmap_set_pte-Entered :
    (fuel vid vaddress pte : ℕ) (s : Vmap)
    → IsVmap s
    → s.seq < int32_max
    → vaddress / 4096 < end_page
    → HasRoom s (vaddress / 4096)
    → (s' : Vmap) × (vmap_set_pte (suc (suc fuel)) vid vaddress pte s ≡ some (tt, s'))
      × Entered s (vaddress / 4096) pte s'
      × (s'.seq ≤ s.seq + 1)
unfolding vmap_set_pte add_table alloc with_table
vmap_set_pte-Entered fuel vid vaddress pte s w early hv room =
    let (i, asids, seq, first) = vmap_get_pgtable-HasSlot vid s w.clocked early in
    let s1 : Vmap = record s { asids = asids; seq = seq } in
    let w1 : IsVmap s1 = record { clocked = first.clocked; mapped = w.mapped } in
    let v : ℕ = vaddress / 4096 in
    let r = vmap_get_page-pgtbls vid v i s1 w1 first.held first.inside hv in
    let s2 : Vmap = record s1 { asids = r.0 } in
    let w2 : IsVmap s2 = record { clocked = r.2.clocked; mapped = w.mapped } in
    let k : v / 1024 < 1016 = omega arith in
    elim (Bool-cases (has_table s v)) [
      | inl present ↦
          let t = w.mapped.tables (v / 1024) k (==→eq _ _ present) in
          let at = store-with_entry s2 v pte w2 hv present k i first.inside in
          let e = with_entry-Entered s2 v pte w2 hv present in
          (
            with_entry s2 v pte,
            rw (vmap_set_pte, ◌>>=◌, first.run, r.1, present, ne→== _ 0 t.nonzero, at),
            record {
              valid = e.valid;
              present = e.present;
              here = e.here;
              kept = e.kept;
              beside = e.beside;
              stale = e.stale;
              taken = e.taken;
            },
            first.soon,
          )
      | inr missing ↦
          let fresh = IsFresh-of_missing s v missing room in
          let s3 : Vmap = with_new_table s2 v in
          let w3 = with_new_table-IsVmap s2 v pte w2 hv fresh in
          let there = has_table-with_new_table s2 v pte w2 hv fresh in
          let at = store-with_entry s3 v pte w3 hv there k i first.inside in
          let loop =
            map_tables_lem fuel 8 0 v (page_alloc s.mmap).0
              (record s2 { mmap = (page_alloc s.mmap).1 }) w.mapped.installed w.mapped.positive
              (omega arith) hv in
          let e = with_new_table-Entered s2 v pte w2 hv fresh missing in
          (
            with_entry s3 v pte,
            rw (vmap_set_pte, ◌>>=◌, first.run, r.1, missing, add_table, alloc, loop, at),
            record {
              valid = e.valid;
              present = e.present;
              here = e.here;
              kept = e.kept;
              beside = e.beside;
              stale = e.stale;
              taken = e.taken;
            },
            first.soon,
          )
    ]
