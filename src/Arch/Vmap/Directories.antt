-- ===== src/Arch/Vmap/Directories.antt =====
-- What a write into a page table, and a new page table, leave of the directories of
-- arch/i386/vmap.c.
use twcos.Common.{
  ℕ, ◌+◌, ◌*◌, ◌/◌, ◌%◌, ◌^◌, ◌<◌, ◌≡◌, ◌≢◌, sym, ◌∙◌, Bool, true, false, arith, ◌==◌,
  if◌then◌else◌, Bool-cases, inl, inr, ==→eq, ne→==, subst,
}
use twcos.Arch.Vmap.{write, bits}
use twcos.Arch.Vmap.Tables.{IsMapped, IsTable}
use twcos.Arch.Vmap.Missing.{put_tables, put_tables-word, put_tables-page, put_tables-here}

-- A page that the allocator may hand out for a page table.
pub record IsFresh (memory : ℕ → ℕ → ℕ) (dir pgdirs p : ℕ) : Type 0 where
  pub table_page : IsTable dir pgdirs p
  pub small : p < 2 ^ 20
  pub unused : (k : ℕ) → k < 1016 → memory pgdirs k % 2 ≡ 1 → memory pgdirs k / 4096 ≢ p

-- A write into a page table leaves the directories as they are.
pub write-IsMapped :
    (memory : ℕ → ℕ → ℕ) (dir pgdirs t k x : ℕ)
    → IsTable dir pgdirs t
    → IsMapped memory dir pgdirs
    → IsMapped (write memory t k x) dir pgdirs
write-IsMapped memory dir pgdirs t k x h w = record {
  installed = record {
    here = λ j lt. rw (in_use (1016 + j)) (w.installed.here j lt);
    each = λ i j hi lt. rw (at i hi (1016 + j)) (w.installed.each i j hi lt);
  };
  positive = w.positive;
  shared = λ i l hi lt. rw (at i hi l, first l) (w.shared i l hi lt);
  tables = λ l lt odd. rw (first l) (w.tables l lt (rw (first l) at odd));
  distinct = λ l l' lt lt' odd odd' same.
      w.distinct l l' lt lt' (rw (first l) at odd) (rw (first l') at odd')
        (rw (first l, first l') at same);
}
  where
    in_use : (l : ℕ) → write memory t k x dir l ≡ memory dir l
    in_use l = rw (ne→== dir t (λ e. h.not_used (sym e)))

    at : (i : ℕ) → i < 8 → (l : ℕ) → write memory t k x (pgdirs + i) l ≡ memory (pgdirs + i) l
    at i hi l = rw (ne→== (pgdirs + i) t (λ e. h.no_directory i hi (sym e)))

    first : (l : ℕ) → write memory t k x pgdirs l ≡ memory pgdirs l
    first l = rw (ne→== pgdirs t (λ e. h.no_directory 0 (omega arith) (omega (arith, e))))

module _ (memory : ℕ → ℕ → ℕ) (dir pgdirs k p : ℕ) where
  unfoldable pub with_table : ℕ → ℕ → ℕ
  with_table = put_tables pgdirs 8 0 k (bits p true false) memory

  pub with_table-here : (i : ℕ) → i < 8 → with_table (pgdirs + i) k ≡ bits p true false
  unfolding with_table
  with_table-here i hi =
      put_tables-here pgdirs k (bits p true false) 8 0 memory i (omega arith) (omega arith)

  pub with_table-word : (q l : ℕ) → l ≢ k → with_table q l ≡ memory q l
  unfolding with_table
  with_table-word q l ne = put_tables-word pgdirs k (bits p true false) 8 0 memory q l ne

  pub with_table-page : (q l : ℕ) → ((i : ℕ) → i < 8 → q ≢ pgdirs + i) → with_table q l ≡ memory q l
  unfolding with_table
  with_table-page q l ne =
      put_tables-page pgdirs k (bits p true false) 8 0 memory q l (λ i h. ne i (omega arith))

  pub with_table-first : with_table pgdirs k ≡ bits p true false
  with_table-first =
      subst (λ q. with_table q k ≡ bits p true false) {x = pgdirs + 0} (omega arith)
        (with_table-here 0 (omega arith))

pub bits_lem :
    (p : ℕ) (rw' user : Bool)
    → p < 2 ^ 20
    → (bits p rw' user % 2 ≡ 1)
      × (bits p rw' user / 4096 ≡ p)
      × (bits p rw' user / 2 % 2 * 2 ≡ (if rw' then 2 else 0))
      × (bits p rw' user / 4 % 2 * 4 ≡ (if user then 4 else 0))
bits_lem p true true h = omega arith
bits_lem p true false h = omega arith
bits_lem p false true h = omega arith
bits_lem p false false h = omega arith

-- The new table in the directories: below the tables' own entries they still agree, and each table
-- is named once.
pub with_table-IsMapped :
    (memory : ℕ → ℕ → ℕ) (dir pgdirs k p : ℕ)
    → k < 1016
    → IsMapped memory dir pgdirs
    → IsFresh memory dir pgdirs p
    → IsMapped (with_table memory dir pgdirs k p) dir pgdirs
with_table-IsMapped memory dir pgdirs k p hk w f = record {
  installed = record {
    here = λ j lt.
        rw (with_table-word memory dir pgdirs k p dir (1016 + j) (omega arith))
          (w.installed.here j lt);
    each = λ i j hi lt.
        rw (with_table-word memory dir pgdirs k p (pgdirs + i) (1016 + j) (omega arith))
          (w.installed.each i j hi lt);
  };
  positive = w.positive;
  shared = λ i l hi lt. elim (Bool-cases (l == k)) [
    | inl same ↦
        rw (==→eq l k same) (
          with_table-here memory dir pgdirs k p i hi ∙ sym (with_table-first memory dir pgdirs k p))
    | inr other ↦ old (pgdirs + i) l other ∙ w.shared i l hi lt ∙ sym (old pgdirs l other)
  ];
  tables = λ l lt odd. elim (Bool-cases (l == k)) [
    | inl same ↦ subst (IsTable dir pgdirs) {x = p} (sym (named l same)) f.table_page
    | inr other ↦ rw (old pgdirs l other) (w.tables l lt (rw (old pgdirs l other) at odd))
  ];
  distinct = λ l l' lt lt' odd odd' e. elim (Bool-cases (l == k)) [
    | inl same ↦ elim (Bool-cases (l' == k)) [
      | inl same' ↦ ==→eq l k same ∙ sym (==→eq l' k same')
      | inr other' ↦ absurd (
          f.unused l' lt' (rw (old pgdirs l' other') at odd')
            (rw (old pgdirs l' other') at (sym e ∙ named l same)))
    ]
    | inr other ↦ elim (Bool-cases (l' == k)) [
      | inl same' ↦ absurd (
          f.unused l lt (rw (old pgdirs l other) at odd)
            (rw (old pgdirs l other) at (e ∙ named l' same')))
      | inr other' ↦
          w.distinct l l' lt lt' (rw (old pgdirs l other) at odd)
            (rw (old pgdirs l' other') at odd') (rw (old pgdirs l other, old pgdirs l' other') at e)
    ]
  ];
}
  where
    old : (q l : ℕ) → (l == k) ≡ false → with_table memory dir pgdirs k p q l ≡ memory q l
    old q l other = with_table-word memory dir pgdirs k p q l (ground arith)

    named : (l : ℕ) → (l == k) ≡ true → with_table memory dir pgdirs k p pgdirs l / 4096 ≡ p
    named l same =
        rw (==→eq l k same, with_table-first memory dir pgdirs k p)
          ((bits_lem p true false f.small).1)
