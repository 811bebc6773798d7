-- ===== src/Arch/Vmap/Entries.antt =====
-- The array `pgtbls` of arch/i386/vmap.c: an access to entry `v` of space `i` goes to the page that
-- the directory of the space names for it, whatever directory is in use.
use twcos.Common.{
  ℕ, ◌+◌, ◌*◌, ◌/◌, ◌%◌, ◌^◌, ◌<◌, ◌≡◌, ◌∙◌, refl, none, some, arith, ◌==◌, if◌then◌else◌,
  Bool-cases, inl, inr,
}
use twcos.Arch.Vmap.{Vmap, load, store, translate, write, table, pgtbls}

-- The last eight entries of every directory name the directories, so that these serve as the page
-- tables of `pgtbls`.
pub record IsInstalled (memory : ℕ → ℕ → ℕ) (dir pgdirs : ℕ) : Type 0 where
  pub here : (j : ℕ) → j < 8 → memory dir (1016 + j) ≡ (pgdirs + j) * 4096 + 3
  pub each : (i j : ℕ) → i < 8 → j < 8 → memory (pgdirs + i) (1016 + j) ≡ (pgdirs + j) * 4096 + 3

-- The directory entry of a virtual page.
abbrev pub pde : Vmap → ℕ → ℕ → ℕ
pde s i v = s.memory (s.pgdirs + i) (v / 1024)

module _ (s : Vmap) (w : IsInstalled s.memory s.dir s.pgdirs) (i v : ℕ) (hi : i < 8)
    (hv : v < 2 ^ 20) where
  pub translate-table :
      translate s (pgtbls (table i v) / 4096)
      ≡ (if pde s i v % 2 == 1 then some (pde s i v / 4096) else none)
  unfolding translate
  translate-table =
      let high : pgtbls (table i v) / 4096 / 1024 ≡ 1016 + i = omega arith in
      let low : pgtbls (table i v) / 4096 % 1024 ≡ v / 1024 = omega arith in
      let odd : ((s.pgdirs + i) * 4096 + 3) % 2 ≡ 1 = omega arith in
      let page : ((s.pgdirs + i) * 4096 + 3) / 4096 ≡ s.pgdirs + i = omega arith in
      rw (high, low, w.here i hi, odd, page)

  pub load_lem :
      load (table i v) s
      ≡ (if pde s i v % 2 == 1 then some (s.memory (pde s i v / 4096) (v % 1024), s) else none)
  unfolding load
  load_lem =
      let low : table i v % 1024 ≡ v % 1024 = omega arith in
      elim (Bool-cases (pde s i v % 2 == 1)) [
        | inl e ↦ rw (load, translate-table, e, low)
        | inr e ↦ rw (load, translate-table, e)
      ]

  pub store_lem :
      (x : ℕ)
      → store (table i v) x s ≡ (
          if pde s i v % 2 == 1
          then some (tt, record s { memory = write s.memory (pde s i v / 4096) (v % 1024) x })
          else none)
  unfolding store
  store_lem x =
      let low : table i v % 1024 ≡ v % 1024 = omega arith in
      elim (Bool-cases (pde s i v % 2 == 1)) [
        | inl e ↦ rw (store, translate-table, e, low)
        | inr e ↦ rw (store, translate-table, e)
      ]

pub odd : (p : ℕ) → (p * 4096 + 3) % 2 ≡ 1
odd p = omega arith

pub page : (p : ℕ) → (p * 4096 + 3) / 4096 ≡ p
page p = omega arith

-- The pages behind the last eight entries are the directories themselves.
module _ (s : Vmap) (w : IsInstalled s.memory s.dir s.pgdirs) (i j v k : ℕ) (hi : i < 8)
    (hj : j < 8) (high : v / 1024 ≡ 1016 + j) (low : v % 1024 ≡ k) where
  pub load-directory : load (table i v) s ≡ some (s.memory (s.pgdirs + j) k, s)
  load-directory =
      load_lem s w i v hi (omega arith)
      ∙ rw (pde, high, low, w.each i j hi hj, odd (s.pgdirs + j), page (s.pgdirs + j)) refl

  pub store-directory :
      (x : ℕ)
      → store (table i v) x s ≡ some (tt, record s { memory = write s.memory (s.pgdirs + j) k x })
  store-directory x =
      store_lem s w i v hi (omega arith) x
      ∙ rw (pde, high, low, w.each i j hi hj, odd (s.pgdirs + j), page (s.pgdirs + j)) refl
