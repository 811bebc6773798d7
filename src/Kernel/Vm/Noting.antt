-- ===== src/Kernel/Vm/Noting.antt =====
-- kernel/vm.c: the calls on `vmpages`, which is a vector of libk/vector.c. A `map_getip` of a page from
-- 64 on in a vector of one table reads outside of it, and a `map_putip` that does not extend the
-- vector far enough writes outside.
use twcos.Common.{
  ℕ, zero, suc, ◌-◌, ◌^◌, ◌<◌, ◌≤◌, ◌≡◌, ◌≢◌, ◌&&◌, Option, none, some, ltb, leb, ◌==◌,
  if◌then◌else◌, arith, ◌⊎◌, inl, inr, lt→ltb, Option-cases,
}
use twcos.Libk.Vector.{Vector, vector_checksize, vector_table_new}
use twcos.Libk.Vector.Lookup.{room}
use twcos.Libk.Vector.Growth.{Grown, vector_checksize-Grown}
use twcos.Kernel.Vm.{VmPage, Vm, ok, stop, outside, M, ◌>>=◌, ◌>>◌}
use twcos.Kernel.Vm.Rmap.{VmPages, vm_vmpage_map, vm_vmpage_setflags}

-- The level of a vector that `vector_put` of a page has extended; `none` is a write outside of it.
unfoldable pub level_for : (level page : ℕ) → Option ℕ
level_for level page =
    elim (vector_checksize (5 - level) (record { level = level; table = vector_table_new level })
      page) [ none ↦ none | some v ↦ if ltb page (64 ^ suc v.level) then some v.level else none ]

module _ {Pages : Type 0} where
  -- A call of a function on `vmpages`.
  unfoldable pub on_vmpages : (VmPages → VmPages) → M Pages (Unit {0})
  on_vmpages f s = ok (tt, record s { vmpages = f s.vmpages })

  -- `map_getip(vmpages, page)`
  unfoldable pub read_vmpage : ℕ → M Pages (Unit {0})
  read_vmpage page s = if s.level == 0 && leb 64 page then stop outside else ok (tt, s)

  -- `map_putip(vmpages, page, vmpage)`; an entry that is there is inside the tables.
  unfoldable pub put_vmpage : ℕ → M Pages (Unit {0})
  put_vmpage page s = elim (s.vmpages page) [
    | some v ↦ ok (tt, s)
    | none ↦ elim (level_for s.level page) [
      | none ↦ stop outside
      | some level ↦ ok (tt, record s { level = level })
    ]
  ]

  -- The calls of `vm_vmpage_map` and `vm_vmpage_setflags` in `vm_page_fault`.
  unfoldable pub note_fault : VmPage → (page space p flags : ℕ) → M Pages (Unit {0})
  note_fault junk page space p flags = do
    read_vmpage page
    put_vmpage page
    on_vmpages (λ v. vm_vmpage_map junk v page space p)
    read_vmpage page
    on_vmpages (λ v. vm_vmpage_setflags v page flags)

-- The vector of `vmpages` has a place for the page, or can be extended to have one.
pub record InVector (level page : ℕ) : Type 0 where
  pub level_low : level ≤ 4
  pub page_low : page < room 4
  pub apart : (n : ℕ) → page ≢ room n
  pub near : (page < 64) ⊎ (1 ≤ level)

level_for-some :
    (level page : ℕ)
    → InVector level page
    → (n : ℕ) × (level_for level page ≡ some n) × (page < room n)
unfolding level_for
level_for-some level page fits =
    let v : Vector = record { level = level; table = vector_table_new level } in
    let e : 5 - level ≡ suc (4 - level) = omega (arith, fits.level_low) in
    rw (level_for, e)
      (at_size v (vector_checksize (suc (4 - level)) v page) (
        vector_checksize-Grown (4 - level) v page (omega (arith, fits.level_low))
          (omega (arith, fits.page_low))))
  where
    at_size :
        (v : Vector) (o : Option Vector)
        → Grown v page o
        → (n : ℕ) × ((elim o [
          | none ↦ none
          | some v' ↦ if ltb page (64 ^ suc v'.level) then some v'.level else none
        ])
            ≡ some n)
          × (page < room n)
    at_size v none h = cc
    at_size v (some v') (reach, low, same) =
        let inside : page < room v'.level = omega (arith, reach, fits.apart v'.level) in
        (v'.level, rw (lt→ltb _ _ inside), inside)

read_in :
    {Pages : Type 0} (s : Vm Pages) (page : ℕ)
    → (page < 64) ⊎ (1 ≤ s.level)
    → read_vmpage page s ≡ ok (tt, s)
unfolding read_vmpage
read_in s page (inl near) = ground (arith, near)
read_in s page (inr deep) = ground (arith, deep)

near_in : (level page : ℕ) → page < room level → (page < 64) ⊎ (1 ≤ level)
near_in zero page h = inl h
near_in (suc level) page h = inr (omega arith)

-- Where the vector has a place for the page, noting a fault returns, and changes `vmpages` by the calls
-- of `vm_vmpage_map` and `vm_vmpage_setflags` alone.
pub note_fault-ok :
    {Pages : Type 0} (junk : VmPage) (page space p flags : ℕ) (s : Vm Pages)
    → InVector s.level page
    → (level : ℕ) × (note_fault junk page space p flags s
        ≡ ok (
          tt,
          record s {
            vmpages = vm_vmpage_setflags (vm_vmpage_map junk s.vmpages page space p) page flags;
            level = level;
          },
        ))
unfolding note_fault put_vmpage on_vmpages
note_fault-ok junk page space p flags s fits = elim (Option-cases (s.vmpages page)) [
  | inr (v, there) ↦ (
    s.level,
    rw (
      note_fault,
      ◌>>=◌,
      read_in s page fits.near,
      put_vmpage,
      there,
      on_vmpages,
      read_in (record s { vmpages = vm_vmpage_map junk s.vmpages page space p }) page fits.near,
    ),
  )
  | inl missing ↦
      let (n, found, inside) = level_for-some s.level page fits in
      (
        n,
        rw (
          note_fault,
          ◌>>=◌,
          read_in s page fits.near,
          put_vmpage,
          missing,
          found,
          on_vmpages,
          read_in (record s { vmpages = vm_vmpage_map junk s.vmpages page space p; level = n }) page
              (near_in n page inside),
        ),
      )
]
