-- ===== src/Arch/Vmap/Spaces.antt =====
-- The operations of arch/i386/vmap.c on address spaces.
use twcos.Common.{
  ℕ, zero, suc, ◌+◌, ◌-◌, ◌*◌, ◌/◌, ◌%◌, ◌^◌, ◌<◌, ◌≤◌, ◌≡◌, ◌≢◌, refl, ap, ◌∙◌, Bool, true, none,
  some, arith, ◌==◌, if◌then◌else◌, Bool-cases, inl, inr, subst, ◌⊎◌,
}
use twcos.Arch.Vmap.{
  Vmap, ◌>>=◌, load, table, bits, int32_max, vmap_get_pgdir, vmap_set_asid, vmap_get_page, vmap_map,
  vmap_mapn, vmap_unmap, vmap_ismapped, vmap_iswriteable, vmap_isuser,
}
use twcos.Arch.Vmap.Asids.{asid_slot, vmap_get_pgtable-HasSlot}
use twcos.Arch.Vmap.Entries.{load_lem, load-directory, page}
use twcos.Arch.Vmap.Tables.{end_page, entry, has_table, IsVmap, Looked, vmap_get_pte-entry}
use twcos.Arch.Vmap.Directories.{bits_lem}
use twcos.Arch.Vmap.Mapping.{Entered, HasRoom, vmap_set_pte-Entered}

-- `vmap_get_page` gives the page of the entry, 0 if that is not present, for any address space; but
-- the address must have a page table, or the read is a fault that nothing resolves.
pub vmap_get_page-entry :
    (vid vaddress : ℕ) (s : Vmap)
    → IsVmap s
    → s.seq < int32_max
    → vaddress / 4096 < end_page
    → (s' : Vmap) × (vmap_get_page vid vaddress s ≡ (
        if has_table s (vaddress / 4096)
        then some
            (if entry s (vaddress / 4096) % 2 == 1 then entry s (vaddress / 4096) / 4096 else 0, s')
        else none))
      × Looked s s'
unfolding vmap_get_page
vmap_get_page-entry vid vaddress s w early low =
    let (i, asids, seq, first) = vmap_get_pgtable-HasSlot vid s w.clocked early in
    let s1 : Vmap = record s { asids = asids; seq = seq } in
    let v : ℕ = vaddress / 4096 in
    let same : s.memory (s.pgdirs + i) (v / 1024) ≡ s.memory s.pgdirs (v / 1024) =
      w.mapped.shared i (v / 1024) first.inside (omega arith) in
    let at = load_lem s1 w.mapped.installed i v first.inside (omega arith) in
    (
      s1,
      elim (Bool-cases (has_table s v)) [
        | inl present ↦ rw (vmap_get_page, ◌>>=◌, first.run, at, same, present)
        | inr missing ↦ rw (vmap_get_page, ◌>>=◌, first.run, at, same, missing)
      ],
      record {
        valid = record { clocked = first.clocked; mapped = w.mapped };
        memory_kept = refl;
        dir_kept = refl;
        pgdirs_kept = refl;
        mmap_kept = refl;
        soon = first.soon;
      },
    )

module _ (vid vaddress : ℕ) (s : Vmap) (w : IsVmap s) (early : s.seq < int32_max)
    (low : vaddress / 4096 < end_page) where
  pub vmap_ismapped-entry :
      (s' : Vmap) × (vmap_ismapped vid vaddress s ≡ some (entry s (vaddress / 4096) % 2, s'))
  unfolding vmap_ismapped
  vmap_ismapped-entry =
      let r = vmap_get_pte-entry vid vaddress s w early low in (r.0, rw (vmap_ismapped, ◌>>=◌, r.1))

  vmap_iswriteable-entry :
      (s' : Vmap) × (vmap_iswriteable vid vaddress s
        ≡ some (entry s (vaddress / 4096) / 2 % 2 * 2, s'))
  unfolding vmap_iswriteable
  vmap_iswriteable-entry =
      let r = vmap_get_pte-entry vid vaddress s w early low in
      (r.0, rw (vmap_iswriteable, ◌>>=◌, r.1))

  vmap_isuser-entry :
      (s' : Vmap) × (vmap_isuser vid vaddress s ≡ some (entry s (vaddress / 4096) / 4 % 2 * 4, s'))
  unfolding vmap_isuser
  vmap_isuser-entry =
      let r = vmap_get_pte-entry vid vaddress s w early low in (r.0, rw (vmap_isuser, ◌>>=◌, r.1))

-- After `vmap_map` in one address space, every address space, the same or another, has the page at
-- that address, with the rights asked for.
pub vmap_get_page-vmap_map :
    (vid other vaddress p : ℕ) (writeable user : Bool) (s : Vmap)
    → IsVmap s
    → s.seq + 1 < int32_max
    → vaddress / 4096 < end_page
    → p < 2 ^ 20
    → HasRoom s (vaddress / 4096)
    → (s' s1 s2 s3 s4 : Vmap) × (vmap_map vid vaddress p writeable user s ≡ some (tt, s'))
      × (vmap_get_page other vaddress s' ≡ some (p, s1))
      × (vmap_ismapped other vaddress s' ≡ some (1, s2))
      × (vmap_iswriteable other vaddress s' ≡ some (if writeable then 2 else 0, s3))
      × (vmap_isuser other vaddress s' ≡ some (if user then 4 else 0, s4))
unfolding vmap_map
vmap_get_page-vmap_map vid other vaddress p writeable user s w early low small room =
    let (s', run, e, soon) =
      vmap_set_pte-Entered 0 vid vaddress (bits p writeable user) s w (omega arith) low room in
    let b = bits_lem p writeable user small in
    let g = vmap_get_page-entry other vaddress s' e.valid (omega arith) low in
    let m = vmap_ismapped-entry other vaddress s' e.valid (omega arith) low in
    let r = vmap_iswriteable-entry other vaddress s' e.valid (omega arith) low in
    let u = vmap_isuser-entry other vaddress s' e.valid (omega arith) low in
    (
      s',
      g.0,
      m.0,
      r.0,
      u.0,
      run,
      rw (g.1, e.here, e.present, b.0, b.1),
      rw (m.1, e.here, b.0),
      rw (r.1, e.here, b.2),
      rw (u.1, e.here, b.3),
    )

-- After `vmap_unmap` in one address space the page is mapped in none.
pub vmap_ismapped-vmap_unmap :
    (vid other vaddress : ℕ) (s : Vmap)
    → IsVmap s
    → s.seq + 1 < int32_max
    → vaddress / 4096 < end_page
    → HasRoom s (vaddress / 4096)
    → (s' s1 : Vmap) × (vmap_unmap vid vaddress s ≡ some (tt, s'))
      × (vmap_ismapped other vaddress s' ≡ some (0, s1))
unfolding vmap_unmap
vmap_ismapped-vmap_unmap vid other vaddress s w early low room =
    let (s', run, e, soon) = vmap_set_pte-Entered 0 vid vaddress 0 s w (omega arith) low room in
    let m = vmap_ismapped-entry other vaddress s' e.valid (omega arith) low in
    (s', m.0, run, rw (m.1, e.here))

-- `vmap_set_asid` puts the directory of the address space's slot in use; the memory stays as it is,
-- and the page tables are valid under the new directory.
pub vmap_set_asid-dir :
    (vid : ℕ) (s : Vmap)
    → IsVmap s
    → s.seq < int32_max
    → (i : ℕ) × (s' : Vmap) × (vmap_set_asid vid s ≡ some (tt, s'))
      × (asid_slot vid s'.asids ≡ some i)
      × (s'.dir ≡ s.pgdirs + i)
      × (s'.memory ≡ s.memory)
      × (s'.pgdirs ≡ s.pgdirs)
      × (s'.seq ≤ s.seq + 1)
      × IsVmap s'
unfolding vmap_set_asid vmap_get_pgdir
vmap_set_asid-dir vid s w early =
    let (i, asids, seq, first) = vmap_get_pgtable-HasSlot vid s w.clocked early in
    let s1 : Vmap = record s { asids = asids; seq = seq } in
    let at : (k : ℕ)
        → k ≡ 2 ^ 20 - 8 + i
        → load (table i k) s1 ≡ some ((s.pgdirs + i) * 4096 + 3, s1) =
      λ k e.
        load-directory s1 w.mapped.installed i 7 k (1016 + i) first.inside (omega arith)
          (omega arith) (omega arith)
        ∙ rw (w.mapped.installed.each 7 i (omega arith) first.inside) in
    (
      i,
      record s1 { dir = s.pgdirs + i },
      elim (Bool-cases (vid == 0)) [
        | inl kernel ↦
            let h : asid_slot vid asids ≡ some 0 = unfold asid_slot in rw kernel in
            let z : 0 ≡ i = ground (arith, h, first.held) in
            rw (
              vmap_set_asid,
              vmap_get_pgdir,
              ◌>>=◌,
              first.run,
              kernel,
              at (2 ^ 20 - 8) (omega arith),
              page (s.pgdirs + i),
            )
        | inr user ↦ rw (
          vmap_set_asid,
          vmap_get_pgdir,
          ◌>>=◌,
          first.run,
          user,
          at (2 ^ 20 - 8 + i) refl,
          page (s.pgdirs + i),
        )
      ],
      first.held,
      refl,
      refl,
      refl,
      first.soon,
      record {
        clocked = first.clocked;
        mapped = record {
          installed = record {
            here = λ j lt. w.mapped.installed.each i j first.inside lt;
            each = w.mapped.installed.each;
          };
          positive = w.mapped.positive;
          shared = w.mapped.shared;
          tables = λ k lt o.
              let t = w.mapped.tables k lt o in
              record {
                nonzero = t.nonzero;
                not_used = t.no_directory i first.inside;
                no_directory = t.no_directory;
              };
          distinct = w.mapped.distinct;
        };
      },
    )

-- Each of the `n` virtual pages from `v` on has the entry of its page, and no other entry changes.
pub record Ranged (s : Vmap) (v n : ℕ) (pte : ℕ → ℕ) (s' : Vmap) : Type 0 where
  pub valid : IsVmap s'
  pub inside : (i : ℕ) → i < n → entry s' (v + i) ≡ pte i
  pub outside : (u : ℕ) → u < end_page → u < v ⊎ v + n ≤ u → entry s' u ≡ entry s u
  pub kept : (u : ℕ) → u < end_page → has_table s u ≡ true → has_table s' u ≡ true
  pub soon : s'.seq ≤ s.seq + n

-- One more page in front.
pub Ranged-suc :
    (s t s' : Vmap) (v v' n x : ℕ) (pte pte' : ℕ → ℕ)
    → v + suc n ≤ end_page
    → v' ≡ v + 1
    → x ≡ pte 0
    → ((i : ℕ) → pte' i ≡ pte (suc i))
    → has_table s v ≡ true
    → Entered s v x t
    → t.seq ≤ s.seq + 1
    → Ranged t v' n pte' s'
    → Ranged s v (suc n) pte s'
Ranged-suc s t s' v v' n x pte pte' fits next first later there e soon r = record {
  valid = r.valid;
  inside = inside;
  outside = λ u hu out. r.outside u hu (apart u out) ∙ e.beside u hu (ne u out) (inl there);
  kept = λ u hu h. r.kept u hu (e.kept u hu h);
  soon = omega (arith, r.soon);
}
  where
    ne : (u : ℕ) → u < v ⊎ v + suc n ≤ u → u ≢ v
    ne u (inl h) e' = omega arith
    ne u (inr h) e' = omega arith

    apart : (u : ℕ) → u < v ⊎ v + suc n ≤ u → u < v' ⊎ v' + n ≤ u
    apart u (inl h) = inl (omega arith)
    apart u (inr h) = inr (omega arith)

    inside : (i : ℕ) → i < suc n → entry s' (v + i) ≡ pte i
    inside zero h =
        subst (λ u. entry s' u ≡ pte 0) {x = v} (omega arith)
          (r.outside v (omega arith) (inl (omega arith)) ∙ e.here ∙ first)
    inside (suc i) h =
        subst (λ u. entry s' u ≡ pte (suc i)) {x = v' + i} (omega arith)
          (r.inside i (omega arith) ∙ later i)

-- `vmap_mapn` on `n` virtual pages that have page tables and end below the tables' own addresses
-- maps them to `n` pages from `p` on, in order, and changes no other entry.
pub vmap_mapn-Ranged :
    (vid n vaddress p : ℕ) (writeable user : Bool) (s : Vmap)
    → IsVmap s
    → s.seq + n < int32_max
    → vaddress / 4096 + n ≤ end_page
    → ((i : ℕ) → i < n → has_table s (vaddress / 4096 + i) ≡ true)
    → (s' : Vmap) × (vmap_mapn vid n vaddress p writeable user s ≡ some (tt, s'))
      × Ranged s (vaddress / 4096) n (λ i. bits (p + i) writeable user) s'
unfolding vmap_mapn vmap_map
vmap_mapn-Ranged vid zero vaddress p writeable user s w early fits there = (
  s,
  refl,
  record {
    valid = w;
    inside = λ i h. absurd (omega arith);
    outside = λ u hu h. refl;
    kept = λ u hu h. h;
    soon = omega arith;
  },
)
vmap_mapn-Ranged vid (suc n) vaddress p writeable user s w early fits there =
    let v : ℕ = vaddress / 4096 in
    let here : has_table s v ≡ true =
      subst (λ u. has_table s u ≡ true) {x = v + 0} (omega arith) (there 0 (omega arith)) in
    let (t, run, e, soon) =
      vmap_set_pte-Entered 0 vid vaddress (bits p writeable user) s w (omega arith) (omega arith)
        (inl here) in
    let next : (vaddress + 4096) % 2 ^ 32 / 4096 ≡ v + 1 = omega arith in
    let rest =
      vmap_mapn-Ranged vid n ((vaddress + 4096) % 2 ^ 32) (p + 1) writeable user t e.valid
        (omega arith) (omega arith)
        (λ i h. e.kept _ (omega arith) (
          subst (λ u. has_table s u ≡ true) {x = v + suc i}
            {y = (vaddress + 4096) % 2 ^ 32 / 4096 + i} (omega arith)
            (there (suc i) (omega arith)))) in
    (
      rest.0,
      rw (◌>>=◌, run) rest.1,
      Ranged-suc s t rest.0 v ((vaddress + 4096) % 2 ^ 32 / 4096) n (bits p writeable user)
          (λ i. bits (p + i) writeable user) (λ i. bits (p + 1 + i) writeable user) (omega arith)
          next (ap (λ k. bits k writeable user) (omega arith))
          (λ i. ap (λ k. bits k writeable user) (omega arith)) here e soon rest.2,
    )
