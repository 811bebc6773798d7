-- ===== src/Arch/Vmap/Init/Image.antt =====
-- The image that `vmap_init` of arch/i386/vmap.c maps.
use twcos.Common.{
  ℕ, zero, suc, ◌+◌, ◌-◌, ◌*◌, ◌/◌, ◌%◌, ◌^◌, ◌<◌, ◌≤◌, ◌≡◌, refl, sym, ap, ◌∙◌, inl, Bool, true,
  false, some, arith, subst,
}
use twcos.Arch.Vmap.{Vmap, ◌>>=◌, bits, int32_max, vmap_map}
use twcos.Arch.Vmap.Tables.{end_page, entry, has_table, IsVmap}
use twcos.Arch.Vmap.Mapping.{vmap_set_pte-Entered}
use twcos.Arch.Vmap.Spaces.{Ranged, Ranged-suc, vmap_set_asid-dir}
use twcos.Arch.Vmap.Init.{Layout, init_tables, map_image, page_rounds, vmap_init}
use twcos.Arch.Vmap.Init.Directory.{IsBooted, init_tables-IsVmap}

-- The page of memory of an address of the image.
abbrev pub image_page : ℕ → ℕ → ℕ
image_page offset p = (p + 2 ^ 32 - offset) % 2 ^ 32 / 4096

map_image-Ranged :
    (offset n p : ℕ) (writeable : Bool) (s : Vmap)
    → IsVmap s
    → s.seq + n < int32_max
    → p / 4096 + n ≤ end_page
    → ((i : ℕ) → i < n → has_table s (p / 4096 + i) ≡ true)
    → (s' : Vmap) × (map_image offset n p writeable s ≡ some (tt, s'))
      × Ranged s (p / 4096) n (λ i. bits (image_page offset (p + 4096 * i)) writeable false) s'
unfolding map_image vmap_map
map_image-Ranged offset zero p writeable s w early fits there = (
  s,
  refl,
  record {
    valid = w;
    inside = λ i h. absurd (omega arith);
    outside = λ u hu h. refl;
    kept = λ u hu h. h;
    soon = omega arith;
  },
)
map_image-Ranged offset (suc n) p writeable s w early fits there =
    let v : ℕ = p / 4096 in
    let here : has_table s v ≡ true =
      subst (λ u. has_table s u ≡ true) {x = v + 0} (omega arith) (there 0 (omega arith)) in
    let (t, run, e, soon) =
      vmap_set_pte-Entered 0 0 p (bits (image_page offset p) writeable false) s w (omega arith)
        (omega arith) (inl here) in
    let next : (p + 4096) % 2 ^ 32 / 4096 ≡ v + 1 = omega arith in
    let rest =
      map_image-Ranged offset n ((p + 4096) % 2 ^ 32) writeable t e.valid (omega arith)
        (omega arith)
        (λ i h. e.kept _ (omega arith) (
          subst (λ u. has_table s u ≡ true) {x = v + suc i} {y = (p + 4096) % 2 ^ 32 / 4096 + i}
            (omega arith) (there (suc i) (omega arith)))) in
    (
      rest.0,
      rw (◌>>=◌, run) rest.1,
      Ranged-suc s t rest.0 v ((p + 4096) % 2 ^ 32 / 4096) n
          (bits (image_page offset p) writeable false)
          (λ i. bits (image_page offset (p + 4096 * i)) writeable false)
          (λ i. bits (image_page offset ((p + 4096) % 2 ^ 32 + 4096 * i)) writeable false)
          (omega arith) next
          (ap (λ q. bits (image_page offset q) writeable false) {x = p} (omega arith))
          (λ i.
            ap (λ q. bits (image_page offset q) writeable false)
              {x = (p + 4096) % 2 ^ 32 + 4096 * i} {y = p + 4096 * suc i} (omega arith))
          here e soon rest.2,
    )

-- The page tables that `vmap_init` leaves: each page of the code is mapped read-only, and each page
-- of the data, up to the heap, is writeable, both for the kernel alone.
pub record Initialised (layout : Layout) (s s' : Vmap) : Type 0 where
  pub valid : IsVmap s'
  pub code :
      (i : ℕ)
      → i < page_rounds layout.code_start layout.data_start
      → entry s' (layout.code_start / 4096 + i)
        ≡ bits (image_page layout.offset (layout.code_start + 4096 * i)) false false
  pub statics :
      (p i : ℕ)
      → p ≡ layout.code_start + 4096 * page_rounds layout.code_start layout.data_start
      → i < page_rounds p layout.heap_page
      → entry s' (p / 4096 + i) ≡ bits (image_page layout.offset (p + 4096 * i)) true false

-- From the state that the boot code leaves, `vmap_init` returns with valid page tables and the
-- image mapped.
pub vmap_init-Initialised :
    (layout : Layout) (s : Vmap)
    → IsBooted layout s
    → s.seq ≡ 0
    → (s' : Vmap) × (vmap_init layout s ≡ some (tt, s')) × Initialised layout s s'
unfolding vmap_init
vmap_init-Initialised layout s b start =
    let code : ℕ = page_rounds layout.code_start layout.data_start in
    let p : ℕ = layout.code_start + 4096 * code in
    let (w0, there, seq_kept) = init_tables-IsVmap layout s b in
    let (slot, s1, run1, held, dir, memory, pgdirs, soon, w1) =
      vmap_set_asid-dir 0 (init_tables layout s) w0 (omega arith) in
    let there1 : (v : ℕ) → v / 1024 ≡ layout.code_start / 2 ^ 22 → has_table s1 v ≡ true =
      λ v e. rw (memory, pgdirs) (there v e) in
    let soon1 : s1.seq ≤ 1 = omega arith in
    let (s2, run2, r2) =
      map_image-Ranged layout.offset code layout.code_start false s1 w1 (omega arith) (omega arith)
        (λ i h. there1 (layout.code_start / 4096 + i) (omega arith)) in
    let (s3, run3, r3) =
      map_image-Ranged layout.offset (page_rounds p layout.heap_page) p true s2 r2.valid
        (omega (arith, r2.soon)) (omega arith)
        (λ i h. r2.kept (p / 4096 + i) (omega arith) (there1 (p / 4096 + i) (omega arith))) in
    (
      s3,
      rw (◌>>=◌, run1, run2, run3),
      record {
        valid = r3.valid;
        code = λ i h.
            r3.outside (layout.code_start / 4096 + i) (omega arith) (inl (omega arith))
            ∙ r2.inside i h;
        statics = λ q i e h.
            subst
              (λ q'.
                (i : ℕ)
                → i < page_rounds q' layout.heap_page
                → entry s3 (q' / 4096 + i)
                  ≡ bits (image_page layout.offset (q' + 4096 * i)) true false)
              (sym e) r3.inside i h;
      },
    )
