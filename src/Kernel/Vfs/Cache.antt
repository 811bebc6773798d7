-- ===== src/Kernel/Vfs/Cache.antt =====
-- What the page cache of kernel/vfs.c keeps.
use twcos.Common.{
  ℕ, ◌^◌, ◌<◌, ◌≡◌, refl, ap, ◌∙◌, Bool, true, false, ◌&&◌, arith, ◌==◌, if◌then◌else◌, Bool-cases,
  inl, inr,
}
use twcos.Libk.Map.{MapOps, map_get}
use twcos.Libk.Map.Contract.{IsMap}
use twcos.Kernel.Vfs.KeyOrder.{key_number-eq}
use twcos.Kernel.Vfs.{Vfs, VfsOps, key_number, vnode_get_page}

module _ {Cache Fs : Type 0} (cache_ops : MapOps Cache) (fsops : VfsOps Fs) (Valid : Cache → Type 0)
    (law : IsMap cache_ops ◌==◌ Valid)
    (still : (c : Cache) (k : ℕ) → Valid c → (map_get cache_ops c k).1 ≡ c) where
  -- The page that the cache has for a key, 0 for none.
  pub cached : Vfs Cache Fs → (vnode offset : ℕ) → ℕ
  cached s vnode offset = (map_get cache_ops s.page_cache (key_number vnode offset)).0

  -- With a cache that a search leaves as it is: a page that the cache has is returned, and the file
  -- system is not asked. Otherwise its answer is returned, and the cache has it for that vnode and
  -- offset from then on; what it has for any other vnode or offset stays.
  pub vnode_get_page-cached :
      (s : Vfs Cache Fs) (vnode offset v o : ℕ)
      → Valid s.page_cache
      → offset < 2 ^ 64
      → o < 2 ^ 64
      → let r = vnode_get_page cache_ops fsops s vnode offset in
        (r.0 ≡ (
          if cached s vnode offset == 0
          then (fsops.get_page s.fs vnode offset).0
          else cached s vnode offset))
        × (r.1.fs
            ≡ (if cached s vnode offset == 0 then (fsops.get_page s.fs vnode offset).1 else s.fs))
        × (cached r.1 v o ≡ (if v == vnode && o == offset then r.0 else cached s v o))
        × Valid r.1.page_cache
  unfolding vnode_get_page cached
  vnode_get_page-cached s vnode offset v o w ho hv =
      let k : ℕ = key_number vnode offset in
      let same = still s.page_cache k w in
      elim (Bool-cases (cached s vnode offset == 0)) [
        | inl missing ↦
            let read : ℕ = (fsops.get_page s.fs vnode offset).0 in
            (
              rw (vnode_get_page, missing),
              rw (vnode_get_page, missing),
              rw (vnode_get_page, missing, same)
                  (law.get-put s.page_cache k read (key_number v o) w
                    ∙ ap
                        (λ b.
                          if b then read else (map_get cache_ops s.page_cache (key_number v o)).0)
                        (key_number-eq v o vnode offset hv ho)),
              rw (vnode_get_page, missing, same) (law.put-Valid s.page_cache k read w),
            )
        | inr there ↦ (
          rw (vnode_get_page, there),
          rw (vnode_get_page, there),
          rw (vnode_get_page, there, same)
              (own_key (v == vnode && o == offset) (λ b. ground arith)),
          rw (vnode_get_page, there, same) w,
        )
      ]
    where
      own_key :
          (b : Bool)
          → (b ≡ true → key_number v o ≡ key_number vnode offset)
          → (map_get cache_ops s.page_cache (key_number v o)).0 ≡ (
              if b
              then (map_get cache_ops s.page_cache (key_number vnode offset)).0
              else (map_get cache_ops s.page_cache (key_number v o)).0)
      own_key true e = ap (λ n. (map_get cache_ops s.page_cache n).0) (e refl)
      own_key false e = refl
