-- ===== src/Kernel/Vfs.antt =====
-- kernel/vfs.c: the page cache in front of the file systems. A key of the cache points to a vnode and
-- an offset; it stands here as one number, and KeyOrder shows that the comparison of the cache is the
-- order of these numbers. What a file system does is a parameter, on a state of its own.
pub mod KeyOrder
pub mod Cache
mod Tests
use twcos.Common.{ℕ, ◌+◌, ◌*◌, ◌^◌, Bool, true, false, ltb, ◌==◌, if◌then◌else◌}
use twcos.Common.Int.{ℤ, pos, negsuc}
use twcos.Libk.Map.{MapOps, map_get, map_put}

-- `page_cache_key_t`
pub record PageCacheKey : Type 0 where
  pub vnode : ℕ
  pub offset : ℕ

-- `(a < b) ? -1 : (a > b) ? 1 : 0`
abbrev pub three_way : ℕ → ℕ → ℤ
three_way a b = if ltb a b then negsuc 0 else if ltb b a then pos 1 else pos 0

unfoldable pub page_cache_key_comp : PageCacheKey → PageCacheKey → ℤ
page_cache_key_comp k1 k2 =
    if k1.vnode == k2.vnode then three_way k1.offset k2.offset else three_way k1.vnode k2.vnode

-- The number of a key.
abbrev pub key_number : ℕ → ℕ → ℕ
key_number vnode offset = vnode * 2 ^ 64 + offset

-- `vfs_ops_t`, for the operations on pages, sizes and names of a vnode.
pub record VfsOps (Fs : Type 0) : Type 0 where
  pub get_page : Fs → (vnode offset : ℕ) → ℕ × Fs
  pub put_page : Fs → (vnode offset page : ℕ) → Fs
  pub close : Fs → (vnode : ℕ) → Fs
  pub get_size : Fs → (vnode : ℕ) → ℕ
  pub get_vnode : Fs → (dir name : ℕ) → ℕ × Fs

-- The cache, and the state of the file system behind it.
pub record Vfs (Cache Fs : Type 0) : Type 0 where
  pub page_cache : Cache
  pub fs : Fs

module _ {Cache Fs : Type 0} (cache_ops : MapOps Cache) (fsops : VfsOps Fs) where
  unfoldable pub vnode_get_page : Vfs Cache Fs → (vnode offset : ℕ) → ℕ × Vfs Cache Fs
  vnode_get_page s vnode offset =
      let (page, cache) = map_get cache_ops s.page_cache (key_number vnode offset) in
      let (read, fs) = fsops.get_page s.fs vnode offset in
      if page == 0
      then (
        read,
        record { page_cache = (map_put cache_ops cache (key_number vnode offset) read).1; fs = fs },
      )
      else (page, record s { page_cache = cache })

  unfoldable pub vnode_put_page : Vfs Cache Fs → (vnode offset page : ℕ) → Vfs Cache Fs
  vnode_put_page s vnode offset page = record s { fs = fsops.put_page s.fs vnode offset page }

  unfoldable pub vnode_get_size : Vfs Cache Fs → ℕ → ℕ
  vnode_get_size s vnode = fsops.get_size s.fs vnode

  unfoldable pub vnode_get_vnode : Vfs Cache Fs → (dir name : ℕ) → ℕ × Vfs Cache Fs
  vnode_get_vnode s dir name =
      let (vnode, fs) = fsops.get_vnode s.fs dir name in (vnode, record s { fs = fs })

  unfoldable pub vnode_close : Vfs Cache Fs → ℕ → Vfs Cache Fs
  vnode_close s vnode = record s { fs = fsops.close s.fs vnode }
