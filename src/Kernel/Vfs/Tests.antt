-- ===== src/Kernel/Vfs/Tests.antt =====
-- The theorems on kernel/vfs.c at concrete inputs, with a map that is a list of entries.
use twcos.Common.{ℕ, ◌+◌, ◌≡◌, ◌&&◌, List, [], ◌∷◌, arith, ◌==◌, if◌then◌else◌}
use twcos.Libk.Map.Examples.{Any, law, ops, still}
use twcos.Kernel.Vfs.{Vfs, VfsOps, key_number, vnode_get_page}
use twcos.Kernel.Vfs.Cache.{cached, vnode_get_page-cached}

-- A file system that counts its reads.
abbrev counting : VfsOps ℕ
counting = record {
  get_page = λ n vnode offset. (70 + n, n + 1);
  put_page = λ n vnode offset page. n;
  close = λ n vnode. n;
  get_size = λ n vnode. 0;
  get_vnode = λ n dir name. (0, n);
}

abbrev vfs : Vfs (List (ℕ × ℕ)) ℕ
vfs = record { page_cache = (key_number 5 4096, 60) ∷ []; fs = 0 }

vnode_get_page-cached_example :
    let r = vnode_get_page ops counting vfs 5 0 in
    (r.0 ≡ (
      if cached ops counting Any law still vfs 5 0 == 0
      then 70
      else cached ops counting Any law still vfs 5 0))
    × (r.1.fs ≡ (if cached ops counting Any law still vfs 5 0 == 0 then 1 else 0))
    × (cached ops counting Any law still r.1 5 4096
        ≡ (if 5 == 5 && 4096 == 0 then r.0 else cached ops counting Any law still vfs 5 4096))
    × Any r.1.page_cache
vnode_get_page-cached_example =
    vnode_get_page-cached ops counting Any law still vfs 5 0 5 4096 tt (omega arith) (omega arith)
