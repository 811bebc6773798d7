-- ===== src/Kernel/Vfs/KeyOrder.antt =====
-- The order of the keys of the page cache (kernel/vfs.c).
use twcos.Common.{ℕ, ◌^◌, ◌<◌, ◌≡◌, ◌&&◌, arith, ◌==◌}
use twcos.Kernel.Vfs.{key_number, page_cache_key_comp, three_way}

-- For offsets of 64 bits, `page_cache_key_comp` compares two keys as `map_keycmp` would compare the
-- numbers that have the vnode in the high part and the offset in the low one.
pub page_cache_key_comp-key_number :
    (v1 o1 v2 o2 : ℕ)
    → o1 < 2 ^ 64
    → o2 < 2 ^ 64
    → page_cache_key_comp (record { vnode = v1; offset = o1 }) (record { vnode = v2; offset = o2 })
      ≡ three_way (key_number v1 o1) (key_number v2 o2)
unfolding page_cache_key_comp
page_cache_key_comp-key_number v1 o1 v2 o2 h1 h2 = ground arith

-- The number of a key names its vnode and offset.
pub key_number-eq :
    (v1 o1 v2 o2 : ℕ)
    → o1 < 2 ^ 64
    → o2 < 2 ^ 64
    → (key_number v1 o1 == key_number v2 o2) ≡ (v1 == v2 && o1 == o2)
key_number-eq v1 o1 v2 o2 h1 h2 = ground arith
