-- ===== src/Libk/Arena/Tests.antt =====
-- An arena of libk/arena.c that the theorem of this component is applied to.
use twcos.Common.{◌≤◌, ◌≡◌, refl, some, [], ◌∷◌, arith}
use twcos.Libk.Arena.{Arena, arena_getstate, arena_setstate, alloc_each}
use twcos.Libk.Arena.Blocks.{Laid, arena_setstate-alloc_each}

abbrev arena : Arena
arena = record { base = 4096; state = 4104; top = 8192 }

arena_setstate-alloc_each_example :
    let (ps, arena') = alloc_each arena (5 ∷ 4 ∷ []) in
    Laid 4104 (5 ∷ 4 ∷ []) ps arena'.state
    × (arena'.state ≤ 8192)
    × (arena_setstate arena' (arena_getstate arena) ≡ some arena)
arena_setstate-alloc_each_example =
    arena_setstate-alloc_each arena (5 ∷ 4 ∷ []) refl (omega arith) (omega arith) (omega arith)
      (omega arith)

alloc_run : (alloc_each arena (5 ∷ 4 ∷ [])).0 ≡ 4104 ∷ 4112 ∷ []
unfolding alloc_each
alloc_run = refl
