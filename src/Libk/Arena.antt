-- ===== src/Libk/Arena.antt =====
-- libk/arena.c: blocks that are given out one behind the other, and given back together. Addresses and
-- sizes are words of 32 bits; a segment of the address space is its first address.
pub mod Blocks
mod Tests
use twcos.Common.{
  ℕ, zero, suc, ◌+◌, ◌*◌, ◌/◌, ◌%◌, ◌^◌, Bool, true, false, ◌&&◌, Option, none, some, List, [], ◌∷◌,
  ltb, leb, if◌then◌else◌,
}

-- `arena_t`
pub record Arena : Type 0 where
  pub base : ℕ
  pub state : ℕ
  pub top : ℕ

-- `arena_create`, where `vm_kas_get` gives the base
unfoldable pub arena_create : (base size : ℕ) → Arena
arena_create base size = record { base = base; state = base; top = (base + size) % 2 ^ 32 }

-- The size that `arena_alloc` goes on by
abbrev pub aligned : ℕ → ℕ
aligned size = (size + 3) % 2 ^ 32 / 4 * 4

-- `arena_alloc`: the address, and the arena. It does not look at `top`.
unfoldable pub arena_alloc : Arena → ℕ → ℕ × Arena
arena_alloc arena size =
    (arena.state, record arena { state = (arena.state + aligned size) % 2 ^ 32 })

unfoldable pub arena_palloc : Arena → (pages : ℕ) → ℕ × Arena
arena_palloc arena pages =
    let p = (arena.state + 4095) % 2 ^ 32 / 4096 * 4096 in
    (p, record arena { state = (p + pages * 4096) % 2 ^ 32 })

abbrev pub arena_getstate : Arena → ℕ
arena_getstate arena = arena.state

-- `check_ptr_bounds` of kernel/check.c: false for PtrBoundsException.
abbrev pub check_ptr_bounds : (p low high : ℕ) → Bool
check_ptr_bounds p low high = leb low p && ltb p high

-- `none` for the exception.
unfoldable pub arena_setstate : Arena → ℕ → Option Arena
arena_setstate arena state =
    if check_ptr_bounds state arena.base arena.top
    then some (record arena { state = state })
    else none

-- `arena_get`, from the list of free arenas; `base` is where a new one would be.
unfoldable pub arena_get : (base : ℕ) → List Arena → Arena × List Arena
unfolding arena_create
arena_get base [] = (arena_create base (4 * 2 ^ 20), [])
arena_get base (arena ∷ free_arenas) = (arena, free_arenas)

unfoldable pub arena_free : Arena → List Arena → List Arena
arena_free arena free_arenas = record arena { state = arena.base } ∷ free_arenas

-- `arena_thread_get`, with the arena of the thread, and `arena_thread_free`
unfoldable pub arena_thread_get : (base : ℕ) → Option Arena → List Arena → Arena × List Arena
unfolding arena_get
arena_thread_get base none free_arenas = arena_get base free_arenas
arena_thread_get base (some arena) free_arenas = (arena, free_arenas)

unfoldable pub arena_thread_free :
    (base : ℕ) → Option Arena → List Arena → Option Arena × List Arena
unfolding arena_thread_get arena_free
arena_thread_free base own free_arenas =
    let (arena, rest) = arena_thread_get base own free_arenas in (none, arena_free arena rest)

-- Calls of `arena_alloc` one after the other: the addresses, and the arena.
unfoldable pub alloc_each : Arena → List ℕ → List ℕ × Arena
unfolding arena_alloc
alloc_each arena [] = ([], arena)
alloc_each arena (size ∷ sizes) =
    let (p, arena') = arena_alloc arena size in
    let (ps, arena'') = alloc_each arena' sizes in (p ∷ ps, arena'')
