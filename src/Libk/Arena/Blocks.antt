-- ===== src/Libk/Arena/Blocks.antt =====
-- The blocks of an arena of libk/arena.c.
use twcos.Common.{
  ℕ, ◌+◌, ◌*◌, ◌/◌, ◌%◌, ◌^◌, ◌≤◌, ◌<◌, ◌≡◌, refl, ap, ap₂, ◌∙◌, true, false, none, some, List, [],
  ◌∷◌, arith, if◌then◌else◌,
}
use twcos.Libk.Arena.{
  Arena, aligned, arena_alloc, arena_getstate, arena_setstate, alloc_each, check_ptr_bounds,
}

-- The bytes that blocks of some sizes take.
abbrev pub taken : List ℕ → ℕ
taken [] = 0
taken (size ∷ sizes) = (size + 3) / 4 * 4 + taken sizes

-- Blocks one behind the other, from an address to another, each at a multiple of 4.
abbrev pub Laid : (from : ℕ) → List ℕ → List ℕ → (to : ℕ) → Type 0
Laid from [] [] to = from ≡ to
Laid from [] (p ∷ ps) to = false ≡ true
Laid from (size ∷ sizes) [] to = false ≡ true
Laid from (size ∷ sizes) (p ∷ ps) to =
    (next : ℕ) × (from ≤ p) × (p % 4 ≡ 0) × (p + size ≤ next) × Laid next sizes ps to

alloc_each-Laid :
    (arena : Arena) (sizes : List ℕ)
    → arena.state % 4 ≡ 0
    → arena.state + taken sizes ≤ arena.top
    → arena.top < 2 ^ 32
    → let (ps, arena') = alloc_each arena sizes in
      Laid arena.state sizes ps arena'.state
      × (arena'.state ≤ arena.top)
      × (arena'.base ≡ arena.base)
      × (arena'.top ≡ arena.top)
unfolding alloc_each arena_alloc
alloc_each-Laid arena [] w h t = (refl, omega (arith, h), refl, refl)
alloc_each-Laid arena (size ∷ sizes) w h t =
    let next : (arena.state + aligned size) % 2 ^ 32 ≡ arena.state + (size + 3) / 4 * 4 =
      omega (arith, h, t) in
    let (laid, low, b, c) =
      alloc_each-Laid (record arena { state = (arena.state + aligned size) % 2 ^ 32 }) sizes
        (omega (arith, next, w)) (omega (arith, next, h)) t in
    (((arena.state + aligned size) % 2 ^ 32, omega arith, w, omega (arith, next), laid), low, b, c)

-- Of an arena below 2 ^ 32 whose state is a multiple of 4, blocks that fit below its top are given out one
-- behind the other, at multiples of 4 and below the top; the state before them, where it is below the top,
-- may then be set again, and the arena is as it was.
pub arena_setstate-alloc_each :
    (arena : Arena) (sizes : List ℕ)
    → arena.state % 4 ≡ 0
    → arena.base ≤ arena.state
    → arena.state < arena.top
    → arena.state + taken sizes ≤ arena.top
    → arena.top < 2 ^ 32
    → let (ps, arena') = alloc_each arena sizes in
      Laid arena.state sizes ps arena'.state
      × (arena'.state ≤ arena.top)
      × (arena_setstate arena' (arena_getstate arena) ≡ some arena)
unfolding arena_setstate
arena_setstate-alloc_each arena sizes w b l h t =
    let (laid, low, base, top) = alloc_each-Laid arena sizes w h t in
    let arena' = (alloc_each arena sizes).1 in
    let inside : check_ptr_bounds arena.state arena'.base arena'.top ≡ true =
      ap₂ (λ b t. check_ptr_bounds arena.state b t) base top ∙ ground (arith, b, l) in
    (
      laid,
      low,
      ap (λ c. if c then some (record arena' { state = arena.state }) else none) inside
          ∙ ap₂ (λ b t. some (record { base = b; state = arena.state; top = t })) base top,
    )
