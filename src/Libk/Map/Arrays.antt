-- ===== src/Libk/Map/Arrays.antt =====
-- The comparisons of keys in libk/map.c.
use twcos.Common.{compare, ℕ, ◌+◌, ◌≤◌, ◌≡◌, ◌≢◌, ◌↔◌, List, [], ◌∷◌, arith, All}
use Prim.Native.Nat.Ordering.{lt, gt}
use twcos.Libk.Map.{sign, map_keycmp, key_here, map_arraycmp, map_arraykey1}

-- `map_keycmp` has the sign of the comparison of two numbers.
pub sign-map_keycmp : (a b : ℕ) → sign (map_keycmp a b) ≡ compare a b
unfolding map_keycmp
sign-map_keycmp a b = ground arith

-- Arrays that begin with key `k` are those from `map_arraykey1(k)` on and before `map_arraykey1(k+1)`, in
-- the order of `map_arraycmp`, where no key is 0.
pub map_arraycmp-map_arraykey1 :
    (k : ℕ) (a : List ℕ)
    → 1 ≤ k
    → All (λ x. 1 ≤ x) a
    → ((sign (map_arraycmp (map_arraykey1 k) a) ≢ gt)
        × (sign (map_arraycmp a (map_arraykey1 (k + 1))) ≡ lt))
      ↔ (key_here a ≡ k)
unfolding map_arraycmp map_keycmp
map_arraycmp-map_arraykey1 k [] l h = ground arith
map_arraycmp-map_arraykey1 k (x ∷ []) l h = ground arith
map_arraycmp-map_arraykey1 k (x ∷ y ∷ a) l h = ground arith
