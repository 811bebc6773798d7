-- ===== src/Libk/Map.antt =====
-- libk/map.c: the calls through a map's table of operations, which clients make, and the comparisons
-- and keys that they pass. A walk is the list of the calls of its function. The calls with other casts
-- (map_putpi, map_putip, map_putpp and so on) are the same functions on numbers.
pub mod Contract
pub mod Trees
pub mod Arrays
pub mod Compound
pub mod Examples
mod Tests
use twcos.Common.{
  ℕ, zero, suc, ◌+◌, ◌-◌, ◌*◌, ◌/◌, ◌%◌, ◌^◌, Bool, true, false, Option, none, some, List, [], ◌∷◌,
  ◌++◌, ltb, ◌==◌, if◌then◌else◌, ◌>>=◌, compare, Ordering, length, take, replicate,
}
use Prim.Native.Nat.Ordering.{lt, eq, gt}
use twcos.Libk.Tree.Ops.{MapEqTest, map_eq}
use twcos.Libk.Strings.{strcmp, strlen, memcmp, memcpy}
use twcos.Common.Int.{ℤ, pos, negsuc, is_zero}

-- `struct map_ops`, on the state of one kind of map. `put`, `get` and `remove` also return data, 0
-- for none. `destroy`, `walk_prefix` and `iterator` are left out.
pub record MapOps (State : Type 0) : Type 0 where
  pub walk : State → List (ℕ × ℕ)
  pub walk_range : State → (from to : ℕ) → List (ℕ × ℕ)
  pub put : State → (key value : ℕ) → ℕ × State
  pub get : State → (key : ℕ) → MapEqTest → ℕ × State
  pub remove : State → (key : ℕ) → ℕ × State
  pub optimize : State → State

module _ {State : Type 0} (ops : MapOps State) where
  unfoldable pub map_walk : State → List (ℕ × ℕ)
  map_walk map = ops.walk map

  unfoldable pub map_walk_range : State → ℕ → ℕ → List (ℕ × ℕ)
  map_walk_range map from to = ops.walk_range map from to

  unfoldable pub map_put : State → ℕ → ℕ → ℕ × State
  map_put map key value = ops.put map key value

  unfoldable pub map_get : State → ℕ → ℕ × State
  map_get map key = ops.get map key map_eq

  unfoldable pub map_get_cond : State → ℕ → MapEqTest → ℕ × State
  map_get_cond map key cond = ops.get map key cond

  unfoldable pub map_remove : State → ℕ → ℕ × State
  map_remove map key = ops.remove map key

  unfoldable pub map_optimize : State → State
  map_optimize map = ops.optimize map

  -- The calls of `map_put_all_walk`, one for each entry.
  unfoldable pub put_each : State → List (ℕ × ℕ) → State
  unfolding map_put
  put_each to [] = to
  put_each to ((key, value) ∷ entries) = put_each (map_put to key value).1 entries

-- `map_put_all`, where the maps may be of different kinds.
unfoldable pub map_put_all : {To From : Type 0} → MapOps To → MapOps From → To → From → To
unfolding put_each map_walk
map_put_all to_ops from_ops to from = put_each to_ops to (map_walk from_ops from)

-- The sign of a result of a comparison
abbrev pub sign : ℤ → Ordering
sign (pos zero) = eq
sign (pos (suc n)) = gt
sign (negsuc n) = lt

unfoldable pub map_keycmp : ℕ → ℕ → ℤ
map_keycmp k1 k2 = if ltb k2 k1 then pos 1 else if ltb k1 k2 then negsuc 0 else pos 0

-- The strings that two keys point to
unfoldable pub map_strcmp : List ℕ → List ℕ → ℤ
unfolding strcmp
map_strcmp s1 s2 = strcmp s1 s2

-- `*a1`: an array of keys ends with the key 0.
abbrev pub key_here : List ℕ → ℕ
key_here [] = 0
key_here (k ∷ a) = k

unfoldable pub map_arraycmp : List ℕ → List ℕ → ℤ
unfolding map_keycmp
map_arraycmp [] a2 = map_keycmp 0 (key_here a2)
map_arraycmp (k ∷ a1) [] = map_keycmp k 0
map_arraycmp (k ∷ a1) (l ∷ a2) =
    let rest = map_arraycmp a1 a2 in if k == l then rest else map_keycmp k l

abbrev pub map_arraykey1 : ℕ → List ℕ
map_arraykey1 k = k ∷ []

abbrev pub map_arraykey2 : ℕ → ℕ → List ℕ
map_arraykey2 k1 k2 = k1 ∷ k2 ∷ []

abbrev pub map_arraykey3 : ℕ → ℕ → ℕ → List ℕ
map_arraykey3 k1 k2 k3 = k1 ∷ k2 ∷ k3 ∷ []

-- An argument of `map_compound_key`, with the letters of the format that name it: a string comes with
-- the bytes that follow its final 0 in memory.
pub data Part : Type 0 where
  i4 : ℕ → Part
  i8 : ℕ → Part
  s : List ℕ → List ℕ → Part

-- `(i << 8) | (i >> (w-8))` on `w` bits
abbrev pub rotate : ℕ → ℕ → ℕ
rotate w i = i * 256 % 2 ^ w + i / 2 ^ (w - 8)

-- `n` times: rotate, and store the lowest byte.
unfoldable pub store_bytes : (w n : ℕ) → ℕ → List ℕ
store_bytes w zero i = []
store_bytes w (suc n) i = rotate w i % 256 ∷ store_bytes w n (rotate w i)

-- `map_compound_key_process` with no key: the length that it computes.
unfoldable pub compound_length : List Part → ℕ
unfolding strlen
compound_length [] = 0
compound_length (i4 i ∷ parts) = 4 + compound_length parts
compound_length (i8 i ∷ parts) = 8 + compound_length parts
compound_length (s t behind ∷ parts) = strlen t + 1 + compound_length parts

-- The bytes that `map_compound_key_process` writes to a key of `buflen` bytes, of which `len` are
-- written. A string is copied up to the end of the key, with what follows it in memory, and ends the
-- function. `none` is a write behind the key.
unfoldable pub compound_bytes : (buflen len : ℕ) → List Part → Option (List ℕ)
unfolding store_bytes
compound_bytes buflen len [] = some []
compound_bytes buflen len (i4 i ∷ parts) =
    let rest =
      compound_bytes buflen (len + 4) parts >>= (λ bytes. some (store_bytes 32 4 i ++ bytes)) in
    if ltb buflen (len + 4) then none else rest
compound_bytes buflen len (i8 i ∷ parts) =
    let rest =
      compound_bytes buflen (len + 8) parts >>= (λ bytes. some (store_bytes 64 8 i ++ bytes)) in
    if ltb buflen (len + 8) then none else rest
compound_bytes buflen len (s t behind ∷ parts) =
    if ltb buflen len then none else some (take (buflen - len) (t ++ 0 ∷ behind))

-- `map_compound_key`
unfoldable pub map_compound_key : List Part → Option (List ℕ)
unfolding compound_length compound_bytes
map_compound_key parts = compound_bytes (compound_length parts) 0 parts

-- `map_compound_key_comp`
unfoldable pub map_compound_key_comp : List ℕ → List ℕ → ℤ
unfolding memcmp
map_compound_key_comp key1 key2 =
    if ltb (length key1) (length key2)
    then (let d = memcmp key1 key2 (length key1) in if is_zero d then negsuc 0 else d)
    else if ltb (length key2) (length key1)
    then (let d = memcmp key1 key2 (length key2) in if is_zero d then pos 1 else d)
    else memcmp key1 key2 (length key1)

-- `map_compound_key_prefix`
unfoldable pub map_compound_key_prefix : List ℕ → List ℕ → Bool
unfolding memcmp
map_compound_key_prefix prefix key =
    if ltb (length key) (length prefix) then false else is_zero (memcmp prefix key (length prefix))
