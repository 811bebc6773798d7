-- ===== src/Libk/Vector/Growth.antt =====
-- How `vector_put` of libk/vector.c extends a vector, and what a vector holds after it.
use twcos.Common.{
  ℕ, zero, suc, ◌+◌, ◌-◌, ◌*◌, ◌/◌, ◌%◌, ◌<◌, ◌≤◌, ◌≡◌, ◌≢◌, refl, ap, ap₂, subst, ◌∙◌, true, false,
  Option, none, some, ltb, ◌==◌, if◌then◌else◌, ◌>>=◌, maybe, arith, le→ltb, ltb→lt, Bool-cases,
  inl, inr,
}
use native.Mathlib.Nat.{div-add-mod, mod-lt, pow-suc, one-le-pow, div-eq_of_lt, mod-eq_of_lt}
use twcos.Libk.Vector.{Table, Vector, vector_entry_set, vector_checksize, vector_put, vector_get}
use twcos.Libk.Vector.Lookup.{
  lookup, room, Sets, vector_entry_get-lookup, vector_entry_set-Sets, vector_entry_get-far,
  vector_entry_set-far,
}

-- The data that a vector holds at an index: 0 behind its table.
abbrev pub content : Vector → ℕ → ℕ
content v j = if ltb j (room v.level) then lookup v.level v.table j else 0

-- The vector with one more level on top.
abbrev deeper : Vector → Vector
deeper v = record { level = suc v.level; table = λ j. if j == 0 then some v.table else none }

room-suc : (level : ℕ) → room (suc level) ≡ room level * 64
room-suc level = pow-suc 64 (suc level)

room-positive : (level : ℕ) → 0 < room level
room-positive level = one-le-pow (suc level) 64 (omega arith)

div_far : (j m : ℕ) → 0 < m → m ≤ j → (j / m == 0) ≡ false
div_far j m p h = ground (arith, div-add-mod j m, mod-lt j p)

lookup-deeper_near :
    (v : Vector) (j : ℕ)
    → j < room v.level
    → lookup (suc v.level) (deeper v).table j ≡ lookup v.level v.table j
lookup-deeper_near v j h =
    ap₂ (λ q r. maybe 0 (λ t. lookup v.level t r) (if q == 0 then some v.table else none))
      (div-eq_of_lt h) (mod-eq_of_lt h)

lookup-deeper_far :
    (v : Vector) (j : ℕ) → room v.level ≤ j → lookup (suc v.level) (deeper v).table j ≡ 0
lookup-deeper_far v j h =
    ap (λ b. maybe 0 (λ t. lookup v.level t (j % room v.level)) (if b then some v.table else none))
      (div_far j (room v.level) (room-positive v.level) h)

content-deeper : (v : Vector) (j : ℕ) → content (deeper v) j ≡ content v j
content-deeper v j =
    ground (
      arith,
      lookup-deeper_near v j,
      lookup-deeper_far v j,
      room-suc v.level,
      room-positive v.level,
    )

-- What the size check gives: a vector with the same content that reaches at least to the index.
abbrev pub Grown : Vector → ℕ → Option Vector → Type 0
Grown v i none = false ≡ true
Grown v i (some v') = (i ≤ room v'.level) × (v'.level ≤ 4) × ((j : ℕ) → content v' j ≡ content v j)

pub vector_checksize-Grown :
    (f : ℕ) (v : Vector) (i : ℕ)
    → f + v.level ≡ 4
    → i ≤ room 4
    → Grown v i (vector_checksize (suc f) v i)
unfolding vector_checksize
vector_checksize-Grown zero v i e h =
    let fits : i ≤ room v.level =
      subst (λ n. i ≤ room n) {x = 4} {y = v.level} (omega (arith, e)) h in
    rw (le→ltb (room v.level) i fits) (fits, omega (arith, e), λ j. refl)
vector_checksize-Grown (suc f) v i e h = elim (Bool-cases (ltb (room v.level) i)) [
  | inl above ↦
      let next : Grown (deeper v) i (vector_checksize (suc f) (deeper v) i) =
        vector_checksize-Grown f (deeper v) i (omega (arith, e)) h in
      rw above (as_before (vector_checksize (suc f) (deeper v) i) next)
  | inr fits ↦ rw fits (ground (arith, fits), omega (arith, e), λ j. refl)
]
  where
    as_before : (o : Option Vector) → Grown (deeper v) i o → Grown v i o
    as_before none h = h
    as_before (some v') (reach, low, same) = (reach, low, λ j. same j ∙ content-deeper v j)

-- What a `vector_put` gives: the old data, and a vector in which that index alone is changed.
abbrev pub Puts : Vector → ℕ → ℕ → Option (ℕ × Vector) → Type 0
Puts v i d none = false ≡ true
Puts v i d (some (old, v')) =
    (old ≡ content v i)
    × (v'.level ≤ 4)
    × (i < room v'.level)
    × ((j : ℕ) → content v' j ≡ (if j == i then d else content v j))

-- `vector_get` reads the content of a vector, with 0 for an index behind its table when the table has
-- more than one level; in a vector of one table it reads memory behind the table instead.
pub vector_get-content :
    (v : Vector) (i : ℕ)
    → vector_get v i
      ≡ (if ltb i (room v.level) then some (content v i) else if v.level == 0 then none else some 0)
unfolding vector_get
vector_get-content v i = elim (Bool-cases (ltb i (room v.level))) [
  | inl h ↦ rw h (vector_entry_get-lookup v.level v.table i (ltb→lt _ _ h))
  | inr h ↦ rw h (vector_entry_get-far v.level v.table i (ground (arith, h)))
]

-- A `vector_put` of a vector of at most five levels, at an index below 2 ^ 30 that is none of 64,
-- 64 ^ 2, 64 ^ 3 and 64 ^ 4, writes inside the tables: it gives the data that was there, the new one is
-- there after it, every other index keeps its data, and no shift goes beyond 30 bits.
pub vector_put-content :
    (v : Vector) (i d : ℕ)
    → v.level ≤ 4
    → i < room 4
    → ((n : ℕ) → i ≢ room n)
    → Puts v i d (vector_put (5 - v.level) v i d)
unfolding vector_put
vector_put-content v i d l h apart =
    let e : 5 - v.level ≡ suc (4 - v.level) = omega (arith, l) in
    let grown : Grown v i (vector_checksize (suc (4 - v.level)) v i) =
      vector_checksize-Grown (4 - v.level) v i (omega (arith, l)) (omega (arith, h)) in
    rw e (at_size (vector_checksize (suc (4 - v.level)) v i) grown)
  where
    at_entry :
        (v' : Vector) (o : Option (ℕ × Table v'.level))
        → i < room v'.level
        → v'.level ≤ 4
        → ((j : ℕ) → content v' j ≡ content v j)
        → Sets v'.level v'.table i d o
        → Puts v i d (o >>= (λ (old, t). some (old, record { level = v'.level; table = t })))
    at_entry v' none r l' same h = h
    at_entry v' (some (old, t)) r l' same (e, sets) =
        (ground (arith, e, same i, r), l', r, (λ j. ground (arith, sets j, same j, r)))

    at_size :
        (o : Option Vector)
        → Grown v i o
        → Puts v i d (
            o >>= (λ v'.
              vector_entry_set v'.level v'.table i d
              >>= (λ (old, t). some (old, record { level = v'.level; table = t }))))
    at_size none h = h
    at_size (some v') (reach, low, same) =
        let r : i < room v'.level = omega (arith, reach, apart v'.level) in
        at_entry v' (vector_entry_set v'.level v'.table i d) r low same
          (vector_entry_set-Sets v'.level v'.table i d r)

-- At the index 64 ^ (n + 1), where a vector of n + 1 levels ends, `vector_put` does not extend the vector
-- and writes outside of it.
pub vector_put-boundary : (f : ℕ) (v : Vector) (d : ℕ) → vector_put f v (room v.level) d ≡ none
unfolding vector_put vector_checksize
vector_put-boundary zero v d = refl
vector_put-boundary (suc f) v d = rw (le→ltb (room v.level) (room v.level) (omega arith)) (
    ap (λ o. o >>= (λ (old, t). some (old, record { level = v.level; table = t })))
      (vector_entry_set-far v.level v.table (room v.level) d (omega arith)))
