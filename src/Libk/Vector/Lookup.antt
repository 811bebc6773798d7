-- ===== src/Libk/Vector/Lookup.antt =====
-- What a vector of libk/vector.c holds, and what `vector_put` changes.
use twcos.Common.{
  ℕ, zero, suc, ◌*◌, ◌/◌, ◌%◌, ◌^◌, ◌<◌, ◌≤◌, ◌≡◌, refl, sym, ap, ap₂, subst, ◌∙◌, true, false,
  Option, none, some, ◌==◌, if◌then◌else◌, ◌>>=◌, maybe, arith, lt→ltb, le→ltb, Bool-cases, inl,
  inr, ==→eq, ne→==,
}
use native.Mathlib.Nat.{div-lt_iff_lt-mul, div-add-mod, mod-lt, pow-suc, one-le-pow}
use twcos.Libk.Vector.{
  Table, vector_table_new, update, missing, vector_entry_get, table_or_new, vector_entry_set,
  pointer_value,
}

-- The data at an index, 0 for none, of a table that reaches as far.
abbrev pub lookup : (level : ℕ) → Table level → ℕ → ℕ
lookup zero d i = d i
lookup (suc level) d i = maybe 0 (λ t. lookup level t (i % 64 ^ suc level)) (d (i / 64 ^ suc level))

-- How many indices a table of a level has.
abbrev pub room : ℕ → ℕ
room level = 64 ^ suc level

index_fits : (level i : ℕ) → i < room (suc level) → i / 64 ^ suc level < 64
index_fits level i h =
    let positive : 1 ≤ 64 ^ suc level = one-le-pow (suc level) 64 (omega arith) in
    let wide : i < 64 ^ suc level * 64 = subst (λ n. i < n) (pow-suc 64 (suc level)) h in
    (div-lt_iff_lt-mul {k = 64 ^ suc level} {x = i} {y = 64} (omega arith)).1 (omega arith)

rest_fits : (level i : ℕ) → i % 64 ^ suc level < room level
rest_fits level i = mod-lt i (one-le-pow (suc level) 64 (omega arith))

pub vector_entry_get-lookup :
    (level : ℕ) (t : Table level) (i : ℕ)
    → i < room level
    → pointer_value (vector_entry_get level t i) ≡ some (lookup level t i)
unfolding vector_entry_get
vector_entry_get-lookup zero d i h = rw (lt→ltb i 64 (omega arith)) refl
vector_entry_get-lookup (suc level) d i h = rw (lt→ltb _ _ (index_fits level i h)) (
    at_child (d (i / 64 ^ suc level))
      (λ t. vector_entry_get-lookup level t (i % 64 ^ suc level) (rest_fits level i)))
  where
    at_child :
        (o : Option (Table level))
        → ((t : Table level)
            → pointer_value (vector_entry_get level t (i % 64 ^ suc level))
              ≡ some (lookup level t (i % 64 ^ suc level)))
        → pointer_value (maybe missing (λ t. vector_entry_get level t (i % 64 ^ suc level)) o)
          ≡ some (maybe 0 (λ t. lookup level t (i % 64 ^ suc level)) o)
    at_child none ih = refl
    at_child (some t) ih = ih t

lookup-vector_table_new : (level i : ℕ) → lookup level (vector_table_new level) i ≡ 0
unfolding vector_table_new
lookup-vector_table_new zero i = refl
lookup-vector_table_new (suc level) i = refl

child_lookup :
    (level : ℕ) (o : Option (Table level)) (j : ℕ)
    → lookup level (table_or_new level o) j ≡ maybe 0 (λ t. lookup level t j) o
child_lookup level none j = lookup-vector_table_new level j
child_lookup level (some t) j = refl

-- Numbers with the same quotient are equal when their remainders are.
same_index : (j i m : ℕ) → j / m ≡ i / m → (j % m == i % m) ≡ (j == i)
same_index j i m e = ground (
  arith,
  div-add-mod i m,
  div-add-mod j m,
  ap (λ q. m * q) e,
  ap (λ (k : ℕ). k % m) {x = j} {y = i},
)

other_index : (j i m : ℕ) → (j / m == i / m) ≡ false → (j == i) ≡ false
other_index j i m h = ground (arith, ap (λ (k : ℕ). k / m) {x = j} {y = i})

-- What a write to an entry gives: the old data, and the table in which that entry alone is changed.
abbrev pub Sets : (level : ℕ) → Table level → ℕ → ℕ → Option (ℕ × Table level) → Type 0
Sets level t i v none = false ≡ true
Sets level t i v (some (old, t')) =
    (old ≡ lookup level t i)
    × ((j : ℕ) → j < room level → lookup level t' j ≡ (if j == i then v else lookup level t j))

pub vector_entry_set-Sets :
    (level : ℕ) (t : Table level) (i v : ℕ)
    → i < room level
    → Sets level t i v (vector_entry_set level t i v)
unfolding vector_entry_set
vector_entry_set-Sets zero d i v h = rw (lt→ltb i 64 (omega arith)) (refl, λ j l. refl)
vector_entry_set-Sets (suc level) d i v h = rw (lt→ltb _ _ (index_fits level i h)) (
    with_child (vector_entry_set level (table_or_new level (d index)) (i % m) v)
      (vector_entry_set-Sets level (table_or_new level (d index)) (i % m) v (rest_fits level i)))
  where
    m : ℕ
    m = 64 ^ suc level

    index : ℕ
    index = i / 64 ^ suc level

    with_child :
        (o : Option (ℕ × Table level))
        → Sets level (table_or_new level (d index)) (i % m) v o
        → Sets (suc level) d i v (o >>= (λ (old, t). some (old, update d index (some t))))
    with_child none h = h
    with_child (some (old, t)) (e, same_else) =
        (e ∙ child_lookup level (d index) (i % m), λ j l. by_index old t same_else j)
      where
        by_index :
            (old : ℕ) (t : Table level)
            → ((j : ℕ)
                → j < room level
                → lookup level t j
                  ≡ (if j == i % m then v else lookup level (table_or_new level (d index)) j))
            → (j : ℕ)
            → lookup (suc level) (update d index (some t)) j
              ≡ (if j == i then v else lookup (suc level) d j)
        by_index old t same_else j = elim (Bool-cases (j / m == index)) [
          | inl h ↦
              let e : j / m ≡ index = ==→eq (j / m) index h in
              ap (λ b. maybe 0 (λ t. lookup level t (j % m)) (if b then some t else d (j / m))) h
              ∙ same_else (j % m) (rest_fits level j)
              ∙ ap₂ (λ b x. if b then v else x) (same_index j i m e)
                  (child_lookup level (d index) (j % m)
                    ∙ ap (λ k. maybe 0 (λ t. lookup level t (j % m)) (d k)) (sym e))
          | inr h ↦
              ap (λ b. maybe 0 (λ t. lookup level t (j % m)) (if b then some t else d (j / m))) h
              ∙ sym (ap (λ b. if b then v else lookup (suc level) d j) (other_index j i m h))
        ]

index_far : (level i : ℕ) → room (suc level) ≤ i → 64 ≤ i / 64 ^ suc level
index_far level i h =
    let positive : 1 ≤ 64 ^ suc level = one-le-pow (suc level) 64 (omega arith) in
    let wide : 64 ^ suc level * 64 ≤ i = subst (λ n. n ≤ i) (pow-suc 64 (suc level)) h in
    ground (arith, wide, (div-lt_iff_lt-mul {k = 64 ^ suc level} {x = i} {y = 64} (omega arith)).0)

-- Behind the room of a table, a read gives NULL above level 0 and other memory at level 0.
pub vector_entry_get-far :
    (level : ℕ) (t : Table level) (i : ℕ)
    → room level ≤ i
    → pointer_value (vector_entry_get level t i) ≡ (if level == 0 then none else some 0)
unfolding vector_entry_get
vector_entry_get-far zero d i h = rw (le→ltb i 64 (omega (arith, h))) refl
vector_entry_get-far (suc level) d i h =
    rw (le→ltb _ _ (index_far level i h), ne→== (suc level) 0 (omega arith)) refl

pub vector_entry_set-far :
    (level : ℕ) (t : Table level) (i v : ℕ) → room level ≤ i → vector_entry_set level t i v ≡ none
unfolding vector_entry_set
vector_entry_set-far zero d i v h = rw (le→ltb i 64 (omega (arith, h))) refl
vector_entry_set-far (suc level) d i v h = rw (le→ltb _ _ (index_far level i h)) refl
