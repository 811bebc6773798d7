-- ===== src/Libk/Vector.antt =====
-- libk/vector.c: a map from numbers, in tables of 64 entries. A table of level 0 holds data, one of a
-- higher level holds tables of the level below, or NULL. A `d[]` is a function of the index, which is
-- read below 64 only. Shifts by 6 bits for each level are written as powers of 64: an `int` holds
-- them up to 2 ^ 30, the bound of the theorems.
pub mod Lookup
pub mod Growth
pub mod Walk
pub mod Keys
mod Tests
use twcos.Common.{
  ℕ, zero, suc, ◌+◌, ◌*◌, ◌/◌, ◌%◌, ◌^◌, Bool, true, false, Option, none, some, ltb, ◌==◌,
  if◌then◌else◌, ◌>>=◌, maybe, List, [], ◌∷◌, ◌++◌,
}

-- `VECTOR_TABLE_ENTRIES`
abbrev pub table_entries : ℕ
table_entries = 64

-- `vector_table_t`
abbrev pub Table : ℕ → Type 0
Table zero = ℕ → ℕ
Table (suc level) = ℕ → Option (Table level)

pub record Vector : Type 0 where
  pub level : ℕ
  pub table : Table level

-- `slab_calloc` clears the table.
unfoldable pub vector_table_new : (level : ℕ) → Table level
vector_table_new zero = λ i. 0
vector_table_new (suc level) = λ i. none

abbrev pub update {ℓ} : {A : Type ℓ} → (ℕ → A) → ℕ → A → ℕ → A
update d i a j = if j == i then a else d j

-- What a pointer to an entry points to: NULL for `missing`, memory behind the table for `outside`.
pub data EntryPointer : Type 0 where
  found : ℕ → EntryPointer
  missing : EntryPointer
  outside : EntryPointer

-- `vector_entry_get(table, i, 0)`, with the entry read.
unfoldable pub vector_entry_get : (level : ℕ) → Table level → ℕ → EntryPointer
vector_entry_get zero d i = if ltb i table_entries then found (d i) else outside
vector_entry_get (suc level) d i =
    let index = i / 64 ^ suc level in
    let child = maybe missing (λ t. vector_entry_get level t (i % 64 ^ suc level)) (d index) in
    if ltb index table_entries then child else missing

-- The table that hangs at an entry, or a new one.
abbrev pub table_or_new : (level : ℕ) → Option (Table level) → Table level
table_or_new level none = vector_table_new level
table_or_new level (some t) = t

-- `vector_entry_get(table, i, 1)`, with the entry read and then written: the old value and the table.
-- `none` is a write to NULL or behind the table.
unfoldable pub vector_entry_set : (level : ℕ) → Table level → ℕ → ℕ → Option (ℕ × Table level)
unfolding vector_table_new
vector_entry_set zero d i v = if ltb i table_entries then some (d i, update d i v) else none
vector_entry_set (suc level) d i v =
    let index = i / 64 ^ suc level in
    let child = table_or_new level (d index) in
    let changed =
      vector_entry_set level child (i % 64 ^ suc level) v
      >>= (λ (old, t). some (old, update d index (some t))) in
    if ltb index table_entries then changed else none

-- `vector_checksize`, with fuel: a new top table holds the old one at index 0.
unfoldable pub vector_checksize : ℕ → Vector → ℕ → Option Vector
vector_checksize zero v i = none
vector_checksize (suc f) v i =
    let above =
      vector_checksize f
        (record { level = suc v.level; table = λ j. if j == 0 then some v.table else none }) i in
    if ltb (64 ^ suc v.level) i then above else some v

unfoldable pub vector_put : ℕ → Vector → ℕ → ℕ → Option (ℕ × Vector)
unfolding vector_checksize vector_entry_set
vector_put fuel v i d = do
  v' ← vector_checksize fuel v i
  (old, t) ← vector_entry_set v'.level v'.table i d
  some (old, record { level = v'.level; table = t })

-- What a pointer to an entry reads: 0 for NULL; `none` is a read behind the table.
abbrev pub pointer_value : EntryPointer → Option ℕ
pointer_value (found d) = some d
pointer_value missing = some 0
pointer_value outside = none

unfoldable pub vector_get : Vector → ℕ → Option ℕ
unfolding vector_entry_get
vector_get v i = pointer_value (vector_entry_get v.level v.table i)

-- `vector_walk_table`: the calls of `f`. The base of a child table is `(base+i)*64`, and 0 is no entry.
abbrev pub visit : ℕ → ℕ → List (ℕ × ℕ)
visit i zero = []
visit i (suc d) = (i, suc d) ∷ []

-- `for(int i=0; i<VECTOR_TABLE_ENTRIES; i++)`, from `i` on with `n` rounds left.
abbrev pub for_entries : ℕ → ℕ → (ℕ → List (ℕ × ℕ)) → List (ℕ × ℕ)
for_entries zero i calls = []
for_entries (suc n) i calls = calls i ++ for_entries n (i + 1) calls

unfoldable pub vector_walk_table : (level : ℕ) → Table level → (base : ℕ) → List (ℕ × ℕ)
vector_walk_table zero d base = for_entries table_entries 0 (λ i. visit (base + i) (d i))
vector_walk_table (suc level) d base =
    for_entries table_entries 0
      (λ i. maybe [] (λ t. vector_walk_table level t ((base + i) * table_entries)) (d i))

unfoldable pub vector_walk : Vector → List (ℕ × ℕ)
unfolding vector_walk_table
vector_walk v = vector_walk_table v.level v.table 0

unfoldable pub vector_new : Vector
unfolding vector_table_new
vector_new = record { level = 0; table = vector_table_new 0 }
