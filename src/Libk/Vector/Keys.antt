-- ===== src/Libk/Vector/Keys.antt =====
-- libk/vector.c as a kind of map of libk/map.c. A state is `none` after an access outside the tables.
use twcos.Common.{
  ℕ, zero, suc, ◌+◌, ◌-◌, ◌<◌, ◌≤◌, ◌≡◌, refl, sym, ◌∙◌, Option, none, some, List, [], ◌++◌, All,
  All-append, arith, ◌==◌, if◌then◌else◌, maybe, ◌>>=◌, Bool-cases, inl, inr, ne→==, ==_refl, ==→eq,
  lt→ltb, le→ltb,
}
use twcos.Libk.Map.{MapOps, map_get, map_put, map_walk}
use twcos.Libk.Map.Contract.{IsMapOn, find_last}
use twcos.Libk.Vector.{
  Vector, visit, for_entries, vector_checksize, vector_entry_get, vector_entry_set, vector_put,
  vector_get, vector_walk, vector_walk_table, vector_new, vector_table_new,
}

-- `vector_ops`. `remove` and `optimize` are 0, calls through NULL; there is no `walk_range`, which no
-- client of a vector calls.
unfoldable pub vector_ops : MapOps (Option Vector)
unfolding vector_put vector_get vector_walk
vector_ops = record {
  walk = λ m. maybe [] vector_walk m;
  walk_range = λ m from to. [];
  put = λ m key value.
      maybe (0, none) (λ (old, v). (old, some v))
        (m >>= (λ v. vector_put (5 - v.level) v key value));
  get = λ m key cond. maybe (0, none) (λ d. (d, m)) (m >>= (λ v. vector_get v key));
  remove = λ m key. (0, none);
  optimize = λ m. none;
}

-- A vector of one table, and the keys that it has room for.
pub record IsOneTable (m : Option Vector) : Type 0 where
  pub table : ℕ → ℕ
  pub is : m ≡ some (record { level = 0; table = table })

abbrev pub IsKey : ℕ → Type 0
IsKey k = k < 64

get_one :
    (d : ℕ → ℕ) (k : ℕ)
    → k < 64
    → map_get vector_ops (some (record { level = 0; table = d })) k
      ≡ (d k, some (record { level = 0; table = d }))
unfolding map_get vector_ops vector_get vector_entry_get
get_one d k h = rw (lt→ltb k 64 h)

put_one :
    (d : ℕ → ℕ) (key value : ℕ)
    → key < 64
    → map_put vector_ops (some (record { level = 0; table = d })) key value
      ≡ (d key, some (record { level = 0; table = λ j. if j == key then value else d j }))
unfolding map_put vector_ops vector_put vector_checksize vector_entry_set
put_one d key value h = rw (le→ltb 64 key (omega arith), lt→ltb key 64 h)

find_last-visit :
    (k i x : ℕ) (rest : List (ℕ × ℕ))
    → maybe 0 (λ v. v) (find_last ◌==◌ k (visit i x ++ rest))
      ≡ maybe (if k == i then x else 0) (λ v. v) (find_last ◌==◌ k rest)
find_last-visit k i x rest = by_rest x (find_last ◌==◌ k rest) refl
  where
    by_rest :
        (x : ℕ) (o : Option ℕ)
        → find_last ◌==◌ k rest ≡ o
        → maybe 0 (λ v. v) (find_last ◌==◌ k (visit i x ++ rest))
          ≡ maybe (if k == i then x else 0) (λ v. v) o
    by_rest zero none e = ground (arith, e)
    by_rest zero (some v) e = rw e
    by_rest (suc x) none e = ground (arith, e)
    by_rest (suc x) (some v) e = rw e

before :
    (d : ℕ → ℕ) (n i k : ℕ) → k < i → find_last ◌==◌ k (for_entries n i (λ j. visit j (d j))) ≡ none
before d zero i k h = refl
before d (suc n) i k h = by_entry (d i) (before d n (i + 1) k (omega arith))
  where
    by_entry :
        (x : ℕ)
        → find_last ◌==◌ k (for_entries n (i + 1) (λ j. visit j (d j))) ≡ none
        → find_last ◌==◌ k (visit i x ++ for_entries n (i + 1) (λ j. visit j (d j))) ≡ none
    by_entry zero e = e
    by_entry (suc x) e = rw (find_last, e, ne→== k i (λ s. omega (arith, s)))

walk_finds :
    (d : ℕ → ℕ) (n i k : ℕ)
    → i ≤ k
    → k < i + n
    → maybe 0 (λ v. v) (find_last ◌==◌ k (for_entries n i (λ j. visit j (d j)))) ≡ d k
walk_finds d zero i k a b = absurd (omega arith)
walk_finds d (suc n) i k a b =
    let rest = for_entries n (i + 1) (λ j. visit j (d j)) in
    find_last-visit k i (d i) rest ∙ elim (Bool-cases (k == i)) [
      | inl here ↦ at_once (==→eq k i here) (before d n (i + 1) k (ground (arith, here)))
      | inr other ↦ rw other (walk_finds d n (i + 1) k (ground (arith, other)) (omega arith))
    ]
  where
    at_once :
        k ≡ i
        → find_last ◌==◌ k (for_entries n (i + 1) (λ j. visit j (d j))) ≡ none
        → maybe
            (if k == i then d i else 0)
            (λ v. v)
            (find_last ◌==◌ k (for_entries n (i + 1) (λ j. visit j (d j))))
          ≡ d k
    at_once e none_later = rw (none_later, e, ==_refl i)

walk_keys :
    (d : ℕ → ℕ) (n i : ℕ) → i + n ≤ 64 → All (λ e. IsKey e.0) (for_entries n i (λ j. visit j (d j)))
walk_keys d zero i h = tt
walk_keys d (suc n) i h =
    All-append _ (visit i (d i)) (for_entries n (i + 1) (λ j. visit j (d j))) (one (d i))
      (walk_keys d n (i + 1) (omega arith))
  where
    one : (x : ℕ) → All (λ e. IsKey e.0) (visit i x)
    one zero = tt
    one (suc x) = (omega arith, tt)

walk_one :
    (d : ℕ → ℕ)
    → map_walk vector_ops (some (record { level = 0; table = d }))
      ≡ for_entries 64 0 (λ j. visit j (d j))
unfolding map_walk vector_ops vector_walk vector_walk_table
walk_one d = refl

-- A vector of one table keeps the laws of maps on the keys below 64: a put changes the data at its
-- key alone and leaves a vector of one table, and a walk is over the entries that a get reads.
pub vector-IsMapOn : IsMapOn vector_ops ◌==◌ IsKey IsOneTable
vector-IsMapOn = record {
  put-Valid = λ m key value h v.
      rw (v.is, put_one v.table key value h)
        (record { table = λ j. if j == key then value else v.table j; is = refl });
  get-put = λ m key value k h g v. rw (
    v.is,
    put_one v.table key value h,
    get_one (λ j. if j == key then value else v.table j) k g,
    get_one v.table k g,
  );
  get-walk = λ m k g v.
      rw (v.is, get_one v.table k g, walk_one v.table)
        (sym (walk_finds v.table 64 0 k (omega arith) (omega arith)));
  walk-Key = λ m v. rw (v.is, walk_one v.table) (walk_keys v.table 64 0 (omega arith));
}

-- A new vector has one table, without data.
pub vector_new-IsOneTable : IsOneTable (some vector_new)
unfolding vector_new vector_table_new
vector_new-IsOneTable = record { table = λ i. 0; is = refl }

pub get-vector_new : (k : ℕ) → k < 64 → (map_get vector_ops (some vector_new) k).0 ≡ 0
unfolding vector_new vector_table_new
get-vector_new k h = rw (get_one (λ i. 0) k h)
