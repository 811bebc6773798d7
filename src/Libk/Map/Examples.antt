-- ===== src/Libk/Map/Examples.antt =====
-- A map that is a list of entries, for tests of the clients of libk/map.c.
use twcos.Common.{ℕ, ◌≡◌, refl, some, List, [], ◌∷◌, ◌++◌, arith, ◌==◌, if◌then◌else◌, maybe}
use twcos.Libk.Map.{MapOps, map_get, map_put, map_walk}
use twcos.Libk.Map.Contract.{IsMap, find_last}

-- New entries go to the end; the last one for a key counts.
abbrev pub ops : MapOps (List (ℕ × ℕ))
ops = record {
  walk = λ m. m;
  walk_range = λ m from to. [];
  put = λ m key value. (0, m ++ ((key, value) ∷ []));
  get = λ m key cond. (maybe 0 (λ v. v) (find_last ◌==◌ key m), m);
  remove = λ m key. (0, m);
  optimize = λ m. m;
}

find_last-append :
    (m : List (ℕ × ℕ)) (key value k : ℕ)
    → find_last ◌==◌ k (m ++ ((key, value) ∷ []))
      ≡ (if k == key then some value else find_last ◌==◌ k m)
find_last-append [] key value k = refl
find_last-append ((j, w) ∷ m) key value k = ground (arith, find_last-append m key value k)

abbrev pub Any : List (ℕ × ℕ) → Type 0
Any m = Unit {0}

pub law : IsMap ops ◌==◌ Any
unfolding map_get map_put map_walk
law = record {
  put-Valid = λ m key value v. tt;
  get-put = λ m key value k v. ground (arith, find_last-append m key value k);
  get-walk = λ m k v. refl;
}

pub still : (m : List (ℕ × ℕ)) (k : ℕ) → Any m → (map_get ops m k).1 ≡ m
unfolding map_get
still m k v = refl
