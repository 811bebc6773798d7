-- ===== src/Libk/Map/Contract.antt =====
-- What a client of libk/map.c may rely on, whatever kind of map it has.
use twcos.Common.{
  ℕ, ◌≡◌, ◌≢◌, refl, sym, ◌∙◌, Bool, true, false, Option, none, some, List, [], ◌∷◌, if◌then◌else◌,
  maybe, All, Bool-cases, inl, inr, ==→eq, ◌==◌, arith,
}
use twcos.Libk.Map.{MapOps, map_walk, map_put, map_get, put_each, map_put_all}

-- The data of the last call with a key that is the same, in a walk.
abbrev pub find_last : (ℕ → ℕ → Bool) → ℕ → List (ℕ × ℕ) → Option ℕ
find_last same k [] = none
find_last same k ((key, value) ∷ entries) = elim (find_last same k entries) [
  | some v ↦ some v
  | none ↦ if same k key then some value else none
]

-- The laws of a kind of map whose keys are compared by `same`, and whose states are `Valid`.
pub record IsMap {State : Type 0} (ops : MapOps State) (same : ℕ → ℕ → Bool)
    (Valid : State → Type 0) : Type 0 where
  pub put-Valid : (m : State) (key value : ℕ) → Valid m → Valid (map_put ops m key value).1
  pub get-put :
      (m : State) (key value k : ℕ)
      → Valid m
      → (map_get ops (map_put ops m key value).1 k).0
        ≡ (if same k key then value else (map_get ops m k).0)
  pub get-walk :
      (m : State) (k : ℕ)
      → Valid m
      → (map_get ops m k).0 ≡ maybe 0 (λ v. v) (find_last same k (map_walk ops m))

-- The laws of a kind of map that keeps them on the keys of `Key`, and has no others.
pub record IsMapOn {State : Type 0} (ops : MapOps State) (same : ℕ → ℕ → Bool) (Key : ℕ → Type 0)
    (Valid : State → Type 0) : Type 0 where
  pub put-Valid :
      (m : State) (key value : ℕ) → Key key → Valid m → Valid (map_put ops m key value).1
  pub get-put :
      (m : State) (key value k : ℕ)
      → Key key
      → Key k
      → Valid m
      → (map_get ops (map_put ops m key value).1 k).0
        ≡ (if same k key then value else (map_get ops m k).0)
  pub get-walk :
      (m : State) (k : ℕ)
      → Key k
      → Valid m
      → (map_get ops m k).0 ≡ maybe 0 (λ v. v) (find_last same k (map_walk ops m))
  pub walk-Key : (m : State) → Valid m → All (λ e. Key e.0) (map_walk ops m)

-- Every number is a key.
abbrev pub AnyKey : ℕ → Type 0
AnyKey k = Unit {0}

All-AnyKey : (entries : List (ℕ × ℕ)) → All (λ e. AnyKey e.0) entries
All-AnyKey [] = tt
All-AnyKey (e ∷ entries) = (tt, All-AnyKey entries)

pub IsMap-IsMapOn :
    {State : Type 0} (ops : MapOps State) (same : ℕ → ℕ → Bool) (Valid : State → Type 0)
    → IsMap ops same Valid
    → IsMapOn ops same AnyKey Valid
IsMap-IsMapOn ops same Valid law = record {
  put-Valid = λ m key value a v. law.put-Valid m key value v;
  get-put = λ m key value k a b v. law.get-put m key value k v;
  get-walk = λ m k a v. law.get-walk m k v;
  walk-Key = λ m v. All-AnyKey (map_walk ops m);
}

module _ {To : Type 0} {From : Type 0} (to_ops : MapOps To) (from_ops : MapOps From)
    (same : ℕ → ℕ → Bool) (Key : ℕ → Type 0) (ToValid : To → Type 0) (FromValid : From → Type 0)
    (to_law : IsMapOn to_ops same Key ToValid)
    (from_law : IsMapOn from_ops same Key FromValid) where
  get-put_each :
      (to : To) (entries : List (ℕ × ℕ)) (k : ℕ)
      → All (λ e. Key e.0) entries
      → Key k
      → ToValid to
      → (map_get to_ops (put_each to_ops to entries) k).0
        ≡ maybe (map_get to_ops to k).0 (λ v. v) (find_last same k entries)
  unfolding put_each
  get-put_each to [] k all a v = refl
  get-put_each to ((key, value) ∷ entries) k all a v =
      get-put_each (map_put to_ops to key value).1 entries k all.1 a
        (to_law.put-Valid to key value all.0 v)
      ∙ by_last (find_last same k entries)
    where
      by_last :
          (o : Option ℕ)
          → maybe (map_get to_ops (map_put to_ops to key value).1 k).0 (λ v. v) o
            ≡ maybe
                (map_get to_ops to k).0
                (λ v. v)
                (elim o [ some v ↦ some v | none ↦ if same k key then some value else none ])
      by_last (some v) = refl
      by_last none = to_law.get-put to key value k all.0 a v ∙ by_key (same k key)
        where
          by_key :
              (b : Bool)
              → (if b then value else (map_get to_ops to k).0)
                ≡ maybe (map_get to_ops to k).0 (λ v. v) (if b then some value else none)
          by_key true = refl
          by_key false = refl

  map_put_all-on :
      (to : To) (from : From) (k : ℕ)
      → Key k
      → ToValid to
      → FromValid from
      → let to' = map_put_all to_ops from_ops to from in
        ((map_get from_ops from k).0 ≢ 0 → (map_get to_ops to' k).0 ≡ (map_get from_ops from k).0)
        × ((map_get from_ops from k).0 ≡ 0
            → (map_get to_ops to k).0 ≡ 0
            → (map_get to_ops to' k).0 ≡ 0)
  unfolding map_put_all
  map_put_all-on to from k a v w =
      by_last (find_last same k (map_walk from_ops from))
        (get-put_each to (map_walk from_ops from) k (from_law.walk-Key from w) a v)
        (from_law.get-walk from k a w)
    where
      by_last :
          {read had : ℕ} (o : Option ℕ)
          → read ≡ maybe (map_get to_ops to k).0 (λ v. v) o
          → had ≡ maybe 0 (λ v. v) o
          → (had ≢ 0 → read ≡ had) × (had ≡ 0 → (map_get to_ops to k).0 ≡ 0 → read ≡ 0)
      by_last none e h = (λ n. absurd (n h), λ z n. e ∙ n)
      by_last (some x) e h = (λ n. e ∙ sym h, λ z n. e ∙ sym h ∙ z)

  -- The same into a map without data: it reads as the other at every key.
  pub map_put_all-copies :
      (to : To) (from : From) (k : ℕ)
      → Key k
      → ToValid to
      → FromValid from
      → (map_get to_ops to k).0 ≡ 0
      → (map_get to_ops (map_put_all to_ops from_ops to from) k).0 ≡ (map_get from_ops from k).0
  map_put_all-copies to from k a v w empty =
      let keys = map_put_all-on to from k a v w in
      elim (Bool-cases ((map_get from_ops from k).0 == 0)) [
        | inl none_there ↦ let z = ==→eq _ _ none_there in keys.1 z empty ∙ sym z
        | inr there ↦ keys.0 (ground (arith, there))
      ]

module _ {To : Type 0} {From : Type 0} (to_ops : MapOps To) (from_ops : MapOps From)
    (same : ℕ → ℕ → Bool) (ToValid : To → Type 0) (FromValid : From → Type 0)
    (to_law : IsMap to_ops same ToValid) (from_law : IsMap from_ops same FromValid) where
  -- After `map_put_all` from one map to another, of kinds that keep the laws of maps, a key reads in the
  -- second as in the first where the first has data for it, and no key reads data that neither had.
  pub map_get-map_put_all :
      (to : To) (from : From) (k : ℕ)
      → ToValid to
      → FromValid from
      → let to' = map_put_all to_ops from_ops to from in
        ((map_get from_ops from k).0 ≢ 0 → (map_get to_ops to' k).0 ≡ (map_get from_ops from k).0)
        × ((map_get from_ops from k).0 ≡ 0
            → (map_get to_ops to k).0 ≡ 0
            → (map_get to_ops to' k).0 ≡ 0)
  map_get-map_put_all to from k v w =
      map_put_all-on to_ops from_ops same AnyKey ToValid FromValid
        (IsMap-IsMapOn to_ops same ToValid to_law) (IsMap-IsMapOn from_ops same FromValid from_law)
        to from k tt v w
