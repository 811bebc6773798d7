-- ===== src/Libk/Vector/Walk.antt =====
-- The order in which `vector_walk` of libk/vector.c visits the entries.
use twcos.Common.{
  ℕ, zero, suc, ◌+◌, ◌*◌, ◌/◌, ◌%◌, ◌^◌, ◌<◌, ◌≤◌, ◌≡◌, refl, sym, ap, ap₂, ◌∙◌, Option, none, some,
  maybe, List, [], ◌++◌, arith, append_assoc,
}
use native.Mathlib.Nat.{
  add-zero, zero-mul, mul_assoc, mul-one, pow-suc, mul-add-div_right, mul-add-mod_self_right,
  add-mul, div-eq_of_lt, mod-eq_of_lt,
}
use twcos.Libk.Vector.{
  table_entries, Table, Vector, visit, for_entries, vector_walk_table, vector_walk,
}
use twcos.Libk.Vector.Lookup.{lookup, room}
use twcos.Libk.Vector.Growth.{content}

for_entries-add :
    (a b i : ℕ) (f : ℕ → List (ℕ × ℕ))
    → for_entries (a + b) i f ≡ for_entries a i f ++ for_entries b (i + a) f
for_entries-add zero b i f = ap₂ (λ n k. for_entries n k f) {y = b} (omega arith) (omega arith)
for_entries-add (suc a) b i f =
    ap (λ n. for_entries n i f) {y = suc (a + b)} (omega arith)
    ∙ ap (f i ++◌) (
        for_entries-add a b (i + 1) f
        ∙ ap (λ k. for_entries a (i + 1) f ++ for_entries b k f) (omega arith))
    ∙ sym (append_assoc (f i) (for_entries a (i + 1) f) (for_entries b (i + suc a) f))

for_entries-mul :
    (n m i : ℕ) (f : ℕ → List (ℕ × ℕ))
    → for_entries (n * m) (i * m) f ≡ for_entries n i (λ k. for_entries m (k * m) f)
for_entries-mul zero m i f = ap (λ n. for_entries n (i * m) f) {y = 0} (omega arith)
for_entries-mul (suc n) m i f =
    ap (λ n. for_entries n (i * m) f) {x = suc n * m} {y = m + n * m} (omega (arith, add-mul 1 n m))
    ∙ for_entries-add m (n * m) (i * m) f
    ∙ ap (for_entries m (i * m) f ++◌) (
        ap (λ k. for_entries (n * m) k f) {x = i * m + m} (omega (arith, add-mul i 1 m))
        ∙ for_entries-mul n m (i + 1) f)

for_entries-cong :
    (n i : ℕ) (f g : ℕ → List (ℕ × ℕ))
    → ((j : ℕ) → i ≤ j → j < i + n → f j ≡ g j)
    → for_entries n i f ≡ for_entries n i g
for_entries-cong zero i f g h = refl
for_entries-cong (suc n) i f g h =
    ap₂ (λ a b. a ++ b) (h i (omega arith) (omega arith))
      (for_entries-cong n (i + 1) f g (λ j a b. h j (omega arith) (omega arith)))

for_entries-shift :
    (n i s : ℕ) (f : ℕ → List (ℕ × ℕ)) → for_entries n (s + i) f ≡ for_entries n i (λ j. f (s + j))
for_entries-shift zero i s f = refl
for_entries-shift (suc n) i s f =
    ap (f (s + i) ++◌) (
      ap (λ k. for_entries n k f) {y = s + (i + 1)} (omega arith) ∙ for_entries-shift n (i + 1) s f)

for_entries_nothing : (n i : ℕ) → for_entries n i (λ j. []) ≡ []
for_entries_nothing zero i = refl
for_entries_nothing (suc n) i = for_entries_nothing n (i + 1)

-- The visit of one entry, for what `lookup` reads at it.
visit_at : (level : ℕ) → Table level → (base j : ℕ) → List (ℕ × ℕ)
visit_at level t base j = visit (base * 64 ^ level + j) (lookup level t j)

index_in : (m i j : ℕ) → j < m → (i * m + j) / m ≡ i
index_in m i j h =
    mul-add-div_right {m = m} (omega arith) i j ∙ ap (λ q. i + q) (div-eq_of_lt h) ∙ add-zero i

rest_in : (m i j : ℕ) → j < m → (i * m + j) % m ≡ j
rest_in m i j h = mul-add-mod_self_right i m j ∙ mod-eq_of_lt h

base_of_child :
    (level base i : ℕ)
    → base * room level + i * room level ≡ (base + i) * table_entries * 64 ^ level
base_of_child level base i =
    let wide : room level ≡ table_entries * 64 ^ level = omega (arith, pow-suc 64 level) in
    sym (add-mul base i (room level))
    ∙ ap (λ n. (base + i) * n) wide
    ∙ sym (mul_assoc (base + i) table_entries (64 ^ level))

visit_at-child :
    (level : ℕ) (d : Table (suc level)) (base i j : ℕ)
    → j < room level
    → visit_at (suc level) d base (i * room level + j)
      ≡ maybe [] (λ t. visit_at level t ((base + i) * table_entries) j) (d i)
unfolding visit_at
visit_at-child level d base i j h =
    ap₂
      (λ q r.
        visit (base * room level + (i * room level + j)) (maybe 0 (λ t. lookup level t r) (d q)))
      (index_in (room level) i j h) (rest_in (room level) i j h)
    ∙ at_child (d i)
  where
    at_child :
        (o : Option (Table level))
        → visit (base * room level + (i * room level + j)) (maybe 0 (λ t. lookup level t j) o)
          ≡ maybe [] (λ t. visit_at level t ((base + i) * table_entries) j) o
    at_child none = refl
    at_child (some t) =
        ap (λ k. visit k (lookup level t j)) (omega (arith, base_of_child level base i))

vector_walk_table-visit_at :
    (level : ℕ) (t : Table level) (base : ℕ)
    → vector_walk_table level t base ≡ for_entries (room level) 0 (visit_at level t base)
unfolding vector_walk_table visit_at
vector_walk_table-visit_at zero d base =
    for_entries-cong 64 0 (λ i. visit (base + i) (d i)) (visit_at 0 d base)
      (λ j a b.
        ap (λ k. visit k (d j)) {x = base + j} {y = base * 1 + j} (omega (arith, mul-one base)))
vector_walk_table-visit_at (suc level) d base =
    for_entries-cong 64 0 _ (λ i. for_entries (room level) (i * room level) whole)
      (λ i a b. at_child i (λ t. vector_walk_table-visit_at level t ((base + i) * table_entries)))
    ∙ sym (for_entries-mul 64 (room level) 0 whole)
    ∙ ap₂ (λ n k. for_entries n k whole) {x = 64 * room level}
        (omega (arith, pow-suc 64 (suc level))) (zero-mul (room level))
  where
    whole : ℕ → List (ℕ × ℕ)
    whole = visit_at (suc level) d base

    by_visits :
        (base' : ℕ) (o : Option (Table level))
        → ((t : Table level)
            → vector_walk_table level t base' ≡ for_entries (room level) 0 (visit_at level t base'))
        → maybe [] (λ t. vector_walk_table level t base') o
          ≡ for_entries (room level) 0 (λ j. maybe [] (λ t. visit_at level t base' j) o)
    by_visits base' none ih = sym (for_entries_nothing (room level) 0)
    by_visits base' (some t) ih = ih t

    at_child :
        (i : ℕ)
        → ((t : Table level)
            → vector_walk_table level t ((base + i) * table_entries)
              ≡ for_entries (room level) 0 (visit_at level t ((base + i) * table_entries)))
        → maybe [] (λ t. vector_walk_table level t ((base + i) * table_entries)) (d i)
          ≡ for_entries (room level) (i * room level) whole
    at_child i ih =
        by_visits ((base + i) * table_entries) (d i) ih
        ∙ sym (
            for_entries-cong (room level) 0 (λ j. whole (i * room level + j)) _
              (λ j a b. visit_at-child level d base i j (omega (arith, b))))
        ∙ sym (for_entries-shift (room level) 0 (i * room level) whole)
        ∙ ap (λ k. for_entries (room level) k whole) (add-zero (i * room level))

-- `vector_walk` calls its function for the entries that are not 0, with their data, from the lowest index
-- to the highest.
pub vector_walk-content :
    (v : Vector) → vector_walk v ≡ for_entries (room v.level) 0 (λ j. visit j (content v j))
unfolding vector_walk visit_at
vector_walk-content v =
    vector_walk_table-visit_at v.level v.table 0
    ∙ for_entries-cong (room v.level) 0 (visit_at v.level v.table 0) (λ j. visit j (content v j))
        (λ j a b. ground (arith, zero-mul (64 ^ v.level), b))
