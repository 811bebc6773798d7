-- ===== src/Libk/Map/Compound.antt =====
-- The compound keys of libk/map.c.
use twcos.Common.{
  ℕ, zero, suc, ◌+◌, ◌-◌, ◌*◌, ◌/◌, ◌%◌, ◌^◌, ◌<◌, ◌≡◌, refl, sym, ap, ◌∙◌, some, List, [], ◌∷◌,
  ◌++◌, arith, length, le→ltb,
}
use native.Mathlib.Nat.{
  div-one, pow-suc, mul-add-div, mul-add-mod_self_left, div-div-eq-div-mul, div-eq_of_lt,
  mod-eq_of_lt, div-add-mod, mod-lt, mul_comm, mul_assoc, add-mul, div-lt_iff_lt-mul,
  mul_right_comm,
}
use twcos.Common.Int.{pos}
use twcos.Libk.Strings.{memcmp}
use twcos.Libk.Strings.Order.{memcmp-first}
use twcos.Libk.Map.{
  i4, i8, rotate, store_bytes, compound_length, compound_bytes, map_compound_key,
  map_compound_key_comp,
}

-- The number whose bytes are stored, the highest first.
abbrev pub number_of : ℕ → List ℕ → ℕ
number_of n [] = n
number_of n (b ∷ bytes) = number_of (n * 256 + b) bytes

shift_mod : (i top : ℕ) → 0 < top → i * 256 % (top * 256) ≡ i % top * 256
shift_mod i top p =
    let parts : i * 256 ≡ top * 256 * (i / top) + i % top * 256 =
      omega (arith, div-add-mod i top, mul_right_comm top 256 (i / top)) in
    ap (λ n. n % (top * 256)) parts
    ∙ mul-add-mod_self_left (top * 256) (i / top) (i % top * 256)
    ∙ mod-eq_of_lt (omega (arith, mod-lt i p))

-- One rotation of a word of `top * 256` values moves its highest byte to the lowest.
rotated :
    (w top i : ℕ)
    → 2 ^ w ≡ top * 256
    → 2 ^ (w - 8) ≡ top
    → 0 < top
    → rotate w i ≡ i % top * 256 + i / top
rotated w top i e t p = rw (e, t) (ap (λ n. n + i / top) (shift_mod i top p))

times_power : (m n : ℕ) → m * 256 ^ suc n ≡ m * 256 ^ n * 256
times_power m n = ap (λ x. m * x) (pow-suc 256 n) ∙ sym (mul_assoc m (256 ^ n) 256)

-- Of a word below `top * 256`, the `n` bytes stored first are those above the part that `m` divides.
number_of-store_bytes :
    (w top n m acc i : ℕ)
    → 2 ^ w ≡ top * 256
    → 2 ^ (w - 8) ≡ top
    → 0 < top
    → 0 < m
    → m * 256 ^ n ≡ top * 256
    → i < top * 256
    → number_of acc (store_bytes w n i) ≡ acc * 256 ^ n + i / m
unfolding store_bytes
number_of-store_bytes w top zero m acc i e t q p f l =
    let above : i / m ≡ 0 = div-eq_of_lt (omega (arith, f, l)) in omega (arith, above)
number_of-store_bytes w top (suc n) m acc i e t q p f l =
    let b = i / top in
    let low = i % top in
    let r : rotate w i ≡ low * 256 + b = rotated w top i e t q in
    let b_small : b < 256 =
      (div-lt_iff_lt-mul {k = top} {x = i} {y = 256} q).1 (omega (arith, l)) in
    let low_small : low < top = mod-lt i q in
    let byte : rotate w i % 256 ≡ b = omega (arith, r, b_small) in
    let rest : rotate w i / 256 ≡ low = omega (arith, r, b_small) in
    let m_top : m * 256 ^ n ≡ top = omega (arith, f, times_power m n) in
    let ih =
      number_of-store_bytes w top n (m * 256) (acc * 256 + rotate w i % 256) (rotate w i) e t q
        (omega arith) (omega (arith, mul_right_comm m 256 (256 ^ n), m_top))
        (omega (arith, r, b_small, low_small)) in
    let whole : i ≡ m * (256 ^ n * b) + low =
      omega (arith, div-add-mod i top, ap (λ x. x * b) m_top, mul_assoc m (256 ^ n) b) in
    let quotient : i / m ≡ 256 ^ n * b + low / m =
      ap (λ x. x / m) whole ∙ mul-add-div p (256 ^ n * b) low in
    let later : rotate w i / (m * 256) ≡ low / m =
      ap (λ x. rotate w i / x) (mul_comm m 256)
      ∙ sym (div-div-eq-div-mul (rotate w i) 256 m)
      ∙ ap (λ x. x / m) rest in
    let bytes : (acc * 256 + rotate w i % 256) * 256 ^ n ≡ acc * 256 * 256 ^ n + 256 ^ n * b =
      add-mul (acc * 256) (rotate w i % 256) (256 ^ n)
      ∙ ap (λ x. acc * 256 * 256 ^ n + x) (ap (λ x. x * 256 ^ n) byte ∙ mul_comm b (256 ^ n)) in
    omega (arith, ih, bytes, quotient, later, mul_right_comm acc 256 (256 ^ n), times_power acc n)

-- The compound key of format "i4i8" has 12 bytes: four, which read with the highest first are the first
-- number, and eight, which are the second.
pub number_of-map_compound_key :
    (i j : ℕ)
    → i < 2 ^ 32
    → j < 2 ^ 64
    → (a b : List ℕ) × (map_compound_key (i4 i ∷ i8 j ∷ []) ≡ some (a ++ b))
      × (length a ≡ 4)
      × (length b ≡ 8)
      × (number_of 0 a ≡ i)
      × (number_of 0 b ≡ j)
unfolding map_compound_key compound_bytes compound_length store_bytes
number_of-map_compound_key i j h g = (
  store_bytes 32 4 i,
  store_bytes 64 8 j,
  refl,
  refl,
  refl,
  number_of-store_bytes 32 (2 ^ 24) 4 1 0 i refl refl (omega arith) (omega arith) refl h
      ∙ omega (arith, div-one i),
  number_of-store_bytes 64 (2 ^ 56) 8 1 0 j refl refl (omega arith) (omega arith) refl g
      ∙ omega (arith, div-one j),
)

same_first : (b n : ℕ) (s1 s2 : List ℕ) → memcmp (b ∷ s1) (b ∷ s2) (suc n) ≡ pos 0
unfolding memcmp
same_first b n s1 s2 = memcmp-first (b ∷ s1) (b ∷ s2) n ∙ ground arith

-- Two keys of the same length compare equal where their first bytes are equal.
pub map_compound_key_comp-first :
    (b : ℕ) (key1 key2 : List ℕ)
    → length key1 ≡ length key2
    → map_compound_key_comp (b ∷ key1) (b ∷ key2) ≡ pos 0
unfolding map_compound_key_comp
map_compound_key_comp-first b key1 key2 e =
    rw (e, le→ltb (suc (length key2)) (suc (length key2)) (omega arith))
      (same_first b (length key2) key1 key2)
