-- ===== src/Libk/Slab/Maps.antt =====
-- The bit maps that libk/slab.c writes as a whole, in a new slab and when a collection begins.
use twcos.Common.{
  ℕ, zero, suc, ◌+◌, ◌-◌, ◌*◌, ◌≤◌, ◌<◌, ◌≡◌, refl, sym, ap, subst, ◌∙◌, true, false, List, [], ◌∷◌,
  ◌++◌, arith, ltb, Bool-cases, inl, inr, length, get_or, replicate, length-append,
  length-replicate, get_or-append_left, get_or-append_right, get_or-replicate,
}
use native.Mathlib.Decide.{dec_lt}
use twcos.Kernel.Pages.{Word}
use twcos.Kernel.Pages.Bits.{bit, IsFull, bit-suc, bit-zero}
use twcos.Libk.Slab.{
  SlabType, Slab, map_words, mask_word, write_masks, slab_new, slab_mark_available_all,
}

length-mask_word : (left : ℕ) → length (mask_word left) ≡ 32
length-mask_word left = elim (Bool-cases (ltb left 32)) [
  | inl h ↦ rw h (
      length-append (replicate left true) (replicate (32 - left) false)
      ∙ ground (arith, length-replicate left true, length-replicate (32 - left) false))
  | inr h ↦ rw h refl
]

mask_word_low : (left i : ℕ) → i < left → i < 32 → get_or (mask_word left) i false ≡ true
mask_word_low left i l h = elim (Bool-cases (ltb left 32)) [
  | inl e ↦ rw e (
      get_or-append_left (replicate left true) (replicate (32 - left) false) i false
        (omega (arith, length-replicate left true))
      ∙ get_or-replicate left i true false l)
  | inr e ↦ rw e (get_or-replicate 32 i true false h)
]

get_or_falses : (n i : ℕ) → get_or (replicate n false) i false ≡ false
get_or_falses zero i = refl
get_or_falses (suc n) zero = refl
get_or_falses (suc n) (suc i) = get_or_falses n i

mask_word_high : (left i : ℕ) → left ≤ i → i < 32 → get_or (mask_word left) i false ≡ false
mask_word_high left i l h =
    let small : ltb left 32 ≡ true = ground arith in
    let e : i ≡ length (replicate left true) + (i - left) =
      omega (arith, length-replicate left true) in
    rw small (
      ap (λ k. get_or (replicate left true ++ replicate (32 - left) false) k false) e
      ∙ get_or-append_right (replicate left true) (replicate (32 - left) false) (i - left) false
      ∙ get_or_falses (32 - left) (i - left))

pub write_masks-IsFull :
    (left : ℕ) (words : List Word) → IsFull words → IsFull (write_masks left words)
unfolding write_masks
write_masks-IsFull left [] f = tt
write_masks-IsFull left (w ∷ words) f = elim (Bool-cases (ltb 0 left)) [
  | inl h ↦ rw h (length-mask_word left, write_masks-IsFull (left - 32) words f.1)
  | inr h ↦ rw h f
]

pub length-write_masks :
    (left : ℕ) (words : List Word) → length (write_masks left words) ≡ length words
unfolding write_masks
length-write_masks left [] = refl
length-write_masks left (w ∷ words) = ground (arith, length-write_masks (left - 32) words)

-- A bit at a place in the first word, or behind it.
by_word : (P : ℕ → Type 0) (i : ℕ) → (i < 32 → P i) → ((j : ℕ) → i ≡ 32 + j → P (32 + j)) → P i
by_word P i first behind = elim (dec_lt i 32) [
  | yes h ↦ first h
  | no h ↦ let e : i ≡ 32 + (i - 32) = omega arith in subst P (sym e) (behind (i - 32) e)
]

pub write_masks_low :
    (left : ℕ) (words : List Word) (i : ℕ)
    → i < left
    → i < 32 * length words
    → bit (write_masks left words) i ≡ true
unfolding write_masks
write_masks_low left [] i l h = absurd (omega arith)
write_masks_low left (w ∷ words) i l h =
    let some_left : ltb 0 left ≡ true = ground arith in
    rw some_left (
      by_word (λ i. bit (mask_word left ∷ write_masks (left - 32) words) i ≡ true) i
        (λ inside. bit-zero (mask_word left) _ i inside ∙ mask_word_low left i l inside)
        (λ j e.
          bit-suc (mask_word left) _ j
          ∙ write_masks_low (left - 32) words j (omega (arith, e)) (omega (arith, e))))

pub write_masks_high :
    (left : ℕ) (words : List Word) (i : ℕ)
    → left ≤ i
    → bit words i ≡ false
    → bit (write_masks left words) i ≡ false
unfolding write_masks
write_masks_high left [] i l h = h
write_masks_high left (w ∷ words) i l h = elim (Bool-cases (ltb 0 left)) [
  | inr e ↦ rw e h
  | inl e ↦ rw e (
      by_word (λ i. bit (mask_word left ∷ write_masks (left - 32) words) i ≡ false) i
        (λ inside. bit-zero (mask_word left) _ i inside ∙ mask_word_high left i l inside)
        (λ j e.
          bit-suc (mask_word left) _ j
          ∙ write_masks_high (left - 32) words j (omega (arith, e))
              (sym (bit-suc w words j) ∙ subst (λ i. bit (w ∷ words) i ≡ false) e h)))
]

-- The map has its words, and no bit behind the last slot.
pub record IsValid (s : Slab) : Type 0 where
  pub full : IsFull s.available
  pub size : length s.available ≡ map_words s.type
  pub clear : (i : ℕ) → s.type.count ≤ i → bit s.available i ≡ false

replicate-IsFull : (n : ℕ) → IsFull (replicate n (replicate 32 false))
replicate-IsFull zero = tt
replicate-IsFull (suc n) = (refl, replicate-IsFull n)

bit_of_zeros : (n i : ℕ) → bit (replicate n (replicate 32 false)) i ≡ false
bit_of_zeros zero i = refl
bit_of_zeros (suc n) i =
    by_word (λ i. bit (replicate 32 false ∷ replicate n (replicate 32 false)) i ≡ false) i
      (λ inside. bit-zero _ _ i inside ∙ get_or_falses 32 i)
      (λ j e. bit-suc _ _ j ∙ bit_of_zeros n j)

-- A map of a valid slab that is written as a whole has the bits of all slots set.
all_slots :
    (t : SlabType) (words : List Word) (i : ℕ)
    → length words ≡ map_words t
    → i < t.count
    → bit (write_masks t.count words) i ≡ true
all_slots t words i e l = write_masks_low t.count words i l (omega (arith, e))

pub slab_new-IsValid : (t : SlabType) (page : ℕ) → IsValid (slab_new t page)
unfolding slab_new
slab_new-IsValid t page =
    let zeros = replicate (map_words t) (replicate 32 false) in
    record {
      full = write_masks-IsFull t.count zeros (replicate-IsFull (map_words t));
      size = length-write_masks t.count zeros ∙ length-replicate (map_words t) (replicate 32 false);
      clear = λ i h. write_masks_high t.count zeros i h (bit_of_zeros (map_words t) i);
    }

pub slab_new-all :
    (t : SlabType) (page i : ℕ) → i < t.count → bit (slab_new t page).available i ≡ true
unfolding slab_new
slab_new-all t page i l =
    all_slots t (replicate (map_words t) (replicate 32 false)) i
      (length-replicate (map_words t) (replicate 32 false)) l

pub slab_mark_available_all-IsValid : (s : Slab) → IsValid s → IsValid (slab_mark_available_all s)
unfolding slab_mark_available_all
slab_mark_available_all-IsValid s v = record {
  full = write_masks-IsFull s.type.count s.available v.full;
  size = length-write_masks s.type.count s.available ∙ v.size;
  clear = λ i h. write_masks_high s.type.count s.available i h (v.clear i h);
}

pub slab_mark_available_all-all :
    (s : Slab) (i : ℕ)
    → IsValid s
    → i < s.type.count
    → bit (slab_mark_available_all s).available i ≡ true
unfolding slab_mark_available_all
slab_mark_available_all-all s i v l = all_slots s.type s.available i v.size l
