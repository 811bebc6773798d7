-- ===== src/Kernel/Pages/Bits.antt =====
-- The bitmaps of kernel/core.c: which bits are set, how many, and what the scans find.
use twcos.Common.{
  ℕ, zero, suc, ◌+◌, ◌*◌, ◌/◌, ◌%◌, ◌≤◌, ◌<◌, ◌≡◌, ◌≢◌, refl, ap, sym, ◌∙◌, Bool, true, false,
  Option, none, some, List, [], ◌∷◌, arith, ltb, length, get_or, set, All, Bool-cases, inl, inr,
  length-set, get_or-set_self, get_or-set_ne,
}
use native.Mathlib.Decide.{ℕ_discrete}
use twcos.Kernel.Pages.{Word, set_bit, take_bit, take_page}

abbrev pub bit : List Word → ℕ → Bool
bit words p = get_or (get_or words (p / 32) []) (p % 32) false

abbrev pub ones_of : Bool → ℕ
ones_of true = 1
ones_of false = 0

abbrev pub word_ones : Word → ℕ
word_ones [] = 0
word_ones (b ∷ w) = ones_of b + word_ones w

-- How many bits are set.
abbrev pub ones : List Word → ℕ
ones [] = 0
ones (w ∷ words) = word_ones w + ones words

abbrev pub IsFull : List Word → Type 0
IsFull = All (λ w. length w ≡ 32)

pub word_ones-set :
    (w : Word) (i : ℕ) (b : Bool)
    → i < length w
    → word_ones (set w i b) + ones_of (get_or w i false) ≡ word_ones w + ones_of b
word_ones-set [] i b h = absurd (omega arith)
word_ones-set (c ∷ w) zero b h = omega arith
word_ones-set (c ∷ w) (suc i) b h = omega (arith, word_ones-set w i b (omega arith))

pub ones-set :
    (words : List Word) (k i : ℕ) (b : Bool)
    → k < length words
    → i < length (get_or words k [])
    → ones (set words k (set (get_or words k []) i b))
        + ones_of (get_or (get_or words k []) i false)
      ≡ ones words + ones_of b
ones-set [] k i b h g = absurd (omega arith)
ones-set (w ∷ words) zero i b h g = omega (arith, word_ones-set w i b g)
ones-set (w ∷ words) (suc k) i b h g = omega (arith, ones-set words k i b (omega arith) g)

pub length_word :
    (words : List Word) (k : ℕ) → IsFull words → k < length words → length (get_or words k []) ≡ 32
length_word [] k f h = absurd (omega arith)
length_word (w ∷ words) zero f h = f.0
length_word (w ∷ words) (suc k) f h = length_word words k f.1 (omega arith)

pub set-IsFull :
    (words : List Word) (k : ℕ) (w : Word) → length w ≡ 32 → IsFull words → IsFull (set words k w)
set-IsFull [] k w h f = tt
set-IsFull (v ∷ words) zero w h f = (h, f.1)
set-IsFull (v ∷ words) (suc k) w h f = (f.0, set-IsFull words k w h f.1)

-- What one write to a bitmap does.
pub record Written (words : List Word) (p : ℕ) (b : Bool) (words' : List Word) : Type 0 where
  pub full : IsFull words'
  pub size : length words' ≡ length words
  pub total : ones words' + ones_of (bit words p) ≡ ones words + ones_of b
  pub here : bit words' p ≡ b
  pub there : (q : ℕ) → q ≢ p → bit words' q ≡ bit words q

pub set_bit-Written :
    (words : List Word) (p : ℕ) (b : Bool)
    → IsFull words
    → p < 32 * length words
    → Written words p b (set_bit words p b)
set_bit-Written words p b f h = record {
  full = set-IsFull words k _ (length-set word i b ∙ word_length) f;
  size = length-set words k _;
  total = ones-set words k i b in_words in_word;
  here =
      ap (λ w. get_or w i false) (get_or-set_self words k _ [] in_words)
      ∙ get_or-set_self word i b false in_word;
  there = there;
}
  where
    k : ℕ
    k = p / 32

    i : ℕ
    i = p % 32

    word : Word
    word = get_or words k []

    in_words : k < length words
    in_words = omega arith

    word_length : length word ≡ 32
    word_length = length_word words k f in_words

    in_word : i < length word
    in_word = omega (arith, word_length)

    there : (q : ℕ) → q ≢ p → bit (set_bit words p b) q ≡ bit words q
    there q ne = elim (ℕ_discrete k (q / 32)) [
      | yes same ↦ rw (← same) (
          ap (λ w. get_or w (q % 32) false) (get_or-set_self words k _ [] in_words)
          ∙ get_or-set_ne word i (q % 32) b false (λ e. ne (omega arith)))
      | no differ ↦ ap (λ w. get_or w (q % 32) false) (get_or-set_ne words k (q / 32) _ [] differ)
    ]

abbrev TookBit : Word → Option (ℕ × Word) → Type 0
TookBit w none = word_ones w ≡ 0
TookBit w (some (i, w')) = (i < length w) × (get_or w i false ≡ true) × (w' ≡ set w i false)

take_bit-TookBit : (w : Word) → TookBit w (take_bit w)
unfolding take_bit
take_bit-TookBit [] = refl
take_bit-TookBit (true ∷ w) = (omega arith, refl, refl)
take_bit-TookBit (false ∷ w) = later (take_bit w) (take_bit-TookBit w)
  where
    later :
        (o : Option (ℕ × Word))
        → TookBit w o
        → TookBit (false ∷ w) (elim o [ none ↦ none | some (i, w') ↦ some (suc i, false ∷ w') ])
    later none h = omega arith
    later (some (i, w')) (a, b, c) = (omega arith, b, ap (λ w. false ∷ w) c)

-- Where every bit is clear, none is counted.
word_ones-clear : (w : Word) → ((i : ℕ) → i < length w → get_or w i false ≡ false) → word_ones w ≡ 0
word_ones-clear [] h = refl
word_ones-clear (b ∷ w) h =
    omega
      (arith, ap ones_of (h 0 (omega arith)), word_ones-clear w (λ i l. h (suc i) (omega arith)))

-- The scan from bit `p` on: the first page that is free, or none is.
abbrev pub Scanned : ℕ → ℕ → List Word → Option (ℕ × List Word) → Type 0
Scanned count p words none = ones words ≡ 0
Scanned count p words (some (q, words')) =
    (i : ℕ) × (q ≡ p + i)
    × (i < 32 * length words)
    × (bit words i ≡ true)
    × (words' ≡ set_bit words i false)

pub bit-suc : (w : Word) (words : List Word) (i : ℕ) → bit (w ∷ words) (32 + i) ≡ bit words i
bit-suc w words i =
    let k : (32 + i) / 32 ≡ suc (i / 32) = omega arith in
    let j : (32 + i) % 32 ≡ i % 32 = omega arith in rw (k, j)

pub bit-zero :
    (w : Word) (words : List Word) (i : ℕ) → i < 32 → bit (w ∷ words) i ≡ get_or w i false
bit-zero w words i h =
    let k : i / 32 ≡ 0 = omega arith in let j : i % 32 ≡ i = omega arith in rw (k, j)

set_bit-zero :
    (w : Word) (words : List Word) (i : ℕ) (b : Bool)
    → i < 32
    → set_bit (w ∷ words) i b ≡ set w i b ∷ words
set_bit-zero w words i b h =
    let k : i / 32 ≡ 0 = omega arith in let j : i % 32 ≡ i = omega arith in rw (k, j)

set_bit-suc :
    (w : Word) (words : List Word) (i : ℕ) (b : Bool)
    → set_bit (w ∷ words) (32 + i) b ≡ w ∷ set_bit words i b
set_bit-suc w words i b =
    let k : (32 + i) / 32 ≡ suc (i / 32) = omega arith in
    let j : (32 + i) % 32 ≡ i % 32 = omega arith in rw (k, j)

ones-clear : (words : List Word) → IsFull words → ((i : ℕ) → bit words i ≡ false) → ones words ≡ 0
ones-clear [] f h = refl
ones-clear (w ∷ words) f h = omega (
  arith,
  word_ones-clear w (λ i l. sym (bit-zero w words i (omega (arith, f.0))) ∙ h i),
  ones-clear words f.1 (λ i. sym (bit-suc w words i) ∙ h (32 + i)),
)

-- The scan of one word, where that of the words behind it gives `rest`.
scan_word :
    (count p : ℕ) (w : Word) (words : List Word) (o : Option (ℕ × Word))
    (rest : Option (ℕ × List Word))
    → length w ≡ 32
    → TookBit w o
    → Scanned count (p + 32) words rest
    → Scanned count p (w ∷ words) (elim o [
      | none ↦ elim rest [ none ↦ none | some (q, words') ↦ some (q, w ∷ words') ]
      | some (i, w') ↦ some (p + i, w' ∷ words)
    ])
scan_word count p w words none none l t r = omega arith
scan_word count p w words none (some (q, words')) l t (i, at, inside, was, now) = (
  32 + i,
  omega arith,
  omega arith,
  bit-suc w words i ∙ was,
  ap (λ ws. w ∷ ws) now ∙ sym (set_bit-suc w words i false),
)
scan_word count p w words (some (i, w')) rest l (inside, was, now) r = (
  i,
  refl,
  omega arith,
  bit-zero w words i (omega arith) ∙ was,
  ap (λ v. v ∷ words) now ∙ sym (set_bit-zero w words i false (omega arith)),
)

-- With no page free from `count` on, the scan finds a free page unless none is free at all, and
-- clears its bit.
pub take_page-Scanned :
    (count p : ℕ) (words : List Word)
    → IsFull words
    → ((i : ℕ) → count ≤ p + i → bit words i ≡ false)
    → Scanned count p words (take_page count p words)
unfolding take_page
take_page-Scanned count p [] f clear = refl
take_page-Scanned count p (w ∷ words) f clear = elim (Bool-cases (ltb p count)) [
  | inr past ↦ rw (past, take_page) (ones-clear (w ∷ words) f (λ i. clear i (ground arith)))
  | inl inside ↦
      rw (inside, take_page)
        (scan_word count p w words (take_bit w) (take_page count (p + 32) words) f.0
          (take_bit-TookBit w)
          (take_page-Scanned count (p + 32) words f.1
            (λ i past. sym (bit-suc w words i) ∙ clear (32 + i) (omega arith))))
]
