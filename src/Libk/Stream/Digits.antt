-- ===== src/Libk/Stream/Digits.antt =====
-- The numbers that libk/stream.c prints, read back.
use twcos.Common.{
  ℕ, zero, suc, ◌+◌, ◌*◌, ◌/◌, ◌%◌, ◌^◌, ◌<◌, ◌≤◌, ◌≡◌, refl, sym, ap, ap₂, ◌∙◌, length, get_elem?,
  ◌>>=◌, Option, none, some, List, [], ◌∷◌, ◌++◌, ltb, ltb→lt, All, All-append, map, arith,
  Bool-cases, inl, inr, true, false, subst,
}
use native.Mathlib.Nat.{div-lt_iff_lt-mul, div-add-mod, mod-lt, mul-le-mul_left, pow-suc}
use twcos.Libk.Stream.{digits, digit, stream_putulong, stream_putuint}

-- The number that digits stand for, most significant first, behind a number `acc`.
abbrev pub number : ℕ → ℕ → List ℕ → ℕ
number base acc [] = acc
number base acc (d ∷ ds) = number base (base * acc + d) ds

number-append :
    (base acc d : ℕ) (ds : List ℕ) → number base acc (ds ++ d ∷ []) ≡ base * number base acc ds + d
number-append base acc d [] = refl
number-append base acc d (e ∷ ds) = number-append base (base * acc + e) d ds

map-append_one :
    {B : Type 0} (f : ℕ → B) (ds : List ℕ) (d : ℕ) → map f (ds ++ d ∷ []) ≡ map f ds ++ f d ∷ []
map-append_one f [] d = refl
map-append_one f (x ∷ ds) d = ap (λ t. f x ∷ t) (map-append_one f ds d)

digit_of : (i : ℕ) → i < 16 → (c : ℕ) × (digit i ≡ some c)
digit_of i h = inside digits i h
  where
    inside : (xs : List ℕ) (i : ℕ) → i < length xs → (c : ℕ) × (get_elem? xs i ≡ some c)
    inside [] i h = absurd (omega arith)
    inside (x ∷ xs) zero h = (x, refl)
    inside (x ∷ xs) (suc i) h = inside xs i (omega arith)

-- The text is the digits of the number.
abbrev pub Prints : ℕ → ℕ → Option (List ℕ) → Type 0
Prints base i none = false ≡ true
Prints base i (some text) =
    (ds : List ℕ) × (map some text ≡ map digit ds) × (number base 0 ds ≡ i) × All (λ d. d < base) ds

last_digit :
    (base i : ℕ) (o : Option (List ℕ))
    → 2 ≤ base
    → base ≤ 16
    → Prints base (i / base) o
    → Prints base i (o >>= (λ text. digit (i % base) >>= (λ c. some (text ++ c ∷ []))))
last_digit base i none b t h = h
last_digit base i (some text) b top (ds, t, n, l) =
    let small : i % base < base = mod-lt i (omega arith) in
    let (c, e) = digit_of (i % base) (omega arith) in
    rw e (
      ds ++ i % base ∷ [],
      map-append_one some text c
          ∙ ap₂ (λ s d. s ++ d ∷ []) t (sym e)
          ∙ sym (map-append_one digit ds (i % base)),
      number-append base 0 (i % base) ds ∙ ap (λ m. base * m + i % base) n ∙ div-add-mod i base,
      All-append _ ds (i % base ∷ []) l (small, tt),
    )

shrinks : (f base i : ℕ) → 2 ≤ base → i < 2 ^ suc f → i / base < 2 ^ f
shrinks f base i b h =
    let wide : 2 ^ f * 2 ≤ 2 ^ f * base = mul-le-mul_left (2 ^ f) b in
    let h' : i < 2 ^ f * 2 = subst (λ n. i < n) (pow-suc 2 f) h in
    (div-lt_iff_lt-mul {k = base} {x = i} {y = 2 ^ f} (omega arith)).1 (omega arith)

more_digits : (f base i : ℕ) → 2 ≤ base → base ≤ i → i < 2 ^ suc f → 1 ≤ f
more_digits zero base i b l h = absurd (omega arith)
more_digits (suc f) base i b l h = omega arith

-- A number of at most `fuel` bits is printed, in any base from 2 to 16, by its digits in that base.
pub stream_putulong-Prints :
    (fuel base i : ℕ)
    → 2 ≤ base
    → base ≤ 16
    → 1 ≤ fuel
    → i < 2 ^ fuel
    → Prints base i (stream_putulong fuel base i) × Prints base i (stream_putuint fuel base i)
unfolding stream_putulong stream_putuint
stream_putulong-Prints zero base i b t p h = absurd (omega arith)
stream_putulong-Prints (suc f) base i b t p h = elim (Bool-cases (ltb i base)) [
  | inl s ↦
      let (c, e) = digit_of i (ground (arith, s, t)) in
      let here : Prints base i (some (c ∷ [])) =
        (i ∷ [], ap (λ d. d ∷ []) (sym e), omega arith, (ltb→lt i base s, tt)) in
      rw (s, e) (here, here)
  | inr s ↦
      let ih =
        stream_putulong-Prints f base (i / base) b t (more_digits f base i b (ground arith) h)
          (shrinks f base i b h) in
      rw s (last_digit base i _ b t ih.0, last_digit base i _ b t ih.1)
]
