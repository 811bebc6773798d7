-- ===== src/Libk/Strings/Order.antt =====
-- The comparisons of libk/string.c.
use twcos.Common.{
  ℕ, zero, suc, ◌+◌, ◌-◌, ◌<◌, ◌≤◌, ◌≡◌, ◌≢◌, refl, sym, ap, ap₂, ◌↔◌, true, false, List, [], ◌∷◌,
  ◌++◌, ltb, All, arith, Bool-cases, inl, inr, length, take, drop, ==_refl, length-append, ◌∙◌,
  subst,
}
use twcos.Common.Int.{ℤ, pos_part, neg_part, ◌-ℤ◌, is_zero}
use twcos.Libk.Strings.{char_int, at, memcmp, strcmp, strncmp, strlen, starts_with, ends_with}

-- A string holds bytes other than 0.
abbrev pub IsCString : List ℕ → Type 0
IsCString = All (λ c. (1 ≤ c) × (c < 256))

is_zero-sub :
    (a b : ℤ) → is_zero (a -ℤ b) ≡ true → pos_part a + neg_part b ≡ pos_part b + neg_part a
unfolding ◌-ℤ◌
is_zero-sub a b h = ground arith

char_int-injective :
    (a b : ℕ) → a < 256 → b < 256 → is_zero (char_int a -ℤ char_int b) ≡ true → a ≡ b
char_int-injective a b l m h = ground (arith, is_zero-sub (char_int a) (char_int b) h)

zero_char : (b : ℕ) → (1 ≤ b) × (b < 256) → is_zero (char_int 0 -ℤ char_int b) ≢ true
zero_char b c h =
    let e : 0 ≡ b = char_int-injective 0 b (omega arith) c.1 h in absurd (omega (arith, e, c.0))

char_zero : (a : ℕ) → (1 ≤ a) × (a < 256) → is_zero (char_int a -ℤ char_int 0) ≢ true
char_zero a c h =
    let e : a ≡ 0 = char_int-injective a 0 c.1 (omega arith) h in absurd (omega (arith, e, c.0))

sub_self : (a : ℤ) → is_zero (a -ℤ a) ≡ true
unfolding ◌-ℤ◌
sub_self a = ground arith

pub strcmp_same : (s : List ℕ) → is_zero (strcmp s s) ≡ true
unfolding strcmp
strcmp_same [] = sub_self (char_int 0)
strcmp_same (a ∷ s) = rw (==_refl a) (strcmp_same s)

strcmp_equal :
    (s1 s2 : List ℕ) → IsCString s1 → IsCString s2 → is_zero (strcmp s1 s2) ≡ true → s1 ≡ s2
unfolding strcmp
strcmp_equal [] [] c1 c2 h = refl
strcmp_equal [] (b ∷ s2) c1 c2 h = absurd (zero_char b c2.0 h)
strcmp_equal (a ∷ s1) [] c1 c2 h = absurd (char_zero a c1.0 h)
strcmp_equal (a ∷ s1) (b ∷ s2) c1 c2 h =
    ground (arith, strcmp_equal s1 s2 c1.1 c2.1, char_int-injective a b c1.0.1 c2.0.1)

-- `strcmp` of two strings is 0 when they are equal, and only then.
pub strcmp-zero :
    (s1 s2 : List ℕ) → IsCString s1 → IsCString s2 → (is_zero (strcmp s1 s2) ≡ true) ↔ (s1 ≡ s2)
strcmp-zero s1 s2 c1 c2 =
    (strcmp_equal s1 s2 c1 c2, λ e. subst (λ s. is_zero (strcmp s1 s) ≡ true) e (strcmp_same s1))

strncmp_equal :
    (s1 s2 : List ℕ) (n : ℕ)
    → IsCString s1
    → IsCString s2
    → is_zero (strncmp s1 s2 n) ≡ true
    → take (suc n) s1 ≡ take (suc n) s2
unfolding strncmp
strncmp_equal [] [] zero c1 c2 h = refl
strncmp_equal [] [] (suc n) c1 c2 h = refl
strncmp_equal [] (b ∷ s2) zero c1 c2 h = absurd (zero_char b c2.0 h)
strncmp_equal [] (b ∷ s2) (suc n) c1 c2 h = absurd (zero_char b c2.0 h)
strncmp_equal (a ∷ s1) [] zero c1 c2 h = absurd (char_zero a c1.0 h)
strncmp_equal (a ∷ s1) [] (suc n) c1 c2 h = absurd (char_zero a c1.0 h)
strncmp_equal (a ∷ s1) (b ∷ s2) zero c1 c2 h =
    ap (λ c. c ∷ []) (char_int-injective a b c1.0.1 c2.0.1 h)
strncmp_equal (a ∷ s1) (b ∷ s2) (suc n) c1 c2 h =
    ground (arith, strncmp_equal s1 s2 n c1.1 c2.1, char_int-injective a b c1.0.1 c2.0.1)

strncmp_same : (s : List ℕ) (n : ℕ) → is_zero (strncmp s s n) ≡ true
unfolding strncmp
strncmp_same s zero = sub_self (char_int (at s))
strncmp_same [] (suc n) = sub_self (char_int 0)
strncmp_same (a ∷ s) (suc n) = rw (==_refl a) (strncmp_same s n)

strlen-length : (s : List ℕ) → strlen s ≡ length s
unfolding strlen
strlen-length [] = refl
strlen-length (c ∷ s) = omega (arith, strlen-length s)

take-equal :
    (s head : List ℕ) → take (suc (length head)) s ≡ take (suc (length head)) head → s ≡ head
take-equal [] [] e = refl
take-equal [] (b ∷ head) e = absurd (omega (arith, ap length e))
take-equal (a ∷ s) [] e = absurd (omega (arith, ap length e))
take-equal (a ∷ s) (b ∷ head) e =
    let first : a ≡ b = ap at e in
    let rest : take (suc (length head)) s ≡ take (suc (length head)) head = ap (drop 1) e in
    ap₂ ◌∷◌ first (take-equal s head rest)

-- `starts_with` holds of equal strings only: `strncmp` also compares the byte behind the `hlen`
-- bytes of `head`, where `head` has its 0.
pub starts_with-equal :
    (s head : List ℕ) → IsCString s → IsCString head → (starts_with s head ≡ true) ↔ (s ≡ head)
unfolding starts_with
starts_with-equal s head c1 c2 = (to, λ e. subst (λ h. starts_with s h ≡ true) e from)
  where
    to : starts_with s head ≡ true → s ≡ head
    to h = elim (Bool-cases (ltb (strlen s) (strlen head))) [
      | inl l ↦ ground arith
      | inr l ↦
          let z : is_zero (strncmp s head (strlen head)) ≡ true = ground arith in
          let z' : is_zero (strncmp s head (length head)) ≡ true =
            subst (λ n. is_zero (strncmp s head n) ≡ true) (strlen-length head) z in
          take-equal s head (strncmp_equal s head (length head) c1 c2 z')
    ]

    from : starts_with s s ≡ true
    from =
        let l : ltb (strlen s) (strlen s) ≡ false = ground arith in
        rw (l, starts_with) (strncmp_same s (strlen s))

drop-append : (pre tail : List ℕ) → drop (length (pre ++ tail) - length tail) (pre ++ tail) ≡ tail
drop-append pre tail =
    let e : length (pre ++ tail) - length tail ≡ length pre =
      omega (arith, length-append pre tail) in
    rw e (drop_all pre)
  where
    drop_all : (pre : List ℕ) → drop (length pre) (pre ++ tail) ≡ tail
    drop_all [] = refl
    drop_all (x ∷ pre) = drop_all pre

take-drop : (n : ℕ) (s : List ℕ) → s ≡ take n s ++ drop n s
take-drop zero s = refl
take-drop (suc n) [] = refl
take-drop (suc n) (x ∷ s) = ap (λ t. x ∷ t) (take-drop n s)

All-drop : (P : ℕ → Type 0) (n : ℕ) (s : List ℕ) → All P s → All P (drop n s)
All-drop P zero s h = h
All-drop P (suc n) [] h = tt
All-drop P (suc n) (x ∷ s) h = All-drop P n s h.1

-- `ends_with` holds of the strings that are `tail` behind something, and of no other.
pub ends_with-suffix :
    (s tail : List ℕ)
    → IsCString s
    → IsCString tail
    → (ends_with s tail ≡ true) ↔ ((pre : List ℕ) × (s ≡ pre ++ tail))
unfolding ends_with
ends_with-suffix s tail c1 c2 =
    (to, λ (pre, e). subst (λ s. ends_with s tail ≡ true) (sym e) (from pre))
  where
    to : ends_with s tail ≡ true → (pre : List ℕ) × (s ≡ pre ++ tail)
    to h = elim (Bool-cases (ltb (strlen s) (strlen tail))) [
      | inl l ↦ ground arith
      | inr l ↦
          let n = strlen s - strlen tail in
          let z : is_zero (strcmp (drop n s) tail) ≡ true = ground arith in
          let e = strcmp_equal (drop n s) tail (All-drop _ n s c1) c2 z in
          (take n s, take-drop n s ∙ ap (λ t. take n s ++ t) e)
    ]

    from : (pre : List ℕ) → ends_with (pre ++ tail) tail ≡ true
    from pre =
        let l : ltb (length (pre ++ tail)) (length tail) ≡ false =
          ground (arith, length-append pre tail) in
        rw (ends_with, strlen-length (pre ++ tail), strlen-length tail, l, drop-append pre tail)
          (strcmp_same tail)

-- `memcmp` looks at the first byte of each block alone, however many bytes it is asked for.
pub memcmp-first :
    (s1 s2 : List ℕ) (n : ℕ) → memcmp s1 s2 (suc n) ≡ memcmp (at s1 ∷ []) (at s2 ∷ []) 1
unfolding memcmp
memcmp-first s1 s2 zero = refl
memcmp-first s1 s2 (suc n) = ground (arith, memcmp-first s1 s2 n)
