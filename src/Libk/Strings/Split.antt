-- ===== src/Libk/Strings/Split.antt =====
-- `ssplit` of libk/string.c.
use twcos.Common.{
  ℕ, zero, suc, ◌<◌, ◌≡◌, refl, sym, ap, ap₂, subst, Option, none, some, List, [], ◌∷◌, ◌++◌, ◌==◌,
  ltb, All, arith, length, if◌then◌else◌, ==→eq, Bool-cases, inl, inr, drop, length-append,
  append-nil, true, false,
}
use twcos.Libk.Strings.{memcpy, strndup, until, words_from, ssplit_loop, ssplit}
use twcos.Libk.Strings.Find.{Lacks}

-- The words with a separator between any two.
abbrev pub join : ℕ → List (List ℕ) → List ℕ
join sep [] = []
join sep (w ∷ []) = w
join sep (w ∷ v ∷ words) = w ++ sep ∷ join sep (v ∷ words)

-- Where the inner loop stops: at the end or at a separator.
abbrev Stopped : ℕ → List ℕ → Type 0
Stopped sep [] = Unit
Stopped sep (c ∷ s) = c ≡ sep

until-Stopped :
    (sep : ℕ) (s : List ℕ)
    → let (word, rest) = until sep s in (s ≡ word ++ rest) × Lacks sep word × Stopped sep rest
unfolding until
until-Stopped sep [] = (refl, tt, tt)
until-Stopped sep (c ∷ s) =
    let (e, l, r) = until-Stopped sep s in
    elim (Bool-cases (c == sep)) [
      | inl h ↦ rw h (refl, tt, ==→eq c sep h)
      | inr h ↦ rw h (ap (λ s. c ∷ s) e, ((λ g. ground arith), l), r)
    ]

strndup-append : (word rest : List ℕ) → strndup (word ++ rest) (length word) ≡ word
unfolding strndup memcpy
strndup-append [] rest = refl
strndup-append (c ∷ word) rest = ap (λ s. c ∷ s) (strndup-append word rest)

-- What a loop is to return: words that make up the string.
abbrev pub Splits : ℕ → List ℕ → Option (List (List ℕ)) → Type 0
Splits sep s none = false ≡ true
Splits sep s (some []) = false ≡ true
Splits sep s (some (w ∷ words)) = (join sep (w ∷ words) ≡ s) × All (Lacks sep) (w ∷ words)

copied :
    (word rest : List ℕ)
    → (if ltb 0 (length word) then strndup (word ++ rest) (length word) else []) ≡ word
copied [] rest = refl
copied (c ∷ word) rest =
    let l : ltb 0 (suc (length word)) ≡ true = ground arith in rw l (strndup-append (c ∷ word) rest)

ssplit_loop-Splits :
    (f : ℕ) (s : List ℕ) (sep : ℕ) → length s < f → Splits sep s (ssplit_loop f s sep)
unfolding ssplit_loop
ssplit_loop-Splits zero s sep h = absurd (omega arith)
ssplit_loop-Splits (suc f) s sep h =
    let (word, rest) = until sep s in
    let (e, l, st) = until-Stopped sep s in
    let c : (if ltb 0 (length word) then strndup s (length word) else []) ≡ word =
      subst (λ t. (if ltb 0 (length word) then strndup t (length word) else []) ≡ word) (sym e)
        (copied word rest) in
    subst (λ w. Splits sep s (words_from w rest (ssplit_loop f (drop 1 rest) sep))) (sym c)
      (by_rest word rest (e, l, st) (λ rest l. ssplit_loop-Splits f rest sep l))
  where
    with_rest :
        (word : List ℕ) (c : ℕ) (rest : List ℕ) (o : Option (List (List ℕ)))
        → Lacks sep word
        → c ≡ sep
        → Splits sep rest o
        → Splits sep (word ++ c ∷ rest) (words_from word (c ∷ rest) o)
    with_rest word c rest none l e h = h
    with_rest word c rest (some []) l e h = absurd (ground arith)
    with_rest word c rest (some (w ∷ words)) l e h =
        (ap₂ (λ d t. word ++ d ∷ t) (sym e) h.0, (l, h.1))

    by_rest :
        (word rest : List ℕ)
        → (s ≡ word ++ rest) × Lacks sep word × Stopped sep rest
        → ((rest : List ℕ) → length rest < f → Splits sep rest (ssplit_loop f rest sep))
        → Splits sep s (words_from word rest (ssplit_loop f (drop 1 rest) sep))
    by_rest word [] (e, l, st) ih = rw e (sym (append-nil word), (l, tt))
    by_rest word (c ∷ rest) (e, l, st) ih =
        let shorter : length rest < f = omega (arith, ap length e, length-append word (c ∷ rest)) in
        rw e (with_rest word c rest (ssplit_loop f rest sep) l st (ih rest shorter))

-- `ssplit` ends, with words that contain no separator, and that give the string back when they
-- are put together with a separator between any two.
pub ssplit-Splits : (str : List ℕ) (sep : ℕ) → Splits sep str (ssplit str sep)
unfolding ssplit
ssplit-Splits str sep = ssplit_loop-Splits (suc (length str)) str sep (omega arith)
