-- ===== src/Libk/Strings/Find.antt =====
-- The searches of libk/string.c for a byte.
use twcos.Common.{
  ℕ, suc, ◌+◌, ◌≡◌, ◌≢◌, refl, ap, ◌∙◌, Option, none, some, List, [], ◌∷◌, ◌++◌, ◌==◌, All, arith,
  length, if◌then◌else◌, ne→==, ==_refl,
}
use twcos.Libk.Strings.{strchr, strrchr_loop, strrchr}

-- No byte of the string is `c`.
abbrev pub Lacks : ℕ → List ℕ → Type 0
Lacks c = All (λ x. c ≢ x)

-- `strchr` returns the place of the first byte `c` of a string, and 0 where there is none.
pub strchr-first :
    (pre post : List ℕ) (c : ℕ)
    → Lacks c pre
    → (strchr (pre ++ c ∷ post) c ≡ some (length pre)) × (strchr pre c ≡ none)
unfolding strchr
strchr-first pre post c h = (here pre h, absent pre h)
  where
    here : (pre : List ℕ) → Lacks c pre → strchr (pre ++ c ∷ post) c ≡ some (length pre)
    here [] h = rw (==_refl c, strchr)
    here (x ∷ pre) h = rw (ne→== c x h.0, strchr, here pre h.1)

    absent : (pre : List ℕ) → Lacks c pre → strchr pre c ≡ none
    absent [] h = refl
    absent (x ∷ pre) h = rw (ne→== c x h.0, strchr, absent pre h.1)

strrchr_loop-absent :
    (s : List ℕ) (c i : ℕ) (last : Option ℕ) → Lacks c s → strrchr_loop s c i last ≡ last
unfolding strrchr_loop
strrchr_loop-absent [] c i last h = refl
strrchr_loop-absent (x ∷ s) c i last h =
    rw (ne→== c x h.0) (strrchr_loop-absent s c (i + 1) last h.1)

strrchr_loop-here :
    (pre post : List ℕ) (c i : ℕ) (last : Option ℕ)
    → Lacks c post
    → strrchr_loop (pre ++ c ∷ post) c i last ≡ some (i + length pre)
unfolding strrchr_loop
strrchr_loop-here [] post c i last h =
    let e : i + 0 ≡ i = omega arith in
    rw (e, ==_refl c, strrchr_loop) (strrchr_loop-absent post c (i + 1) (some i) h)
strrchr_loop-here (x ∷ pre) post c i last h =
    let e : i + suc (length pre) ≡ i + 1 + length pre = omega arith in
    rw e (strrchr_loop-here pre post c (i + 1) (if c == x then some i else last) h)

-- `strrchr` returns the place of the last byte `c` of a string, and 0 where there is none.
pub strrchr-last :
    (pre post : List ℕ) (c : ℕ)
    → Lacks c post
    → (strrchr (pre ++ c ∷ post) c ≡ some (length pre)) × (strrchr post c ≡ none)
unfolding strrchr
strrchr-last pre post c h = (
  strrchr_loop-here pre post c 0 none h ∙ ap some (omega arith),
  strrchr_loop-absent post c 0 none h,
)
