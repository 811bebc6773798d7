-- ===== src/Libk/Strings/Paths.antt =====
-- `dirname` and `basename` of libk/string.c.
use twcos.Common.{
  ℕ, zero, suc, ◌+◌, ◌≡◌, ◌≢◌, refl, ap, ◌∙◌, none, some, List, [], ◌∷◌, ◌++◌, arith, length, true,
  false, take, drop, replicate, append_assoc, All-append,
}
use twcos.Libk.Strings.{
  slash_char, dot_char, strip_slashes, strrchr, part_at, basedirname, dirname, basename,
}
use twcos.Libk.Strings.Find.{Lacks, strrchr-last}

strip_slashes-all : (k : ℕ) → strip_slashes (replicate k slash_char) ≡ []
unfolding strip_slashes
strip_slashes-all zero = refl
strip_slashes-all (suc k) = rw (strip_slashes-all k)

strip_slashes-kept :
    (s : List ℕ) (c k : ℕ)
    → slash_char ≢ c
    → strip_slashes (s ++ c ∷ replicate k slash_char) ≡ s ++ c ∷ []
unfolding strip_slashes
strip_slashes-kept [] c k h = ground (arith, strip_slashes-all k)
strip_slashes-kept (x ∷ []) c k h = rw (strip_slashes-kept [] c k h)
strip_slashes-kept (x ∷ y ∷ s) c k h = rw (strip_slashes-kept (y ∷ s) c k h)

take-append : (xs ys : List ℕ) → take (length xs) (xs ++ ys) ≡ xs
take-append [] ys = refl
take-append (x ∷ xs) ys = ap (λ zs. x ∷ zs) (take-append xs ys)

drop_past : (xs : List ℕ) (y : ℕ) (ys : List ℕ) → drop (length xs + 1) (xs ++ y ∷ ys) ≡ ys
drop_past [] y ys = refl
drop_past (x ∷ xs) y ys =
    ap (λ n. drop n (x ∷ xs ++ y ∷ ys)) {y = suc (length xs + 1)} (omega arith) ∙ drop_past xs y ys

-- The part before the last '/', or "/" where that '/' is the first byte.
abbrev pub parent : List ℕ → List ℕ
parent [] = slash_char ∷ []
parent (x ∷ dir) = x ∷ dir

-- Of a path with a last part `base c` behind a '/', and any number of '/' at its end, `basename`
-- is that part, and `dirname` what stands before its '/', or "/" where nothing does.
pub basename-last :
    (dir base : List ℕ) (c k : ℕ)
    → Lacks slash_char base
    → slash_char ≢ c
    → let path = dir ++ slash_char ∷ base ++ c ∷ replicate k slash_char in
      (basename path ≡ base ++ c ∷ []) × (dirname path ≡ parent dir)
unfolding basename dirname basedirname
basename-last dir base c k l h =
    let tail = base ++ c ∷ [] in
    let stripped : strip_slashes (dir ++ slash_char ∷ base ++ c ∷ replicate k slash_char)
        ≡ dir ++ slash_char ∷ tail =
      strip_slashes-kept (dir ++ slash_char ∷ base) c k h
      ∙ append_assoc dir (slash_char ∷ base) (c ∷ []) in
    let found : strrchr (dir ++ slash_char ∷ tail) slash_char ≡ some (length dir) =
      (strrchr-last dir tail slash_char (All-append _ base (c ∷ []) l (h, tt))).0 in
    (
      rw (stripped, basename, basedirname, found) (base_of dir tail),
      rw (stripped, dirname, basedirname, found) (dir_of dir tail),
    )
  where
    base_of :
        (dir tail : List ℕ) → part_at (dir ++ slash_char ∷ tail) false (some (length dir)) ≡ tail
    base_of [] tail = refl
    base_of (x ∷ dir) tail = drop_past (x ∷ dir) slash_char tail

    dir_of :
        (dir tail : List ℕ)
        → part_at (dir ++ slash_char ∷ tail) true (some (length dir)) ≡ parent dir
    dir_of [] tail = refl
    dir_of (x ∷ dir) tail = take-append (x ∷ dir) (slash_char ∷ tail)

-- Of a path without '/', but for those at its end, `basename` is the path without them and
-- `dirname` is ".".
pub basename-plain :
    (base : List ℕ) (c k : ℕ)
    → Lacks slash_char base
    → slash_char ≢ c
    → let path = base ++ c ∷ replicate k slash_char in
      (basename path ≡ base ++ c ∷ []) × (dirname path ≡ dot_char ∷ [])
unfolding basename dirname basedirname
basename-plain base c k l h =
    let stripped : strip_slashes (base ++ c ∷ replicate k slash_char) ≡ base ++ c ∷ [] =
      strip_slashes-kept base c k h in
    let missed : strrchr (base ++ c ∷ []) slash_char ≡ none =
      (strrchr-last [] (base ++ c ∷ []) slash_char (All-append _ base (c ∷ []) l (h, tt))).1 in
    (rw (stripped, basename, basedirname, missed), rw (stripped, dirname, basedirname, missed))
