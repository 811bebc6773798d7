-- ===== src/Libk/Strings/Tests.antt =====
-- Runs of libk/string.c, and the theorems at short strings.
use twcos.Common.{ℕ, ◌≡◌, refl, List, [], ◌∷◌, some}
use twcos.Libk.Strings.{ssplit, vsnprintf, memset}
use twcos.Libk.Strings.Split.{Splits, ssplit-Splits}

-- "abc" and "bc"
abbrev abc : List ℕ
abc = 97 ∷ 98 ∷ 99 ∷ []

abbrev bc : List ℕ
bc = 98 ∷ 99 ∷ []

memset_run : memset abc 65 2 ≡ 65 ∷ 65 ∷ 99 ∷ []
unfolding memset
memset_run = refl

snprintf_run : vsnprintf (1 ∷ 2 ∷ 3 ∷ 4 ∷ []) 4 bc ≡ (98 ∷ 99 ∷ 0 ∷ 4 ∷ [], 2)
unfolding vsnprintf
snprintf_run = refl

ssplit_run : ssplit (98 ∷ 47 ∷ 47 ∷ 99 ∷ []) 47 ≡ some ((98 ∷ []) ∷ [] ∷ (99 ∷ []) ∷ [])
unfolding ssplit
ssplit_run = refl

ssplit-Splits_example : Splits 98 abc (ssplit abc 98)
ssplit-Splits_example = ssplit-Splits abc 98
