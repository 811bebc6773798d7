-- ===== src/Libk/Vector/Tests.antt =====
-- Vectors of libk/vector.c that the theorems of this component are applied to, and runs.
use twcos.Common.{
  ℕ, zero, suc, ◌≡◌, ◌≢◌, refl, none, some, ◌==◌, if◌then◌else◌, maybe, [], ◌∷◌, arith,
}
use native.Mathlib.Nat.{pow-suc, one-le-pow}
use twcos.Libk.Vector.{Vector, vector_new, vector_put, vector_walk}
use twcos.Libk.Vector.Lookup.{room}
use twcos.Libk.Vector.Growth.{Puts, vector_put-content}

-- One table, with 7 at 3.
abbrev small : Vector
small = record { level = 0; table = λ j. if j == 3 then 7 else 0 }

not_boundary : (n : ℕ) → 67 ≢ room n
not_boundary zero = omega arith
not_boundary (suc n) =
    omega (arith, pow-suc 64 (suc n), pow-suc 64 n, one-le-pow n 64 (omega arith))

vector_put-content_example : Puts small 67 9 (vector_put 5 small 67 9)
vector_put-content_example = vector_put-content small 67 9 (omega arith) (omega arith) not_boundary

-- 3 and 67 are put in a new vector, which then has two levels.
put_run :
    maybe none
      (λ (old, v). maybe none (λ (old, v). some (vector_walk v)) (vector_put 5 v 67 9))
      (vector_put 5 vector_new 3 7)
    ≡ some ((3, 7) ∷ (67, 9) ∷ [])
unfolding vector_new vector_put vector_walk
put_run = refl
