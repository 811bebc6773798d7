-- ===== src/Libk/Stream/Tests.antt =====
-- Runs of libk/stream.c, and the theorem on digits at a number.
use twcos.Common.{◌≡◌, refl, [], ◌∷◌, some, arith}
use twcos.Common.Int.{pos, negsuc}
use twcos.Libk.Stream.{
  int_arg, str_arg, stream_putulong, stream_putuint, stream_vprintf, stream_putint,
}
use twcos.Libk.Stream.Digits.{Prints, stream_putulong-Prints}

-- "%d:%s" of 42 and "a"
vprintf_run :
    stream_vprintf
      (λ i. 0)
      (37 ∷ 100 ∷ 58 ∷ 37 ∷ 115 ∷ [])
      (int_arg (pos 42) ∷ str_arg (97 ∷ []) ∷ [])
    ≡ some (4, record { text = 52 ∷ 50 ∷ 58 ∷ 97 ∷ []; stores = [] })
unfolding stream_vprintf stream_putint
vprintf_run = refl

-- -7 with "%i": the sign, and what stands before the digits in memory.
negative_run : stream_putint 64 (λ i. 1) 10 (negsuc 6) ≡ some (45 ∷ 1 ∷ [])
unfolding stream_putint
negative_run = refl

stream_putulong-Prints_example :
    Prints 10 42 (stream_putulong 8 10 42) × Prints 10 42 (stream_putuint 8 10 42)
stream_putulong-Prints_example =
    stream_putulong-Prints 8 10 42 (omega arith) (omega arith) (omega arith) (omega arith)
