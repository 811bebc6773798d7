-- ===== src/Libk/Stream.antt =====
-- libk/stream.c: numbers and formats printed to a stream.
-- A stream is the list of the characters put so far, and `stream_tell` its length. `stream_putuint`
-- and the like are the characters that they put.
pub mod Digits
mod Tests
use twcos.Common.{
  ℕ, zero, suc, ◌+◌, ◌-◌, ◌/◌, ◌%◌, ◌^◌, Option, none, some, List, [], ◌∷◌, ◌++◌, ltb, ◌==◌,
  if◌then◌else◌, length, get_elem?, ◌>>=◌, Bool, ◌||◌,
}
use twcos.Common.Int.{ℤ, pos, negsuc}

-- "0123456789abcdef"
abbrev pub digits : List ℕ
digits = 48 ∷ 49 ∷ 50 ∷ 51 ∷ 52 ∷ 53 ∷ 54 ∷ 55 ∷ 56 ∷ 57 ∷ 97 ∷ 98 ∷ 99 ∷ 100 ∷ 101 ∷ 102 ∷ []

-- `digits[i]`; `none` is a read behind the array.
abbrev pub digit : ℕ → Option ℕ
digit i = get_elem? digits i

-- `stream_putulong`, with fuel for the recursion. `none` is a run without fuel, or a read behind
-- `digits`, which a base above 16 leads to.
unfoldable pub stream_putulong : ℕ → ℕ → ℕ → Option (List ℕ)
stream_putulong zero base i = none
stream_putulong (suc f) base i =
    let higher = stream_putulong f base (i / base) in
    if ltb i base
    then digit i >>= (λ c. some (c ∷ []))
    else higher >>= (λ text. digit (i % base) >>= (λ c. some (text ++ c ∷ [])))

-- `abs(i)` is `i`, since `i` is unsigned: the function is `stream_putulong` on 32 bits.
unfoldable pub stream_putuint : ℕ → ℕ → ℕ → Option (List ℕ)
stream_putuint zero base i = none
stream_putuint (suc f) base i =
    let higher = stream_putuint f base (i / base) in
    if ltb i base
    then digit i >>= (λ c. some (c ∷ []))
    else higher >>= (λ text. digit (i % base) >>= (λ c. some (text ++ c ∷ [])))

-- For a negative number `digits[i]` is read before the array: `outside` is what stands there.
unfoldable pub stream_putint : ℕ → (outside : ℤ → ℕ) → ℕ → ℤ → Option (List ℕ)
stream_putint zero outside base i = none
stream_putint (suc f) outside base (negsuc n) = some (45 ∷ outside (negsuc n) ∷ [])
stream_putint (suc f) outside base (pos i) =
    let higher = stream_putint f outside base (pos (i / base)) in
    if ltb i base
    then digit i >>= (λ c. some (c ∷ []))
    else higher >>= (λ text. digit (i % base) >>= (λ c. some (text ++ c ∷ [])))

-- Bits in a number bound its digits in any base from 2 on.
abbrev pub digits_fuel : ℕ
digits_fuel = 64

-- "0x" and the address as a 32-bit number.
unfoldable pub stream_putptr : ℕ → Option (List ℕ)
unfolding stream_putulong
stream_putptr p = do text ← stream_putulong digits_fuel 16 (p % 2 ^ 32); some (48 ∷ 120 ∷ text)

-- What stands for `va_arg`: an `int`, a pointer, or a pointer to a string.
pub data Arg : Type 0 where
  int_arg : ℤ → Arg
  ptr_arg : ℕ → Arg
  str_arg : List ℕ → Arg

-- The conversion of an `int` to 32 bits without a sign.
abbrev pub to_uint : ℤ → ℕ
to_uint (pos n) = n % 2 ^ 32
to_uint (negsuc n) = 2 ^ 32 - 1 - n % 2 ^ 32

-- The conversion of an `int` to a `char`, as a byte.
abbrev pub to_char : ℤ → ℕ
to_char (pos n) = n % 256
to_char (negsuc n) = 255 - n % 256

-- What a call has done: the characters put, and the writes of "%n".
pub record Printed : Type 0 where
  pub text : List ℕ
  pub stores : List (ℕ × ℕ)

abbrev pub put : Printed → List ℕ → Printed
put out text = record out { text = out.text ++ text }

-- The switch, for a conversion that takes an argument; 'n' stores `stream_tell(stream) - start`.
-- `none` is an argument of another type, on which C says nothing.
abbrev pub put_arg : (outside : ℤ → ℕ) → ℕ → Arg → Printed → Option Printed
put_arg outside c (int_arg i) out =
    if c == 99
    then some (put out (to_char i ∷ []))
    else if c == 100
    then stream_putint digits_fuel outside 10 i >>= (λ text. some (put out text))
    else if c == 105
    then stream_putint digits_fuel outside 10 i >>= (λ text. some (put out text))
    else if c == 111
    then stream_putuint digits_fuel 8 (to_uint i) >>= (λ text. some (put out text))
    else if c == 120
    then stream_putuint digits_fuel 16 (to_uint i) >>= (λ text. some (put out text))
    else none
put_arg outside c (ptr_arg p) out =
    if c == 112
    then stream_putptr p >>= (λ text. some (put out text))
    else if c == 110
    then some (record out { stores = (p, length out.text) ∷ out.stores })
    else none
put_arg outside c (str_arg s) out = if c == 115 then some (put out s) else none

-- 'c', 'd', 'i', 'o', 'x', 'p', 's', 'n'
abbrev pub takes_arg : ℕ → Bool
takes_arg c =
    c == 99 || c == 100 || c == 105 || c == 111 || c == 120 || c == 112 || c == 115 || c == 110

-- `while((c=*fmt++))`. A '%' at the end of the format puts a 0 and reads on behind the format:
-- that, and a missing argument, is `none` too.
unfoldable pub stream_vprintf_loop :
    (outside : ℤ → ℕ) → List ℕ → List Arg → Printed → Option Printed
stream_vprintf_loop outside [] args out = some out
stream_vprintf_loop outside (c ∷ []) args out = if c == 37 then none else some (put out (c ∷ []))
stream_vprintf_loop outside (c ∷ d ∷ fmt) args out =
    let plain = stream_vprintf_loop outside (d ∷ fmt) args (put out (c ∷ [])) in
    let same = stream_vprintf_loop outside fmt args (put out (d ∷ [])) in
    let rest : List Arg → Printed → Option Printed =
      λ args out. stream_vprintf_loop outside fmt args out in
    if c == 37 then if takes_arg d then with_arg rest d args out else same else plain
  where
    with_arg : (List Arg → Printed → Option Printed) → ℕ → List Arg → Printed → Option Printed
    with_arg rest d [] out = none
    with_arg rest d (a ∷ args) out = put_arg outside d a out >>= rest args

-- The result counts the characters.
unfoldable pub stream_vprintf : (outside : ℤ → ℕ) → List ℕ → List Arg → Option (ℕ × Printed)
unfolding stream_vprintf_loop
stream_vprintf outside fmt args = do
  out ← stream_vprintf_loop outside fmt args (record { text = []; stores = [] })
  some (length out.text, out)
