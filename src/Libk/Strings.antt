-- ===== src/Libk/Strings.antt =====
-- libk/string.c: blocks of bytes, strings, and the parts of a path.
-- A string is the list of its bytes before the terminating 0; `at s` is `*s`. A write outside a
-- block, which the C code does not check either, is left out of the block.
pub mod Order
pub mod Find
pub mod Split
pub mod Paths
mod Tests
use twcos.Common.{
  ℕ, zero, suc, ◌+◌, ◌-◌, ◌%◌, Bool, true, false, ◌&&◌, not, Option, none, some, List, [], ◌∷◌,
  ◌++◌, ltb, ◌==◌, if◌then◌else◌, length, set, take, drop, replicate,
}
use twcos.Common.Int.{ℤ, pos, negsuc, ◌-ℤ◌, is_zero}

-- A `char` is a signed byte.
abbrev pub char_int : ℕ → ℤ
char_int c = if ltb c 128 then pos c else negsuc (255 - c)

abbrev pub at : List ℕ → ℕ
at [] = 0
at (c ∷ s) = c

unfoldable pub memset : List ℕ → ℕ → ℕ → List ℕ
memset s c zero = s
memset [] c (suc n) = []
memset (x ∷ s) c (suc n) = c % 256 ∷ memset s c n

unfoldable pub memcpy : List ℕ → List ℕ → ℕ → List ℕ
memcpy dest src zero = dest
memcpy [] src (suc n) = []
memcpy (d ∷ dest) [] (suc n) = d ∷ memcpy dest [] n
memcpy (d ∷ dest) (c ∷ src) (suc n) = c ∷ memcpy dest src n

-- The loop reads `*c1` and `*c2` in every round: neither pointer moves.
unfoldable pub memcmp : List ℕ → List ℕ → ℕ → ℤ
memcmp s1 s2 zero = pos 0
memcmp s1 s2 (suc n) =
    let rest = memcmp s1 s2 n in
    if ltb_char (at s1) (at s2) then negsuc 0 else if ltb_char (at s2) (at s1) then pos 1 else rest
  where
    ltb_char : ℕ → ℕ → Bool
    ltb_char a b = ltb ((a + 128) % 256) ((b + 128) % 256)

-- `while(*s1 && *s2 && *s1 == *s2)`
unfoldable pub strcmp : List ℕ → List ℕ → ℤ
strcmp [] s2 = char_int 0 -ℤ char_int (at s2)
strcmp (a ∷ s1) [] = char_int a -ℤ char_int 0
strcmp (a ∷ s1) (b ∷ s2) =
    let rest = strcmp s1 s2 in if a == b then rest else char_int a -ℤ char_int b

-- `for(int i=0; i<n && *s1 && *s2 && *s1 == *s2; i++)`
unfoldable pub strncmp : List ℕ → List ℕ → ℕ → ℤ
strncmp s1 s2 zero = char_int (at s1) -ℤ char_int (at s2)
strncmp [] s2 (suc n) = char_int 0 -ℤ char_int (at s2)
strncmp (a ∷ s1) [] (suc n) = char_int a -ℤ char_int 0
strncmp (a ∷ s1) (b ∷ s2) (suc n) =
    let rest = strncmp s1 s2 n in if a == b then rest else char_int a -ℤ char_int b

unfoldable pub strlen : List ℕ → ℕ
strlen [] = 0
strlen (c ∷ s) = 1 + strlen s

-- The new block ends with a 0 that is no part of the string.
unfoldable pub strndup : List ℕ → ℕ → List ℕ
unfolding memcpy
strndup s len = memcpy (replicate len 0) s len

-- `while(*s && *s != sep)`: the bytes up to there, and what is left.
unfoldable pub until : ℕ → List ℕ → List ℕ × List ℕ
until sep [] = ([], [])
until sep (c ∷ s) =
    let (word, rest) = until sep s in if c == sep then ([], c ∷ s) else (c ∷ word, rest)

-- The string `copied`, and behind a separator those of the next rounds.
abbrev pub words_from : List ℕ → List ℕ → Option (List (List ℕ)) → Option (List (List ℕ))
words_from copied [] next = some (copied ∷ [])
words_from copied (c ∷ rest) none = none
words_from copied (c ∷ rest) (some words) = some (copied ∷ words)

-- `while(1)` of `ssplit`, with fuel: the strings in `strs`. The array grows as it needs to.
unfoldable pub ssplit_loop : ℕ → List ℕ → ℕ → Option (List (List ℕ))
unfolding until strndup
ssplit_loop zero s sep = none
ssplit_loop (suc f) s sep =
    let (word, rest) = until sep s in
    let next = ssplit_loop f (drop 1 rest) sep in
    let copied = if ltb 0 (length word) then strndup s (length word) else [] in
    words_from copied rest next

-- Each round but the last goes behind a separator, so there are at most `strlen(str)` before it.
unfoldable pub ssplit : List ℕ → ℕ → Option (List (List ℕ))
unfolding ssplit_loop
ssplit str sep = ssplit_loop (suc (length str)) str sep

-- The index of the first byte `c`, or 0 as `none`.
unfoldable pub strchr : List ℕ → ℕ → Option ℕ
strchr [] c = none
strchr (x ∷ s) c =
    let rest = strchr s c in
    if c == x then some 0 else elim rest [ none ↦ none | some i ↦ some (suc i) ]

-- `for(int i=0; s[i]; i++)`, from `i` on.
unfoldable pub strrchr_loop : List ℕ → ℕ → ℕ → Option ℕ → Option ℕ
strrchr_loop [] c i last = last
strrchr_loop (x ∷ s) c i last = strrchr_loop s c (i + 1) (if c == x then some i else last)

unfoldable pub strrchr : List ℕ → ℕ → Option ℕ
unfolding strrchr_loop
strrchr s c = strrchr_loop s c 0 none

unfoldable pub starts_with : List ℕ → List ℕ → Bool
unfolding strlen strncmp
starts_with s head =
    if ltb (strlen s) (strlen head) then false else is_zero (strncmp s head (strlen head))

unfoldable pub ends_with : List ℕ → List ℕ → Bool
unfolding strlen strcmp
ends_with s tail =
    if ltb (strlen s) (strlen tail)
    then false
    else is_zero (strcmp (drop (strlen s - strlen tail) s) tail)

-- '/' and '.'
abbrev pub slash_char : ℕ
slash_char = 47

abbrev pub dot_char : ℕ
dot_char = 46

-- `while(plen && '/' == path[plen-1])`
unfoldable pub strip_slashes : List ℕ → List ℕ
strip_slashes [] = []
strip_slashes (c ∷ s) = stripped c (strip_slashes s)
  where
    stripped : ℕ → List ℕ → List ℕ
    stripped c [] = if c == slash_char then [] else c ∷ []
    stripped c (x ∷ s) = c ∷ x ∷ s

-- The part of the stripped path that is returned, by the place of its last '/'. What this changes
-- in the path behind the part that is returned is not read again.
abbrev pub part_at : List ℕ → Bool → Option ℕ → List ℕ
part_at path dirname none = if dirname then dot_char ∷ [] else path
part_at path dirname (some zero) = if dirname then slash_char ∷ [] else drop 1 path
part_at path dirname (some (suc i)) = if dirname then take (suc i) path else drop (suc i + 1) path

unfoldable pub basedirname : List ℕ → Bool → List ℕ
unfolding strip_slashes strrchr
basedirname path dirname =
    let stripped = strip_slashes path in part_at stripped dirname (strrchr stripped slash_char)

unfoldable pub dirname : List ℕ → List ℕ
unfolding basedirname
dirname path = basedirname path true

unfoldable pub basename : List ℕ → List ℕ
unfolding basedirname
basename path = basedirname path false

-- `stream_string_t`
pub record StreamString : Type 0 where
  pub buf : List ℕ
  pub size : ℕ
  pub chars : ℕ

unfoldable pub string_putc : StreamString → ℕ → StreamString
string_putc s c = record {
  buf = if ltb s.chars s.size then set s.buf s.chars c else s.buf;
  size = s.size;
  chars = s.chars + 1;
}

unfoldable pub string_tell : StreamString → ℕ
string_tell s = s.chars

-- The calls of `string_putc` for what `stream_vprintf` prints.
unfoldable pub put_string : StreamString → List ℕ → StreamString
unfolding string_putc
put_string s [] = s
put_string s (c ∷ text) = put_string (string_putc s c) text

-- `vsnprintf` for the text that the format and its arguments stand for: the block and the result.
unfoldable pub vsnprintf : List ℕ → ℕ → List ℕ → List ℕ × ℕ
unfolding put_string string_tell
vsnprintf buf size text =
    let s = put_string (record { buf = buf; size = size; chars = 0 }) text in
    if ltb (string_tell s) size then (set s.buf s.chars 0, s.chars) else (s.buf, s.chars)
