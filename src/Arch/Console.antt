-- ===== src/Arch/Console.antt =====
-- arch/i386/console.c: the text screen. The frame buffer is a list of 80 * 25 entries; the cursor
-- registers are the list of the bytes written to the ports, newest first.
pub mod Screen
mod Tests
use twcos.Common.{
  ℕ, zero, suc, ◌+◌, ◌-◌, ◌*◌, ◌/◌, ◌%◌, ◌^◌, Bool, List, [], ◌∷◌, ◌++◌, ltb, leb, ◌==◌,
  if◌then◌else◌, get_or, set, replicate, take, drop,
}

abbrev pub vga_width : ℕ
vga_width = 80

abbrev pub vga_height : ℕ
vga_height = 25

pub record Console : Type 0 where
  pub row : ℕ
  pub column : ℕ
  pub color : ℕ
  pub buffer : List ℕ

-- `fg | bg << 4`, for colours below 16.
unfoldable pub make_color : ℕ → ℕ → ℕ
make_color fg bg = (fg + bg * 16) % 2 ^ 8

-- `c16 | color16 << 8`, for a character below 128 (`char` is signed: a larger one would set all
-- bits of the colour).
unfoldable pub make_vgaentry : ℕ → ℕ → ℕ
make_vgaentry c color = c % 2 ^ 7 + color * 2 ^ 8

unfoldable pub console_putentryat : ℕ → ℕ → ℕ → ℕ → Console → Console
unfolding make_vgaentry
console_putentryat c color x y s = record s {
  buffer = set s.buffer (y * vga_width + x) (make_vgaentry c color);
}

-- The first loop moves every line up by one, the second clears the last line.
unfoldable pub console_scroll : Console → Console
unfolding make_vgaentry
console_scroll s = record s {
  row = s.row - 1;
  buffer = drop vga_width s.buffer ++ replicate vga_width (make_vgaentry b' ' s.color);
}

-- `if (++console_row == VGA_HEIGHT) console_scroll()`
unfoldable pub next_row : Console → Console
next_row s =
    let s' = record s { row = s.row + 1 } in if s'.row == vga_height then console_scroll s' else s'

-- `for(;i<console_column; i++)`: `n` rounds are left; each writes at `console_column`.
unfoldable pub blank : ℕ → Console → Console
blank zero s = s
blank (suc n) s = blank n (console_putentryat b' ' s.color s.column s.row s)

unfoldable pub put_tab : Console → Console
put_tab s =
    let column' = (s.column + 8) / 8 * 8 in
    if leb vga_width column'
    then (let s' = next_row (record s { column = column' - vga_width }) in blank s'.column s')
    else blank (column' - s.column) (record s { column = column' })

unfoldable pub put_plain : ℕ → Console → Console
put_plain c s =
    let s' = console_putentryat c s.color s.column s.row s in
    if s'.column + 1 == vga_width
    then next_row (record s' { column = 0 })
    else record s' { column = s'.column + 1 }

unfoldable pub console_putchar_nocursor : ℕ → Console → Console
console_putchar_nocursor c s =
    if c == 10
    then record (next_row s) { column = 0 }
    else if c == 13
    then record s { column = 0 }
    else if c == 8
    then record s { column = (if s.column == 0 then 0 else s.column - 1) }
    else if c == 9
    then put_tab s
    else put_plain c s

-- The four `outb` calls, as (port, byte).
unfoldable pub console_cursor : ℕ → ℕ → List (ℕ × ℕ)
console_cursor row col =
    let position = (row * vga_width + col) % 2 ^ 16 in
    (0x3d4, 0x0f)
    ∷ (0x3d5, position % 2 ^ 8)
    ∷ (0x3d4, 0x0e)
    ∷ (0x3d5, position / 2 ^ 8 % 2 ^ 8)
    ∷ []

unfoldable pub console_putchar : ℕ → Console → Console × List (ℕ × ℕ)
unfolding console_putchar_nocursor console_cursor
console_putchar c s = let s' = console_putchar_nocursor c s in (s', console_cursor s'.row s'.column)

unfoldable pub put_all : List ℕ → Console → Console
put_all [] s = s
put_all (c ∷ cs) s = put_all cs (console_putchar_nocursor c s)

-- `console_writestring`, of a string without its final 0.
unfoldable pub console_writestring : List ℕ → Console → Console × List (ℕ × ℕ)
console_writestring cs s = let s' = put_all cs s in (s', console_cursor s'.row s'.column)

-- The state that `console_initialize` leaves: the screen is blank, light grey on black.
unfoldable pub console_initialize : Console
unfolding make_color make_vgaentry
console_initialize = record {
  row = 0;
  column = 0;
  color = make_color 7 0;
  buffer = replicate (vga_height * vga_width) (make_vgaentry b' ' (make_color 7 0));
}
