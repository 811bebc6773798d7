-- ===== src/Arch/Console/Screen.antt =====
-- The cursor of arch/i386/console.c stays on the screen, and what is written stays in the buffer.
use twcos.Common.{
  ℕ, zero, suc, ◌+◌, ◌-◌, ◌*◌, ◌/◌, ◌<◌, ◌≡◌, refl, ap, ◌∙◌, Bool, true, false, List, [], ◌∷◌, ◌++◌,
  arith, leb, ◌==◌, if◌then◌else◌, length, get_or, replicate, drop, Bool-cases, inl, inr,
  length-append, length-set, length-replicate, length-drop, get_or-drop, get_or-append_left,
  get_or-append_right, get_or-replicate,
}
use twcos.Arch.Console.{
  Console, vga_width, vga_height, make_vgaentry, console_putentryat, console_scroll, next_row,
  blank, put_tab, put_plain, console_putchar_nocursor, put_all, console_writestring, console_cursor,
}

-- The cursor is on the screen, and the buffer holds one entry for each position.
pub record IsValid (s : Console) : Type 0 where
  pub row_fits : s.row < vga_height
  pub column_fits : s.column < vga_width
  pub buffer_fits : length s.buffer ≡ vga_width * vga_height

-- What scrolling leaves alone, and that the buffer keeps its length.
scrolled :
    (s : Console)
    → length s.buffer ≡ vga_width * vga_height
    → let s' = console_scroll s in
      (s'.row ≡ s.row - 1) × (s'.column ≡ s.column) × (length s'.buffer ≡ vga_width * vga_height)
unfolding console_scroll
scrolled s h = (
  refl,
  refl,
  length-append (drop vga_width s.buffer) (replicate vga_width (make_vgaentry b' ' s.color))
      ∙ omega (
        arith,
        length-drop vga_width s.buffer,
        length-replicate vga_width (make_vgaentry b' ' s.color),
      ),
)

-- The cursor may stand just below the screen before `next_row`.
next_row-IsValid :
    (s : Console) → IsValid s → IsValid (next_row s) × ((next_row s).column ≡ s.column)
unfolding next_row
next_row-IsValid s v = elim (Bool-cases (s.row + 1 == vga_height)) [
  | inl below ↦
      let s' = record s { row = s.row + 1 } in
      let (row', column', length') = scrolled s' v.buffer_fits in
      rw below (
        record {
          row_fits = omega (arith, row', v.row_fits);
          column_fits = omega (arith, column', v.column_fits);
          buffer_fits = length';
        },
        column',
      )
  | inr inside ↦ rw inside (
    record {
      row_fits = ground (arith, v.row_fits);
      column_fits = v.column_fits;
      buffer_fits = v.buffer_fits;
    },
    refl,
  )
]

console_putentryat-IsValid :
    (c color x y : ℕ) (s : Console) → IsValid s → IsValid (console_putentryat c color x y s)
unfolding console_putentryat
console_putentryat-IsValid c color x y s v = record {
  row_fits = v.row_fits;
  column_fits = v.column_fits;
  buffer_fits = length-set s.buffer _ _ ∙ v.buffer_fits;
}

blank-IsValid : (n : ℕ) (s : Console) → IsValid s → IsValid (blank n s)
unfolding blank
blank-IsValid zero s v = v
blank-IsValid (suc n) s v =
    blank-IsValid n _ (console_putentryat-IsValid b' ' s.color s.column s.row s v)

at_column : (s : Console) (c : ℕ) → c < vga_width → IsValid s → IsValid (record s { column = c })
at_column s c h v = record { row_fits = v.row_fits; column_fits = h; buffer_fits = v.buffer_fits }

put_tab-IsValid : (s : Console) → IsValid s → IsValid (put_tab s)
unfolding put_tab
put_tab-IsValid s v =
    let column' = (s.column + 8) / 8 * 8 in
    elim (Bool-cases (leb vga_width column')) [
      | inl over ↦
          let s' = record s { column = column' - vga_width } in
          rw over (
            blank-IsValid _ _
              (next_row-IsValid s'
                (at_column s (column' - vga_width) (omega (arith, v.column_fits)) v)).0)
      | inr within ↦ rw within (blank-IsValid _ _ (at_column s column' (ground arith) v))
    ]

put_plain-IsValid : (c : ℕ) (s : Console) → IsValid s → IsValid (put_plain c s)
unfolding put_plain
put_plain-IsValid c s v =
    let s' = console_putentryat c s.color s.column s.row s in
    let v' = console_putentryat-IsValid c s.color s.column s.row s v in
    elim (Bool-cases (s'.column + 1 == vga_width)) [
      | inl over ↦
          rw over (next_row-IsValid (record s' { column = 0 }) (at_column s' 0 (omega arith) v')).0
      | inr within ↦ rw within (at_column s' (s'.column + 1) (ground (arith, v'.column_fits)) v')
    ]

console_putchar_nocursor-IsValid :
    (c : ℕ) (s : Console) → IsValid s → IsValid (console_putchar_nocursor c s)
unfolding console_putchar_nocursor
console_putchar_nocursor-IsValid c s v =
    choose (c == 10) (at_column (next_row s) 0 (omega arith) (next_row-IsValid s v).0) (
      choose (c == 13) (at_column s 0 (omega arith) v) (
        choose (c == 8) (at_column s _ (ground (arith, v.column_fits)) v)
          (choose (c == 9) (put_tab-IsValid s v) (put_plain-IsValid c s v))))
  where
    choose : (b : Bool) {x y : Console} → IsValid x → IsValid y → IsValid (if b then x else y)
    choose true vx vy = vx
    choose false vx vy = vy

put_all-IsValid : (cs : List ℕ) (s : Console) → IsValid s → IsValid (put_all cs s)
unfolding put_all
put_all-IsValid [] s v = v
put_all-IsValid (c ∷ cs) s v = put_all-IsValid cs _ (console_putchar_nocursor-IsValid c s v)

-- Whatever bytes are written, the cursor stays on the screen and the buffer keeps its length; the
-- cursor registers are set to the final position.
pub console_writestring-IsValid :
    (cs : List ℕ) (s : Console)
    → IsValid s
    → let (s', ports) = console_writestring cs s in
      IsValid s' × (ports ≡ console_cursor s'.row s'.column)
unfolding console_writestring
console_writestring-IsValid cs s v = (put_all-IsValid cs s v, refl)

-- Scrolling moves each line up by one and fills the last one with blanks in the console's colour.
pub get_or-console_scroll :
    (s : Console) (line x d : ℕ)
    → length s.buffer ≡ vga_width * vga_height
    → line < vga_height
    → x < vga_width
    → get_or (console_scroll s).buffer (line * vga_width + x) d ≡ (
        if line + 1 == vga_height
        then make_vgaentry b' ' s.color
        else get_or s.buffer ((line + 1) * vga_width + x) d)
unfolding console_scroll
get_or-console_scroll s line x d h l w = elim (Bool-cases (line + 1 == vga_height)) [
  | inl bottom ↦
      let at : line * vga_width + x ≡ length kept + x = ground (arith, kept_length) in
      rw bottom (
        ap (λ k. get_or (kept ++ blanks) k d) at
        ∙ get_or-append_right kept blanks x d
        ∙ get_or-replicate vga_width x _ d w)
  | inr above ↦ rw above (
      get_or-append_left kept blanks (line * vga_width + x) d (ground (arith, kept_length))
      ∙ get_or-drop vga_width (line * vga_width + x) s.buffer d
      ∙ ap (λ k. get_or s.buffer k d) (omega arith))
]
  where
    kept : List ℕ
    kept = drop vga_width s.buffer

    blanks : List ℕ
    blanks = replicate vga_width (make_vgaentry b' ' s.color)

    kept_length : length kept ≡ 24 * vga_width
    kept_length = length-drop vga_width s.buffer ∙ omega arith
