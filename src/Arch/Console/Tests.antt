-- ===== src/Arch/Console/Tests.antt =====
-- Runs of arch/i386/console.c, and the theorems at them.
use twcos.Common.{◌≡◌, refl, arith, get_or, replicate, length-replicate}
use twcos.Arch.Console.{
  make_color, make_vgaentry, console_putentryat, blank, put_tab, console_putchar_nocursor,
  console_initialize,
}
use twcos.Arch.Console.Screen.{IsValid}

screen_at_start : IsValid console_initialize
unfolding console_initialize
screen_at_start = record {
  row_fits = omega arith;
  column_fits = omega arith;
  buffer_fits = length-replicate 2000 (make_vgaentry b' ' (make_color 7 0));
}

-- A tab writes its blanks at the column behind them, and leaves the columns that it skips.
tab_skips :
    let s =
      console_putchar_nocursor 9
        (record { row = 0; column = 1; color = 7; buffer = replicate 12 0 }) in
    (get_or s.buffer 2 0 ≡ 0) × (get_or s.buffer 8 0 ≡ make_vgaentry b' ' 7)
unfolding console_putchar_nocursor put_tab blank console_putentryat make_vgaentry
tab_skips = (refl, refl)
