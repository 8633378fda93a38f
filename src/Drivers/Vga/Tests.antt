-- ===== src/Drivers/Vga/Tests.antt =====
-- drivers/vga.c with the cursor at the end of the last line.
use raptor_kernel.Prelude.{ℕ, ◌*◌, ◌≤◌, ◌≡◌, refl, arith}
use raptor_kernel.Drivers.Vga.{
  cols, rows, Vga, cell, move_hw_cursor, scroll_if_needed, wrap_line, putc_cell, vga_putc,
}
use raptor_kernel.Drivers.Vga.Screen.{OnScreen, vga_putc_lem}

abbrev corner : Vga
corner = record {
  mem = λ i. i;
  cur_row = 24;
  cur_col = 79;
  color = 7;
  cursor_high = 7;
  cursor_low = 207;
}

corner-OnScreen : OnScreen corner
corner-OnScreen = record { row = omega arith; col = omega arith; shown = refl }

-- A letter in the last cell wraps and scrolls.
wraps : (vga_putc corner b'R').cur_col ≡ 0
unfolding vga_putc putc_cell wrap_line scroll_if_needed move_hw_cursor
wraps = refl

vga_putc_lem_example :
    OnScreen (vga_putc corner b'R') × ((j : ℕ) → cols * rows ≤ j → (vga_putc corner b'R').mem j ≡ j)
vga_putc_lem_example = vga_putc_lem corner b'R' corner-OnScreen

-- A byte from 0x80 on takes the attribute 0xff, whatever the colour is.
high_byte : cell 0x80 0x07 ≡ 0xff80
unfolding cell
high_byte = refl
