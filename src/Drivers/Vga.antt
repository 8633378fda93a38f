-- ===== src/Drivers/Vga.antt =====
-- drivers/vga.c: the text screen as cells of 16 bits by index, the cursor, and the two registers of
-- the cursor in the CRT controller. A char is its byte; as `char` is signed, one from 0x80 on widens
-- to a 16-bit word with a high byte of 0xff.
pub mod Screen
mod Tests
use Prim.Native.Nat.{bit_or}
use raptor_kernel.Prelude.{
  ℕ, zero, suc, ◌+◌, ◌-◌, ◌*◌, ◌/◌, ◌%◌, ◌^◌, Bool, true, false, ltb, leb, ◌==◌, if◌then◌else◌,
}

abbrev pub cols : ℕ
cols = 80

abbrev pub rows : ℕ
rows = 25

pub record Vga : Type 0 where
  pub mem : ℕ → ℕ
  pub cur_row : ℕ
  pub cur_col : ℕ
  pub color : ℕ
  pub cursor_high : ℕ
  pub cursor_low : ℕ

unfoldable pub cell : (c attr : ℕ) → ℕ
cell c attr = bit_or (if ltb c 0x80 then c else 0xff00 + c) (attr * 2 ^ 8 % 2 ^ 16)

unfoldable pub put : (ℕ → ℕ) → ℕ → ℕ → ℕ → ℕ
put mem i w j = if i == j then w else mem j

-- The loop that writes the `n` cells from `i` on.
unfoldable pub fill : (ℕ → ℕ) → (i w n : ℕ) → ℕ → ℕ
unfolding put
fill mem i w zero = mem
fill mem i w (suc n) = fill (put mem i w) (i + 1) w n

unfoldable pub move_hw_cursor : Vga → Vga
move_hw_cursor v =
    let pos = (v.cur_row * cols + v.cur_col) % 2 ^ 16 in
    record v { cursor_high = pos / 2 ^ 8; cursor_low = pos % 2 ^ 8 }

-- What memmove leaves of the cells when it moves all lines but the first up by one.
unfoldable pub lines_up : (ℕ → ℕ) → ℕ → ℕ
lines_up mem i = if ltb i ((rows - 1) * cols) then mem (i + cols) else mem i

unfoldable pub scroll_if_needed : Vga → Vga
unfolding fill cell lines_up
scroll_if_needed v = if ltb (v.cur_row) rows then v else record v {
  mem = fill (lines_up (v.mem)) ((rows - 1) * cols) (cell b' ' (v.color)) cols;
  cur_row = rows - 1;
}

unfoldable pub vga_clear : Vga → Vga
unfolding fill cell move_hw_cursor
vga_clear v = move_hw_cursor (record v {
  mem = fill (v.mem) 0 (cell b' ' (v.color)) (cols * rows);
  cur_row = 0;
  cur_col = 0;
})

unfoldable pub vga_set_color : Vga → ℕ → Vga
vga_set_color v c = record v { color = c }

-- At the end of a line, to the next one.
unfoldable pub wrap_line : Vga → Vga
wrap_line v = if leb cols (v.cur_col) then record v { cur_col = 0; cur_row = v.cur_row + 1 } else v

-- The switch of vga_putc. On a column that is not negative `& ~7` rounds down to a multiple of 8.
unfoldable pub putc_cell : Vga → (c : ℕ) → Vga
unfolding put cell wrap_line
putc_cell v c =
    if c == 10
    then record v { cur_col = 0; cur_row = v.cur_row + 1 }
    else if c == 13
    then record v { cur_col = 0 }
    else if c == 8
    then (if v.cur_col == 0 then v else record v {
      cur_col = v.cur_col - 1;
      mem = put (v.mem) (v.cur_row * cols + (v.cur_col - 1)) (cell b' ' (v.color));
    })
    else if c == 9
    then wrap_line (record v { cur_col = (v.cur_col + 8) / 8 * 8 })
    else wrap_line (record v {
      mem = put (v.mem) (v.cur_row * cols + v.cur_col) (cell c (v.color));
      cur_col = v.cur_col + 1;
    })

unfoldable pub vga_putc : Vga → (c : ℕ) → Vga
unfolding putc_cell scroll_if_needed move_hw_cursor
vga_putc v c = move_hw_cursor (scroll_if_needed (putc_cell v c))
