-- ===== src/Console/Tests.antt =====
-- lib/console.c with the cursor at the top of the screen.
use raptor_kernel.Prelude.{◌≡◌, refl, false, none, some, [], ◌∷◌}
use raptor_kernel.Console.{Console, console_write, console_capture_begin}
use raptor_kernel.Drivers.Keyboard.{key_up}
use raptor_kernel.Console.Input.{
  console_getchar, getchar_round, serial_key, escape, arrow, serial_read_soon,
}

abbrev pub quiet : Console
quiet = record {
  capturing = false;
  capture_buf = λ _. 0;
  capture_cap = 0;
  capture_len = 0;
  vga = record {
    mem = λ _. 0;
    cur_row = 0;
    cur_col = 0;
    color = 7;
    cursor_high = 0;
    cursor_low = 0;
  };
  serial = [];
}

abbrev captured : Console
captured = console_write (console_capture_begin quiet (λ _. 0) 2) (b'o' ∷ b'k' ∷ 10 ∷ [])

-- The arrow key of a serial terminal, after a round without a key and a lone escape.
up_key :
    console_getchar (
      (none, [])
      ∷ (none, some 0x1b ∷ none ∷ some b'x' ∷ [])
      ∷ (none, some 0x1b ∷ none ∷ some b'[' ∷ some b'A' ∷ [])
      ∷ [])
    ≡ some key_up
unfolding console_getchar getchar_round serial_key escape arrow serial_read_soon
up_key = refl
