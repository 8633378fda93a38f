-- ===== src/Console.antt =====
-- lib/console.c: the output of the console, which goes to the screen and the serial port or into a
-- capture buffer. The bytes sent over the serial port are a list, the oldest first.
pub mod Capture
pub mod Sent
pub mod Input
pub mod Tests
use Prim.Native.Nat.{bit_and, bit_or}
use raptor_kernel.Prelude.{
  ◌*◌, ◌%◌, ◌^◌, ℕ, ◌+◌, Bool, true, false, List, [], ◌∷◌, ◌++◌, ltb, ◌==◌, if◌then◌else◌,
}
use raptor_kernel.Drivers.Vga.{Vga, vga_putc, vga_set_color, vga_clear}

pub record Console : Type 0 where
  pub capturing : Bool
  pub capture_buf : ℕ → ℕ
  pub capture_cap : ℕ
  pub capture_len : ℕ
  pub vga : Vga
  pub serial : List ℕ

unfoldable pub store : (ℕ → ℕ) → ℕ → ℕ → ℕ → ℕ
store buf i c j = if i == j then c else buf j

unfoldable pub serial_putc : Console → ℕ → Console
serial_putc con c = record con { serial = con.serial ++ (c ∷ []) }

unfoldable pub console_putc : Console → ℕ → Console
unfolding store serial_putc
console_putc con c =
    let shown = record con { vga = vga_putc (con.vga) c } in
    if con.capturing
    then (if ltb (con.capture_len) (con.capture_cap)
        then record con {
          capture_buf = store (con.capture_buf) (con.capture_len) c;
          capture_len = con.capture_len + 1;
        }
        else con)
    else serial_putc (if c == 10 then serial_putc shown 13 else shown) c

unfoldable pub console_write : Console → List ℕ → Console
unfolding console_putc
console_write con [] = con
console_write con (c ∷ cs) = console_write (console_putc con c) cs

unfoldable pub console_capture_begin : Console → (buf : ℕ → ℕ) → (cap : ℕ) → Console
console_capture_begin con buf cap = record con {
  capturing = true;
  capture_buf = buf;
  capture_cap = cap;
  capture_len = 0;
}

-- Returns the length of what was captured.
unfoldable pub console_capture_end : Console → ℕ × Console
console_capture_end con = (con.capture_len, record con { capturing = false })

unfoldable pub console_set_color : Console → (fg bg : ℕ) → Console
console_set_color con fg bg = record con {
  vga = vga_set_color con.vga (bit_or (bg * 2 ^ 4) (bit_and fg 0x0f) % 2 ^ 8);
}

unfoldable pub console_clear : Console → Console
console_clear con = record con { vga = vga_clear con.vga }
