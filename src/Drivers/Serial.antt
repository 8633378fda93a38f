-- ===== src/Drivers/Serial.antt =====
-- drivers/serial.c: the bytes that go to the registers of the serial port. What a register reads as
-- comes from the hardware.
use Prim.Native.Nat.{bit_and}
use raptor_kernel.Prelude.{
  ℕ, ◌+◌, ◌%◌, ◌^◌, ◌≡◌, refl, true, false, Option, none, some, List, [], ◌∷◌, ◌++◌, ◌==◌,
  if◌then◌else◌,
}

abbrev pub com1 : ℕ
com1 = 0x3f8

abbrev pub lsr_data_ready : ℕ
lsr_data_ready = 0x01

abbrev pub lsr_tx_empty : ℕ
lsr_tx_empty = 0x20

unfoldable pub serial_init : List (ℕ × ℕ)
serial_init =
    (com1 + 1, 0x00)
    ∷ (com1 + 3, 0x80)
    ∷ (com1 + 0, 0x01)
    ∷ (com1 + 1, 0x00)
    ∷ (com1 + 3, 0x03)
    ∷ (com1 + 2, 0xc7)
    ∷ (com1 + 4, 0x0b)
    ∷ []

-- The loop on what the line status reads as: the byte that is sent, and the readings that are left.
-- `none` says that the transmitter stays busy.
unfoldable pub serial_putc : (c : ℕ) → (status : List ℕ) → Option ((ℕ × ℕ) × List ℕ)
serial_putc c [] = none
serial_putc c (s ∷ ss) =
    let later = serial_putc c ss in
    if bit_and s lsr_tx_empty == 0 then later else some ((com1, c % 2 ^ 8), ss)

-- `none` for -1.
unfoldable pub serial_read : (status byte : ℕ) → Option ℕ
serial_read status byte = if bit_and status lsr_data_ready == 0 then none else some byte

-- The transmitter is busy at each of the readings.
abbrev pub Busy : List ℕ → Type 0
Busy [] = Unit {0}
Busy (s ∷ ss) = ((bit_and s lsr_tx_empty == 0) ≡ true) × Busy ss

-- serial_putc waits out every reading of a busy transmitter, and sends its byte once, at the first
-- reading of an empty one.
pub serial_putc_lem :
    (c : ℕ) (busy : List ℕ) (s : ℕ) (ss : List ℕ)
    → Busy busy
    → (bit_and s lsr_tx_empty == 0) ≡ false
    → serial_putc c (busy ++ (s ∷ ss)) ≡ some ((com1, c % 2 ^ 8), ss)
unfolding serial_putc
serial_putc_lem c [] s ss h ready = rw ready refl
serial_putc_lem c (b ∷ bs) s ss h ready = rw h.0 (serial_putc_lem c bs s ss h.1 ready)
