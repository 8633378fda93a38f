-- ===== src/Console/Input.antt =====
-- console_getchar of lib/console.c. A key is none when the code's int is -1; what serial_read returns
-- in a round of the loop is a list, and -1 from its end on.
use raptor_kernel.Prelude.{ℕ, zero, suc, Option, none, some, List, [], ◌∷◌, ◌==◌, if◌then◌else◌}
use raptor_kernel.Drivers.Keyboard.{key_up, key_down}

-- The byte found within the number of polls, and what is still to be read.
unfoldable pub serial_read_soon : (spin : ℕ) → List (Option ℕ) → Option ℕ × List (Option ℕ)
serial_read_soon zero bs = (none, bs)
serial_read_soon (suc spin) [] = (none, [])
serial_read_soon (suc spin) (some c ∷ bs) = (some c, bs)
serial_read_soon (suc spin) (none ∷ bs) = serial_read_soon spin bs

abbrev pub spins : ℕ
spins = 100_000

-- The switch on the last byte of an arrow key.
unfoldable pub arrow : Option ℕ → Option ℕ
arrow none = none
arrow (some c) = if c == b'A' then some key_up else if c == b'B' then some key_down else none

unfoldable pub escape : List (Option ℕ) → Option ℕ
unfolding serial_read_soon arrow
escape bs = elim (serial_read_soon spins bs).0 [
  | none ↦ none
  | some c ↦
      if c == b'[' then arrow (serial_read_soon spins (serial_read_soon spins bs).1).0 else none
]

-- What a byte from the serial port stands for, with the bytes that follow it.
unfoldable pub serial_key : ℕ → List (Option ℕ) → Option ℕ
unfolding escape
serial_key c bs =
    let key = escape bs in
    if c == 13 then some 10 else if c == 0x7f then some 8 else if c == 0x1b then key else some c

-- A round of the loop: the keyboard first, then the serial port.
unfoldable pub getchar_round : (keyboard : Option ℕ) → List (Option ℕ) → Option ℕ
unfolding serial_key
getchar_round (some c) bs = some c
getchar_round none [] = none
getchar_round none (none ∷ bs) = none
getchar_round none (some c ∷ bs) = serial_key c bs

-- The loop, on the rounds between interrupts; `none` when none of them has a key.
unfoldable pub console_getchar : List (Option ℕ × List (Option ℕ)) → Option ℕ
unfolding getchar_round
console_getchar [] = none
console_getchar (r ∷ rs) = elim (getchar_round r.0 r.1) [
  | none ↦ console_getchar rs
  | some c ↦ some c
]
