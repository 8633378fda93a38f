-- ===== src/Drivers/Keyboard.antt =====
-- drivers/keyboard.c: the ring buffer of typed characters and the interrupt handler that fills it.
-- The scancode that the handler reads from the port is its argument; a char is its byte.
pub mod Ring
pub mod Keys
pub mod Decode
mod Tests
use Prim.Native.Nat.{bit_and}
use raptor_kernel.Prelude.{
  ℕ, ◌+◌, ◌-◌, ◌≡◌, Bool, true, false, not, ◌&&◌, ◌||◌, Option, none, some, List, [], ◌∷◌, leb, ltb,
  ◌==◌, if◌then◌else◌, get_or,
}

abbrev pub buf_size : ℕ
buf_size = 256

abbrev pub key_up : ℕ
key_up = 0x80

abbrev pub key_down : ℕ
key_down = 0x81

pub record Keyboard : Type 0 where
  buf : ℕ → ℕ
  head : ℕ
  tail : ℕ
  shift : Bool
  caps : Bool
  saw_e0 : Bool

abbrev pub map_lower : List ℕ
map_lower =
    0 ∷ 27 ∷ b'1' ∷ b'2' ∷ b'3' ∷ b'4' ∷ b'5' ∷ b'6' ∷ b'7' ∷ b'8' ∷ b'9' ∷ b'0' ∷ b'-' ∷ b'=' ∷ 8
    ∷ 9 ∷ b'q' ∷ b'w' ∷ b'e' ∷ b'r' ∷ b't' ∷ b'y' ∷ b'u' ∷ b'i' ∷ b'o' ∷ b'p' ∷ b'[' ∷ b']' ∷ 10 ∷ 0
    ∷ b'a' ∷ b's' ∷ b'd' ∷ b'f' ∷ b'g' ∷ b'h' ∷ b'j' ∷ b'k' ∷ b'l' ∷ b';' ∷ 39 ∷ 96 ∷ 0 ∷ 92 ∷ b'z'
    ∷ b'x' ∷ b'c' ∷ b'v' ∷ b'b' ∷ b'n' ∷ b'm' ∷ b',' ∷ b'.' ∷ b'/' ∷ 0 ∷ b'*' ∷ 0 ∷ b' ' ∷ []

abbrev pub map_upper : List ℕ
map_upper =
    0 ∷ 27 ∷ b'!' ∷ b'@' ∷ b'#' ∷ b'$' ∷ b'%' ∷ b'^' ∷ b'&' ∷ b'*' ∷ b'(' ∷ b')' ∷ b'_' ∷ b'+' ∷ 8
    ∷ 9 ∷ b'Q' ∷ b'W' ∷ b'E' ∷ b'R' ∷ b'T' ∷ b'Y' ∷ b'U' ∷ b'I' ∷ b'O' ∷ b'P' ∷ b'{' ∷ b'}' ∷ 10 ∷ 0
    ∷ b'A' ∷ b'S' ∷ b'D' ∷ b'F' ∷ b'G' ∷ b'H' ∷ b'J' ∷ b'K' ∷ b'L' ∷ b':' ∷ 34 ∷ b'~' ∷ 0 ∷ b'|'
    ∷ b'Z' ∷ b'X' ∷ b'C' ∷ b'V' ∷ b'B' ∷ b'N' ∷ b'M' ∷ b'<' ∷ b'>' ∷ b'?' ∷ 0 ∷ b'*' ∷ 0 ∷ b' ' ∷ []

unfoldable pub write : (ℕ → ℕ) → ℕ → ℕ → ℕ → ℕ
write buf i c j = if i == j then c else buf j

-- A key typed into a full buffer is dropped.
unfoldable pub push : Keyboard → ℕ → Keyboard
unfolding write
push k c =
    let next = bit_and (k.head + 1) (buf_size - 1) in
    if next == k.tail then k else record k { buf = write (k.buf) (k.head) c; head = next }

-- The character of a key below 128, 0 for none: an array's elements without an initializer are 0.
unfoldable pub translate : (shift caps : Bool) → (sc : ℕ) → ℕ
translate shift caps sc =
    let c = if shift then get_or map_upper sc 0 else get_or map_lower sc 0 in
    if caps && not shift && leb b'a' c && leb c b'z'
    then c - b'a' + b'A'
    else if caps && shift && leb b'A' c && leb c b'Z'
    then c - b'A' + b'a'
    else c

-- The handler on a byte `sc` from the port.
unfoldable pub keyboard_irq : Keyboard → (sc : ℕ) → Keyboard
unfolding push translate
keyboard_irq k sc =
    let released = bit_and sc 0x7f in
    let c = translate (k.shift) (k.caps) sc in
    if sc == 0xe0
    then record k { saw_e0 = true }
    else if k.saw_e0
    then (if sc == 0x48
        then push (record k { saw_e0 = false }) key_up
        else if sc == 0x50
        then push (record k { saw_e0 = false }) key_down
        else record k { saw_e0 = false })
    else if not (bit_and sc 0x80 == 0)
    then (if released == 0x2a || released == 0x36 then record k { shift = false } else k)
    else if sc == 0x2a || sc == 0x36
    then record k { shift = true }
    else if sc == 0x3a
    then record k { caps = not (k.caps) }
    else if leb 128 sc
    then k
    else if c == 0
    then k
    else push k c

-- The next character, or `none` for -1.
unfoldable pub keyboard_read : Keyboard → Option ℕ × Keyboard
keyboard_read k =
    if k.head == k.tail
    then (none, k)
    else (some (k.buf (k.tail)), record k { tail = bit_and (k.tail + 1) (buf_size - 1) })
