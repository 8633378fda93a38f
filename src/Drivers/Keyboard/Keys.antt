-- ===== src/Drivers/Keyboard/Keys.antt =====
-- The keys of a US keyboard: the bytes that they send to drivers/keyboard.c and what they type.
use raptor_kernel.Prelude.{
  ℕ, ◌+◌, ◌-◌, ◌<◌, ◌≡◌, ◌≢◌, refl, Bool, true, false, not, ◌&&◌, List, [], ◌∷◌, leb, ltb, ◌==◌,
  if◌then◌else◌, length, get_or, ==_iff, all_below, all_below_lem,
}
use raptor_kernel.Prelude.Text.{bytes}
use raptor_kernel.Drivers.Keyboard.{Keyboard, translate, keyboard_irq}
use raptor_kernel.Drivers.Keyboard.Ring.{Queue, enqueue}

abbrev pub xor : Bool → Bool → Bool
xor true b = not b
xor false b = b

-- The keys of a US keyboard by their scancodes: a row starts at the scancode of its first key, and has
-- what the keys type with and without Shift.
abbrev pub row : (start : ℕ) → (low high : List ℕ) → (shift : Bool) → (sc other : ℕ) → ℕ
row start low high shift sc other =
    if leb start sc && ltb sc (start + length low)
    then get_or (if shift then high else low) (sc - start) 0
    else other

-- A row of letters: Shift and Caps Lock together cancel out.
abbrev pub letters : (start : ℕ) → (low high : List ℕ) → (shift caps : Bool) → (sc other : ℕ) → ℕ
letters start low high shift caps sc other = row start low high (xor shift caps) sc other

-- The character that a key types, 0 for none.
unfoldable pub us_key : (shift caps : Bool) → (sc : ℕ) → ℕ
us_key shift caps sc = row 1 (27 ∷ []) (27 ∷ []) shift sc (
    row 2 (bytes "1234567890-=") (bytes "!@#$%^&*()_+") shift sc (
      row 14 (8 ∷ 9 ∷ []) (8 ∷ 9 ∷ []) shift sc (
        letters 16 (bytes "qwertyuiop") (bytes "QWERTYUIOP") shift caps sc (
          row 26 (bytes "[]\n") (bytes "{}\n") shift sc (
            letters 30 (bytes "asdfghjkl") (bytes "ASDFGHJKL") shift caps sc (
              row 39 (bytes ";'`") (bytes ":\"~") shift sc (
                row 43 (bytes "\\") (bytes "|") shift sc (
                  letters 44 (bytes "zxcvbnm") (bytes "ZXCVBNM") shift caps sc (
                    row 51 (bytes ",./") (bytes "<>?") shift sc (
                      row 55 (bytes "*") (bytes "*") shift sc
                        (row 57 (bytes " ") (bytes " ") shift sc 0)))))))))))

us_test :
    (shift caps : Bool)
    → all_below 128 (λ sc. translate shift caps sc == us_key shift caps sc) ≡ true
unfolding translate us_key
us_test true true = refl
us_test true false = refl
us_test false true = refl
us_test false false = refl

pub translate_lem :
    (shift caps : Bool) (sc : ℕ) → sc < 128 → translate shift caps sc ≡ us_key shift caps sc
translate_lem shift caps sc h = (==_iff _ _).0 (
    all_below_lem 128 (λ sc. translate shift caps sc == us_key shift caps sc) (us_test shift caps)
      sc h)

-- What happens on the keyboard. A key is given by its scancode.
pub data KeyEvent : Type 0 where
  left_shift_down left_shift_up right_shift_down right_shift_up : KeyEvent
  caps_lock_down caps_lock_up : KeyEvent
  up_down up_up down_down down_up : KeyEvent
  key_down key_up : (sc : ℕ) → KeyEvent
  -- A key with the prefix that is neither arrow.
  extended : (sc : ℕ) → KeyEvent

-- The bytes that the keyboard sends: a released key is the pressed one with bit 7.
abbrev pub scancodes : KeyEvent → List ℕ
scancodes left_shift_down = 0x2a ∷ []
scancodes left_shift_up = 0xaa ∷ []
scancodes right_shift_down = 0x36 ∷ []
scancodes right_shift_up = 0xb6 ∷ []
scancodes caps_lock_down = 0x3a ∷ []
scancodes caps_lock_up = 0xba ∷ []
scancodes up_down = 0xe0 ∷ 0x48 ∷ []
scancodes up_up = 0xe0 ∷ 0xc8 ∷ []
scancodes down_down = 0xe0 ∷ 0x50 ∷ []
scancodes down_up = 0xe0 ∷ 0xd0 ∷ []
scancodes (key_down sc) = sc ∷ []
scancodes (key_up sc) = (sc + 0x80) ∷ []
scancodes (extended sc) = 0xe0 ∷ sc ∷ []

-- A plain key is none of the mode keys, and released it is not the prefix.
abbrev pub IsPlain : (sc : ℕ) → Type 0
IsPlain sc = (sc < 128) × (sc ≢ 0x2a) × (sc ≢ 0x36) × (sc ≢ 0x3a) × (sc ≢ 0x60)

abbrev pub IsEvent : KeyEvent → Type 0
IsEvent (key_down sc) = IsPlain sc
IsEvent (key_up sc) = IsPlain sc
IsEvent (extended sc) = (sc ≢ 0x48) × (sc ≢ 0x50) × (sc ≢ 0xe0)
IsEvent e = Unit {0}

-- A character that is typed, or none.
abbrev pub typed : List ℕ → (c : ℕ) → List ℕ
typed xs c = if c == 0 then xs else enqueue xs c

-- The characters that wait, with the modes.
pub record Typing : Type 0 where
  pub shift : Bool
  pub caps : Bool
  pub queue : List ℕ

abbrev pub after_event : Typing → KeyEvent → Typing
after_event t left_shift_down = record t { shift = true }
after_event t left_shift_up = record t { shift = false }
after_event t right_shift_down = record t { shift = true }
after_event t right_shift_up = record t { shift = false }
after_event t caps_lock_down = record t { caps = not t.caps }
after_event t caps_lock_up = t
after_event t up_down = record t { queue = enqueue t.queue 0x80 }
after_event t up_up = t
after_event t down_down = record t { queue = enqueue t.queue 0x81 }
after_event t down_up = t
after_event t (key_down sc) = record t { queue = typed t.queue (us_key t.shift t.caps sc) }
after_event t (key_up sc) = t
after_event t (extended sc) = t

-- The driver is between two events, and has what was typed.
pub record Shows (k : Keyboard) (t : Typing) : Type 0 where
  pub queue : Queue k t.queue
  pub shift : k.shift ≡ t.shift
  pub caps : k.caps ≡ t.caps
  pub between : k.saw_e0 ≡ false

-- The handler on one byte after the other.
abbrev pub receive : Keyboard → List ℕ → Keyboard
receive k [] = k
receive k (sc ∷ scs) = receive (keyboard_irq k sc) scs
