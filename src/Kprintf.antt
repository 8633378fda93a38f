-- ===== src/Kprintf.antt =====
-- lib/kprintf.c: what kprintf hands to console_putc, as a list of bytes. A format is the text of
-- the C string. The arguments are a list: each is a 32-bit word or a string, which may be NULL;
-- reading one of the wrong kind, or past the last, is `none`, as is a loop that runs out of fuel.
pub mod Digits
pub mod Formats
pub mod Total
pub mod Numeral
pub mod Pieces
pub mod Printed
mod Tests
use mathlib.Core.Option
use raptor_kernel.Prelude.{
  ℕ, zero, suc, ◌+◌, ◌-◌, ◌*◌, ◌/◌, ◌%◌, ◌^◌, Bool, true, false, not, ◌&&◌, ◌||◌, Option, none,
  some, List, [], ◌∷◌, ◌++◌, reverse, ltb, leb, ◌==◌, if◌then◌else◌, length, replicate,
}

abbrev pub space : ℕ
space = b' '

pub data Arg : Type 0 where
  word : ℕ → Arg
  string : Option (List ℕ) → Arg

-- `while (n-- > 0) console_putc(c);`
unfoldable pub pad : (c n : ℕ) → List ℕ
pad c n = replicate n c

unfoldable pub emit : List ℕ → (width : ℕ) → (left : Bool) → (fill : ℕ) → List ℕ
unfolding pad
emit s width left fill =
    let gap = if ltb (length s) width then width - length s else 0 in
    (if left then [] else pad fill gap) ++ s ++ (if left then pad space gap else [])

-- `digits[d]` for d below 16.
unfoldable pub digit : (uppercase : Bool) → ℕ → ℕ
digit uppercase d = if ltb d 10 then b'0' + d else (if uppercase then b'A' else b'a') + (d - 10)

-- The do-while loop of format_num: the digits in `tmp`, the lowest first.
unfoldable pub format_loop : ℕ → (value base : ℕ) → Bool → Option (List ℕ)
format_loop zero value base uppercase = none
format_loop (suc fuel) value base uppercase =
    let d = digit uppercase (value % base) in
    let rest = format_loop fuel (value / base) base uppercase in
    if value / base == 0 then some (d ∷ []) else Option.map (λ ds. d ∷ ds) rest

-- `tmp` has room for 16 digits, and so many rounds are allowed.
unfoldable pub format_num : (value base : ℕ) → Bool → Option (List ℕ)
unfolding format_loop digit
format_num value base uppercase = Option.map reverse (format_loop 16 value base uppercase)

-- The loop over the flags `-` and `0`.
unfoldable pub flags : List ℕ → Bool → ℕ → Bool × ℕ × List ℕ
flags [] left fill = (left, fill, [])
flags (c ∷ cs) left fill =
    let dash = flags cs true fill in
    let nought = flags cs left b'0' in
    if c == b'-' then dash else if c == b'0' then nought else (left, fill, c ∷ cs)

-- The loop over the digits of the width, which only grows: print_directive looks at the end whether it
-- is an `int`.
unfoldable pub field_width : List ℕ → ℕ → ℕ × List ℕ
field_width [] width = (width, [])
field_width (c ∷ cs) width =
    let more = field_width cs (width * 10 + (c - b'0')) in
    if leb b'0' c && leb c b'9' then more else (width, c ∷ cs)

abbrev pub null_text : List ℕ
null_text = b'(' ∷ b'n' ∷ b'u' ∷ b'l' ∷ b'l' ∷ b')' ∷ []

-- %c: the low byte of the word.
unfoldable pub print_char : Option Arg → (width : ℕ) → Bool → Option (List ℕ)
unfolding emit
print_char (some (word w)) width left = some (emit (w % 256 ∷ []) width left space)
print_char _ width left = none

unfoldable pub print_string : Option Arg → (width : ℕ) → Bool → Option (List ℕ)
unfolding emit
print_string (some (string (some s))) width left = some (emit s width left space)
print_string (some (string none)) width left = some (emit null_text width left space)
print_string _ width left = none

-- %d: the word as a signed number. Negating the least one keeps its word.
unfoldable pub print_signed : Option Arg → (width : ℕ) → Bool → (fill : ℕ) → Option (List ℕ)
unfolding emit format_num
print_signed (some (word w)) width left fill =
    if leb (2 ^ 31) w
    then Option.map (λ ds. emit (b'-' ∷ ds) width left fill)
        (format_num ((2 ^ 32 - w) % 2 ^ 32) 10 false)
    else Option.map (λ ds. emit ds width left fill) (format_num w 10 false)
print_signed _ width left fill = none

unfoldable pub print_unsigned :
    Option Arg → (base width : ℕ) → Bool → (fill : ℕ) → Bool → Option (List ℕ)
unfolding emit format_num
print_unsigned (some (word w)) base width left fill uppercase =
    Option.map (λ ds. emit ds width left fill) (format_num w base uppercase)
print_unsigned _ base width left fill uppercase = none

unfoldable pub print_pointer : Option Arg → Option (List ℕ)
unfolding emit format_num
print_pointer (some (word w)) =
    Option.map (λ ds. b'0' ∷ b'x' ∷ emit ds 8 false b'0') (format_num w 16 false)
print_pointer _ = none

abbrev pub next_arg : List Arg → Option Arg
next_arg [] = none
next_arg (a ∷ as') = some a

abbrev pub later_args : List Arg → List Arg
later_args [] = []
later_args (a ∷ as') = as'

-- Whether the directive takes an argument.
abbrev pub takes_arg : ℕ → Bool
takes_arg c =
    c == b'c'
    || c == b's'
    || c == b'd'
    || c == b'i'
    || c == b'u'
    || c == b'x'
    || c == b'X'
    || c == b'p'

-- The switch on the directive's letter, which is not the format's end.
unfoldable pub directive : ℕ → Option Arg → (width : ℕ) → Bool → (fill : ℕ) → Option (List ℕ)
unfolding print_char print_string print_signed print_unsigned print_pointer
directive c arg width left fill =
    if c == b'c'
    then print_char arg width left
    else if c == b's'
    then print_string arg width left
    else if c == b'd' || c == b'i'
    then print_signed arg width left fill
    else if c == b'u'
    then print_unsigned arg 10 width left fill false
    else if c == b'x' || c == b'X'
    then print_unsigned arg 16 width left fill (c == b'X')
    else if c == b'p'
    then print_pointer arg
    else if c == b'%'
    then some (b'%' ∷ [])
    else some (b'%' ∷ c ∷ [])

abbrev pub append_opt : Option (List ℕ) → Option (List ℕ) → Option (List ℕ)
append_opt none later = none
append_opt (some out) none = none
append_opt (some out) (some later) = some (out ++ later)

-- A directive, from behind its `%` on; `go` prints what follows it. A width that overflows `int`, which
-- C leaves undefined, is `none`.
unfoldable pub print_directive :
    List ℕ → List Arg → (List ℕ → List Arg → Option (List ℕ)) → Option (List ℕ)
unfolding directive flags field_width
print_directive fmt args go =
    let (left, fill, fmt1) = flags fmt false space in
    let (width, fmt2) = field_width fmt1 0 in
    if leb (2 ^ 31) width then none else elim fmt2 [
      | [] ↦ some []
      | c ∷ cs ↦
          append_opt (directive c (next_arg args) width left fill)
            (go cs (if takes_arg c then later_args args else args))
    ]

unfoldable pub kvprintf : ℕ → List ℕ → List Arg → Option (List ℕ)
unfolding print_directive
kvprintf zero fmt args = none
kvprintf (suc fuel) [] args = some []
kvprintf (suc fuel) (c ∷ cs) args =
    let go = kvprintf fuel in
    if c == b'%' then print_directive cs args go else append_opt (some (c ∷ [])) (go cs args)
