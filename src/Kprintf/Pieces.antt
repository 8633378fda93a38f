-- ===== src/Kprintf/Pieces.antt =====
-- Formats of lib/kprintf.c in pieces, and what each piece is to print.
use raptor_kernel.Prelude.{
  ℕ, ◌-◌, ◌%◌, ◌^◌, ◌<◌, ◌≤◌, ◌≡◌, ◌⊎◌, Bool, true, false, Option, none, some, List, [], ◌∷◌, ◌++◌,
  ◌==◌, if◌then◌else◌, length, replicate,
}
use raptor_kernel.Prelude.Text.{bytes}
use raptor_kernel.Kprintf.Numeral.{Numeral}
use raptor_kernel.Kprintf.Digits.{number, is_decimal}
use raptor_kernel.Kprintf.Formats.{Plain}
use raptor_kernel.Kprintf.{space, Arg, word, string}

-- An argument with the directive's letter that prints it.
pub data Value : Type 0 where
  char : (w : ℕ) → Value
  text : (s : Option (List ℕ)) → Value
  signed : (as_i : Bool) (w : ℕ) → Value
  unsigned : (w : ℕ) → Value
  hex : (up : Bool) (w : ℕ) → Value
  pointer : (w : ℕ) → Value

-- The parts of a format: plain text, `%%`, or a directive with its flags, its width's digits and its
-- argument.
pub data Piece : Type 0 where
  plain : (xs : List ℕ) → Piece
  percent : Piece
  field : (left zeros : Bool) (width : List ℕ) (v : Value) → Piece

abbrev pub letter : Value → ℕ
letter (char w) = b'c'
letter (text s) = b's'
letter (signed as_i w) = if as_i then b'i' else b'd'
letter (unsigned w) = b'u'
letter (hex up w) = if up then b'X' else b'x'
letter (pointer w) = b'p'

abbrev pub arg : Value → Arg
arg (char w) = word w
arg (text s) = string s
arg (signed as_i w) = word w
arg (unsigned w) = word w
arg (hex up w) = word w
arg (pointer w) = word w

abbrev pub flag_text : (left zeros : Bool) → List ℕ
flag_text true true = b'-' ∷ b'0' ∷ []
flag_text true false = b'-' ∷ []
flag_text false true = b'0' ∷ []
flag_text false false = []

abbrev pub format_of : List Piece → List ℕ
format_of [] = []
format_of (plain xs ∷ ps) = xs ++ format_of ps
format_of (percent ∷ ps) = b'%' ∷ b'%' ∷ format_of ps
format_of (field left zeros width v ∷ ps) =
    b'%' ∷ (flag_text left zeros ++ (width ++ (letter v ∷ format_of ps)))

abbrev pub args_of : List Piece → List Arg
args_of [] = []
args_of (plain xs ∷ ps) = args_of ps
args_of (percent ∷ ps) = args_of ps
args_of (field left zeros width v ∷ ps) = arg v ∷ args_of ps

-- What an argument is printed as before it is padded.
abbrev pub Shown : Value → (t : List ℕ) → Type 0
Shown (char w) t = t ≡ w % 256 ∷ []
Shown (text none) t = t ≡ bytes "(null)"
Shown (text (some s)) t = t ≡ s
Shown (signed as_i w) t =
    ((w < 2 ^ 31) × Numeral 10 false w t)
    ⊎ ((2 ^ 31 ≤ w) × (ds : List ℕ) × (t ≡ b'-' ∷ ds) × Numeral 10 false (2 ^ 32 - w) ds)
Shown (unsigned w) t = Numeral 10 false w t
Shown (hex up w) t = Numeral 16 up w t
Shown (pointer w) t = Numeral 16 false w t

abbrev pub padded : (left : Bool) → (fill width : ℕ) → List ℕ → List ℕ
padded left fill width t =
    if left then t ++ replicate (width - length t) space else replicate (width - length t) fill ++ t

-- How a directive prints the text of its argument: a character and a string are never padded with
-- noughts, and a pointer has eight digits behind 0x.
abbrev pub laid_out : (left zeros : Bool) → (width : ℕ) → Value → List ℕ → List ℕ
laid_out left zeros width (char w) t = padded left space width t
laid_out left zeros width (text s) t = padded left space width t
laid_out left zeros width (signed as_i w) t = padded left (if zeros then b'0' else space) width t
laid_out left zeros width (unsigned w) t = padded left (if zeros then b'0' else space) width t
laid_out left zeros width (hex up w) t = padded left (if zeros then b'0' else space) width t
laid_out left zeros width (pointer w) t = b'0' ∷ b'x' ∷ padded false b'0' 8 t

-- `out` is what the pieces print.
abbrev pub Prints : List Piece → (out : List ℕ) → Type 0
Prints [] out = out ≡ []
Prints (plain xs ∷ ps) out = (rest : List ℕ) × (out ≡ xs ++ rest) × Prints ps rest
Prints (percent ∷ ps) out = (rest : List ℕ) × (out ≡ b'%' ∷ rest) × Prints ps rest
Prints (field left zeros width v ∷ ps) out =
    (t rest : List ℕ) × Shown v t
    × (out ≡ laid_out left zeros (number 10 width 0) v t ++ rest)
    × Prints ps rest

abbrev pub IsWidth : List ℕ → Type 0
IsWidth [] = Unit {0}
IsWidth (c ∷ cs) = (is_decimal c ≡ true) × IsWidth cs

abbrev pub NoNought : List ℕ → Type 0
NoNought [] = Unit {0}
NoNought (c ∷ cs) = (c == b'0') ≡ false

-- The argument fits 32 bits.
abbrev pub IsValue : Value → Type 0
IsValue (char w) = w < 2 ^ 32
IsValue (text s) = Unit {0}
IsValue (signed as_i w) = w < 2 ^ 32
IsValue (unsigned w) = w < 2 ^ 32
IsValue (hex up w) = w < 2 ^ 32
IsValue (pointer w) = w < 2 ^ 32

-- Plain text has no `%`; a width is decimal, does not start with 0, and is an `int`.
abbrev pub ArePieces : List Piece → Type 0
ArePieces [] = Unit {0}
ArePieces (plain xs ∷ ps) = Plain xs × ArePieces ps
ArePieces (percent ∷ ps) = ArePieces ps
ArePieces (field left zeros width v ∷ ps) =
    (IsWidth width × NoNought width × (number 10 width 0 < 2 ^ 31)) × IsValue v × ArePieces ps
