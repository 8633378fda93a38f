-- ===== src/Kprintf/Tests.antt =====
-- lib/kprintf.c on formats and numbers.
use raptor_kernel.Prelude.{ℕ, ◌-◌, ◌^◌, ◌≡◌, refl, true, false, none, some, List, [], ◌∷◌, arith}
use raptor_kernel.Kprintf.{
  word, string, pad, emit, digit, format_loop, format_num, print_directive, kvprintf, flags,
  field_width, directive, print_signed, print_string, print_pointer,
}
use raptor_kernel.Kprintf.Digits.{number, digit_value, atoi_simple, atoi-format_num}
use raptor_kernel.Kprintf.Pieces.{
  Piece, plain, field, char, signed, hex, pointer, format_of, args_of, ArePieces, Prints,
}
use raptor_kernel.Kprintf.Printed.{kvprintf-Prints}

-- 48879 is beef in hexadecimal.
beef : format_num 48879 16 false ≡ some (b'b' ∷ b'e' ∷ b'e' ∷ b'f' ∷ [])
unfolding format_num format_loop digit
beef = refl

atoi-format_num_example :
    (ds : List ℕ) × (format_num 2026 10 false ≡ some ds) × (atoi_simple ds 0 ≡ 2026)
atoi-format_num_example = atoi-format_num 2026 false (omega arith)

-- "%-4d|%3s%%"
abbrev columns : List ℕ
columns = b'%' ∷ b'-' ∷ b'4' ∷ b'd' ∷ b'|' ∷ b'%' ∷ b'3' ∷ b's' ∷ b'%' ∷ b'%' ∷ []

-- -7 and NULL.
columns_printed :
    kvprintf 11 columns (word (2 ^ 32 - 7) ∷ string none ∷ [])
    ≡ some (b'-' ∷ b'7' ∷ b' ' ∷ b' ' ∷ b'|' ∷ b'(' ∷ b'n' ∷ b'u' ∷ b'l' ∷ b'l' ∷ b')' ∷ b'%' ∷ [])
unfolding kvprintf print_directive directive print_signed print_string flags field_width emit pad
    format_num format_loop digit
columns_printed = refl

pointer_printed :
    kvprintf 3 (b'%' ∷ b'p' ∷ []) (word 0x1000 ∷ [])
    ≡ some (b'0' ∷ b'x' ∷ b'0' ∷ b'0' ∷ b'0' ∷ b'0' ∷ b'1' ∷ b'0' ∷ b'0' ∷ b'0' ∷ [])
unfolding kvprintf print_directive directive print_pointer flags field_width emit pad format_num
    format_loop digit
pointer_printed = refl

percent : kvprintf 3 (b'%' ∷ b'%' ∷ []) [] ≡ some (b'%' ∷ [])
unfolding kvprintf print_directive directive flags field_width
percent = refl

-- "%08x:%-6d|%p %5c"
abbrev columns_pieces : List Piece
columns_pieces =
    field false true (b'8' ∷ []) (hex false 48879)
    ∷ plain (b':' ∷ [])
    ∷ field true false (b'6' ∷ []) (signed false (2 ^ 32 - 7))
    ∷ plain (b'|' ∷ [])
    ∷ field false false [] (pointer 4096)
    ∷ plain (b' ' ∷ [])
    ∷ field false false (b'5' ∷ []) (char 65)
    ∷ []

kvprintf-Prints_example :
    (out : List ℕ) × (kvprintf 32 (format_of columns_pieces) (args_of columns_pieces) ≡ some out)
    × Prints columns_pieces out
kvprintf-Prints_example = kvprintf-Prints 32 columns_pieces are (omega arith)
  where
    are : ArePieces columns_pieces
    are =
        unfold number digit_value in
        (
          ((refl, tt), refl, omega arith),
          omega arith,
          (
            (refl, tt),
            (
              ((refl, tt), refl, omega arith),
              omega arith,
              (
                (refl, tt),
                (
                  (tt, tt, omega arith),
                  omega arith,
                  ((refl, tt), (((refl, tt), refl, omega arith), omega arith, tt)),
                ),
              ),
            ),
          ),
        )
