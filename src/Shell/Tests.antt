-- ===== src/Shell/Tests.antt =====
-- shell/shell.c on lines that a user types.
use raptor_kernel.Prelude.{ℕ, ◌≡◌, ◌≢◌, refl, ap, some, List, [], ◌∷◌, ◌++◌, get_or, arith}
use raptor_kernel.Shell.{
  History, argv_max, shell_history_count, shell_history, set_line, history_add, skip_spaces,
  scan_word, past_end, next_word, next_token, tokenize, replace_line, drop_last, read_loop,
  read_line,
}
use raptor_kernel.Shell.Lines.{Recorded, Recorded-empty, history_add-Recorded}
use raptor_kernel.Shell.Words.{Piece, bare, quoted, typed_line, tokenize_lem}
use raptor_kernel.Shell.Input.{Fits, read_line-Fits}

abbrev fresh : History
fresh = record { history_ring = λ _. []; history_total = 0 }

abbrev ls : List ℕ
ls = b'l' ∷ b's' ∷ []

fresh-Recorded : Recorded fresh []
fresh-Recorded = Recorded-empty fresh refl

one_line : Recorded (history_add fresh ls) (ls ∷ [])
one_line = history_add-Recorded fresh [] ls fresh-Recorded

-- "ls "a b" "
abbrev pieces : List Piece
pieces = bare b'l' (b's' ∷ []) ∷ quoted (b'a' ∷ b' ' ∷ b'b' ∷ []) ∷ []

tokenize_lem_example :
    tokenize 257 (typed_line pieces) argv_max ≡ some (ls ∷ (b'a' ∷ b' ' ∷ b'b' ∷ []) ∷ [])
tokenize_lem_example =
    tokenize_lem 257 pieces argv_max (refl, (refl, (refl, tt)), ((refl, (refl, (refl, tt))), tt))
      (omega arith) (omega arith)

-- A quote inside a word does not group.
inner_quote :
    tokenize 9 (b'a' ∷ b'"' ∷ b'b' ∷ b' ' ∷ b'c' ∷ b'"' ∷ []) 16
    ≡ some ((b'a' ∷ b'"' ∷ b'b' ∷ []) ∷ (b'c' ∷ b'"' ∷ []) ∷ [])
unfolding tokenize skip_spaces next_token next_word scan_word past_end
inner_quote = refl

other : (b'c' ∷ b'd' ∷ []) ≢ ls
other e = let head : 99 ≡ 108 = ap (λ xs. get_or xs 0 0) e in omega (arith, head)

-- "ls", a backspace and a newline, with the rest unread.
typed_ls : read_line fresh 256 (b'l' ∷ b's' ∷ 8 ∷ 9 ∷ 10 ∷ b'x' ∷ []) ≡ some (b'l' ∷ b' ' ∷ [])
unfolding read_line read_loop drop_last shell_history_count
typed_ls = refl

-- The up arrow shows the last line.
browsed : read_line (history_add fresh ls) 256 (b'x' ∷ 0x80 ∷ 10 ∷ []) ≡ some ls
unfolding read_line read_loop shell_history shell_history_count history_add set_line replace_line
browsed = refl

read_line-Fits_example : Fits 2 (read_line fresh 2 (ls ++ (10 ∷ [])))
read_line-Fits_example = read_line-Fits fresh 2 (ls ++ (10 ∷ [])) (omega arith)
