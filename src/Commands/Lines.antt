-- ===== src/Commands/Lines.antt =====
-- grep of shell/commands.c against the lines of the text.
use raptor_kernel.Prelude.{
  ℕ, ◌+◌, ◌-◌, ◌≡◌, refl, Bool, false, ◌&&◌, Option, some, List, [], ◌∷◌, ◌++◌, take, ◌==◌, ◌!=◌,
  if◌then◌else◌, length,
}
use raptor_kernel.Prelude.Text.{bytes}
use raptor_kernel.Mm.Allocator.{Allocator}
use raptor_kernel.Kprintf.{kvprintf, print_directive, directive, print_string, flags, field_width}
use raptor_kernel.Console
use raptor_kernel.Shell.{line_max}
use raptor_kernel.Commands.World.{World, Action}
use raptor_kernel.Commands.Tree.{text_arg}
use raptor_kernel.Commands.Text.{c_text, contains}
use raptor_kernel.Kprintf.Formats.{emit_plain}

-- The bytes before the first newline, and the lines behind it.
unfoldable pub first_line : List ℕ → List ℕ × List (List ℕ)
first_line [] = ([], [])
first_line (c ∷ cs) = let (l, ls) = first_line cs in if c == 10 then ([], l ∷ ls) else (c ∷ l, ls)

abbrev pub lines_of : List ℕ → List (List ℕ)
lines_of cs = (first_line cs).0 ∷ (first_line cs).1

-- What grep sees of a line: its first 255 bytes.
abbrev pub clip : List ℕ → List ℕ
clip l = take (line_max - 1) l

abbrev pub hit : (pattern' line : List ℕ) → Bool
hit pat line = (length line != 0) && contains (c_text line) pat

-- The lines that grep prints.
unfoldable pub matching : (pattern' : List ℕ) → List (List ℕ) → List (List ℕ)
matching pat [] = []
matching pat (l ∷ ls) =
    if hit pat (clip l) then c_text (clip l) ∷ matching pat ls else matching pat ls

unfoldable pub unlines : List (List ℕ) → List ℕ
unlines [] = []
unlines (l ∷ ls) = (l ++ (10 ∷ [])) ++ unlines ls

pub console_write-append :
    (con : Console.Console) (xs ys : List ℕ)
    → Console.console_write (Console.console_write con xs) ys ≡ Console.console_write con (xs ++ ys)
unfolding Console.console_write
console_write-append con [] ys = refl
console_write-append con (x ∷ xs) ys = console_write-append (Console.console_putc con x) xs ys

pub line_format :
    (s : List ℕ) → kvprintf 4 (bytes "%s\n") (text_arg s ∷ []) ≡ some ((s ++ []) ++ (10 ∷ []))
unfolding kvprintf print_directive directive print_string flags field_width
line_format s = rw (emit_plain s false 32 refl) refl

module _ {A : Allocator} where
  -- The number `n`, and the output `out` on the console.
  abbrev pub printed : World A → (n : ℕ) → List ℕ → Option (ℕ × World A)
  printed w n out = some (n, record w { console = Console.console_write w.console out })

  -- A run of grep's loop that finds the lines `ms` after `m` others.
  abbrev Finds : Action A ℕ → (m : ℕ) → List (List ℕ) → Type 0
  Finds run m ms = (w : World A) → run w ≡ printed w (m + length ms) (unlines ms)
