-- ===== src/Commands/Text.antt =====
-- The commands of shell/commands.c that print texts and files.
use raptor_kernel.Prelude.{
  ℕ, zero, suc, ◌+◌, Bool, true, false, not, ◌&&◌, ◌||◌, Option, none, some, List, [], ◌∷◌, ◌++◌,
  ltb, leb, ◌==◌, ◌!=◌, if◌then◌else◌, length, take, drop,
}
use raptor_kernel.Prelude.Int.{pos}
use raptor_kernel.Mm.Allocator.{Allocator}
use raptor_kernel.Kprintf.{word, string}
use raptor_kernel.Kprintf.Digits.{atoi_simple}
use raptor_kernel.Shell.{same_text, line_max, shell_history, shell_history_count}
use raptor_kernel.Commands.World.{
  Action, pure, ◌>>=◌, ◌>>◌, gets, write_text, console_putc, console_write, kprintf, payload,
}
use raptor_kernel.Commands.Tree.{text_arg, arg, want_file}

-- The text of a C string in a buffer: what stands before its first zero.
unfoldable pub c_text : List ℕ → List ℕ
c_text [] = []
c_text (c ∷ cs) = let rest = c_text cs in if c == 0 then [] else c ∷ rest

unfoldable pub starts_with : List ℕ → List ℕ → Bool
starts_with [] xs = true
starts_with (y ∷ ys) [] = false
starts_with (y ∷ ys) (x ∷ xs) = (x == y) && starts_with ys xs

-- Whether strstr finds the needle, by texts.
unfoldable pub contains : (hay needle : List ℕ) → Bool
unfolding starts_with
contains [] needle = starts_with needle []
contains (x ∷ xs) needle = starts_with needle (x ∷ xs) || contains xs needle

-- The counters of wc.
pub record Counts : Type 0 where
  pub lines : ℕ
  pub words : ℕ
  pub in_word : Bool

unfoldable pub count_byte : Counts → ℕ → Counts
count_byte n c = record {
  lines = if c == 10 then n.lines + 1 else n.lines;
  words =
      if (c == b' ') || (c == 9) || (c == 10)
      then n.words
      else if n.in_word
      then n.words
      else n.words + 1;
  in_word = not ((c == b' ') || (c == 9) || (c == 10));
}

unfoldable pub count_bytes : Counts → List ℕ → Counts
unfolding count_byte
count_bytes n [] = n
count_bytes n (c ∷ cs) = count_bytes (count_byte n c) cs

-- The loop of head: what it prints.
unfoldable pub head_loop : (limit lines : ℕ) → List ℕ → List ℕ
head_loop limit lines [] = []
head_loop limit lines (c ∷ cs) =
    let rest = head_loop limit (if c == 10 then lines + 1 else lines) cs in
    if ltb lines limit then c ∷ rest else []

-- The options of head: the limit, and the last of the other words.
unfoldable pub head_options : List (List ℕ) → (limit : ℕ) → Option (List ℕ) → ℕ × Option (List ℕ)
head_options [] limit path = (limit, path)
head_options (a ∷ []) limit path = (limit, some a)
head_options (a ∷ b ∷ as') limit path =
    let counted = head_options as' (atoi_simple b 0) path in
    let other = head_options (b ∷ as') limit (some a) in
    if same_text a (b'-' ∷ b'n' ∷ []) then counted else other

unfoldable pub printable : List ℕ → List ℕ
printable [] = []
printable (c ∷ cs) = (if leb 0x20 c && ltb c 0x7f then c else b'.') ∷ printable cs

module _ {A : Allocator} where
  -- The loop of echo, where a space goes before all words but the first.
  unfoldable pub echo_words : List (List ℕ) → (first : Bool) → Action A (Unit {0})
  echo_words [] first = pure tt
  echo_words (a ∷ as') first = do
    if first then pure tt else console_putc b' '
    write_text a
    echo_words as' false

  unfoldable pub cmd_echo : List (List ℕ) → Action A ℕ
  unfolding echo_words
  cmd_echo argv = do echo_words (drop 1 argv) true; console_putc 10; pure 0

  unfoldable pub cmd_whoami : List (List ℕ) → Action A ℕ
  cmd_whoami argv = do console_write "root\n"; pure 0

  -- The loop of history from the index `i` on, for `n` entries.
  unfoldable pub print_history : (i n : ℕ) → Action A (Unit {0})
  print_history i zero = pure tt
  print_history i (suc n) = do
    line ← gets (λ w. shell_history w.history (pos i))
    kprintf "%4d  %s\n" (word (i + 1) ∷ string line ∷ [])
    print_history (i + 1) n

  unfoldable pub cmd_history : List (List ℕ) → Action A ℕ
  unfolding print_history
  cmd_history argv = do
    count ← gets (λ w. shell_history_count w.history)
    print_history 0 count
    pure 0

  -- The loop of grep on the bytes left, with the line so far; the number of matches.
  unfoldable pub grep_loop :
      (pattern' : List ℕ) → List ℕ → (line : List ℕ) → (matches : ℕ) → Action A ℕ
  unfolding contains c_text
  grep_loop pat [] line matches = pure matches
  grep_loop pat (c ∷ cs) line matches =
      if c == 10
      then (if (length line != 0) && contains (c_text line) pat
          then (do kprintf "%s\n" (text_arg (c_text line) ∷ []); grep_loop pat cs [] (matches + 1))
          else grep_loop pat cs [] matches)
      else grep_loop pat cs (if ltb (length line + 1) line_max then line ++ (c ∷ []) else line)
          matches

  module _ (fuel : ℕ) where
    unfoldable pub cmd_grep : List (List ℕ) → Action A ℕ
    unfolding grep_loop
    cmd_grep argv =
        if length argv != 3
        then (do console_write "usage: grep <pattern> <file>\n"; pure 1)
        else (do
          f ← want_file fuel (arg argv 2)
          text ← gets (λ w. payload w.fs f)
          if f == 0 then pure 1 else (do
            matches ← grep_loop (arg argv 1) (text ++ (10 ∷ [])) [] 0
            pure (if matches == 0 then 1 else 0)))

    unfoldable pub wc_files : List (List ℕ) → Action A ℕ
    unfolding count_bytes
    wc_files [] = pure 0
    wc_files (p ∷ ps) = do
      f ← want_file fuel p
      text ← gets (λ w. payload w.fs f)
      let n = count_bytes (record { lines = 0; words = 0; in_word = false }) text
      if f == 0 then pure 1 else (do
        kprintf "%6u %6u %6u %s\n"
            (word n.lines ∷ word n.words ∷ word (length text) ∷ text_arg p ∷ [])
        wc_files ps)

    unfoldable pub cmd_wc : List (List ℕ) → Action A ℕ
    unfolding wc_files
    cmd_wc argv =
        if ltb (length argv) 2
        then (do console_write "usage: wc <file>...\n"; pure 1)
        else wc_files (drop 1 argv)

    unfoldable pub cmd_head : List (List ℕ) → Action A ℕ
    unfolding head_options head_loop
    cmd_head argv =
        let (limit, path) = head_options (drop 1 argv) 10 none in
        elim path [
          | none ↦ (do console_write "usage: head [-n N] <file>\n"; pure 1)
          | some p ↦ (do
            f ← want_file fuel p
            text ← gets (λ w. payload w.fs f)
            if f == 0 then pure 1 else (do write_text (head_loop limit 0 text); pure 0))
        ]

    -- One line of hexdump: its bytes from the index `i` on, with blanks for those after the end.
    unfoldable pub hex_bytes : (i n : ℕ) → List ℕ → Action A (Unit {0})
    hex_bytes i zero cs = pure tt
    hex_bytes i (suc n) [] = do
      console_write "   "
      if i == 7 then console_putc b' ' else pure tt
      hex_bytes (i + 1) n []
    hex_bytes i (suc n) (c ∷ cs) = do
      kprintf "%02x " (word c ∷ [])
      if i == 7 then console_putc b' ' else pure tt
      hex_bytes (i + 1) n cs

    unfoldable pub hex_lines : ℕ → (off : ℕ) → List ℕ → Action A (Unit {0})
    unfolding hex_bytes printable
    hex_lines zero off cs w = none
    hex_lines (suc k) off [] w = some (tt, w)
    hex_lines (suc k) off (c ∷ cs) w =
        (do
          kprintf "%08x  " (word off ∷ [])
          hex_bytes 0 16 (take 16 (c ∷ cs))
          console_write " |"
          write_text (printable (take 16 (c ∷ cs)))
          console_write "|\n"
          hex_lines k (off + 16) (drop 16 (c ∷ cs)))
          w

    unfoldable pub cmd_hexdump : List (List ℕ) → Action A ℕ
    unfolding hex_lines
    cmd_hexdump argv =
        if ltb (length argv) 2 then (do console_write "usage: hexdump <file>\n"; pure 1) else (do
          f ← want_file fuel (arg argv 1)
          text ← gets (λ w. payload w.fs f)
          if f == 0 then pure 1 else (do hex_lines (suc (length text)) 0 text; pure 0))
