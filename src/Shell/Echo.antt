-- ===== src/Shell/Echo.antt =====
-- What read_line of shell/shell.c shows while a line is typed, on a line of a terminal.
use raptor_kernel.Prelude.{
  ℕ, zero, suc, ◌+◌, ◌-◌, ◌||◌, none, some, List, [], ◌∷◌, ◌++◌, ltb, ◌==◌, if◌then◌else◌, length,
}
use raptor_kernel.Prelude.Int.{pos}
use raptor_kernel.Shell.{
  History, shell_history, shell_history_count, replace_line, drop_last, key_up, key_down,
}

-- "\b \b"
abbrev pub rub_out : List ℕ
rub_out = 8 ∷ b' ' ∷ 8 ∷ []

-- `while (len--) console_write("\b \b");`
unfoldable pub rub_line : (len : ℕ) → List ℕ
rub_line zero = []
rub_line (suc len) = rub_out ++ rub_line len

-- What the loop of read_line shows, with the text `buf` so far, before the newline that ends the line.
unfoldable pub echo_loop : History → (cap : ℕ) → List ℕ → (buf : List ℕ) → (browse : ℕ) → List ℕ
unfolding replace_line drop_last rub_line
echo_loop h cap [] buf browse = []
echo_loop h cap (k ∷ ks) buf browse =
    let again = echo_loop h cap ks in
    let count = shell_history_count h in
    let c = if k == 9 then b' ' else k in
    if k == 10
    then []
    else if k == 8
    then (if length buf == 0 then [] else rub_out) ++ again (drop_last buf) browse
    else if k == key_up
    then (if browse == 0
        then again buf browse
        else elim (replace_line cap (shell_history h (pos (browse - 1)))) [
          | none ↦ []
          | some text ↦ rub_line (length buf) ++ (text ++ again text (browse - 1))
        ])
    else if k == key_down
    then (if ltb browse count
        then elim (replace_line cap
            (if browse + 1 == count then some [] else shell_history h (pos (browse + 1)))) [
              | none ↦ []
              | some text ↦ rub_line (length buf) ++ (text ++ again text (browse + 1))
            ]
        else again buf browse)
    else if ltb c 0x20 || ltb 0x7e c
    then again buf browse
    else if ltb (length buf + 1) cap
    then c ∷ again (buf ++ (c ∷ [])) browse
    else again buf browse

unfoldable pub read_echo : History → (cap : ℕ) → List ℕ → List ℕ
unfolding echo_loop shell_history_count
read_echo h cap keys = echo_loop h cap keys [] (shell_history_count h) ++ (10 ∷ [])
