-- ===== src/Shell.antt =====
-- shell/shell.c: the history ring, the splitting of a line into words, and the redirection that the
-- words name. A C string is its text; a line is what read_line leaves, shorter than its buffer.
pub mod Lines
pub mod Words
pub mod Redirect
pub mod Input
pub mod Echo
mod Tests
use mathlib.Core.Option
use raptor_kernel.Prelude.{
  ℕ, zero, suc, ◌+◌, ◌-◌, ◌%◌, ◌++◌, Bool, true, false, not, ◌&&◌, ◌||◌, Option, none, some, List,
  [], ◌∷◌, ltb, leb, ◌==◌, if◌then◌else◌, take, get_or, length,
}
use raptor_kernel.Prelude.Int.{ℤ, pos, negsuc}

abbrev pub history_max : ℕ
history_max = 16

abbrev pub line_max : ℕ
line_max = 256

abbrev pub argv_max : ℕ
argv_max = 16

pub record History : Type 0 where
  pub history_ring : ℕ → List ℕ
  pub history_total : ℕ

unfoldable pub shell_history_count : History → ℕ
shell_history_count h = if ltb (h.history_total) history_max then h.history_total else history_max

-- The entry of an index, `none` for NULL.
unfoldable pub shell_history : History → ℤ → Option (List ℕ)
unfolding shell_history_count
shell_history h (negsuc i) = none
shell_history h (pos i) =
    let stored = shell_history_count h in
    if leb stored i
    then none
    else some (h.history_ring ((h.history_total - stored + i) % history_max))

unfoldable pub set_line : (ℕ → List ℕ) → ℕ → List ℕ → ℕ → List ℕ
set_line ring i line j = if i == j then line else ring j

-- strlcpy keeps what fits the entry.
unfoldable pub history_add : History → List ℕ → History
unfolding set_line
history_add h line = record {
  history_ring =
      set_line (h.history_ring) (h.history_total % history_max) (take (line_max - 1) line);
  history_total = h.history_total + 1;
}

-- `while (*p == ' ') p++;`
unfoldable pub skip_spaces : List ℕ → List ℕ
skip_spaces [] = []
skip_spaces (c ∷ cs) = let rest = skip_spaces cs in if c == b' ' then rest else c ∷ cs

-- `while (*p && *p != stop) p++;`: the bytes passed, and where `p` is then.
unfoldable pub scan_word : (stop : ℕ) → List ℕ → List ℕ × List ℕ
scan_word stop [] = ([], [])
scan_word stop (c ∷ cs) =
    let (word, rest) = scan_word stop cs in if c == stop then ([], c ∷ cs) else (c ∷ word, rest)

-- `if (*p) *p++ = '\0';`, with which the word ends.
unfoldable pub past_end : List ℕ → List ℕ
past_end [] = []
past_end (c ∷ cs) = cs

-- The word at the start of a text that does not start with a space, and what follows its end.
unfoldable pub next_word : List ℕ → List ℕ × List ℕ
unfolding scan_word past_end
next_word [] = ([], [])
next_word (c ∷ cs) =
    let quoted = scan_word b'"' cs in
    let plain = scan_word b' ' (c ∷ cs) in
    if c == b'"' then (quoted.0, past_end (quoted.1)) else (plain.0, past_end (plain.1))

-- One round, from the first byte that is no space on; `go` splits what follows the word.
unfoldable pub next_token :
    List ℕ → (room : ℕ) → (List ℕ → ℕ → Option (List (List ℕ))) → Option (List (List ℕ))
unfolding next_word
next_token [] room go = some []
next_token (c ∷ cs) zero go = some []
next_token (c ∷ cs) (suc room) go =
    let (word, rest) = next_word (c ∷ cs) in Option.map (λ words. word ∷ words) (go rest room)

-- The words of a line, `room` of them at most. A loop out of fuel is `none`.
unfoldable pub tokenize : ℕ → List ℕ → (room : ℕ) → Option (List (List ℕ))
unfolding skip_spaces next_token
tokenize zero line room = none
tokenize (suc fuel) line room = next_token (skip_spaces line) room (tokenize fuel)

abbrev pub same_text : List ℕ → List ℕ → Bool
same_text [] [] = true
same_text [] (y ∷ ys) = false
same_text (x ∷ xs) [] = false
same_text (x ∷ xs) (y ∷ ys) = (x == y) && same_text xs ys

-- What execute finds in the words before it runs a command.
pub data Request : Type 0 where
  missing_target : Request
  plain : List (List ℕ) → Request
  redirected : (argv : List (List ℕ)) → (path : List ℕ) → (append : Bool) → Request

abbrev pub with_word : List ℕ → Request → Request
with_word w missing_target = missing_target
with_word w (plain argv) = plain (w ∷ argv)
with_word w (redirected argv path append) = redirected (w ∷ argv) path append

-- The loop of execute that looks for the first `>` or `>>`.
unfoldable pub find_redirect : List (List ℕ) → Request
find_redirect [] = plain []
find_redirect (w ∷ ws) =
    let rest = find_redirect ws in
    if same_text w (b'>' ∷ []) || same_text w (b'>' ∷ b'>' ∷ [])
    then elim ws [ [] ↦ missing_target | path ∷ more ↦ redirected [] path (get_or w 1 0 == b'>') ]
    else with_word w rest

-- The search of the command table for a name.
unfoldable pub find_command : {A : Type 0} → List (List ℕ × A) → List ℕ → Option A
find_command [] name = none
find_command (c ∷ cs) name =
    let rest = find_command cs name in if same_text (c.0) name then some (c.1) else rest

abbrev pub key_up : ℕ
key_up = 0x80

abbrev pub key_down : ℕ
key_down = 0x81

-- What replace_line leaves in the buffer; what it shows is in Shell/Echo.
unfoldable pub replace_line : (cap : ℕ) → Option (List ℕ) → Option (List ℕ)
replace_line cap none = none
replace_line cap (some text) = some (take (cap - 1) text)

-- `len--`
unfoldable pub drop_last : List ℕ → List ℕ
drop_last [] = []
drop_last (c ∷ []) = []
drop_last (c ∷ d ∷ cs) = c ∷ drop_last (d ∷ cs)

-- The loop of read_line on the characters that console_getchar returns, with the text `buf` so far;
-- `none` says that they end before a newline, or that NULL was shown.
unfoldable pub read_loop :
    History → (cap : ℕ) → List ℕ → (buf : List ℕ) → (browse : ℕ) → Option (List ℕ)
unfolding replace_line drop_last
read_loop h cap [] buf browse = none
read_loop h cap (k ∷ ks) buf browse =
    let again = read_loop h cap ks in
    let count = shell_history_count h in
    let c = if k == 9 then b' ' else k in
    if k == 10
    then some buf
    else if k == 8
    then again (drop_last buf) browse
    else if k == key_up
    then (if browse == 0
        then again buf browse
        else elim (replace_line cap (shell_history h (pos (browse - 1)))) [
          | none ↦ none
          | some text ↦ again text (browse - 1)
        ])
    else if k == key_down
    then (if ltb browse count
        then elim (replace_line cap
            (if browse + 1 == count then some [] else shell_history h (pos (browse + 1)))) [
              | none ↦ none
              | some text ↦ again text (browse + 1)
            ]
        else again buf browse)
    else if ltb c 0x20 || ltb 0x7e c
    then again buf browse
    else if ltb (length buf + 1) cap
    then again (buf ++ (c ∷ [])) browse
    else again buf browse

unfoldable pub read_line : History → (cap : ℕ) → List ℕ → Option (List ℕ)
unfolding read_loop shell_history_count
read_line h cap keys = read_loop h cap keys [] (shell_history_count h)
