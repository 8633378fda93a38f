-- ===== src/Shell/Words.antt =====
-- tokenize of shell/shell.c: its rounds, the number of its words, and lines put together from words.
use raptor_kernel.Prelude.{
  ℕ, zero, suc, ◌<◌, ◌≤◌, ◌≡◌, refl, ◌∙◌, inl, inr, true, false, Option, some, List, [], ◌∷◌, ◌++◌,
  map, ◌==◌, length, arith, Bool-cases,
}
use raptor_kernel.Shell.{skip_spaces, scan_word, past_end, next_word, next_token, tokenize}

skip_spaces-length : (cs : List ℕ) → length (skip_spaces cs) ≤ length cs
unfolding skip_spaces
skip_spaces-length [] = omega arith
skip_spaces-length (c ∷ cs) = ground (arith, skip_spaces-length cs)

scan_word-length : (stop : ℕ) (cs : List ℕ) → length ((scan_word stop cs).1) ≤ length cs
unfolding scan_word
scan_word-length stop [] = omega arith
scan_word-length stop (c ∷ cs) = ground (arith, scan_word-length stop cs)

past_end-length : (cs : List ℕ) → length (past_end cs) ≤ length cs
unfolding past_end
past_end-length [] = omega arith
past_end-length (c ∷ cs) = omega arith

plain_end : (c : ℕ) (cs : List ℕ) → length (past_end ((scan_word b' ' (c ∷ cs)).1)) ≤ length cs
unfolding scan_word past_end
plain_end c cs = elim (Bool-cases (c == b' ')) [
  | inl space ↦ rw space (omega arith)
  | inr other ↦
      rw other (omega (arith, scan_word-length b' ' cs, past_end-length ((scan_word b' ' cs).1)))
]

-- Each word takes at least a byte.
next_word-length : (c : ℕ) (cs : List ℕ) → length ((next_word (c ∷ cs)).1) < suc (length cs)
unfolding next_word
next_word-length c cs = elim (Bool-cases (c == b'"')) [
  | inl quote ↦
      rw quote (omega (arith, scan_word-length b'"' cs, past_end-length ((scan_word b'"' cs).1)))
  | inr other ↦ rw other (omega (arith, plain_end c cs))
]

-- Words were found, `room` of them at most.
abbrev pub Tokens : Option (List (List ℕ)) → ℕ → Type 0
Tokens result room = (words : List (List ℕ)) × (result ≡ some words) × (length words ≤ room)

next_token-Tokens :
    (line : List ℕ) (room : ℕ) (go : List ℕ → ℕ → Option (List (List ℕ)))
    → ((rest : List ℕ) (room' : ℕ) → length rest < length line → Tokens (go rest room') room')
    → Tokens (next_token line room go) room
unfolding next_token
next_token-Tokens [] room go h = ([], refl, omega arith)
next_token-Tokens (c ∷ cs) zero go h = ([], refl, omega arith)
next_token-Tokens (c ∷ cs) (suc room) go h =
    let (words, e, l) = h ((next_word (c ∷ cs)).1) room (next_word-length c cs) in
    ((next_word (c ∷ cs)).0 ∷ words, rw e refl, omega (arith, l))

-- tokenize ends on every line, within a round more than the line has bytes, and with no more words
-- than argv has room for.
pub tokenize-Tokens :
    (fuel : ℕ) (line : List ℕ) (room : ℕ)
    → length line < fuel
    → Tokens (tokenize fuel line room) room
unfolding tokenize
tokenize-Tokens zero line room h = absurd (omega arith)
tokenize-Tokens (suc fuel) line room h =
    next_token-Tokens (skip_spaces line) room (tokenize fuel)
      λ rest room' l. tokenize-Tokens fuel rest room' (omega (arith, l, h, skip_spaces-length line))

-- A word as a user types it.
pub data Piece : Type 0 where
  bare : (c : ℕ) → List ℕ → Piece
  quoted : List ℕ → Piece

abbrev pub text : Piece → List ℕ
text (bare c w) = c ∷ w
text (quoted w) = w

abbrev pub Without : (stop : ℕ) → List ℕ → Type 0
Without stop [] = Unit {0}
Without stop (c ∷ cs) = ((c == stop) ≡ false) × Without stop cs

-- A bare word has no space and does not start with a quote; a quoted one has no quote in it.
abbrev pub Typeable : List Piece → Type 0
Typeable [] = Unit {0}
Typeable (bare c w ∷ ps) = ((c == b'"') ≡ false) × Without b' ' (c ∷ w) × Typeable ps
Typeable (quoted w ∷ ps) = Without b'"' w × Typeable ps

-- The line of the words, a space behind each.
abbrev pub typed_line : List Piece → List ℕ
typed_line [] = []
typed_line (bare c w ∷ ps) = (c ∷ w) ++ (b' ' ∷ typed_line ps)
typed_line (quoted w ∷ ps) = b'"' ∷ (w ++ (b'"' ∷ b' ' ∷ typed_line ps))

scan_word-stop :
    (stop : ℕ) (w rest : List ℕ)
    → (stop == stop) ≡ true
    → Without stop w
    → scan_word stop (w ++ (stop ∷ rest)) ≡ (w, stop ∷ rest)
unfolding scan_word
scan_word-stop stop [] rest s h = rw s refl
scan_word-stop stop (c ∷ w) rest s h = rw (h.0, scan_word-stop stop w rest s h.1) refl

next_word-bare :
    (c : ℕ) (w rest : List ℕ)
    → (c == b'"') ≡ false
    → Without b' ' (c ∷ w)
    → next_word (c ∷ (w ++ (b' ' ∷ rest))) ≡ (c ∷ w, rest)
unfolding next_word past_end
next_word-bare c w rest q h = rw (q, scan_word-stop b' ' (c ∷ w) rest refl h) refl

next_word-quoted :
    (w rest : List ℕ)
    → Without b'"' w
    → next_word (b'"' ∷ (w ++ (b'"' ∷ b' ' ∷ rest))) ≡ (w, b' ' ∷ rest)
unfolding next_word past_end
next_word-quoted w rest h = rw (scan_word-stop b'"' w (b' ' ∷ rest) refl h) refl

tokenize-space :
    (fuel : ℕ) (line : List ℕ) (room : ℕ)
    → tokenize fuel (b' ' ∷ line) room ≡ tokenize fuel line room
unfolding tokenize skip_spaces
tokenize-space zero line room = refl
tokenize-space (suc fuel) line room = refl

next_token-word :
    (c : ℕ) (cs word rest : List ℕ) (room : ℕ) (go : List ℕ → ℕ → Option (List (List ℕ)))
    (words : List (List ℕ))
    → next_word (c ∷ cs) ≡ (word, rest)
    → go rest room ≡ some words
    → next_token (c ∷ cs) (suc room) go ≡ some (word ∷ words)
unfolding next_token
next_token-word c cs word rest room go words n e = rw n (rw e refl)

next_token-bare :
    (c : ℕ) (w line : List ℕ) (room : ℕ) (go : List ℕ → ℕ → Option (List (List ℕ)))
    (words : List (List ℕ))
    → (c == b'"') ≡ false
    → Without b' ' (c ∷ w)
    → go line room ≡ some words
    → next_token (skip_spaces (c ∷ (w ++ (b' ' ∷ line)))) (suc room) go ≡ some ((c ∷ w) ∷ words)
unfolding next_token skip_spaces
next_token-bare c w line room go words q h e = rw (h.0, next_word-bare c w line q h) (rw e refl)

next_token-quoted :
    (w line : List ℕ) (room : ℕ) (go : List ℕ → ℕ → Option (List (List ℕ))) (words : List (List ℕ))
    → Without b'"' w
    → go (b' ' ∷ line) room ≡ some words
    → next_token (skip_spaces (b'"' ∷ (w ++ (b'"' ∷ b' ' ∷ line)))) (suc room) go ≡ some (w ∷ words)
unfolding skip_spaces
next_token-quoted w line room go words h e =
    next_token-word b'"' (w ++ (b'"' ∷ b' ' ∷ line)) w (b' ' ∷ line) room go words
      (next_word-quoted w line h) e

-- tokenize reads back the words of a line, bare or quoted, when they are typed with a space behind
-- each, and argv and the fuel have room for them.
pub tokenize_lem :
    (fuel : ℕ) (ps : List Piece) (room : ℕ)
    → Typeable ps
    → length ps < fuel
    → length ps ≤ room
    → tokenize fuel (typed_line ps) room ≡ some (map text ps)
unfolding tokenize skip_spaces next_token
tokenize_lem zero ps room t h k = absurd (omega arith)
tokenize_lem (suc fuel) [] room t h k = refl
tokenize_lem (suc fuel) (p ∷ ps) zero t h k = absurd (omega arith)
tokenize_lem (suc fuel) (bare c w ∷ ps) (suc room) t h k =
    next_token-bare c w (typed_line ps) room (tokenize fuel) (map text ps) t.0 t.1
      (tokenize_lem fuel ps room t.2 (omega arith) (omega arith))
tokenize_lem (suc fuel) (quoted w ∷ ps) (suc room) t h k =
    next_token-quoted w (typed_line ps) room (tokenize fuel) (map text ps) t.0 (
      tokenize-space fuel (typed_line ps) room
      ∙ tokenize_lem fuel ps room t.1 (omega arith) (omega arith))
