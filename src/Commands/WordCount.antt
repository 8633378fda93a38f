-- ===== src/Commands/WordCount.antt =====
-- The counters of wc in shell/commands.c against the lines and words of the text.
use raptor_kernel.Prelude.{
  ℕ, suc, ◌+◌, ◌≡◌, refl, ◌∙◌, inl, inr, Bool, true, false, ◌||◌, List, [], ◌∷◌, ◌==◌,
  if◌then◌else◌, length, arith, Bool-cases,
}
use raptor_kernel.Commands.Text.{Counts, count_byte, count_bytes}

abbrev pub is_blank : ℕ → Bool
is_blank c = (c == b' ') || (c == 9) || (c == 10)

-- A word that has begun, before the words that follow.
abbrev pub add_word : List ℕ → List (List ℕ) → List (List ℕ)
add_word [] ws = ws
add_word (x ∷ xs) ws = (x ∷ xs) ∷ ws

-- The bytes before the first blank, and the words behind it.
unfoldable pub first_word : List ℕ → List ℕ × List (List ℕ)
first_word [] = ([], [])
first_word (c ∷ cs) =
    let (w, ws) = first_word cs in if is_blank c then ([], add_word w ws) else (c ∷ w, ws)

-- The words of a text: its longest stretches without a blank.
unfoldable pub words_of : List ℕ → List (List ℕ)
unfolding first_word
words_of cs = add_word (first_word cs).0 (first_word cs).1

unfoldable pub newlines : List ℕ → ℕ
newlines [] = 0
newlines (c ∷ cs) = if c == 10 then suc (newlines cs) else newlines cs

count_bytes-lines : (n : Counts) (cs : List ℕ) → (count_bytes n cs).lines ≡ n.lines + newlines cs
unfolding count_bytes count_byte newlines
count_bytes-lines n [] = omega arith
count_bytes-lines n (c ∷ cs) =
    let h = count_bytes-lines (count_byte n c) cs in
    elim (Bool-cases (c == 10)) [ inl e ↦ h ∙ rw e (omega arith) | inr e ↦ h ∙ rw e refl ]

-- The words that are still to be counted.
abbrev pending : Bool → List ℕ → ℕ
pending true cs = length (first_word cs).1
pending false cs = length (words_of cs)

pending-byte :
    (l w c : ℕ) (inside blank : Bool) (cs : List ℕ)
    → is_blank c ≡ blank
    → let n = count_byte (record { lines = l; words = w; in_word = inside }) c in
      n.words + pending n.in_word cs ≡ w + pending inside (c ∷ cs)
unfolding count_byte first_word words_of
pending-byte l w c true true cs e = rw e refl
pending-byte l w c false true cs e = rw e refl
pending-byte l w c true false cs e = rw e refl
pending-byte l w c false false cs e = rw e (omega arith)

count_bytes-words :
    (n : Counts) (cs : List ℕ) → (count_bytes n cs).words ≡ n.words + pending n.in_word cs
unfolding count_bytes first_word words_of
count_bytes-words n [] = elim (Bool-cases n.in_word) [
  | inl e ↦ rw e (omega arith)
  | inr e ↦ rw e (omega arith)
]
count_bytes-words n (c ∷ cs) =
    count_bytes-words (count_byte n c) cs
    ∙ pending-byte n.lines n.words c n.in_word (is_blank c) cs refl

-- wc counts the newlines of a file and its words, the longest stretches without a space, a tab or a
-- newline.
pub count_bytes_lem :
    (cs : List ℕ)
    → let n = count_bytes (record { lines = 0; words = 0; in_word = false }) cs in
      (n.lines ≡ newlines cs) × (n.words ≡ length (words_of cs))
count_bytes_lem cs = (
  count_bytes-lines (record { lines = 0; words = 0; in_word = false }) cs ∙ omega arith,
  count_bytes-words (record { lines = 0; words = 0; in_word = false }) cs ∙ omega arith,
)
