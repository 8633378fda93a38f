-- ===== src/Strings/Text.antt =====
-- The text that a C string holds, and strlen.
use raptor_kernel.Prelude.{
  ℕ, zero, suc, ◌+◌, ◌<◌, ◌≤◌, ◌≡◌, ◌≢◌, ap, ◌∙◌, some, List, [], ◌∷◌, arith, length,
}
use raptor_kernel.Strings.{Bytes, strlen_loop, strlen}

-- The bytes at `p` are the text, none of them 0, and then a 0.
abbrev pub Str : Bytes → ℕ → List ℕ → Type 0
Str m p [] = m p ≡ 0
Str m p (x ∷ xs) = (m p ≡ x) × (x ≢ 0) × Str m (p + 1) xs

-- A string survives a change outside its bytes.
pub Str-frame :
    (m m' : Bytes) (p : ℕ) (xs : List ℕ)
    → Str m p xs
    → ((q : ℕ) → p ≤ q → q ≤ p + length xs → m' q ≡ m q)
    → Str m' p xs
Str-frame m m' p [] s same = same p (omega arith) (omega arith) ∙ s
Str-frame m m' p (x ∷ xs) s same = (
  same p (omega arith) (omega arith) ∙ s.0,
  s.1,
  Str-frame m m' (p + 1) xs s.2 (λ q h k. same q (omega arith) (omega arith)),
)

strlen_loop_lem :
    (fuel : ℕ) (m : Bytes) (p k : ℕ) (xs : List ℕ)
    → Str m p xs
    → length xs < fuel
    → strlen_loop fuel m p k ≡ some (k + length xs)
unfolding strlen_loop
strlen_loop_lem zero m p k xs s h = absurd (omega arith)
strlen_loop_lem (suc fuel) m p k [] s h = ground arith
strlen_loop_lem (suc fuel) m p k (x ∷ xs) s h =
    ground (arith, s.0, s.1, strlen_loop_lem fuel m (p + 1) (k + 1) xs s.2)

-- strlen of a string is the length of its text, within more rounds than that.
pub strlen_lem :
    (fuel : ℕ) (m : Bytes) (p : ℕ) (xs : List ℕ)
    → Str m p xs
    → length xs < fuel
    → strlen fuel m p ≡ some (length xs)
unfolding strlen
strlen_lem fuel m p xs s h = strlen_loop_lem fuel m p 0 xs s h ∙ ap some (omega arith)
