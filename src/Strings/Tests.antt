-- ===== src/Strings/Tests.antt =====
-- lib/string.c on a memory that holds two strings.
use raptor_kernel.Prelude.{ℕ, ◌+◌, ◌≡◌, refl, some, List, [], ◌∷◌, get_or, arith}
use raptor_kernel.Prelude.Int.{pos, negsuc}
use raptor_kernel.Strings.{
  Bytes, memmove, strcmp, strncmp, strstr, strstr_loop, strlen, strlen_loop,
}
use raptor_kernel.Strings.Text.{Str}
use raptor_kernel.Strings.Blocks.{Wrote, memmove_lem}
use raptor_kernel.Strings.Search.{First, Occurs, strstr_lem}

-- "etc" from 1 on, "tc" from 5 on, and zeros.
abbrev memory : Bytes
memory = λ p. get_or (0 ∷ b'e' ∷ b't' ∷ b'c' ∷ 0 ∷ b't' ∷ b'c' ∷ []) p 0

abbrev etc : List ℕ
etc = b'e' ∷ b't' ∷ b'c' ∷ []

abbrev tc : List ℕ
tc = b't' ∷ b'c' ∷ []

etc-Str : Str memory 1 etc
etc-Str = (
  refl,
  (λ e. omega (arith, e)),
  (refl, (λ e. omega (arith, e)), (refl, (λ e. omega (arith, e)), refl)),
)

tc-Str : Str memory 5 tc
tc-Str = (refl, (λ e. omega (arith, e)), (refl, (λ e. omega (arith, e)), refl))

-- Onto an overlapping region above.
memmove_lem_example : Wrote memory 2 3 (λ i. memory (1 + i)) (memmove memory 2 1 3)
memmove_lem_example = memmove_lem memory 2 1 3

-- "e" < "t", and a suffix equals the other string.
differ : strcmp 4 memory 1 5 ≡ some (negsuc 14)
unfolding strcmp
differ = refl

suffix : strcmp 4 memory 2 5 ≡ some (pos 0)
unfolding strcmp
suffix = refl

strstr_lem_example : (r : ℕ) × (strstr 4 memory 1 5 ≡ some r) × First 1 3 (Occurs tc etc) r
strstr_lem_example = strstr_lem 4 memory 1 5 etc tc etc-Str tc-Str (omega arith) (omega arith)

found : strstr 4 memory 1 5 ≡ some 2
unfolding strstr strstr_loop strlen strlen_loop strncmp
found = refl
