-- ===== src/Shell/Redirect.antt =====
-- What execute of shell/shell.c makes of the words of a line: the redirection, its target, and the
-- entry of the command table.
use raptor_kernel.Prelude.{
  ℕ, ◌≡◌, ◌≢◌, ◌↔◌, refl, inl, inr, Bool, true, false, ◌||◌, none, some, List, [], ◌∷◌, ◌++◌, ◌==◌,
  arith, Bool-cases,
}
use raptor_kernel.Shell.{same_text, missing_target, plain, redirected, find_redirect, find_command}

pub same_text_iff : (xs ys : List ℕ) → (same_text xs ys ≡ true) ↔ (xs ≡ ys)
same_text_iff [] [] = ((λ e. refl), (λ e. refl))
same_text_iff [] (y ∷ ys) = ((λ e. cc), (λ e. cc))
same_text_iff (x ∷ xs) [] = ((λ e. cc), (λ e. cc))
same_text_iff (x ∷ xs) (y ∷ ys) =
    let (f, g) = same_text_iff xs ys in
    elim (Bool-cases (x == y)) [
      | inl same ↦ rw same ((λ e. ground (arith, f e, same)), (λ e. let t : xs ≡ ys = cc in g t))
      | inr other ↦ rw other ((λ e. cc), (λ e. ground (arith, other, e)))
    ]

-- Whether a word is one of the two redirections.
abbrev pub is_redirect : List ℕ → Bool
is_redirect w = same_text w (b'>' ∷ []) || same_text w (b'>' ∷ b'>' ∷ [])

abbrev pub NoRedirect : List (List ℕ) → Type 0
NoRedirect [] = Unit {0}
NoRedirect (w ∷ ws) = (is_redirect w ≡ false) × NoRedirect ws

-- The first redirection among the words decides: the words before it are the command's, the one
-- after it is the target, `>>` appends and `>` does not, and whatever follows is dropped.
pub find_redirect_lem :
    (pre more : List (List ℕ)) (path : List ℕ)
    → NoRedirect pre
    → (find_redirect (pre ++ ((b'>' ∷ []) ∷ path ∷ more)) ≡ redirected pre path false)
      × (find_redirect (pre ++ ((b'>' ∷ b'>' ∷ []) ∷ path ∷ more)) ≡ redirected pre path true)
unfolding find_redirect
find_redirect_lem [] more path h = (refl, refl)
find_redirect_lem (w ∷ pre) more path h =
    let (over, onto) = find_redirect_lem pre more path h.1 in
    (rw (h.0, over) refl, rw (h.0, onto) refl)

-- Words without a redirection are all the command's, and a redirection as the last word lacks its
-- target.
pub find_redirect-no_target :
    (pre : List (List ℕ)) (w : List ℕ)
    → NoRedirect pre
    → is_redirect w ≡ true
    → (find_redirect pre ≡ plain pre) × (find_redirect (pre ++ (w ∷ [])) ≡ missing_target)
unfolding find_redirect
find_redirect-no_target [] w h r = (refl, rw r refl)
find_redirect-no_target (v ∷ pre) w h r =
    let (whole, missing) = find_redirect-no_target pre w h.1 r in
    (rw (h.0, whole) refl, rw (h.0, missing) refl)

-- No entry of the table has the name.
abbrev pub Unlisted : {A : Type 0} → List ℕ → List (List ℕ × A) → Type 0
Unlisted name [] = Unit {0}
Unlisted name (c ∷ cs) = (c.0 ≢ name) × Unlisted name cs

same_text-no : (xs ys : List ℕ) → xs ≢ ys → same_text xs ys ≡ false
same_text-no xs ys h = elim (Bool-cases (same_text xs ys)) [
  | inl e ↦ absurd (h ((same_text_iff xs ys).0 e))
  | inr e ↦ e
]

-- find_command returns the first entry of the table that has the name, and NULL when none has it.
pub find_command_lem :
    {A : Type 0} (name : List ℕ) (run : A) (pre post : List (List ℕ × A))
    → Unlisted name pre
    → (find_command (pre ++ ((name, run) ∷ post)) name ≡ some run) × (find_command pre name ≡ none)
unfolding find_command
find_command_lem name run [] post h = (rw ((same_text_iff name name).1 refl) refl, refl)
find_command_lem name run (c ∷ pre) post h =
    let (found, not_found) = find_command_lem name run pre post h.1 in
    let other = same_text-no (c.0) name h.0 in (rw other found, rw other not_found)
