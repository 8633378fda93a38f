-- ===== src/Shell/Lines.antt =====
-- The history ring of shell/shell.c and the lines that it keeps.
use raptor_kernel.Prelude.{
  ℕ, zero, suc, ◌+◌, ◌-◌, ◌%◌, ◌<◌, ◌≤◌, ◌≡◌, ◌≢◌, refl, ap, sym, subst, ◌∙◌, inl, inr, true, false,
  none, some, min, List, [], ◌∷◌, ◌++◌, leb, ◌==◌, take, get_or, length, length-append, arith,
  Bool-cases, ==_iff,
}
use raptor_kernel.Prelude.Int.{pos, negsuc}
use raptor_kernel.Shell.{
  History, history_max, line_max, shell_history_count, shell_history, set_line, history_add,
}

-- `h` is the history after the lines `all`, the oldest first, each as its entry keeps it.
pub record Recorded (h : History) (all : List (List ℕ)) : Type 0 where
  total : h.history_total ≡ length all
  kept :
      (i : ℕ)
      → i < length all
      → length all ≤ i + history_max
      → h.history_ring (i % history_max) ≡ get_or all i []

get_or-before :
    (xs : List (List ℕ)) (y : List ℕ) (i : ℕ)
    → i < length xs
    → get_or (xs ++ (y ∷ [])) i [] ≡ get_or xs i []
get_or-before [] y i h = absurd (omega arith)
get_or-before (x ∷ xs) y zero h = refl
get_or-before (x ∷ xs) y (suc i) h = get_or-before xs y i (omega arith)

get_or-last : (xs : List (List ℕ)) (y : List ℕ) → get_or (xs ++ (y ∷ [])) (length xs) [] ≡ y
get_or-last [] y = refl
get_or-last (x ∷ xs) y = get_or-last xs y

set_line_self :
    (ring : ℕ → List ℕ) (i j : ℕ) (line : List ℕ) → i ≡ j → set_line ring i line j ≡ line
unfolding set_line
set_line_self ring i j line h = ground (arith, h)

set_line_ne :
    (ring : ℕ → List ℕ) (i j : ℕ) (line : List ℕ) → i ≢ j → set_line ring i line j ≡ ring j
unfolding set_line
set_line_ne ring i j line h = ground (arith, h)

-- history_add adds one line to those recorded, cut to the 255 bytes that an entry holds.
pub history_add-Recorded :
    (h : History) (all : List (List ℕ)) (line : List ℕ)
    → Recorded h all
    → Recorded (history_add h line) (all ++ (take (line_max - 1) line ∷ []))
unfolding history_add
history_add-Recorded h all line r =
    let entry = take (line_max - 1) line in
    let size = length-append all (entry ∷ []) in
    record {
      total = omega (arith, r.total, size);
      kept = λ i below recent. elim (Bool-cases (i == length all)) [
        | inl newest ↦
            let e : i ≡ length all = (==_iff i (length all)).0 newest in
            set_line_self (h.history_ring) (h.history_total % history_max) (i % history_max) entry
              (omega (arith, e, r.total))
            ∙ sym (
                subst (λ j. get_or (all ++ (entry ∷ [])) j [] ≡ entry) (sym e)
                  (get_or-last all entry))
        | inr older ↦
            let ne : i ≢ length all = ground (arith, older) in
            let before : i < length all = omega (arith, ne, below, size) in
            set_line_ne (h.history_ring) (h.history_total % history_max) (i % history_max) entry
              (λ e. omega (arith, e, r.total, before, recent, size))
            ∙ r.kept i before (omega (arith, recent, size))
            ∙ sym (get_or-before all entry i before)
      ];
    }

-- The history has the lines added, the last 16 at most; the entry of an index is the line that many
-- places after the oldest of them, and NULL when the index is negative or not below their number.
pub shell_history_lem :
    (h : History) (all : List (List ℕ)) (i : ℕ)
    → Recorded h all
    → (shell_history_count h ≡ min (length all) history_max)
      × (shell_history h (negsuc i) ≡ none)
      × (i < shell_history_count h
          → shell_history h (pos i) ≡ some (get_or all (length all - shell_history_count h + i) []))
      × (shell_history_count h ≤ i → shell_history h (pos i) ≡ none)
unfolding shell_history shell_history_count
shell_history_lem h all i r =
    let stored = shell_history_count h in
    let count : stored ≡ min (length all) history_max = ground (arith, r.total) in
    (
      count,
      refl,
      (λ below.
          let within : leb stored i ≡ false = ground (arith, below) in
          rw within (
            ap some (
              ap (λ n. h.history_ring ((n - stored + i) % history_max)) r.total
              ∙ r.kept (length all - stored + i) (omega (arith, count, below))
                  (omega (arith, count, below))))),
      (λ above. let out : leb stored i ≡ true = ground (arith, above) in rw out refl),
    )

-- A history without lines.
pub Recorded-empty : (h : History) → h.history_total ≡ 0 → Recorded h []
Recorded-empty h e = record { total = e; kept = λ i below recent. absurd (omega arith) }
