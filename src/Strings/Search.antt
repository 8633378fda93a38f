-- ===== src/Strings/Search.antt =====
-- strchr and strstr: the first place that matches, or NULL where there is none.
use raptor_kernel.Prelude.{
  ℕ, zero, suc, ◌+◌, ◌%◌, ◌<◌, ◌≤◌, ◌≡◌, ◌↔◌, refl, ap, sym, subst, ◌∙◌, inl, inr, Bool, false,
  true, ◌&&◌, some, List, [], ◌∷◌, arith, ◌==◌, length, take, take-all, drop, Bool-cases, ==_iff,
}
use raptor_kernel.Prelude.Int.{ℤ, pos, negsuc, is_zero}
use raptor_kernel.Strings.{Bytes, null, strncmp, strchr, strstr_loop, strstr}
use raptor_kernel.Strings.Text.{Str, strlen_lem}
use raptor_kernel.Strings.Order.{NoZero, Str-NoZero, compare_text-zero_iff, strncmp_lem}

-- `r` is the first of the places `p`, `p + 1`, …, `p + n` at which `P` holds, or NULL if it holds
-- at none; `P` is given the offset.
pub data First (p n : ℕ) (P : ℕ → Type 0) (r : ℕ) : Type 0 where
  here : (k : ℕ) → k ≤ n → r ≡ p + k → P k → ((i : ℕ) → i < k → ¬ P i) → First p n P r
  nowhere : r ≡ null → ((i : ℕ) → i ≤ n → ¬ P i) → First p n P r

-- Not at the first place, so wherever it is from the second on.
First-later :
    (p n : ℕ) (P Q : ℕ → Type 0) (r : ℕ)
    → ¬ P 0
    → ((i : ℕ) → (P (suc i) → Q i) × (Q i → P (suc i)))
    → First (p + 1) n Q r
    → First p (suc n) P r
First-later p n P Q r not_first same (here k le e q before) =
    here (suc k) (omega arith) (omega arith) ((same k).1 q) earlier
  where
    earlier : (i : ℕ) → i < suc k → ¬ P i
    earlier zero h = not_first
    earlier (suc i) h = λ y. before i (omega arith) ((same i).0 y)
First-later p n P Q r not_first same (nowhere e all) = nowhere e later
  where
    later : (i : ℕ) → i ≤ suc n → ¬ P i
    later zero h = not_first
    later (suc i) h = λ y. all i (omega arith) ((same i).0 y)

-- The byte at an offset of the string is the one looked for.
abbrev pub IsByte : Bytes → (s c : ℕ) → ℕ → Type 0
IsByte m s c i = m (s + i) ≡ c % 256

module _ (m : Bytes) (s c : ℕ) where
  byte_zero : m (s + 0) ≡ m s
  byte_zero = ap m (omega arith)

  byte-shift : (i : ℕ) → m (s + suc i) ≡ m (s + 1 + i)
  byte-shift i = ap m (omega arith)

  strchr-here :
      (fuel n : ℕ)
      → (m s == c % 256) ≡ true
      → (r : ℕ) × (strchr (suc fuel) m s c ≡ some r) × First s n (IsByte m s c) r
  unfolding strchr
  strchr-here fuel n found =
      let e : m s ≡ c % 256 = ground arith in
      (
        s,
        rw found,
        here 0 (omega arith) (omega arith) (byte_zero ∙ e) (λ i h. absurd (omega arith)),
      )

  not_here : (m s == c % 256) ≡ false → ¬ IsByte m s c 0
  not_here other y = ground (arith, other, sym byte_zero ∙ y)

-- strchr returns, within enough rounds, the first place of the string that holds the byte, its
-- end included, or NULL.
pub strchr_lem :
    (fuel : ℕ) (m : Bytes) (s c : ℕ) (xs : List ℕ)
    → Str m s xs
    → length xs < fuel
    → (r : ℕ) × (strchr fuel m s c ≡ some r) × First s (length xs) (IsByte m s c) r
unfolding strchr
strchr_lem zero m s c xs t h = absurd (omega arith)
strchr_lem (suc fuel) m s c [] t h = elim (Bool-cases (m s == c % 256)) [
  | inl found ↦ strchr-here m s c fuel 0 found
  | inr other ↦
      let ended : (m s == 0) ≡ true = ground arith in
      (
        null,
        rw (other, ended),
        nowhere refl (λ i k y. not_here m s c other (subst (IsByte m s c) (omega arith) y)),
      )
]
strchr_lem (suc fuel) m s c (x ∷ xs) t h = elim (Bool-cases (m s == c % 256)) [
  | inl found ↦ strchr-here m s c fuel (suc (length xs)) found
  | inr other ↦
      let going : (m s == 0) ≡ false = ground (arith, t.0, t.1) in
      let (r, e, f) = strchr_lem fuel m (s + 1) c xs t.2 (omega arith) in
      (
        r,
        rw (other, going) e,
        First-later s (length xs) (IsByte m s c) (IsByte m (s + 1) c) r (not_here m s c other)
            (λ i. (λ y. sym (byte-shift m s c i) ∙ y, λ y. byte-shift m s c i ∙ y)) f,
      )
]

-- The text `ys` occurs in `xs` at offset `k`.
abbrev pub Occurs : List ℕ → List ℕ → ℕ → Type 0
Occurs ys xs k = take (length ys) (drop k xs) ≡ ys

take-NoZero : (n : ℕ) (xs : List ℕ) → NoZero xs → NoZero (take n xs)
take-NoZero zero xs h = tt
take-NoZero (suc n) [] h = tt
take-NoZero (suc n) (x ∷ xs) h = (h.0, take-NoZero n xs h.1)

is_zero_iff : (z : ℤ) → (is_zero z ≡ true) ↔ (z ≡ pos 0)
is_zero_iff (pos n) = ground arith
is_zero_iff (negsuc n) = ((λ e. cc), (λ e. cc))

module _ (m : Bytes) (s t y : ℕ) (xs ys : List ℕ) (hay : Str m s xs)
    (needle : Str m t (y ∷ ys)) where
  abbrev n : ℕ
  n = length (y ∷ ys)

  -- The test that strstr makes at one place.
  abbrev matches : Bool
  matches = (m s == m t) && is_zero (strncmp m s t n)

  strncmp-Occurs : (strncmp m s t n ≡ pos 0) ↔ Occurs (y ∷ ys) xs 0
  strncmp-Occurs =
      let (f, g) =
        compare_text-zero_iff (take n xs) (take n (y ∷ ys))
          (take-NoZero n xs (Str-NoZero m s xs hay))
          (take-NoZero n (y ∷ ys) (Str-NoZero m t (y ∷ ys) needle)) in
      let whole = take-all n (y ∷ ys) (omega arith) in
      let e = strncmp_lem m s t n xs (y ∷ ys) hay needle in
      (λ z. f (sym e ∙ z) ∙ whole, λ o. e ∙ g (o ∙ sym whole))

  matches-Occurs : matches ≡ true → Occurs (y ∷ ys) xs 0
  matches-Occurs h = strncmp-Occurs.0 ((is_zero_iff (strncmp m s t n)).0 (ground (arith, h)))

head-Occurs :
    (m : Bytes) (s k y : ℕ) (xs ys : List ℕ) → Str m s xs → take (suc k) xs ≡ y ∷ ys → m s ≡ y
head-Occurs m s k y [] ys h o = cc
head-Occurs m s k y (x ∷ xs) ys h o = let e : x ≡ y = cc in h.0 ∙ e

Occurs-matches :
    (m : Bytes) (s t y : ℕ) (xs ys : List ℕ) (hay : Str m s xs) (needle : Str m t (y ∷ ys))
    → Occurs (y ∷ ys) xs 0
    → matches m s t y xs ys hay needle ≡ true
Occurs-matches m s t y xs ys hay needle o =
    let z = (strncmp-Occurs m s t y xs ys hay needle).1 o in
    let same : m s ≡ m t = head-Occurs m s (length ys) y xs ys hay o ∙ sym needle.0 in
    let head_test : (m s == m t) ≡ true = (==_iff (m s) (m t)).1 same in
    rw head_test ((is_zero_iff (strncmp m s t (length (y ∷ ys)))).1 z)

drop-nil : (i : ℕ) → drop {A = ℕ} i [] ≡ []
drop-nil zero = refl
drop-nil (suc i) = refl

strstr_loop_lem :
    (fuel : ℕ) (m : Bytes) (s t y : ℕ) (xs ys : List ℕ)
    → Str m s xs
    → Str m t (y ∷ ys)
    → length xs < fuel
    → (r : ℕ) × (strstr_loop fuel m s t (length (y ∷ ys)) ≡ some r)
      × First s (length xs) (Occurs (y ∷ ys) xs) r
unfolding strstr_loop
strstr_loop_lem zero m s t y xs ys hay needle h = absurd (omega arith)
strstr_loop_lem (suc fuel) m s t y [] ys hay needle h =
    (null, rw hay, nowhere refl (λ i k o. absurd (nil_case i o)))
  where
    nil_case : (i : ℕ) → ¬ (take (suc (length ys)) (drop i []) ≡ y ∷ ys)
    nil_case i o = cc (drop-nil i, o)
strstr_loop_lem (suc fuel) m s t y (x ∷ xs) ys hay needle h =
    let going : (m s == 0) ≡ false = ground (arith, hay.0, hay.1) in
    elim (Bool-cases (matches m s t y (x ∷ xs) ys hay needle)) [
      | inl found ↦ (
        s,
        rw (going, found),
        here 0 (omega arith) (omega arith) (matches-Occurs m s t y (x ∷ xs) ys hay needle found)
            (λ i k. absurd (omega arith)),
      )
      | inr other ↦
          let (r, e, f) = strstr_loop_lem fuel m (s + 1) t y xs ys hay.2 needle (omega arith) in
          (
            r,
            rw (going, other) e,
            First-later s (length xs) (Occurs (y ∷ ys) (x ∷ xs)) (Occurs (y ∷ ys) xs) r
                (λ o. cc (other, Occurs-matches m s t y (x ∷ xs) ys hay needle o))
                (λ i. (λ o. o, λ o. o)) f,
          )
    ]

-- strstr returns, within enough rounds, the first place of the haystack at which the needle's text
-- occurs, or NULL; the empty needle occurs at the start.
pub strstr_lem :
    (fuel : ℕ) (m : Bytes) (s t : ℕ) (xs ys : List ℕ)
    → Str m s xs
    → Str m t ys
    → length xs < fuel
    → length ys < fuel
    → (r : ℕ) × (strstr fuel m s t ≡ some r) × First s (length xs) (Occurs ys xs) r
unfolding strstr
strstr_lem fuel m s t xs [] hay needle hx hy = (
  s,
  rw (strlen_lem fuel m t [] needle hy, strstr),
  here 0 (omega arith) (omega arith) refl (λ i k. absurd (omega arith)),
)
strstr_lem fuel m s t xs (y ∷ ys) hay needle hx hy =
    let (r, e, f) = strstr_loop_lem fuel m s t y xs ys hay needle hx in
    let some_len : (length (y ∷ ys) == 0) ≡ false = ground arith in
    (r, rw (strlen_lem fuel m t (y ∷ ys) needle hy, strstr) (rw some_len e), f)
