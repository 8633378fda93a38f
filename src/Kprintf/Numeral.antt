-- ===== src/Kprintf/Numeral.antt =====
-- The numerals that format_num of lib/kprintf.c writes.
use native.Mathlib.Nat.{pow-zero, mod-lt, div-add-mod, mul-zero}
use raptor_kernel.Prelude.{
  ℕ, zero, suc, ◌+◌, ◌*◌, ◌/◌, ◌%◌, ◌^◌, ◌<◌, ◌≤◌, ◌≡◌, ◌≢◌, refl, ap, sym, subst, ◌∙◌, inl, inr,
  Bool, true, false, some, List, [], ◌∷◌, ◌++◌, reverse, reverse_aux, length-reverse_aux, ◌==◌,
  if◌then◌else◌, length, get_or, arith, Bool-cases, ==_iff, all_below, all_below_lem,
}
use raptor_kernel.Prelude.Text.{bytes}
use raptor_kernel.Kprintf.{digit, format_loop, format_num}
use raptor_kernel.Kprintf.Digits.{quotient-lt}

-- The sixteen digits.
abbrev pub digits : (up : Bool) → List ℕ
digits up = if up then bytes "0123456789ABCDEF" else bytes "0123456789abcdef"

-- `t` is the numeral of `v` in the base: no digit but the last can be a leading zero.
pub data Numeral (base : ℕ) (up : Bool) : (v : ℕ) → (t : List ℕ) → Type 0 where
  one : {v : ℕ} {t : List ℕ} → v < base → t ≡ get_or (digits up) v 0 ∷ [] → Numeral base up v t
  more :
      {v : ℕ} {t : List ℕ} (q d : ℕ) (s : List ℕ)
      → q ≢ 0
      → d < base
      → v ≡ base * q + d
      → t ≡ s ++ (get_or (digits up) d 0 ∷ [])
      → Numeral base up q s
      → Numeral base up v t

digit_test : (up : Bool) → all_below 16 (λ d. digit up d == get_or (digits up) d 0) ≡ true
unfolding digit
digit_test true = refl
digit_test false = refl

digit_lem : (up : Bool) (d : ℕ) → d < 16 → digit up d ≡ get_or (digits up) d 0
digit_lem up d h =
    (==_iff _ _).0
      (all_below_lem 16 (λ d. digit up d == get_or (digits up) d 0) (digit_test up) d h)

reverse_aux-append : (xs ys zs : List ℕ) → reverse_aux xs (ys ++ zs) ≡ reverse_aux xs ys ++ zs
reverse_aux-append [] ys zs = refl
reverse_aux-append (x ∷ xs) ys zs = reverse_aux-append xs (x ∷ ys) zs

module _ (base : ℕ) (two : 2 ≤ base) (small : base ≤ 16) (up : Bool) where
  last_digit : (v : ℕ) → digit up (v % base) ≡ get_or (digits up) (v % base) 0
  last_digit v =
      let h : v % base < base = mod-lt v (omega arith) in digit_lem up (v % base) (omega (arith, h))

  small_mod : (v : ℕ) → v / base ≡ 0 → v % base ≡ v
  small_mod v z =
      let whole = div-add-mod v base in
      omega (arith, whole, ap (λ (t : ℕ). base * t) z, mul-zero base)

  one_digit : (v : ℕ) → v / base ≡ 0 → Numeral base up v (reverse (digit up (v % base) ∷ []))
  one_digit v z =
      let in_range : v % base < base = mod-lt v (omega arith) in
      let e = small_mod v z in
      one (subst (λ x. x < base) e in_range)
        (ap (λ x. x ∷ []) (last_digit v ∙ ap (λ x. get_or (digits up) x 0) e))

  more_digits :
      (v : ℕ) (ds : List ℕ)
      → v / base ≢ 0
      → Numeral base up (v / base) (reverse ds)
      → Numeral base up v (reverse (digit up (v % base) ∷ ds))
  more_digits v ds ne n =
      more (v / base) (v % base) (reverse ds) ne (mod-lt v (omega arith)) (sym (div-add-mod v base))
        (reverse_aux-append ds [] (digit up (v % base) ∷ [])
          ∙ ap (λ x. reverse ds ++ (x ∷ [])) (last_digit v))
        n

  format_loop-Numeral :
      (fuel k v : ℕ)
      → k < fuel
      → v < base ^ suc k
      → (ds : List ℕ) × (format_loop fuel v base up ≡ some ds)
        × (length ds ≤ suc k)
        × Numeral base up v (reverse ds)
  unfolding format_loop
  format_loop-Numeral zero k v enough h = absurd (omega arith)
  format_loop-Numeral (suc fuel) zero v enough h =
      let done : v / base ≡ 0 = omega (arith, quotient-lt base two small up v 0 h, pow-zero base) in
      (
        digit up (v % base) ∷ [],
        rw ((==_iff (v / base) 0).1 done) refl,
        omega arith,
        one_digit v done,
      )
  format_loop-Numeral (suc fuel) (suc k) v enough h = elim (Bool-cases (v / base == 0)) [
    | inl done ↦ (
      digit up (v % base) ∷ [],
      rw done refl,
      omega arith,
      one_digit v ((==_iff (v / base) 0).0 done),
    )
    | inr rest ↦
        let (ds, e, l, n) =
          format_loop-Numeral fuel k (v / base) (omega arith)
            (quotient-lt base two small up v (suc k) h) in
        (
          digit up (v % base) ∷ ds,
          rw (rest, e) refl,
          omega (arith, l),
          more_digits v ds (λ z. ground (arith, rest, z)) n,
        )
  ]

-- format_num writes the numeral of its value, in every base from 2 to 16.
pub format_num-Numeral :
    (base k v : ℕ) (up : Bool)
    → 2 ≤ base
    → base ≤ 16
    → k < 16
    → v < base ^ suc k
    → (t : List ℕ) × (format_num v base up ≡ some t) × (length t ≤ suc k) × Numeral base up v t
unfolding format_num
format_num-Numeral base k v up two small room h =
    let (ds, e, l, n) = format_loop-Numeral base two small up 16 k v room h in
    (reverse ds, rw e refl, omega (arith, l, length-reverse_aux {0} ds []), n)
