-- ===== src/Kprintf/Digits.antt =====
-- format_num of lib/kprintf.c, its digits and the number that they denote, and atoi_simple of
-- shell/commands.c.
use native.Mathlib.Nat.{pow-suc, pow-zero, mod-lt, div-add-mod, mul-zero, mul_comm}
use mathlib.Core.Option
use raptor_kernel.Prelude.{
  ℕ, zero, suc, ◌+◌, ◌-◌, ◌*◌, ◌/◌, ◌%◌, ◌^◌, ◌<◌, ◌≤◌, ◌≡◌, refl, ap, sym, subst, ◌∙◌, inl, inr,
  Bool, true, false, ◌&&◌, some, List, [], ◌∷◌, reverse, reverse_aux, length-reverse_aux, leb, ◌==◌,
  if◌then◌else◌, length, arith, Bool-cases, Option-cases, ==_iff,
}
use raptor_kernel.Kprintf.{digit, format_loop, format_num}

-- The number that a digit's letter stands for, in either case.
unfoldable pub digit_value : ℕ → ℕ
digit_value c = if leb c b'9' then c - b'0' else if leb c b'F' then c - b'A' + 10 else c - b'a' + 10

pub digit_value-digit : (up : Bool) (d : ℕ) → d < 16 → digit_value (digit up d) ≡ d
unfolding digit_value digit
digit_value-digit up d h = ground arith

-- The number that digits denote in a base, the lowest first.
unfoldable pub low_value : ℕ → List ℕ → ℕ
low_value base [] = 0
low_value base (c ∷ cs) = digit_value c + base * low_value base cs

module _ (base : ℕ) (two : 2 ≤ base) (small : base ≤ 16) (up : Bool) where
  pub quotient-lt : (v k : ℕ) → v < base ^ suc k → v / base < base ^ k
  quotient-lt v k h = let h' : v < base ^ k * base = rw (← pow-suc base k) h in grind arith

  last_digit : (v : ℕ) → v / base ≡ 0 → low_value base (digit up (v % base) ∷ []) ≡ v
  unfolding low_value
  last_digit v e =
      let in_range : v % base < base = mod-lt v (omega arith) in
      let d = digit_value-digit up (v % base) (omega (arith, in_range)) in
      let whole = div-add-mod v base in
      rw (d, mul-zero base) (omega (arith, whole, ap (λ (t : ℕ). base * t) e, mul-zero base))

  next_digit :
      (v : ℕ) (ds : List ℕ)
      → low_value base ds ≡ v / base
      → low_value base (digit up (v % base) ∷ ds) ≡ v
  unfolding low_value
  next_digit v ds e =
      let in_range : v % base < base = mod-lt v (omega arith) in
      let d = digit_value-digit up (v % base) (omega (arith, in_range)) in
      rw (d, e) (omega (arith, div-add-mod v base))

  -- With digits enough for the value the loop ends, and its digits denote the value.
  pub format_loop_lem :
      (fuel k v : ℕ)
      → k < fuel
      → v < base ^ suc k
      → (ds : List ℕ) × (format_loop fuel v base up ≡ some ds)
        × (length ds ≤ suc k)
        × (low_value base ds ≡ v)
  unfolding format_loop
  format_loop_lem zero k v enough h = absurd (omega arith)
  format_loop_lem (suc fuel) zero v enough h =
      let done : v / base ≡ 0 = omega (arith, quotient-lt v 0 h, pow-zero base) in
      (digit up (v % base) ∷ [], rw ((==_iff (v / base) 0).1 done), omega arith, last_digit v done)
  format_loop_lem (suc fuel) (suc k) v enough h = elim (Bool-cases (v / base == 0)) [
    | inl done ↦ (
      digit up (v % base) ∷ [],
      rw done,
      omega arith,
      last_digit v ((==_iff (v / base) 0).0 done),
    )
    | inr more ↦
        let (ds, e, l, value) =
          format_loop_lem fuel k (v / base) (omega arith) (quotient-lt v (suc k) h) in
        (digit up (v % base) ∷ ds, rw more (rw e), omega (arith, l), next_digit v ds value)
  ]

-- The number that digits denote, the highest first.
unfoldable pub number : (base : ℕ) → List ℕ → ℕ → ℕ
number base [] acc = acc
number base (c ∷ cs) acc = number base cs (acc * base + digit_value c)

number-reverse_aux :
    (base : ℕ) (ds rs : List ℕ)
    → number base (reverse_aux ds rs) 0 ≡ number base rs (low_value base ds)
unfolding number low_value
number-reverse_aux base [] rs = refl
number-reverse_aux base (d ∷ ds) rs =
    number-reverse_aux base ds (d ∷ rs)
    ∙ ap (number base rs) (omega (arith, mul_comm (low_value base ds) base))

-- format_num writes digits that denote the value, and no more of them than the value needs: up to
-- the 16 that its buffer holds, in every base from 2 to 16.
pub format_num_lem :
    (base k v : ℕ) (up : Bool)
    → 2 ≤ base
    → base ≤ 16
    → k < 16
    → v < base ^ suc k
    → (ds : List ℕ) × (format_num v base up ≡ some ds)
      × (length ds ≤ suc k)
      × (number base ds 0 ≡ v)
unfolding format_num
format_num_lem base k v up two small room h =
    let (ds, e, l, value) = format_loop_lem base two small up 16 k v room h in
    (
      reverse ds,
      rw e,
      omega (arith, l, length-reverse_aux {0} ds []),
      number-reverse_aux base ds [] ∙ unfold number in value,
    )

-- Whether a byte is a decimal digit.
abbrev pub is_decimal : ℕ → Bool
is_decimal c = leb b'0' c && leb c b'9'

-- atoi_simple of shell/commands.c on a text, from the value `v` on. A value that overflows `int`
-- is left to the theorems.
unfoldable pub atoi_simple : List ℕ → ℕ → ℕ
atoi_simple [] v = v
atoi_simple (c ∷ cs) v =
    let more = atoi_simple cs (v * 10 + (c - b'0')) in if is_decimal c then more else v

abbrev AllDecimal : List ℕ → Type 0
AllDecimal [] = Unit {0}
AllDecimal (c ∷ cs) = (is_decimal c ≡ true) × AllDecimal cs

atoi-number : (cs : List ℕ) (v : ℕ) → AllDecimal cs → atoi_simple cs v ≡ number 10 cs v
unfolding atoi_simple number digit_value
atoi-number [] v h = refl
atoi-number (c ∷ cs) v h =
    let value : digit_value c ≡ c - b'0' = ground (arith, h.0) in
    rw h.0 (
      atoi-number cs (v * 10 + (c - b'0')) h.1
      ∙ ap (λ (d : ℕ). number 10 cs (v * 10 + d)) (sym value))

AllDecimal-reverse_aux :
    (ds rs : List ℕ) → AllDecimal ds → AllDecimal rs → AllDecimal (reverse_aux ds rs)
AllDecimal-reverse_aux [] rs h k = k
AllDecimal-reverse_aux (d ∷ ds) rs h k = AllDecimal-reverse_aux ds (d ∷ rs) h.1 (h.0, k)

digit-decimal : (up : Bool) (d : ℕ) → d < 10 → is_decimal (digit up d) ≡ true
unfolding digit
digit-decimal up d h = ground arith

more_digits :
    (v fuel : ℕ) (up : Bool)
    → (v / 10 == 0) ≡ false
    → format_loop (suc fuel) v 10 up
      ≡ Option.map (λ cs. digit up (v % 10) ∷ cs) (format_loop fuel (v / 10) 10 up)
unfolding format_loop
more_digits v fuel up more = rw more

some_injective : {A : Type 0} (a b : A) → some a ≡ some b → a ≡ b
some_injective a b e = cc

format_loop-decimal :
    (fuel v : ℕ) (up : Bool) (ds : List ℕ) → format_loop fuel v 10 up ≡ some ds → AllDecimal ds
unfolding format_loop
format_loop-decimal zero v up ds e = cc
format_loop-decimal (suc fuel) v up ds e =
    let d = digit-decimal up (v % 10) (omega arith) in
    elim (Bool-cases (v / 10 == 0)) [
      | inl done ↦
          subst AllDecimal (some_injective (digit up (v % 10) ∷ []) ds (rw done at e)) (d, tt)
      | inr more ↦ elim (Option-cases (format_loop fuel (v / 10) 10 up)) [
        | inl ended ↦ cc (more_digits v fuel up more, ended, e)
        | inr (rest, r) ↦
            subst AllDecimal
              (some_injective (digit up (v % 10) ∷ rest) ds (
                sym (more_digits v fuel up more ∙ ap (Option.map (λ cs. digit up (v % 10) ∷ cs)) r)
                ∙ e))
              (d, format_loop-decimal fuel (v / 10) up rest r)
      ]
    ]

-- atoi_simple reads back what format_num writes of a number in base 10, below what an `int` holds.
pub atoi-format_num :
    (v : ℕ) (up : Bool)
    → v < 2 ^ 31
    → (ds : List ℕ) × (format_num v 10 up ≡ some ds) × (atoi_simple ds 0 ≡ v)
unfolding format_num
atoi-format_num v up h =
    let (ds, e, l, value) =
      format_loop_lem 10 (omega arith) (omega arith) up 16 9 v (omega arith) (omega arith) in
    (
      reverse ds,
      rw e,
      atoi-number (reverse ds) 0
            (AllDecimal-reverse_aux ds [] (format_loop-decimal 16 v up ds e) tt)
          ∙ number-reverse_aux 10 ds []
          ∙ unfold number in value,
    )
