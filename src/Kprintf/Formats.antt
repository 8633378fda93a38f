-- ===== src/Kprintf/Formats.antt =====
-- kvprintf of lib/kprintf.c: text without directives, padding, and the numbers that %d and %u write.
use raptor_kernel.Prelude.{
  ℕ, suc, ◌+◌, ◌-◌, ◌%◌, ◌^◌, ◌<◌, ◌≤◌, ◌≡◌, ◌⊎◌, refl, subst, ◌∙◌, inl, inr, Bool, true, false,
  some, List, [], ◌∷◌, ◌++◌, append-nil, max, ltb, leb, ◌==◌, if◌then◌else◌, length, replicate,
  length-append, length-replicate, arith, Bool-cases,
}
use raptor_kernel.Kprintf.Digits.{number, format_num_lem, atoi_simple, atoi-format_num}
use raptor_kernel.Kprintf.{
  space, Arg, word, pad, emit, print_directive, kvprintf, flags, field_width, directive,
  print_signed, print_unsigned,
}

-- No byte is a `%`.
abbrev pub Plain : List ℕ → Type 0
Plain [] = Unit {0}
Plain (x ∷ xs) = ((x == b'%') ≡ false) × Plain xs

plain_step :
    (fuel x : ℕ) (fmt : List ℕ) (args : List Arg) (out : List ℕ)
    → (x == b'%') ≡ false
    → kvprintf fuel fmt args ≡ some out
    → kvprintf (suc fuel) (x ∷ fmt) args ≡ some (x ∷ out)
unfolding kvprintf
plain_step fuel x fmt args out h e = rw (h, e) refl

-- A format that starts with text without a `%` prints that text as it stands and then what the rest
-- of the format prints of the same arguments.
pub kvprintf-append :
    (fuel : ℕ) (xs fmt : List ℕ) (args : List Arg) (out : List ℕ)
    → Plain xs
    → kvprintf fuel fmt args ≡ some out
    → kvprintf (length xs + fuel) (xs ++ fmt) args ≡ some (xs ++ out)
kvprintf-append fuel [] fmt args out h e =
    subst (λ n. kvprintf n fmt args ≡ some out) (omega arith) e
kvprintf-append fuel (x ∷ xs) fmt args out h e =
    subst (λ n. kvprintf n (x ∷ (xs ++ fmt)) args ≡ some (x ∷ (xs ++ out))) (omega arith)
      (plain_step (length xs + fuel) x (xs ++ fmt) args (xs ++ out) h.0
        (kvprintf-append fuel xs fmt args out h.1 e))

-- Without a width nothing is added.
pub emit_plain : (s : List ℕ) (left : Bool) (fill : ℕ) → left ≡ false → emit s 0 left fill ≡ s ++ []
unfolding emit pad
emit_plain s left fill e =
    let none_left : ltb (length s) 0 ≡ false = ground arith in rw (e, none_left) refl

gap_lem : (a b : ℕ) → (if ltb a b then b - a else 0) ≡ b - a
gap_lem a b = ground arith

-- A directive's text is padded to the width, and otherwise kept: blanks behind it when the flag `-`
-- is given, the fill before it when not.
pub emit_lem :
    (s : List ℕ) (width : ℕ) (left : Bool) (fill : ℕ)
    → (length (emit s width left fill) ≡ max (length s) width)
      × (emit s width left fill ≡ (
          if left
          then s ++ replicate (width - length s) space
          else replicate (width - length s) fill ++ s))
unfolding emit pad
emit_lem s width true fill = rw (gap_lem (length s) width) (
  length-append s (replicate (width - length s) space)
      ∙ omega (arith, length-replicate (width - length s) space),
  refl,
)
emit_lem s width false fill =
    rw (gap_lem (length s) width, append-nil (replicate (width - length s) fill ++ s))
      (
        length-append (replicate (width - length s) fill) s
            ∙ omega (arith, length-replicate (width - length s) fill),
        refl,
      )

no_gap : (s : List ℕ) → (if ltb (length s) 0 then 0 - length s else 0) ≡ 0
no_gap s = ground arith

emit-unpadded : (s : List ℕ) (left : Bool) (fill : ℕ) → emit s 0 left fill ≡ s
unfolding emit pad
emit-unpadded s true fill = rw (no_gap s) (append-nil s)
emit-unpadded s false fill = rw (no_gap s) (append-nil s)

-- The signed number that `%d` without a width writes of a word, read back: the digits of a
-- non-negative number, or a `-` and the digits of the magnitude, the least number included.
pub print_signed_lem :
    (w fill : ℕ) (left : Bool)
    → w < 2 ^ 32
    → ((w < 2 ^ 31)
        × (ds : List ℕ) × (print_signed (some (word w)) 0 left fill ≡ some ds)
        × (number 10 ds 0 ≡ w))
      ⊎ ((2 ^ 31 ≤ w)
          × (ds : List ℕ) × (print_signed (some (word w)) 0 left fill ≡ some (b'-' ∷ ds))
          × (number 10 ds 0 ≡ 2 ^ 32 - w))
unfolding print_signed
print_signed_lem w fill left h = elim (Bool-cases (leb (2 ^ 31) w)) [
  | inl negative ↦
      let (ds, e, l, value) =
        format_num_lem 10 9 ((2 ^ 32 - w) % 2 ^ 32) false (omega arith) (omega arith) (omega arith)
          (omega arith) in
      let below : 2 ^ 31 ≤ w = ground (arith, negative) in
      inr (
        below,
        ds,
        rw (negative, e, emit-unpadded (b'-' ∷ ds) left fill) refl,
        value ∙ omega (arith, below),
      )
  | inr natural ↦
      let (ds, e, l, value) =
        format_num_lem 10 9 w false (omega arith) (omega arith) (omega arith) (omega arith) in
      inl (ground (arith, natural), ds, rw (natural, e, emit-unpadded ds left fill) refl, value)
]

-- kvprintf with the format "%u" prints the decimal digits of its argument, which atoi_simple of
-- shell/commands.c reads back.
pub kvprintf-atoi :
    (w : ℕ)
    → w < 2 ^ 31
    → (ds : List ℕ) × (kvprintf 2 (b'%' ∷ b'u' ∷ []) (word w ∷ []) ≡ some ds)
      × (atoi_simple ds 0 ≡ w)
unfolding kvprintf print_directive directive print_unsigned flags field_width
kvprintf-atoi w h =
    let (ds, e, value) = atoi-format_num w false h in
    (ds, rw (e, emit-unpadded ds false space, append-nil ds) refl, value)
