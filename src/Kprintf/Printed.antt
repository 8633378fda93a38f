-- ===== src/Kprintf/Printed.antt =====
-- What kvprintf of lib/kprintf.c prints, piece by piece of its format.
use raptor_kernel.Prelude.{
  ℕ, zero, suc, ◌+◌, ◌-◌, ◌*◌, ◌%◌, ◌^◌, ◌<◌, ◌≤◌, ◌≡◌, refl, ap, subst, ◌∙◌, inl, inr, Bool, true,
  false, Option, none, some, List, [], ◌∷◌, ◌++◌, leb, ◌==◌, if◌then◌else◌, length, length-append,
  arith, Bool-cases,
}
use raptor_kernel.Prelude.Text.{bytes}
use raptor_kernel.Kprintf.Numeral.{Numeral, format_num-Numeral}
use raptor_kernel.Kprintf.Digits.{number, digit_value, is_decimal}
use raptor_kernel.Kprintf.Formats.{Plain, emit_lem}
use raptor_kernel.Kprintf.{
  space, Arg, word, emit, print_char, print_string, print_signed, print_unsigned, print_pointer,
  next_arg, later_args, takes_arg, directive, append_opt, print_directive, kvprintf, flags,
  field_width,
}
use raptor_kernel.Kprintf.Pieces.{
  Value, char, text, signed, unsigned, hex, pointer, Piece, plain, percent, field, letter, arg,
  flag_text, format_of, args_of, Shown, padded, laid_out, Prints, IsWidth, NoNought, IsValue,
  ArePieces,
}

-- What follows the flags: neither of their letters.
abbrev EndsFlags : List ℕ → Type 0
EndsFlags [] = Unit {0}
EndsFlags (c ∷ cs) = ((c == b'-') ≡ false) × ((c == b'0') ≡ false)

flags_end : (rest : List ℕ) (l : Bool) (f : ℕ) → EndsFlags rest → flags rest l f ≡ (l, f, rest)
unfolding flags
flags_end [] l f h = refl
flags_end (c ∷ cs) l f h = rw (h.0, h.1) refl

flags_lem :
    (left zeros : Bool) (rest : List ℕ)
    → EndsFlags rest
    → flags (flag_text left zeros ++ rest) false space
      ≡ (left, (if zeros then b'0' else space), rest)
unfolding flags
flags_lem true true rest h = flags_end rest true b'0' h
flags_lem true false rest h = flags_end rest true space h
flags_lem false true rest h = flags_end rest false b'0' h
flags_lem false false rest h = flags_end rest false space h

decimal_value : (c : ℕ) → is_decimal c ≡ true → digit_value c ≡ c - b'0'
unfolding digit_value
decimal_value c h = ground arith

field_width_lem :
    (width : List ℕ) (c : ℕ) (rest : List ℕ) (acc : ℕ)
    → IsWidth width
    → is_decimal c ≡ false
    → field_width (width ++ (c ∷ rest)) acc ≡ (number 10 width acc, c ∷ rest)
unfolding field_width number
field_width_lem [] c rest acc h e = rw e refl
field_width_lem (d ∷ ds) c rest acc h e =
    rw (h.0, decimal_value d h.0) (field_width_lem ds c rest (acc * 10 + (d - b'0')) h.1 e)

letter_lem :
    (v : Value)
    → (is_decimal (letter v) ≡ false)
      × ((letter v == b'-') ≡ false)
      × ((letter v == b'0') ≡ false)
      × (takes_arg (letter v) ≡ true)
letter_lem (char w) = (refl, refl, refl, refl)
letter_lem (text s) = (refl, refl, refl, refl)
letter_lem (signed true w) = (refl, refl, refl, refl)
letter_lem (signed false w) = (refl, refl, refl, refl)
letter_lem (unsigned w) = (refl, refl, refl, refl)
letter_lem (hex true w) = (refl, refl, refl, refl)
letter_lem (hex false w) = (refl, refl, refl, refl)
letter_lem (pointer w) = (refl, refl, refl, refl)

width_ends :
    (width : List ℕ) (v : Value) (rest : List ℕ)
    → IsWidth width
    → NoNought width
    → EndsFlags (width ++ (letter v ∷ rest))
width_ends [] v rest h n = ((letter_lem v).1, (letter_lem v).2)
width_ends (c ∷ cs) v rest h n = (let d = h.0 in ground (arith, d), n)

emit-padded :
    (s : List ℕ) (width : ℕ) (left : Bool) (fill : ℕ)
    → emit s width left fill ≡ padded left fill width s
emit-padded s width left fill = (emit_lem s width left fill).1

-- What the directive of a value gives.
abbrev Given : (left zeros : Bool) → (width : ℕ) → Value → Type 0
Given left zeros width v =
    (t : List ℕ) × Shown v t
    × (directive (letter v) (some (arg v)) width left (if zeros then b'0' else space)
        ≡ some (laid_out left zeros width v t))

unsigned_lem :
    (base k w width : ℕ) (left : Bool) (fill : ℕ) (up : Bool)
    → 2 ≤ base
    → base ≤ 16
    → k < 16
    → w < base ^ suc k
    → (t : List ℕ) × Numeral base up w t
      × (print_unsigned (some (word w)) base width left fill up ≡ some (padded left fill width t))
unfolding print_unsigned
unsigned_lem base k w width left fill up two small room h =
    let (t, e, l, n) = format_num-Numeral base k w up two small room h in
    (t, n, rw e (ap some (emit-padded t width left fill)))

signed_lem :
    (as_i : Bool) (w width : ℕ) (left : Bool) (fill : ℕ)
    → w < 2 ^ 32
    → (t : List ℕ) × Shown (signed as_i w) t
      × (print_signed (some (word w)) width left fill ≡ some (padded left fill width t))
unfolding print_signed
signed_lem as_i w width left fill h = elim (Bool-cases (leb (2 ^ 31) w)) [
  | inl neg ↦
      let below : 2 ^ 31 ≤ w = ground (arith, neg) in
      let whole : (2 ^ 32 - w) % 2 ^ 32 ≡ 2 ^ 32 - w = omega (arith, below, h) in
      let (ds, e, l, n) =
        format_num-Numeral 10 9 ((2 ^ 32 - w) % 2 ^ 32) false (omega arith) (omega arith)
          (omega arith) (omega arith) in
      (
        b'-' ∷ ds,
        inr (below, ds, refl, subst (λ x. Numeral 10 false x ds) whole n),
        rw (neg, e) (ap some (emit-padded (b'-' ∷ ds) width left fill)),
      )
  | inr pos ↦
      let (ds, e, l, n) =
        format_num-Numeral 10 9 w false (omega arith) (omega arith) (omega arith) (omega arith) in
      (ds, inl (ground (arith, pos), n), rw (pos, e) (ap some (emit-padded ds width left fill)))
]

directive_lem : (left zeros : Bool) (width : ℕ) (v : Value) → IsValue v → Given left zeros width v
unfolding directive print_char print_string
directive_lem left zeros width (char w) h =
    (w % 256 ∷ [], refl, ap some (emit-padded (w % 256 ∷ []) width left space))
directive_lem left zeros width (text none) h =
    (bytes "(null)", refl, ap some (emit-padded (bytes "(null)") width left space))
directive_lem left zeros width (text (some s)) h =
    (s, refl, ap some (emit-padded s width left space))
directive_lem left zeros width (signed true w) h =
    signed_lem true w width left (if zeros then b'0' else space) h
directive_lem left zeros width (signed false w) h =
    signed_lem false w width left (if zeros then b'0' else space) h
directive_lem left zeros width (unsigned w) h =
    unsigned_lem 10 9 w width left (if zeros then b'0' else space) false (omega arith) (omega arith)
      (omega arith) (omega (arith, h))
directive_lem left zeros width (hex true w) h =
    unsigned_lem 16 7 w width left (if zeros then b'0' else space) true (omega arith) (omega arith)
      (omega arith) (omega (arith, h))
directive_lem left zeros width (hex false w) h =
    unsigned_lem 16 7 w width left (if zeros then b'0' else space) false (omega arith) (omega arith)
      (omega arith) (omega (arith, h))
directive_lem left zeros width (pointer w) h =
    let (t, e, l, n) =
      format_num-Numeral 16 7 w false (omega arith) (omega arith) (omega arith)
        (omega (arith, h)) in
    (
      t,
      n,
      unfold print_pointer in rw e (ap (λ x. some (b'0' ∷ b'x' ∷ x)) (emit-padded t 8 false b'0')),
    )

-- The rest of print_directive, from the flags and the width on.
abbrev from_width :
    List Arg
    → (List ℕ → List Arg → Option (List ℕ))
    → (Bool × ℕ × List ℕ)
    → (ℕ × List ℕ)
    → Option (List ℕ)
from_width args go q r = if leb (2 ^ 31) r.0 then none else elim r.1 [
  | [] ↦ some []
  | c ∷ cs ↦
      append_opt (directive c (next_arg args) r.0 q.0 q.1)
        (go cs (if takes_arg c then later_args args else args))
]

print_directive-at :
    (fmt : List ℕ) (args : List Arg) (go : List ℕ → List Arg → Option (List ℕ)) (left : Bool)
    (fill : ℕ) (fmt1 : List ℕ) (width c : ℕ) (cs : List ℕ)
    → flags fmt false space ≡ (left, fill, fmt1)
    → field_width fmt1 0 ≡ (width, c ∷ cs)
    → width < 2 ^ 31
    → print_directive fmt args go
      ≡ append_opt
          (directive c (next_arg args) width left fill)
          (go cs (if takes_arg c then later_args args else args))
unfolding print_directive
print_directive-at fmt args go left fill fmt1 width c cs e1 e2 h =
    let narrow : leb (2 ^ 31) width ≡ false = ground (arith, h) in
    ap (λ q. from_width args go q (field_width q.2 0)) e1
    ∙ ap (λ r. from_width args go (left, fill, fmt1) r) e2
    ∙ rw narrow refl

field_step :
    (fuel : ℕ) (left zeros : Bool) (width : List ℕ) (v : Value) (fmt : List ℕ) (args : List Arg)
    (t rest : List ℕ)
    → IsWidth width
    → NoNought width
    → number 10 width 0 < 2 ^ 31
    → directive (letter v) (some (arg v)) (number 10 width 0) left (if zeros then b'0' else space)
      ≡ some t
    → kvprintf fuel fmt args ≡ some rest
    → kvprintf
        (suc fuel)
        (b'%' ∷ (flag_text left zeros ++ (width ++ (letter v ∷ fmt))))
        (arg v ∷ args)
      ≡ some (t ++ rest)
unfolding kvprintf
field_step fuel left zeros width v fmt args t rest h n small e later =
    let (decimal, dash, nought, takes) = letter_lem v in
    print_directive-at (flag_text left zeros ++ (width ++ (letter v ∷ fmt))) (arg v ∷ args)
      (kvprintf fuel) left (if zeros then b'0' else space) (width ++ (letter v ∷ fmt))
      (number 10 width 0) (letter v) fmt
      (flags_lem left zeros (width ++ (letter v ∷ fmt)) (width_ends width v fmt h n))
      (field_width_lem width (letter v) fmt 0 h decimal) small
    ∙ ap
        (λ o.
          append_opt o (kvprintf fuel fmt (if takes_arg (letter v) then args else arg v ∷ args)))
        e
    ∙ ap (λ b. append_opt (some t) (kvprintf fuel fmt (if b then args else arg v ∷ args))) takes
    ∙ ap (λ o. append_opt (some t) o) later

field_longer :
    (left zeros : Bool) (width : List ℕ) (v : Value) (fmt : List ℕ)
    → length fmt < length (flag_text left zeros ++ (width ++ (letter v ∷ fmt)))
field_longer left zeros width v fmt =
    let e = length-append (flag_text left zeros) (width ++ (letter v ∷ fmt)) in
    let e' = length-append width (letter v ∷ fmt) in omega (arith, e, e')

plain_step :
    (fuel x : ℕ) (fmt : List ℕ) (args : List Arg) (out : List ℕ)
    → (x == b'%') ≡ false
    → kvprintf fuel fmt args ≡ some out
    → kvprintf (suc fuel) (x ∷ fmt) args ≡ some (x ∷ out)
unfolding kvprintf
plain_step fuel x fmt args out h e = rw (h, e) refl

percent_step :
    (fuel : ℕ) (fmt : List ℕ) (args : List Arg) (out : List ℕ)
    → kvprintf fuel fmt args ≡ some out
    → kvprintf (suc fuel) (b'%' ∷ b'%' ∷ fmt) args ≡ some (b'%' ∷ out)
unfolding kvprintf print_directive directive flags field_width
percent_step fuel fmt args out e = ap (λ o. append_opt (some (b'%' ∷ [])) o) e

-- kvprintf on a format put together from pieces, with their arguments, prints what the pieces say, one
-- after the other: plain text as it is, `%%` as one `%`, and each directive its argument's text, with
-- numbers as numerals of their base and a `-` for a negative %d or %i, padded to the width by blanks
-- behind it for the flag `-`, or else before it by noughts for a number with the flag `0` and by blanks
-- in every other case; %p is always 0x and eight digits. The plain text has no `%`, a width does not
-- start with a nought and is an `int`, the words have 32 bits, and there is a round more than the
-- format has bytes.
pub kvprintf-Prints :
    (fuel : ℕ) (ps : List Piece)
    → ArePieces ps
    → length (format_of ps) < fuel
    → (out : List ℕ) × (kvprintf fuel (format_of ps) (args_of ps) ≡ some out) × Prints ps out
kvprintf-Prints zero ps h enough = absurd (omega arith)
kvprintf-Prints (suc fuel) [] h enough = ([], unfold kvprintf in refl, refl)
kvprintf-Prints (suc fuel) (plain [] ∷ ps) h enough =
    let (out, e, p) = kvprintf-Prints (suc fuel) ps h.1 enough in (out, e, (out, refl, p))
kvprintf-Prints (suc fuel) (plain (x ∷ xs) ∷ ps) h enough =
    let (out, e, (rest, same, p)) =
      kvprintf-Prints fuel (plain xs ∷ ps) (h.0.1, h.1) (omega (arith, enough)) in
    (
      x ∷ out,
      plain_step fuel x (xs ++ format_of ps) (args_of ps) out h.0.0 e,
      (rest, ap (λ t. x ∷ t) same, p),
    )
kvprintf-Prints (suc fuel) (percent ∷ ps) h enough =
    let (out, e, p) = kvprintf-Prints fuel ps h (omega (arith, enough)) in
    (b'%' ∷ out, percent_step fuel (format_of ps) (args_of ps) out e, (out, refl, p))
kvprintf-Prints (suc fuel) (field left zeros width v ∷ ps) ((wide, nought, small), ok, later)
      enough =
    let longer = field_longer left zeros width v (format_of ps) in
    let (out, e, p) = kvprintf-Prints fuel ps later (omega (arith, enough, longer)) in
    let (t, shown, given) = directive_lem left zeros (number 10 width 0) v ok in
    let done = laid_out left zeros (number 10 width 0) v t in
    (
      done ++ out,
      field_step fuel left zeros width v (format_of ps) (args_of ps) done out wide nought small
          given e,
      (t, out, shown, refl, p),
    )

abbrev pub is_plain : List ℕ → Bool
is_plain [] = true
is_plain (x ∷ xs) = if x == b'%' then false else is_plain xs

pub is_plain-Plain : (xs : List ℕ) → is_plain xs ≡ true → Plain xs
is_plain-Plain [] h = tt
is_plain-Plain (x ∷ xs) h = elim (Bool-cases (x == b'%')) [
  | inl e ↦ absurd (no (rw e at h))
  | inr e ↦ (e, is_plain-Plain xs (rw e at h))
]
  where
    no : false ≡ true → ⊥
    no e = cc
