-- ===== src/Kprintf/Total.antt =====
-- kvprintf of lib/kprintf.c ends for arguments of the kinds that the format asks for.
use raptor_kernel.Prelude.{
  ℕ, zero, suc, ◌-◌, ◌%◌, ◌^◌, ◌<◌, ◌≡◌, ◌⊎◌, ==_iff, sym, subst, refl, inl, inr, Bool, true, false,
  Option, none, some, List, [], ◌∷◌, ◌++◌, leb, ◌==◌, if◌then◌else◌, arith, Bool-cases,
}
use raptor_kernel.Kprintf.Digits.{format_num_lem}
use raptor_kernel.Kprintf.{
  space, Arg, word, string, emit, format_num, print_char, print_string, print_signed,
  print_unsigned, print_pointer, next_arg, later_args, takes_arg, directive, append_opt,
  print_directive, kvprintf, flags, field_width, null_text,
}

abbrev IsWord : Option Arg → Type 0
IsWord none = ⊥
IsWord (some (word w)) = w < 2 ^ 32
IsWord (some (string s)) = ⊥

abbrev IsText : Option Arg → Type 0
IsText none = ⊥
IsText (some (word w)) = ⊥
IsText (some (string s)) = Unit {0}

-- The argument that a directive's letter asks for.
abbrev Asked : ℕ → Option Arg → Type 0
Asked c arg = if c == b's' then IsText arg else if takes_arg c then IsWord arg else Unit {0}

abbrev DirectiveFits : List ℕ → List Arg → (List ℕ → List Arg → Type 0) → Type 0
DirectiveFits fmt args go =
    let (left, fill, fmt1) = flags fmt false space in
    let (width, fmt2) = field_width fmt1 0 in
    if leb (2 ^ 31) width then ⊥ else elim fmt2 [
      | [] ↦ Unit {0}
      | c ∷ cs ↦ Asked c (next_arg args) × go cs (if takes_arg c then later_args args else args)
    ]

-- Each directive of the format finds an argument of its kind, a word below 2^32 or a string, and has a
-- width that is an `int`, and the format has fewer than `fuel` bytes.
unfoldable pub FormatFits : ℕ → List ℕ → List Arg → Type 0
unfolding flags field_width
FormatFits zero fmt args = ⊥
FormatFits (suc fuel) [] args = Unit {0}
FormatFits (suc fuel) (c ∷ cs) args =
    if c == b'%' then DirectiveFits cs args (FormatFits fuel) else FormatFits fuel cs args

abbrev Ends : Option (List ℕ) → Type 0
Ends o = (out : List ℕ) × (o ≡ some out)

number-Ends :
    (v base : ℕ) (up : Bool) → (base ≡ 10) ⊎ (base ≡ 16) → v < 2 ^ 32 → Ends (format_num v base up)
number-Ends v base up (inl e) small =
    let (ds, run, l, value) =
      format_num_lem 10 9 v up (omega arith) (omega arith) (omega arith) (omega (arith, small)) in
    (ds, rw e run)
number-Ends v base up (inr e) small =
    let (ds, run, l, value) =
      format_num_lem 16 7 v up (omega arith) (omega arith) (omega arith) (omega (arith, small)) in
    (ds, rw e run)

unsigned-Ends :
    (arg : Option Arg) (base width : ℕ) (left : Bool) (fill : ℕ) (up : Bool)
    → (base ≡ 10) ⊎ (base ≡ 16)
    → IsWord arg
    → Ends (print_unsigned arg base width left fill up)
unfolding print_unsigned
unsigned-Ends none base width left fill up b h = absurd h
unsigned-Ends (some (string s)) base width left fill up b h = absurd h
unsigned-Ends (some (word w)) base width left fill up b h =
    let (ds, e) = number-Ends w base up b h in (emit ds width left fill, rw e refl)

signed-Ends :
    (arg : Option Arg) (width : ℕ) (left : Bool) (fill : ℕ)
    → IsWord arg
    → Ends (print_signed arg width left fill)
unfolding print_signed
signed-Ends none width left fill h = absurd h
signed-Ends (some (string s)) width left fill h = absurd h
signed-Ends (some (word w)) width left fill h =
    let (ds, e) = number-Ends w 10 false (inl refl) h in
    let (ns, e') = number-Ends ((2 ^ 32 - w) % 2 ^ 32) 10 false (inl refl) (omega arith) in
    elim (Bool-cases (leb (2 ^ 31) w)) [
      | inl neg ↦ (emit (b'-' ∷ ns) width left fill, rw (neg, e') refl)
      | inr pos ↦ (emit ds width left fill, rw (pos, e) refl)
    ]

pointer-Ends : (arg : Option Arg) → IsWord arg → Ends (print_pointer arg)
unfolding print_pointer
pointer-Ends none h = absurd h
pointer-Ends (some (string s)) h = absurd h
pointer-Ends (some (word w)) h =
    let (ds, e) = number-Ends w 16 false (inr refl) h in
    (b'0' ∷ b'x' ∷ emit ds 8 false b'0', rw e refl)

char-Ends :
    (arg : Option Arg) (width : ℕ) (left : Bool) → IsWord arg → Ends (print_char arg width left)
unfolding print_char
char-Ends none width left h = absurd h
char-Ends (some (string s)) width left h = absurd h
char-Ends (some (word w)) width left h = (emit (w % 256 ∷ []) width left space, refl)

text-Ends :
    (arg : Option Arg) (width : ℕ) (left : Bool) → IsText arg → Ends (print_string arg width left)
unfolding print_string
text-Ends none width left h = absurd h
text-Ends (some (word w)) width left h = absurd h
text-Ends (some (string none)) width left h = (emit null_text width left space, refl)
text-Ends (some (string (some s))) width left h = (emit s width left space, refl)

-- Whether a directive ends for each argument of the kind that its letter asks for.
abbrev DirectiveEnds : ℕ → Type 0
DirectiveEnds c =
    (arg : Option Arg) (width : ℕ) (left : Bool) (fill : ℕ)
    → Asked c arg
    → Ends (directive c arg width left fill)

char_letter : DirectiveEnds b'c'
unfolding directive
char_letter arg width left fill h = char-Ends arg width left h

text_letter : DirectiveEnds b's'
unfolding directive
text_letter arg width left fill h = text-Ends arg width left h

signed_letter : DirectiveEnds b'd'
unfolding directive
signed_letter arg width left fill h = signed-Ends arg width left fill h

integer_letter : DirectiveEnds b'i'
unfolding directive
integer_letter arg width left fill h = signed-Ends arg width left fill h

unsigned_letter : DirectiveEnds b'u'
unfolding directive
unsigned_letter arg width left fill h = unsigned-Ends arg 10 width left fill false (inl refl) h

hex_letter : DirectiveEnds b'x'
unfolding directive
hex_letter arg width left fill h = unsigned-Ends arg 16 width left fill false (inr refl) h

upper_letter : DirectiveEnds b'X'
unfolding directive
upper_letter arg width left fill h = unsigned-Ends arg 16 width left fill true (inr refl) h

pointer_letter : DirectiveEnds b'p'
unfolding directive
pointer_letter arg width left fill h = pointer-Ends arg h

-- The letter is one of those above, or one that takes no argument.
known_or : (c l : ℕ) → DirectiveEnds l → ((c == l) ≡ false → DirectiveEnds c) → DirectiveEnds c
known_or c l known other = elim (Bool-cases (c == l)) [
  | inl e ↦ subst DirectiveEnds (sym ((==_iff c l).0 e)) known
  | inr e ↦ other e
]

directive-Ends : (c : ℕ) → DirectiveEnds c
directive-Ends c = known_or c b'c' char_letter (λ e1. known_or c b's' text_letter (λ e2.
    known_or c b'd' signed_letter (λ e3. known_or c b'i' integer_letter (λ e4.
      known_or c b'u' unsigned_letter (λ e5. known_or c b'x' hex_letter (λ e6.
        known_or c b'X' upper_letter (λ e7.
          known_or c b'p' pointer_letter (λ e8 arg width left fill h.
            unfold directive in
            elim (Bool-cases (c == b'%')) [
              | inl e ↦ (b'%' ∷ [], rw (e1, e2, e3, e4, e5, e6, e7, e8, e) refl)
              | inr e ↦ (b'%' ∷ c ∷ [], rw (e1, e2, e3, e4, e5, e6, e7, e8, e) refl)
            ]))))))))

Ends-append : (a b : Option (List ℕ)) → Ends a → Ends b → Ends (append_opt a b)
Ends-append a b (x, e) (y, f) = (x ++ y, rw (e, f) refl)

print_directive-Ends :
    (fmt : List ℕ) (args : List Arg) (go : List ℕ → List Arg → Option (List ℕ))
    (Fits : List ℕ → List Arg → Type 0)
    → ((cs : List ℕ) (as' : List Arg) → Fits cs as' → Ends (go cs as'))
    → DirectiveFits fmt args Fits
    → Ends (print_directive fmt args go)
unfolding print_directive
print_directive-Ends fmt args go Fits later h =
    elim (Bool-cases (leb (2 ^ 31) (field_width (flags fmt false space).2 0).0)) [
      | inl wide ↦ absurd (rw wide at h)
      | inr narrow ↦
          rw narrow (at_letter (field_width (flags fmt false space).2 0).1 (rw narrow at h))
    ]
  where
    at_letter :
        (fmt2 : List ℕ)
        → elim fmt2 as (λ x. Type 0) [
          | [] ↦ Unit {0}
          | c ∷ cs ↦
              Asked c (next_arg args) × Fits cs (if takes_arg c then later_args args else args)
        ]
        → Ends (elim fmt2 [
          | [] ↦ some []
          | c ∷ cs ↦
              append_opt
                (directive c
                  (next_arg args)
                  (field_width (flags fmt false space).2 0).0
                  (flags fmt false space).0
                  (flags fmt false space).1)
                (go cs (if takes_arg c then later_args args else args))
        ])
    at_letter [] h = ([], refl)
    at_letter (c ∷ cs) h =
        Ends-append
          (directive c (next_arg args) (field_width (flags fmt false space).2 0).0
            (flags fmt false space).0 (flags fmt false space).1)
          (go cs (if takes_arg c then later_args args else args))
          (directive-Ends c (next_arg args) (field_width (flags fmt false space).2 0).0
            (flags fmt false space).0 (flags fmt false space).1 h.0)
          (later cs (if takes_arg c then later_args args else args) h.1)

-- kprintf ends for every format and every list of arguments that has, for each directive that takes
-- one, an argument of its kind, a word below 2^32 or a string, which may be NULL, and whose widths are
-- each an `int`. It has a round more
-- than the format has bytes.
pub kvprintf-Ends :
    (fuel : ℕ) (fmt : List ℕ) (args : List Arg)
    → FormatFits fuel fmt args
    → (out : List ℕ) × (kvprintf fuel fmt args ≡ some out)
unfolding kvprintf FormatFits
kvprintf-Ends zero fmt args h = absurd h
kvprintf-Ends (suc fuel) [] args h = ([], refl)
kvprintf-Ends (suc fuel) (c ∷ cs) args h = elim (Bool-cases (c == b'%')) [
  | inl e ↦ rw e (
      print_directive-Ends cs args (kvprintf fuel) (FormatFits fuel) (kvprintf-Ends fuel)
        (rw e at h))
  | inr e ↦ rw e (
      Ends-append (some (c ∷ [])) (kvprintf fuel cs args) (c ∷ [], refl)
        (kvprintf-Ends fuel cs args (rw e at h)))
]
