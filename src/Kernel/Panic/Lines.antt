-- ===== src/Kernel/Panic/Lines.antt =====
-- What panic_with_regs of kernel/panic.c prints, line by line, told by the pieces of each line.
use Prim.Native.String.{String}
use raptor_kernel.Prelude.{
  ℕ, suc, ◌≡◌, refl, ap, sym, ◌∙◌, true, false, Option, none, some, List, [], ◌∷◌, ◌++◌, append-nil,
  append_assoc, length, subst, ◌<◌, ◌^◌, arith,
}
use raptor_kernel.Prelude.Text.{bytes}
use raptor_kernel.Kprintf.{Arg, word, string, kvprintf}
use raptor_kernel.Console.{Console, console_write}
use raptor_kernel.Console.Sent.{Sent, Sent-write}
use raptor_kernel.Kprintf.Digits.{number}
use raptor_kernel.Kprintf.Pieces.{
  Piece, plain, field, text, unsigned, hex, format_of, args_of, ArePieces, IsWidth, NoNought,
  Prints,
}
use raptor_kernel.Kprintf.Printed.{kvprintf-Prints, is_plain-Plain}
use raptor_kernel.Kernel.Panic.{
  Registers, print_lines, register_lines, panic_console, panic_console-Sent, panic_with_regs,
}

print_lines-step :
    (con : Console) (l : String × List Arg) (ls : List (String × List Arg)) (out : List ℕ)
    → kvprintf (suc (length (bytes l.0))) (bytes l.0) l.1 ≡ some out
    → print_lines con (l ∷ ls) ≡ print_lines (console_write con out) ls
unfolding print_lines
print_lines-step con l ls out e =
    ap
      (λ o.
        elim (elim o as (λ x. Option Console) [
          | none ↦ none
          | some out' ↦ some (console_write con out')
        ])
          as (λ x. Option Console) [ none ↦ none | some con' ↦ print_lines con' ls ])
      e

-- Each register has 32 bits.
abbrev pub IsSaved : Registers → Type 0
IsSaved r =
    (r.ds < 2 ^ 32)
    × (r.edi < 2 ^ 32)
    × (r.esi < 2 ^ 32)
    × (r.ebp < 2 ^ 32)
    × (r.esp < 2 ^ 32)
    × (r.ebx < 2 ^ 32)
    × (r.edx < 2 ^ 32)
    × (r.ecx < 2 ^ 32)
    × (r.eax < 2 ^ 32)
    × (r.int_no < 2 ^ 32)
    × (r.err_code < 2 ^ 32)
    × (r.eip < 2 ^ 32)
    × (r.cs < 2 ^ 32)
    × (r.eflags < 2 ^ 32)

-- A 32-bit word with eight digits, and one with four, in base 16.
abbrev pub word8 : ℕ → Piece
word8 w = field false true (bytes "8") (hex false w)

abbrev pub word4 : ℕ → Piece
word4 w = field false true (bytes "4") (hex false w)

-- The five lines, in pieces.
abbrev pub register_pieces : (reason : List ℕ) → Registers → List (List Piece)
register_pieces reason r =
    (plain (bytes "\n*** KERNEL PANIC: ")
      ∷ field false false [] (text (some reason))
      ∷ plain (bytes " (vector ")
      ∷ field false false [] (unsigned r.int_no)
      ∷ plain (bytes ", error ")
      ∷ word8 r.err_code
      ∷ plain (bytes ") ***\n")
      ∷ [])
    ∷ (plain (bytes "eax=")
        ∷ word8 r.eax
        ∷ plain (bytes " ebx=")
        ∷ word8 r.ebx
        ∷ plain (bytes " ecx=")
        ∷ word8 r.ecx
        ∷ plain (bytes " edx=")
        ∷ word8 r.edx
        ∷ plain (bytes "\n")
        ∷ [])
    ∷ (plain (bytes "esi=")
        ∷ word8 r.esi
        ∷ plain (bytes " edi=")
        ∷ word8 r.edi
        ∷ plain (bytes " ebp=")
        ∷ word8 r.ebp
        ∷ plain (bytes " esp=")
        ∷ word8 r.esp
        ∷ plain (bytes "\n")
        ∷ [])
    ∷ (plain (bytes "eip=")
        ∷ word8 r.eip
        ∷ plain (bytes " cs=")
        ∷ word4 r.cs
        ∷ plain (bytes " ds=")
        ∷ word4 r.ds
        ∷ plain (bytes " eflags=")
        ∷ word8 r.eflags
        ∷ plain (bytes "\n")
        ∷ [])
    ∷ (plain (bytes "System halted.\n") ∷ [])
    ∷ []

-- What lines print, one after the other.
abbrev pub PrintsAll : List (List Piece) → (out : List ℕ) → Type 0
PrintsAll [] out = out ≡ []
PrintsAll (ps ∷ pss) out = (a b : List ℕ) × Prints ps a × PrintsAll pss b × (out ≡ a ++ b)

-- The lines are those of the pieces.
abbrev AreLines : List (String × List Arg) → List (List Piece) → Type 0
AreLines [] [] = Unit {0}
AreLines [] (ps ∷ pss) = ⊥
AreLines (l ∷ ls) [] = ⊥
AreLines (l ∷ ls) (ps ∷ pss) =
    ((format_of ps ≡ bytes l.0) × (args_of ps ≡ l.1) × ArePieces ps) × AreLines ls pss

-- A format that is that of pieces prints them.
pub format_of-Prints :
    (fmt : List ℕ) (args : List Arg) (ps : List Piece)
    → format_of ps ≡ fmt
    → args_of ps ≡ args
    → ArePieces ps
    → (out : List ℕ) × (kvprintf (suc (length fmt)) fmt args ≡ some out) × Prints ps out
format_of-Prints fmt args ps e a ok =
    subst (λ as'. (out : List ℕ) × (kvprintf (suc (length fmt)) fmt as' ≡ some out) × Prints ps out)
      a
      (subst
        (λ f.
          (out : List ℕ) × (kvprintf (suc (length f)) f (args_of ps) ≡ some out) × Prints ps out)
        e (kvprintf-Prints (suc (length (format_of ps))) ps ok (omega arith)))

print_lines-Sent :
    (con0 con : Console) (before : List ℕ) (ls : List (String × List Arg)) (pss : List (List Piece))
    → Sent con0 con before
    → AreLines ls pss
    → (con' : Console) × (print_lines con ls ≡ some con')
      × (more : List ℕ) × PrintsAll pss more
      × Sent con0 con' (before ++ more)
unfolding print_lines
print_lines-Sent con0 con before [] [] sent h =
    (con, refl, [], refl, subst (Sent con0 con) (sym (append-nil before)) sent)
print_lines-Sent con0 con before [] (ps ∷ pss) sent h = absurd h
print_lines-Sent con0 con before (l ∷ ls) [] sent h = absurd h
print_lines-Sent con0 con before (l ∷ ls) (ps ∷ pss) sent ((same, args, ok), later) =
    let (out, e, shown) = format_of-Prints (bytes l.0) l.1 ps same args ok in
    let (con', run, more, printed, done) =
      print_lines-Sent con0 (console_write con out) (before ++ out) ls pss
        (Sent-write con0 con before out sent) later in
    (
      con',
      print_lines-step con l ls out e ∙ run,
      out ++ more,
      (out, more, shown, printed, refl),
      subst (Sent con0 con') (append_assoc before out more) done,
    )

pub eight-IsWidth : IsWidth (bytes "8") × NoNought (bytes "8") × (number 10 (bytes "8") 0 < 2 ^ 31)
unfolding number raptor_kernel.Kprintf.Digits.digit_value
eight-IsWidth = ((refl, tt), refl, omega arith)

four-IsWidth : IsWidth (bytes "4") × NoNought (bytes "4") × (number 10 (bytes "4") 0 < 2 ^ 31)
unfolding number raptor_kernel.Kprintf.Digits.digit_value
four-IsWidth = ((refl, tt), refl, omega arith)

pub empty-IsWidth : IsWidth [] × NoNought [] × (number 10 [] 0 < 2 ^ 31)
unfolding number
empty-IsWidth = (tt, tt, omega arith)

-- panic_with_regs prints its five lines, with the reason and the registers, for every reason and all
-- registers of 32 bits, over the serial port even in the middle of a capture, and nothing is captured
-- any more.
pub panic_with_regs-Sent :
    (con : Console) (reason : List ℕ) (r : Registers)
    → IsSaved r
    → (con' : Console) × (panic_with_regs con reason r ≡ some con')
      × (out : List ℕ) × PrintsAll (register_pieces reason r) out
      × Sent con con' out
unfolding panic_with_regs
panic_with_regs-Sent con reason r
      (ds, edi, esi, ebp, esp, ebx, edx, ecx, eax, int_no, err_code, eip, cs, eflags) =
    print_lines-Sent con (panic_console con) [] (register_lines reason r) (register_pieces reason r)
      (panic_console-Sent con)
      (
        (
          refl,
          refl,
          (
            is_plain-Plain (bytes "\n*** KERNEL PANIC: ") refl,
            (
              empty-IsWidth,
              tt,
              (
                is_plain-Plain (bytes " (vector ") refl,
                (
                  empty-IsWidth,
                  int_no,
                  (
                    is_plain-Plain (bytes ", error ") refl,
                    (eight-IsWidth, err_code, (is_plain-Plain (bytes ") ***\n") refl, tt)),
                  ),
                ),
              ),
            ),
          ),
        ),
        (
          (
            refl,
            refl,
            (
              is_plain-Plain (bytes "eax=") refl,
              (
                eight-IsWidth,
                eax,
                (
                  is_plain-Plain (bytes " ebx=") refl,
                  (
                    eight-IsWidth,
                    ebx,
                    (
                      is_plain-Plain (bytes " ecx=") refl,
                      (
                        eight-IsWidth,
                        ecx,
                        (
                          is_plain-Plain (bytes " edx=") refl,
                          (eight-IsWidth, edx, (is_plain-Plain (bytes "\n") refl, tt)),
                        ),
                      ),
                    ),
                  ),
                ),
              ),
            ),
          ),
          (
            (
              refl,
              refl,
              (
                is_plain-Plain (bytes "esi=") refl,
                (
                  eight-IsWidth,
                  esi,
                  (
                    is_plain-Plain (bytes " edi=") refl,
                    (
                      eight-IsWidth,
                      edi,
                      (
                        is_plain-Plain (bytes " ebp=") refl,
                        (
                          eight-IsWidth,
                          ebp,
                          (
                            is_plain-Plain (bytes " esp=") refl,
                            (eight-IsWidth, esp, (is_plain-Plain (bytes "\n") refl, tt)),
                          ),
                        ),
                      ),
                    ),
                  ),
                ),
              ),
            ),
            (
              (
                refl,
                refl,
                (
                  is_plain-Plain (bytes "eip=") refl,
                  (
                    eight-IsWidth,
                    eip,
                    (
                      is_plain-Plain (bytes " cs=") refl,
                      (
                        four-IsWidth,
                        cs,
                        (
                          is_plain-Plain (bytes " ds=") refl,
                          (
                            four-IsWidth,
                            ds,
                            (
                              is_plain-Plain (bytes " eflags=") refl,
                              (eight-IsWidth, eflags, (is_plain-Plain (bytes "\n") refl, tt)),
                            ),
                          ),
                        ),
                      ),
                    ),
                  ),
                ),
              ),
              ((refl, refl, (is_plain-Plain (bytes "System halted.\n") refl, tt)), tt),
            ),
          ),
        ),
      )
