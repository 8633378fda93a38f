-- ===== src/Kernel/Panic.antt =====
-- kernel/panic.c: what a panic leaves on the console when it halts. `none` says that the arguments are
-- not those that the format asks for.
pub mod Lines
use Prim.Native.String.{String}
use raptor_kernel.Prelude.{
  ℕ, suc, ◌≡◌, refl, ap, sym, ◌∙◌, true, false, Option, none, some, List, [], ◌∷◌, ◌++◌, append-nil,
  append_assoc, length, subst, ◌<◌, ◌^◌, arith,
}
use raptor_kernel.Prelude.Text.{bytes}
use raptor_kernel.Kprintf.{Arg, word, string, kvprintf}
use raptor_kernel.Console.{Console, console_write, console_set_color, console_capture_end}
use raptor_kernel.Console.Sent.{crlf, Sent, Sent-write}
use raptor_kernel.Kprintf.Total.{FormatFits, kvprintf-Ends}
use raptor_kernel.Kprintf.Digits.{number}
use raptor_kernel.Kprintf.Formats.{Plain}
use raptor_kernel.Kprintf.Pieces.{
  Piece, plain, field, text, unsigned, hex, format_of, args_of, ArePieces, IsWidth, NoNought,
  Prints,
}
use raptor_kernel.Kprintf.Printed.{kvprintf-Prints, is_plain, is_plain-Plain}

-- The registers that panic_with_regs prints.
pub record Registers : Type 0 where
  pub ds : ℕ
  pub edi : ℕ
  pub esi : ℕ
  pub ebp : ℕ
  pub esp : ℕ
  pub ebx : ℕ
  pub edx : ℕ
  pub ecx : ℕ
  pub eax : ℕ
  pub int_no : ℕ
  pub err_code : ℕ
  pub eip : ℕ
  pub cs : ℕ
  pub eflags : ℕ

-- kprintf to a console.
abbrev pub printf_to : Console → String → List Arg → Option Console
printf_to con fmt args = elim (kvprintf (suc (length (bytes fmt))) (bytes fmt) args) [
  | none ↦ none
  | some out ↦ some (console_write con out)
]

-- The console without a capture, in white on red.
unfoldable pub panic_console : Console → Console
panic_console con = console_set_color (console_capture_end con).1 15 4

unfoldable pub panic : Console → (fmt : List ℕ) → List Arg → Option Console
unfolding panic_console
panic con fmt args =
    let shown = console_write (panic_console con) (bytes "\n*** KERNEL PANIC ***\n") in
    elim (kvprintf (suc (length fmt)) fmt args) [
      | none ↦ none
      | some out ↦ some (console_write (console_write shown out) (bytes "\nSystem halted.\n"))
    ]

-- One line after the other, each with its arguments.
unfoldable pub print_lines : Console → List (String × List Arg) → Option Console
print_lines con [] = some con
print_lines con (l ∷ ls) = elim (printf_to con l.0 l.1) [
  | none ↦ none
  | some con' ↦ print_lines con' ls
]

-- The lines of panic_with_regs, each a format and its arguments; the last is a text without a directive.
abbrev pub register_lines : (reason : List ℕ) → Registers → List (String × List Arg)
register_lines reason r =
    (
      "\n*** KERNEL PANIC: %s (vector %u, error %08x) ***\n",
      string (some reason) ∷ word r.int_no ∷ word r.err_code ∷ [],
    )
    ∷ (
      "eax=%08x ebx=%08x ecx=%08x edx=%08x\n",
      word r.eax ∷ word r.ebx ∷ word r.ecx ∷ word r.edx ∷ [],
    )
    ∷ (
      "esi=%08x edi=%08x ebp=%08x esp=%08x\n",
      word r.esi ∷ word r.edi ∷ word r.ebp ∷ word r.esp ∷ [],
    )
    ∷ (
      "eip=%08x cs=%04x ds=%04x eflags=%08x\n",
      word r.eip ∷ word r.cs ∷ word r.ds ∷ word r.eflags ∷ [],
    )
    ∷ ("System halted.\n", [])
    ∷ []

unfoldable pub panic_with_regs : Console → (reason : List ℕ) → Registers → Option Console
unfolding print_lines panic_console
panic_with_regs con reason r = print_lines (panic_console con) (register_lines reason r)

pub panic_console-Sent : (con : Console) → Sent con (panic_console con) []
unfolding panic_console console_capture_end console_set_color crlf
panic_console-Sent con = record { serial = sym (append-nil con.serial); over = refl }

-- A panic whose arguments are of the kinds that its format asks for is seen, even when it comes in the
-- middle of a capture: the serial port is sent the heading, the formatted reason and the last line,
-- and nothing is captured any more.
pub panic-Sent :
    (con : Console) (fmt : List ℕ) (args : List Arg)
    → FormatFits (suc (length fmt)) fmt args
    → (out : List ℕ) × (kvprintf (suc (length fmt)) fmt args ≡ some out)
      × (con' : Console) × (panic con fmt args ≡ some con')
      × Sent con con' ((bytes "\n*** KERNEL PANIC ***\n" ++ out) ++ bytes "\nSystem halted.\n")
unfolding panic
panic-Sent con fmt args fits =
    let heading = bytes "\n*** KERNEL PANIC ***\n" in
    let last_line = bytes "\nSystem halted.\n" in
    let (out, e) = kvprintf-Ends (suc (length fmt)) fmt args fits in
    let con1 = console_write (panic_console con) heading in
    let one = Sent-write con (panic_console con) [] heading (panic_console-Sent con) in
    let two = Sent-write con con1 heading out one in
    (
      out,
      e,
      console_write (console_write con1 out) last_line,
      ap
          (λ o. elim o as (λ x. Option Console) [
            | none ↦ none
            | some out' ↦ some (console_write (console_write con1 out') last_line)
          ])
          e,
      Sent-write con (console_write con1 out) (heading ++ out) last_line two,
    )
