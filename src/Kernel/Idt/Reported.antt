-- ===== src/Kernel/Idt/Reported.antt =====
-- What isr_handler of kernel/idt.c leaves on the serial port, with the names of the exceptions and the
-- words of the page fault line told independently of the code's tables.
use raptor_kernel.Prelude.{
  ℕ, ◌/◌, ◌%◌, ◌^◌, ◌<◌, ◌≡◌, refl, ap, sym, ◌∙◌, inl, inr, Bool, true, false, Option, none, some,
  List, [], ◌∷◌, ◌++◌, append-nil, append_assoc, ◌==◌, if◌then◌else◌, arith, Bool-cases,
}
use raptor_kernel.Prelude.Text.{bytes}
use raptor_kernel.Kprintf.Printed.{is_plain-Plain}
use raptor_kernel.Kprintf.Pieces.{Piece, plain, field, text, Prints, args_of}
use raptor_kernel.Console.{Console, console_putc, console_write}
use raptor_kernel.Console.Sent.{crlf, Sent, console_write-serial, crlf-append}
use raptor_kernel.Kernel.Panic.{Registers, panic_with_regs}
use raptor_kernel.Kernel.Panic.Lines.{
  IsSaved, register_pieces, PrintsAll, format_of-Prints, word8, eight-IsWidth, empty-IsWidth,
  panic_with_regs-Sent,
}
use raptor_kernel.Kernel.Idt.Names.{
  vector_name, exception_name_lem, write_bit, user_bit, present_bit,
}
use raptor_kernel.Kernel.Idt.Exception.{
  exception_name, page_fault_format, page_fault_args, report_fault, isr_handler,
}

-- The line on a page fault, in pieces: bit 1 of the error code is a write, bit 2 is user mode, and
-- bit 0 a page that is present.
abbrev pub fault_pieces : (err_code cr2 : ℕ) → List Piece
fault_pieces err_code cr2 =
    plain (bytes "\nPage fault: ")
    ∷ field false false []
        (text (some (if err_code / 2 % 2 == 1 then bytes "write" else bytes "read")))
    ∷ plain (bytes " access to ")
    ∷ word8 cr2
    ∷ plain (bytes " from ")
    ∷ field false false []
        (text (some (if err_code / 4 % 2 == 1 then bytes "user" else bytes "kernel")))
    ∷ plain (bytes " mode (")
    ∷ field false false [] (
        text (
          some
            (if err_code % 2 == 1 then bytes "protection violation" else bytes "page not present")))
    ∷ plain (bytes ")\n")
    ∷ []

-- What is reported of the exception before the panic.
abbrev pub Reported : Registers → (cr2 : ℕ) → (report : List ℕ) → Type 0
Reported r cr2 report =
    if r.int_no == 14 then Prints (fault_pieces r.err_code cr2) report else report ≡ []

fault_args : (err_code cr2 : ℕ) → args_of (fault_pieces err_code cr2) ≡ page_fault_args err_code cr2
fault_args err_code cr2 =
    rw
      (
        write_bit err_code (bytes "read") (bytes "write"),
        user_bit err_code (bytes "kernel") (bytes "user"),
        present_bit err_code (bytes "page not present") (bytes "protection violation"),
      )
      refl

-- In a capture nothing is sent.
captured-serial :
    (con : Console) (cs : List ℕ)
    → con.capturing ≡ true
    → (console_write con cs).serial ≡ con.serial
unfolding console_write
captured-serial con [] on = refl
captured-serial con (c ∷ cs) on =
    let (still, same) = one con c on in captured-serial (console_putc con c) cs still ∙ same
  where
    one :
        (con : Console) (c : ℕ)
        → con.capturing ≡ true
        → ((console_putc con c).capturing ≡ true) × ((console_putc con c).serial ≡ con.serial)
    one con c on = unfold console_putc in ground arith

-- What of a text is sent.
abbrev pub outside : (capturing : Bool) → (output : List ℕ) → List ℕ
outside capturing output = if capturing then [] else output

write-outside :
    (con : Console) (output : List ℕ)
    → (console_write con output).serial ≡ con.serial ++ crlf (outside con.capturing output)
unfolding crlf
write-outside con output = elim (Bool-cases con.capturing) [
  | inl on ↦
      captured-serial con output on
      ∙ sym (append-nil con.serial)
      ∙ ap (λ b. con.serial ++ crlf (outside b output)) (sym on)
  | inr off ↦
      console_write-serial con output off
      ∙ ap (λ b. con.serial ++ crlf (outside b output)) (sym off)
]

report_fault_lem :
    (con : Console) (cr2 : ℕ) (r : Registers)
    → cr2 < 2 ^ 32
    → (report : List ℕ) × Reported r cr2 report
      × (report_fault con cr2 r ≡ some (console_write con report))
unfolding report_fault console_write
report_fault_lem con cr2 r small = elim (Bool-cases (r.int_no == 14)) [
  | inl fault ↦
      let (out, e, shown) =
        format_of-Prints (bytes page_fault_format) (page_fault_args r.err_code cr2)
          (fault_pieces r.err_code cr2) refl (fault_args r.err_code cr2)
          (
            is_plain-Plain (bytes "\nPage fault: ") refl,
            (
              empty-IsWidth,
              tt,
              (
                is_plain-Plain (bytes " access to ") refl,
                (
                  eight-IsWidth,
                  small,
                  (
                    is_plain-Plain (bytes " from ") refl,
                    (
                      empty-IsWidth,
                      tt,
                      (
                        is_plain-Plain (bytes " mode (") refl,
                        (empty-IsWidth, tt, (is_plain-Plain (bytes ")\n") refl, tt)),
                      ),
                    ),
                  ),
                ),
              ),
            ),
          ) in
      (
        out,
        rw fault shown,
        rw fault (
            ap
              (λ o. elim o as (λ x. Option Console) [
                | none ↦ none
                | some o' ↦ some (console_write con o')
              ])
              e),
      )
  | inr other ↦ ([], rw other refl, rw other refl)
]

isr_handler-step :
    (con con' : Console) (cr2 : ℕ) (r : Registers)
    → report_fault con cr2 r ≡ some con'
    → isr_handler con cr2 r ≡ panic_with_regs con' (exception_name r.int_no) r
unfolding isr_handler
isr_handler-step con con' cr2 r e =
    ap
      (λ o. elim o as (λ x. Option Console) [
        | none ↦ none
        | some c ↦ panic_with_regs c (exception_name r.int_no) r
      ])
      e

-- Every exception, with all registers of 32 bits, ends in the panic that halts. The serial port is
-- sent, when it is a page fault, the line that tells from the error code's bits whether it was a read
-- or a write, of the kernel or a user, to a page that is not there or is protected, with the address
-- of `cr2`; and then the panic's five lines, with the name of the vector, which is Unknown from 32 on,
-- and each register behind its own name in base 16. In the middle of a capture the panic's lines are
-- sent all the same, but the line on the access is not.
pub isr_handler-Sent :
    (con : Console) (cr2 : ℕ) (r : Registers)
    → IsSaved r
    → cr2 < 2 ^ 32
    → (report output : List ℕ) × Reported r cr2 report
      × PrintsAll (register_pieces (vector_name r.int_no) r) output
      × (con' : Console) × (isr_handler con cr2 r ≡ some con')
      × Sent con con' (outside con.capturing report ++ output)
isr_handler-Sent con cr2 r saved small =
    let (report, reported, run) = report_fault_lem con cr2 r small in
    let (con', done, output, printed, sent) =
      panic_with_regs-Sent (console_write con report) (vector_name r.int_no) r saved in
    (
      report,
      output,
      reported,
      printed,
      con',
      isr_handler-step con (console_write con report) cr2 r run
          ∙ ap (λ name. panic_with_regs (console_write con report) name r)
              (exception_name_lem r.int_no)
          ∙ done,
      record {
        serial =
            sent.serial
            ∙ ap (λ s. s ++ crlf output) (write-outside con report)
            ∙ append_assoc con.serial (crlf (outside con.capturing report)) (crlf output)
            ∙ ap (λ s. con.serial ++ s) (sym (crlf-append (outside con.capturing report) output));
        over = sent.over;
      },
    )
