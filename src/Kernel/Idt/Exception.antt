-- ===== src/Kernel/Idt/Exception.antt =====
-- isr_handler of kernel/idt.c: an exception of the processor, up to the panic that halts.
use Prim.Native.Nat.{bit_and}
use Prim.Native.String.{String}
use raptor_kernel.Prelude.{ℕ, Option, none, some, List, [], ◌∷◌, ltb, ◌==◌, if◌then◌else◌, get_or}
use raptor_kernel.Prelude.Text.{bytes}
use raptor_kernel.Kprintf.{Arg, word, string}
use raptor_kernel.Console.{Console}
use raptor_kernel.Kernel.Panic.{Registers, printf_to, panic_with_regs}

abbrev pub exception_names : List (List ℕ)
exception_names =
    bytes "Division by zero"
    ∷ bytes "Debug"
    ∷ bytes "Non-maskable interrupt"
    ∷ bytes "Breakpoint"
    ∷ bytes "Overflow"
    ∷ bytes "Bound range exceeded"
    ∷ bytes "Invalid opcode"
    ∷ bytes "Device not available"
    ∷ bytes "Double fault"
    ∷ bytes "Coprocessor segment overrun"
    ∷ bytes "Invalid TSS"
    ∷ bytes "Segment not present"
    ∷ bytes "Stack-segment fault"
    ∷ bytes "General protection fault"
    ∷ bytes "Page fault"
    ∷ bytes "Reserved"
    ∷ bytes "x87 floating-point exception"
    ∷ bytes "Alignment check"
    ∷ bytes "Machine check"
    ∷ bytes "SIMD floating-point exception"
    ∷ bytes "Virtualization exception"
    ∷ bytes "Control protection exception"
    ∷ bytes "Reserved"
    ∷ bytes "Reserved"
    ∷ bytes "Reserved"
    ∷ bytes "Reserved"
    ∷ bytes "Reserved"
    ∷ bytes "Reserved"
    ∷ bytes "Hypervisor injection exception"
    ∷ bytes "VMM communication exception"
    ∷ bytes "Security exception"
    ∷ bytes "Reserved"
    ∷ []

abbrev pub exception_name : (int_no : ℕ) → List ℕ
exception_name int_no = if ltb int_no 32 then get_or exception_names int_no [] else bytes "Unknown"

abbrev pub page_fault_args : (err_code cr2 : ℕ) → List Arg
page_fault_args err_code cr2 =
    string (some (if bit_and err_code 2 == 0 then bytes "read" else bytes "write"))
    ∷ word cr2
    ∷ string (some (if bit_and err_code 4 == 0 then bytes "kernel" else bytes "user"))
    ∷ string (
        some (
          if bit_and err_code 1 == 0
          then bytes "page not present"
          else bytes "protection violation"))
    ∷ []

abbrev pub page_fault_format : String
page_fault_format = "\nPage fault: %s access to %08x from %s mode (%s)\n"

-- The line on a page fault. `cr2` is the register of the faulting address.
unfoldable pub report_fault : Console → (cr2 : ℕ) → Registers → Option Console
report_fault con cr2 r =
    if r.int_no == 14
    then printf_to con page_fault_format (page_fault_args r.err_code cr2)
    else some con

unfoldable pub isr_handler : Console → (cr2 : ℕ) → Registers → Option Console
unfolding report_fault panic_with_regs
isr_handler con cr2 r = elim (report_fault con cr2 r) [
  | none ↦ none
  | some con' ↦ panic_with_regs con' (exception_name r.int_no) r
]
