-- ===== src/Kernel/Idt/Tests.antt =====
-- kernel/idt.c: the keyboard's interrupt, and a page fault in the middle of a capture.
use raptor_kernel.Prelude.{ℕ, ◌≡◌, refl, Option, none, some, List, [], ◌∷◌, ◌++◌, arith}
use raptor_kernel.Kernel.Event.{ran, outb}
use raptor_kernel.Kernel.Idt.{irq_install_handler, irq_handler, run_handler}
use raptor_kernel.Console.{Console, console_capture_begin}
use raptor_kernel.Console.Sent.{Sent}
use raptor_kernel.Console.Tests.{quiet}
use raptor_kernel.Kernel.Panic.{Registers}
use raptor_kernel.Kernel.Panic.Lines.{register_pieces, PrintsAll}
use raptor_kernel.Kernel.Idt.Exception.{isr_handler}
use raptor_kernel.Kernel.Idt.Names.{vector_name}
use raptor_kernel.Kernel.Idt.Reported.{outside, Reported, isr_handler-Sent}

-- Handlers are numbered here.
abbrev no_handlers : ℕ → Option ℕ
no_handlers _ = none

key_pressed : irq_handler (irq_install_handler no_handlers 1 7) 33 ≡ ran 7 ∷ outb 0x20 0x20 ∷ []
unfolding irq_handler irq_install_handler run_handler
key_pressed = refl

-- A write of the kernel to a page that is not there.
abbrev fault : Registers
fault = record {
  ds = 0x10;
  edi = 0;
  esi = 0;
  ebp = 0xc010_ff00;
  esp = 0xc010_fe00;
  ebx = 0;
  edx = 0;
  ecx = 0;
  eax = 0xdead_beef;
  int_no = 14;
  err_code = 2;
  eip = 0xc010_1234;
  cs = 0x08;
  eflags = 0x202;
}

abbrev capturing_console : Console
capturing_console = console_capture_begin quiet (λ _. 0) 16

isr_handler-Sent_example :
    (report text : List ℕ) × Reported fault 0xdead_beef report
    × PrintsAll (register_pieces (vector_name 14) fault) text
    × (con' : Console) × (isr_handler capturing_console 0xdead_beef fault ≡ some con')
    × Sent capturing_console con' (outside capturing_console.capturing report ++ text)
isr_handler-Sent_example =
    isr_handler-Sent capturing_console 0xdead_beef fault (omega arith) (omega arith)
