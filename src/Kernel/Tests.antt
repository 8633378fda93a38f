-- ===== src/Kernel/Tests.antt =====
-- kernel/main.c on a machine of 8 MiB, and by another loader.
use raptor_kernel.Prelude.{ℕ, ◌+◌, ◌*◌, ◌%◌, ◌≡◌, refl, false, none, List, [], ◌++◌, arith}
use raptor_kernel.Prelude.Text.{bytes}
use raptor_kernel.Console.{Console}
use raptor_kernel.Console.Sent.{Sent}
use raptor_kernel.Kprintf.Numeral.{Numeral}
use raptor_kernel.Kprintf.Pieces.{padded}
use raptor_kernel.Console.Tests.{quiet}
use raptor_kernel.Mm.Pmm.Boot.{boot_fuel}
use raptor_kernel.Mm.Pmm.Tests.{cold, cold-IsCounted}
use raptor_kernel.Mm.Kheap.Tests.{blank}
use raptor_kernel.Kernel.Boot.{Given, Machine, multiboot_magic, running, halted, bring_up}
use raptor_kernel.Kernel.Boot.Ready.{IsGiven, Ready, bring_up-Ready}
use raptor_kernel.Kernel.Boot.Refused.{boot_banner, bring_up-halted}

abbrev given : Given
given = record {
  magic = multiboot_magic;
  mbi = record { flags = 1; mem_upper = 7168 };
  isr = λ i. 0xc010_0000 + i % 32 * 16;
  irq = λ i. 0xc010_0200 + i % 16 * 16;
  kernel_end = 0xc020_0000;
  gdt_at = 0xc011_0000;
  idt_at = 0xc011_1000;
  directory_at = 0xc011_2000;
}

abbrev off : Machine
off = record {
  console = quiet;
  sent = [];
  gdt = λ i. record {
    limit_low = 0;
    base_low = 0;
    base_mid = 0;
    access = 0;
    granularity = 0;
    base_high = 0;
  };
  idt = λ i. record { base_low = 0; selector = 0; zero_byte = 0; flags = 0; base_high = 0 };
  handlers = λ i. none;
  heap = record { start = 0; head = 0; memory = blank };
  pmm = cold;
  page_directory = λ i. 0;
}

bring_up-Ready_example :
    (m' : Machine) × (bring_up boot_fuel given blank off ≡ running m') × Ready given off m'
bring_up-Ready_example =
    bring_up-Ready boot_fuel given blank off (omega arith) is_given cold-IsCounted
  where
    is_given : IsGiven given
    is_given = record {
      known = refl;
      has_map = λ e. omega (arith, e);
      small = omega arith;
      above = omega arith;
      fits = omega arith;
      isr_small = λ i. omega arith;
      irq_small = λ i. omega arith;
    }

-- A loader of the second Multiboot standard.
abbrev other_loader : Given
other_loader = record given { magic = 0x36d7_6289 }

bring_up-halted_example :
    (t : List ℕ) × (con : Console) × Numeral 16 false 0x36d7_6289 t
    × (bring_up 0 other_loader blank off ≡ halted con)
    × Sent quiet con (
        boot_banner
        ++ ((bytes "\n*** KERNEL PANIC ***\n"
              ++ (bytes "not loaded by a Multiboot bootloader (magic "
                  ++ (padded false b'0' 8 t ++ bytes ")")))
            ++ bytes "\nSystem halted.\n"))
bring_up-halted_example =
    bring_up-halted 0 other_loader blank off (λ e. omega (arith, e)) (omega arith) refl
