-- ===== src/Kernel/Boot.antt =====
-- kmain of kernel/main.c up to the file system: the machine's tables, drivers and memory, one after
-- the other. The addresses of the stubs and the kernel's end come from the assembly and the linker.
pub mod Steps
pub mod Ready
pub mod Refused
use Prim.Native.String.{String}
use raptor_kernel.Prelude.{
  ℕ, suc, ◌/◌, Option, none, some, List, [], ◌∷◌, ◌++◌, ◌==◌, if◌then◌else◌, length,
}
use raptor_kernel.Prelude.Text.{bytes}
use raptor_kernel.Version.{raptor_name, raptor_version, raptor_codename}
use raptor_kernel.Kprintf.{Arg, word, string}
use raptor_kernel.Console.{Console, console_write, console_putc, console_set_color, console_clear}
use raptor_kernel.Drivers.Serial.{serial_init}
use raptor_kernel.Drivers.Timer.{timer_init}
use raptor_kernel.Kernel.Event.{Event, outb, cr3}
use raptor_kernel.Kernel.Gdt.{GdtEntry, gdt_init, gdt_load}
use raptor_kernel.Kernel.Idt.{IdtEntry, irq_install_handler}
use raptor_kernel.Kernel.Idt.Init.{idt_init, pic_remap, idt_load}
use raptor_kernel.Kernel.Panic.{panic, printf_to}
use raptor_kernel.Mm.Kheap.{Heap, Memory, kheap_init, kheap_end_addr}
use raptor_kernel.Mm.Pmm.{Pmm, MultibootInfo, kernel_vbase, v2p, pmm_init, pmm_total_kib}
use raptor_kernel.Mm.Paging.{paging_init}
use raptor_kernel.Mm.Paging.Mapped.{paging_mapped_mib}

abbrev pub multiboot_magic : ℕ
multiboot_magic = 0x2badb002

-- The handlers that the drivers install.
pub data Driver : Type 0 where
  timer : Driver
  keyboard : Driver

-- What the bootloader and the linker give: the last three are the addresses of the tables.
pub record Given : Type 0 where
  pub magic : ℕ
  pub mbi : MultibootInfo
  pub isr : ℕ → ℕ
  pub irq : ℕ → ℕ
  pub kernel_end : ℕ
  pub gdt_at : ℕ
  pub idt_at : ℕ
  pub directory_at : ℕ

-- `sent` is what the parts' initialisation writes to the ports, without the cursor and the text of
-- the console, and what it loads into the processor's registers.
pub record Machine : Type 0 where
  pub console : Console
  pub sent : List (Event Driver)
  pub gdt : ℕ → GdtEntry
  pub idt : ℕ → IdtEntry
  pub handlers : ℕ → Option Driver
  pub heap : Heap
  pub pmm : Pmm
  pub page_directory : ℕ → ℕ

-- How a part of kmain ends: with the machine, or in the halt of a panic of its own. `failed` stands for
-- a panic of pmm_init or a loop out of fuel.
pub data Boot : Type 0 where
  running : Machine → Boot
  halted : Console → Boot
  failed : Boot

abbrev pub to_ports : List (ℕ × ℕ) → List (Event Driver)
to_ports [] = []
to_ports (p ∷ ps) = outb p.0 p.1 ∷ to_ports ps

abbrev pub shown : Machine → (Console → Console) → Machine
shown m f = record m { console = f m.console }

abbrev pub send : Machine → List (Event Driver) → Machine
send m es = record m { sent = m.sent ++ es }

-- kprintf, and what follows it.
abbrev pub with_text : Machine → String → List Arg → (Console → Boot) → Boot
with_text m fmt args go = elim (printf_to m.console fmt args) [ none ↦ failed | some con ↦ go con ]

-- "[ OK" in its colours.
unfoldable pub ok_mark : Console → Console
ok_mark con =
    let c1 = console_write con (bytes "[ ") in
    let c2 = console_write (console_set_color c1 10 0) (bytes "OK") in console_set_color c2 7 0

unfoldable pub step : Console → String → Console
unfolding ok_mark
step con what =
    let c = console_write (ok_mark (console_set_color con 7 0)) (bytes " ] ") in
    console_putc (console_write c (bytes what)) 10

unfoldable pub console_init : Machine → Machine
console_init m = send (shown m console_clear) (to_ports serial_init)

-- From gdt_init to kheap_init, with the lines that they print.
unfoldable pub drivers_up : Given → Memory → Machine → Machine
drivers_up g memory m =
    let m1 = record m {
      gdt = gdt_init m.gdt;
      sent = m.sent ++ gdt_load g.gdt_at;
      console = step m.console "Global descriptor table installed";
    } in
    let m2 = record m1 {
      idt = idt_init g.isr g.irq m1.idt;
      sent = (m1.sent ++ pic_remap) ++ idt_load g.idt_at;
      console = step m1.console "Interrupts enabled (IDT + PIC remapped to 32-47)";
    } in
    let m3 = record m2 {
      sent = m2.sent ++ to_ports timer_init;
      handlers = irq_install_handler m2.handlers 0 timer;
      console = step m2.console "PIT timer ticking at 100 Hz";
    } in
    let m4 = record m3 {
      handlers = irq_install_handler m3.handlers 1 keyboard;
      console = step m3.console "PS/2 keyboard ready";
    } in
    record m4 {
      heap = kheap_init g.kernel_end memory;
      console = step m4.console "Kernel heap initialized (4 MiB)";
    }

-- What paging_init does after it has filled the directory at `directory_at`.
abbrev pub paging_load : (directory_at : ℕ) → List (Event Driver)
paging_load directory_at = cr3 (v2p directory_at) ∷ []

-- paging_init and its line.
unfoldable pub paging_up : Given → Machine → Boot
paging_up g m =
    let pd = paging_init (pmm_total_kib m.pmm) m.page_directory in
    let m1 = record m {
      page_directory = pd;
      sent = m.sent ++ paging_load g.directory_at;
      console = ok_mark m.console;
    } in
    with_text m1 " ] Paging enabled (%u MiB at %08x, NULL page unmapped)\n"
      (word (paging_mapped_mib pd) ∷ word kernel_vbase ∷ [])
      (λ con. running (record m1 { console = con }))

-- From pmm_init to paging_init.
unfoldable pub memory_up : (fuel : ℕ) → Given → Machine → Boot
unfolding paging_up ok_mark
memory_up fuel g m = elim (pmm_init fuel g.mbi (kheap_end_addr m.heap) m.pmm) [
  | none ↦ failed
  | some p ↦
      let m1 = record m { pmm = p; console = ok_mark m.console } in
      with_text m1 " ] Physical memory: %u MiB detected\n" (word (pmm_total_kib p / 1024) ∷ [])
        (λ con. paging_up g (record m1 { console = con }))
]

-- kmain, from console_init to paging_init.
unfoldable pub bring_up : (fuel : ℕ) → Given → Memory → Machine → Boot
unfolding memory_up drivers_up console_init
bring_up fuel g memory m =
    let m1 = shown (console_init m) (λ con. console_set_color con 10 0) in
    with_text m1 "\n%s %s (%s) booting...\n\n"
      (string (some raptor_name)
        ∷ string (some raptor_version)
        ∷ string (some raptor_codename)
        ∷ [])
      (λ con.
        let m2 = record m1 { console = console_set_color con 7 0 } in
        if g.magic == multiboot_magic
        then memory_up fuel g (drivers_up g memory m2)
        else elim (panic m2.console (bytes "not loaded by a Multiboot bootloader (magic %08x)")
            (word g.magic ∷ [])) [ none ↦ failed | some con' ↦ halted con' ])
