-- ===== src/Kernel/Boot/Ready.antt =====
-- What kmain of kernel/main.c has brought up when it gets to the file system.
use Prim.Native.Nat.{bit_and}
use raptor_kernel.Prelude.{
  ℕ, Bool, ◌+◌, ◌-◌, ◌*◌, ◌/◌, ◌^◌, ◌<◌, ◌≤◌, ◌≡◌, ◌≢◌, refl, ◌∙◌, true, Option, List, [], ◌∷◌,
  append_assoc, ◌++◌, if◌then◌else◌, ltb, arith, min,
}
use raptor_kernel.Drivers.Serial.{serial_init}
use raptor_kernel.Drivers.Timer.{timer_init}
use raptor_kernel.Kernel.Gdt.{Flat, gdt_load, gdt_init-Flat}
use raptor_kernel.Kernel.Event.{Event, ran, outb, lgdt, lidt, segments, sti, cr3}
use raptor_kernel.Kernel.Idt.{irq_install_handler, irq_handler, run_handler, pic1_cmd, pic_eoi}
use raptor_kernel.Kernel.Idt.Init.{GateTo, idt_init, idt_load, pic_remap, idt_init_lem}
use raptor_kernel.Mm.Kheap.{Memory, kheap_init, kheap_end_addr, heap_size, header_size}
use raptor_kernel.Mm.Kheap.Cells.{cell}
use raptor_kernel.Mm.Kheap.Holds.{Holds, kheap_init-Holds, kheap_end_addr_lem}
use raptor_kernel.Mm.Pmm.{
  kernel_vbase, v2p, flag_mem, max_frames, page_size, is_marked, pmm_total_kib,
}
use raptor_kernel.Mm.Pmm.Count.{IsCounted}
use raptor_kernel.Mm.Pmm.Boot.{boot_fuel, pmm_init_lem, pmm_total_kib_lem}
use raptor_kernel.Mm.Paging.{kernel_pde, pde_flags, paging_init, paging_init_lem, paging_init-lower}
use raptor_kernel.Kernel.Boot.{
  Given, Machine, Driver, timer, keyboard, running, multiboot_magic, to_ports, paging_load,
  console_init, drivers_up, bring_up,
}
use raptor_kernel.Kernel.Boot.Steps.{memory_up-run, bring_up-run}

-- What the bootloader and the linker give is as documented: Multiboot's magic and a memory map, stubs
-- with 32-bit addresses, and a kernel in the upper GiB with a heap behind it.
pub record IsGiven (g : Given) : Type 0 where
  pub known : g.magic ≡ multiboot_magic
  pub has_map : bit_and g.mbi.flags flag_mem ≢ 0
  pub small : g.mbi.mem_upper + 1024 < 2 ^ 32
  pub above : kernel_vbase ≤ g.kernel_end
  pub fits : g.kernel_end + page_size + heap_size < 2 ^ 32
  pub isr_small : (i : ℕ) → g.isr i < 2 ^ 32
  pub irq_small : (i : ℕ) → g.irq i < 2 ^ 32

-- A byte to a port, and the pause behind it.
abbrev paused : (port value : ℕ) → List (Event Driver)
paused port value = outb port value ∷ outb 0x80 0 ∷ []

-- The bytes of the boot and the registers that it loads: COM1 at 115200 baud, 8 bits, with its FIFO and
-- modem lines; the segment table and the selectors; the two interrupt controllers, started, moved to
-- the vectors 32 and 40, joined at line 2, in 8086 mode and with every line open; the table of 256
-- gates, and only then interrupts; the timer's channel 0 in mode 3 with the divisor 11931 for 100 Hz;
-- and last the page directory, by its physical address.
abbrev pub boot_events : Given → List (Event Driver)
boot_events g =
    (outb 0x3f9 0x00
      ∷ outb 0x3fb 0x80
      ∷ outb 0x3f8 0x01
      ∷ outb 0x3f9 0x00
      ∷ outb 0x3fb 0x03
      ∷ outb 0x3fa 0xc7
      ∷ outb 0x3fc 0x0b
      ∷ [])
    ++ (lgdt 39 g.gdt_at ∷ segments 0x08 0x10 ∷ [])
    ++ paused 0x20 0x11
    ++ paused 0xa0 0x11
    ++ paused 0x21 32
    ++ paused 0xa1 40
    ++ paused 0x21 0x04
    ++ paused 0xa1 0x02
    ++ paused 0x21 0x01
    ++ paused 0xa1 0x01
    ++ (outb 0x21 0x00 ∷ outb 0xa1 0x00 ∷ [])
    ++ (lidt 2047 g.idt_at ∷ sti ∷ [])
    ++ (outb 0x43 0x36 ∷ outb 0x40 0x9b ∷ outb 0x40 0x2e ∷ [])
    ++ (cr3 (v2p g.directory_at) ∷ [])

-- The machine `m'` that kmain has brought up from `m`.
pub record Ready (g : Given) (m m' : Machine) : Type 0 where
  -- What the initialisation did to the ports and the processor, in this order.
  pub order : m'.sent ≡ m.sent ++ boot_events g
  pub code : Flat (m'.gdt 1) 0x9a
  pub stack : Flat (m'.gdt 2) 0x92
  pub exceptions : (i : ℕ) → i < 32 → GateTo (m'.idt i) (g.isr i)
  pub interrupts : (j : ℕ) → j < 16 → GateTo (m'.idt (32 + j)) (g.irq j)
  pub clock : irq_handler m'.handlers 32 ≡ ran timer ∷ outb pic1_cmd pic_eoi ∷ []
  pub keys : irq_handler m'.handlers 33 ≡ ran keyboard ∷ outb pic1_cmd pic_eoi ∷ []
  pub heap : Holds m'.heap (cell (heap_size - header_size) true ∷ [])
  pub heap_behind : g.kernel_end ≤ m'.heap.start
  pub counted : IsCounted m'.pmm
  pub frames : m'.pmm.total_frames ≡ min max_frames ((g.mbi.mem_upper + 1024) / 4)
  pub reserved : (f : ℕ) → f * page_size < v2p (kheap_end_addr m'.heap) → is_marked m'.pmm f ≡ true
  pub mapped :
      (a : ℕ)
      → a < m'.pmm.total_frames * page_size
      → m'.page_directory (kernel_pde + a / 2 ^ 22) ≡ a / 2 ^ 22 * 2 ^ 22 + pde_flags
  pub lower : (j : ℕ) → j < kernel_pde → m'.page_directory j ≡ m.page_directory j

drivers_up-tables :
    (g : Given) (memory : Memory) (m : Machine)
    → ((drivers_up g memory m).idt ≡ idt_init g.isr g.irq m.idt)
      × ((drivers_up g memory m).handlers
          ≡ irq_install_handler (irq_install_handler m.handlers 0 timer) 1 keyboard)
      × ((drivers_up g memory m).heap ≡ kheap_init g.kernel_end memory)
      × ((drivers_up g memory m).pmm ≡ m.pmm)
      × ((drivers_up g memory m).page_directory ≡ m.page_directory)
unfolding drivers_up
drivers_up-tables g memory m = (refl, refl, refl, refl, refl)

two_handlers :
    (hs : ℕ → Option Driver)
    → let hs' = irq_install_handler (irq_install_handler hs 0 timer) 1 keyboard in
      (irq_handler hs' 32 ≡ ran timer ∷ outb pic1_cmd pic_eoi ∷ [])
      × (irq_handler hs' 33 ≡ ran keyboard ∷ outb pic1_cmd pic_eoi ∷ [])
unfolding irq_install_handler irq_handler run_handler
two_handlers hs = (refl, refl)

heap_low :
    (g : Given) (memory : Memory)
    → IsGiven g
    → v2p (kheap_end_addr (kheap_init g.kernel_end memory)) ≤ max_frames * page_size
heap_low g memory is =
    let (holds, from', below) =
      kheap_init-Holds g.kernel_end memory (omega (arith, is.above)) (omega (arith, is.fits)) in
    let e = kheap_end_addr_lem (kheap_init g.kernel_end memory) (omega (arith, below, is.fits)) in
    in_gib (kheap_end_addr (kheap_init g.kernel_end memory)) (omega (arith, e, from', is.above))
      (omega (arith, e, below, is.fits))
  where
    in_gib : (a : ℕ) → kernel_vbase ≤ a → a < 2 ^ 32 → v2p a ≤ max_frames * page_size
    in_gib a above below = omega (arith, above, below)

-- kmain gets to the file system on a machine as the bootloader's and the linker's documents say, with
-- the counter of used frames in step with their bitmap: no panic and no loop out of fuel. Then the
-- serial port, the segment table and the interrupt controllers were set, in this order and by the bytes
-- of `boot_events`; interrupts were turned on after the controllers were moved to the vectors 32 to 47
-- and their table was loaded; then the timer was set to 100 Hz, and the page directory came last. The kernel's code and data are flat segments; the 32 exceptions and 16 interrupts each have
-- their gate, and the interrupts of the timer and of the keyboard each run its handler once and are
-- acknowledged; the heap is one free block of 4 MiB behind the
-- kernel; the frames of the machine's memory are counted, and those up to the heap's end are reserved;
-- each address of that memory is mapped at 0xC0000000, and the entries below, with the page of NULL,
-- are as they were.
pub bring_up-Ready :
    (fuel : ℕ) (g : Given) (memory : Memory) (m : Machine)
    → boot_fuel ≤ fuel
    → IsGiven g
    → IsCounted m.pmm
    → (m' : Machine) × (bring_up fuel g memory m ≡ running m') × Ready g m m'
unfolding drivers_up console_init serial_init gdt_load pic_remap idt_load timer_init
bring_up-Ready fuel g memory m enough is none_used =
    let (holds, from', below) =
      kheap_init-Holds g.kernel_end memory (omega (arith, is.above)) (omega (arith, is.fits)) in
    let h = kheap_init g.kernel_end memory in
    let (p, e, counted, total, marks) =
      pmm_init_lem fuel (kheap_end_addr h) g.mbi m.pmm enough (heap_low g memory is) is.has_map
        is.small none_used in
    let few : p.total_frames ≤ max_frames = omega (arith, total) in
    let kib = pmm_total_kib_lem p few in
    let (con, run) = bring_up-run fuel g memory m is.known in
    let m1 : Machine = record (console_init m) { console = con } in
    let (con', run') = memory_up-run fuel g (drivers_up g memory m1) p e few in
    let pd = m.page_directory in
    (
      record (drivers_up g memory m1) {
        pmm = p;
        page_directory = paging_init (pmm_total_kib p) pd;
        sent = (drivers_up g memory m1).sent ++ paging_load g.directory_at;
        console = con';
      },
      run ∙ run',
      record {
        order = ordered;
        code = (gdt_init-Flat m.gdt).0;
        stack = (gdt_init-Flat m.gdt).1;
        exceptions = λ i low.
            (idt_init_lem g.isr g.irq m.idt i 0 48 is.isr_small is.irq_small low (omega arith)
              (omega arith)).0;
        interrupts = λ j low.
            (idt_init_lem g.isr g.irq m.idt 0 j 48 is.isr_small is.irq_small (omega arith) low
              (omega arith)).1;
        clock = (two_handlers m.handlers).0;
        keys = (two_handlers m.handlers).1;
        heap = holds;
        heap_behind = from';
        counted = counted;
        frames = total;
        reserved =
            λ f low. marks f ∙ reserved_if f (v2p (kheap_end_addr h)) (is_marked m.pmm f) low;
        mapped = λ a low.
            (paging_init_lem (pmm_total_kib p) a pd (omega (arith, kib, few))
              (omega (arith, kib, low)) (omega (arith, few, low))).0;
        lower = λ j low. paging_init-lower (pmm_total_kib p) pd j low;
      },
    )
  where
    ordered :
        m.sent
          ++ to_ports serial_init
          ++ gdt_load g.gdt_at
          ++ pic_remap
          ++ idt_load g.idt_at
          ++ to_ports timer_init
          ++ paging_load g.directory_at
        ≡ m.sent ++ boot_events g
    ordered = unfold serial_init gdt_load pic_remap idt_load timer_init in (simp append_assoc refl)

    reserved_if :
        (f end' : ℕ) (b : Bool)
        → f * page_size < end'
        → (if ltb (f * page_size) end' then true else b) ≡ true
    reserved_if f end' b low = ground (arith, low)
