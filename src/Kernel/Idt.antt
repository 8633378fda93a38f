-- ===== src/Kernel/Idt.antt =====
-- kernel/idt.c: the gates of the table and the dispatch of interrupts. A handler is a value of `H`;
-- what a dispatch does is a list of events, in their order.
pub mod Exception
pub mod Init
pub mod Names
pub mod Reported
mod Tests
use Prim.Native.Nat.{bit_and}
use raptor_kernel.Prelude.{
  ℕ, ◌+◌, ◌-◌, ◌*◌, ◌/◌, ◌%◌, ◌^◌, ◌<◌, ◌≤◌, ◌≡◌, ◌≢◌, refl, ap, sym, ◌∙◌, Bool, true, false, ◌&&◌,
  Option, none, some, List, [], ◌∷◌, ◌++◌, ltb, leb, ◌==◌, if◌then◌else◌, arith, ==_iff, Bool-cases,
}
use raptor_kernel.Bits.{bit_and-65535}
use raptor_kernel.Kernel.Event.{Event, ran, outb}

pub record IdtEntry : Type 0 where
  pub base_low : ℕ
  pub selector : ℕ
  pub zero_byte : ℕ
  pub flags : ℕ
  pub base_high : ℕ

unfoldable pub idt_set : (ℕ → IdtEntry) → (n handler : ℕ) → ℕ → IdtEntry
idt_set idt n handler j =
    if n == j
    then record {
      base_low = bit_and handler 0xffff;
      base_high = handler / 2 ^ 16;
      selector = 0x08;
      zero_byte = 0;
      flags = 0x8e;
    }
    else idt j

abbrev pub pic1_cmd : ℕ
pic1_cmd = 0x20

abbrev pub pic2_cmd : ℕ
pic2_cmd = 0xa0

abbrev pub pic_eoi : ℕ
pic_eoi = 0x20

-- `irq` is not negative: the kernel's calls give 0 and 1.
unfoldable pub irq_install_handler : {H : Type 0} → (ℕ → Option H) → (irq : ℕ) → H → ℕ → Option H
irq_install_handler handlers irq h j =
    if ltb irq 16 then (if irq == j then some h else handlers j) else handlers j

unfoldable pub run_handler : {H : Type 0} → Option H → List (Event H)
run_handler none = []
run_handler (some h) = ran h ∷ []

-- The handler of the hardware interrupt at the vector `int_no`.
unfoldable pub irq_handler : {H : Type 0} → (ℕ → Option H) → (int_no : ℕ) → List (Event H)
unfolding run_handler
irq_handler handlers int_no =
    let irq = int_no - 32 in
    (if leb 32 int_no && ltb irq 16 then run_handler (handlers irq) else [])
    ++ (if leb 40 int_no then outb pic2_cmd pic_eoi ∷ [] else [])
    ++ (outb pic1_cmd pic_eoi ∷ [])

-- The processor finds in the gate that idt_set wrote the handler's address, the kernel's code segment
-- and a present gate of ring 0; the other gates stay.
pub idt_set_lem :
    (idt : ℕ → IdtEntry) (n handler : ℕ)
    → handler < 2 ^ 32
    → ((idt_set idt n handler n).base_low + (idt_set idt n handler n).base_high * 2 ^ 16 ≡ handler)
      × ((idt_set idt n handler n).selector ≡ 0x08)
      × ((idt_set idt n handler n).flags ≡ 0x8e)
      × ((j : ℕ) → n ≢ j → idt_set idt n handler j ≡ idt j)
unfolding idt_set
idt_set_lem idt n handler h =
    rw ((==_iff n n).1 refl)
      (omega (arith, bit_and-65535 handler), refl, refl, (λ j ne. ground (arith, ne)))

-- What the processor sees of a hardware interrupt `irq`: the end of interrupt to the second
-- controller when it raised it, and to the first in any case.
abbrev pub acknowledged : {H : Type 0} → (irq : ℕ) → List (Event H)
acknowledged irq =
    (if leb 8 irq then outb pic2_cmd pic_eoi ∷ [] else []) ++ (outb pic1_cmd pic_eoi ∷ [])

-- After a handler is installed for one of the 16 interrupts, that interrupt runs it once and then
-- acknowledges, and every other interrupt does what it did before.
pub irq_handler_lem :
    {H : Type 0} (handlers : ℕ → Option H) (irq : ℕ) (h : H)
    → irq < 16
    → (irq_handler (irq_install_handler handlers irq h) (32 + irq) ≡ ran h ∷ acknowledged irq)
      × ((other : ℕ)
          → irq ≢ other
          → irq_handler (irq_install_handler handlers irq h) (32 + other)
            ≡ irq_handler handlers (32 + other))
unfolding irq_handler irq_install_handler run_handler
irq_handler_lem handlers irq h small =
    let number : (n : ℕ) → 32 + n - 32 ≡ n = λ n. omega arith in
    let in_range : ltb irq 16 ≡ true = ground (arith, small) in
    let hardware : leb 32 (32 + irq) ≡ true = ground arith in
    let second : leb 40 (32 + irq) ≡ leb 8 irq = ground arith in
    (
      rw (number irq, in_range, hardware, second, (==_iff irq irq).1 refl) refl,
      λ other ne.
          let differs : (irq == other) ≡ false = ground (arith, ne) in
          rw (number other, in_range, differs) refl,
    )
