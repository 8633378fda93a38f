-- ===== src/Kernel/Idt/Init.antt =====
-- idt_init of kernel/idt.c. The addresses of the stubs are those of kernel/isr.S.
use raptor_kernel.Prelude.{
  ℕ, zero, suc, ◌+◌, ◌-◌, ◌*◌, ◌^◌, ◌<◌, ◌≤◌, ◌≡◌, ◌≢◌, refl, sym, subst, ◌∙◌, inl, inr, List, [],
  ◌∷◌, ◌++◌, ◌==◌, arith, Bool-cases, ==_iff,
}
use raptor_kernel.Kernel.Idt.{IdtEntry, idt_set, idt_set_lem, pic1_cmd, pic2_cmd}
use raptor_kernel.Kernel.Event.{Event, outb, lidt, sti}

abbrev pub pic1_data : ℕ
pic1_data = 0x21

abbrev pub pic2_data : ℕ
pic2_data = 0xa1

-- outb and the write of io_wait to the unused port.
abbrev pub outb_wait : {H : Type 0} → (port value : ℕ) → List (Event H)
outb_wait port value = outb port value ∷ outb 0x80 0 ∷ []

unfoldable pub pic_remap : {H : Type 0} → List (Event H)
pic_remap =
    outb_wait pic1_cmd 0x11
    ++ outb_wait pic2_cmd 0x11
    ++ outb_wait pic1_data 32
    ++ outb_wait pic2_data 40
    ++ outb_wait pic1_data 0x04
    ++ outb_wait pic2_data 0x02
    ++ outb_wait pic1_data 0x01
    ++ outb_wait pic2_data 0x01
    ++ (outb pic1_data 0x00 ∷ outb pic2_data 0x00 ∷ [])

-- The gates from `base` on, `n` of them, lead to the stubs.
unfoldable pub set_gates : (base n : ℕ) → (stub : ℕ → ℕ) → (ℕ → IdtEntry) → ℕ → IdtEntry
unfolding idt_set
set_gates base zero stub idt = idt
set_gates base (suc n) stub idt = idt_set (set_gates base n stub idt) (base + n) (stub n)

-- The table that idt_init fills.
unfoldable pub idt_init : (isr irq : ℕ → ℕ) → (ℕ → IdtEntry) → ℕ → IdtEntry
unfolding set_gates
idt_init isr irq idt = set_gates 32 16 irq (set_gates 0 32 isr idt)

-- What idt_init does at its end: the table at `idt_at` with its 256 gates of 8 bytes, and interrupts on.
unfoldable pub idt_load : {H : Type 0} → (idt_at : ℕ) → List (Event H)
idt_load idt_at = lidt (256 * 8 - 1) idt_at ∷ sti ∷ []

-- A present gate of the kernel's segment to the address.
abbrev pub GateTo : IdtEntry → ℕ → Type 0
GateTo g address =
    (g.base_low + g.base_high * 2 ^ 16 ≡ address) × (g.selector ≡ 0x08) × (g.flags ≡ 0x8e)

set_gates-outside :
    (base n : ℕ) (stub : ℕ → ℕ) (idt : ℕ → IdtEntry) (j : ℕ)
    → ((i : ℕ) → i < n → base + i ≢ j)
    → ((i : ℕ) → stub i < 2 ^ 32)
    → set_gates base n stub idt j ≡ idt j
unfolding set_gates
set_gates-outside base zero stub idt j away small = refl
set_gates-outside base (suc n) stub idt j away small =
    (idt_set_lem (set_gates base n stub idt) (base + n) (stub n) (small n)).3 j
      (away n (omega arith))
    ∙ set_gates-outside base n stub idt j (λ i h. away i (omega (arith, h))) small

set_gates-GateTo :
    (base n : ℕ) (stub : ℕ → ℕ) (idt : ℕ → IdtEntry) (i : ℕ)
    → ((i : ℕ) → stub i < 2 ^ 32)
    → i < n
    → GateTo (set_gates base n stub idt (base + i)) (stub i)
unfolding set_gates
set_gates-GateTo base zero stub idt i small h = absurd (omega arith)
set_gates-GateTo base (suc n) stub idt i small h = elim (Bool-cases (i == n)) [
  | inl e ↦
      let same = (==_iff i n).0 e in
      let g = idt_set_lem (set_gates base n stub idt) (base + n) (stub n) (small n) in
      subst (λ k. GateTo (set_gates base (suc n) stub idt (base + k)) (stub k)) (sym same)
        (g.0, g.1, g.2)
  | inr e ↦
      let ne : base + n ≢ base + i = (λ z. absurd (ground (arith, e, z))) in
      let less : i < n = ground (arith, e, h) in
      subst (λ (g : IdtEntry). GateTo g (stub i))
        (sym
          ((idt_set_lem (set_gates base n stub idt) (base + n) (stub n) (small n)).3 (base + i) ne))
        (set_gates-GateTo base n stub idt i small less)
]

-- After idt_init the 32 exceptions and the 16 hardware interrupts each have a present gate of ring 0
-- to their own stub, the hardware's behind the exceptions', and the other gates are as they were.
pub idt_init_lem :
    (isr irq : ℕ → ℕ) (idt : ℕ → IdtEntry) (i j n : ℕ)
    → ((i : ℕ) → isr i < 2 ^ 32)
    → ((i : ℕ) → irq i < 2 ^ 32)
    → i < 32
    → j < 16
    → 48 ≤ n
    → GateTo (idt_init isr irq idt i) (isr i)
      × GateTo (idt_init isr irq idt (32 + j)) (irq j)
      × (idt_init isr irq idt n ≡ idt n)
unfolding idt_init
idt_init_lem isr irq idt i j n small small' hi hj hn =
    let low = set_gates 0 32 isr idt in
    let back : 0 + i ≡ i = omega arith in
    (
      subst (λ (g : IdtEntry). GateTo g (isr i))
          (sym
            (set_gates-outside 32 16 irq low i (λ m h z. absurd (omega (arith, h, hi, z))) small'))
          (subst (λ k. GateTo (set_gates 0 32 isr idt k) (isr i)) back
            (set_gates-GateTo 0 32 isr idt i small hi)),
      set_gates-GateTo 32 16 irq low j small' hj,
      set_gates-outside 32 16 irq low n (λ m h z. absurd (omega (arith, h, hn, z))) small'
          ∙ set_gates-outside 0 32 isr idt n (λ m h z. absurd (omega (arith, h, hn, z))) small,
    )
