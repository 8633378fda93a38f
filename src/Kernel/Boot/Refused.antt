-- ===== src/Kernel/Boot/Refused.antt =====
-- kmain of kernel/main.c when it was not loaded by a Multiboot bootloader.
use raptor_kernel.Prelude.{
  ℕ, suc, ◌^◌, ◌<◌, ◌≡◌, ◌≢◌, refl, ap, subst, ◌∙◌, false, true, Option, none, some, List, [], ◌∷◌,
  ◌++◌, ◌==◌, if◌then◌else◌, length, arith,
}
use raptor_kernel.Prelude.Text.{bytes}
use raptor_kernel.Version.{raptor_name, raptor_version, raptor_codename}
use raptor_kernel.Kprintf.{
  word, string, kvprintf, print_directive, directive, print_string, flags, field_width, emit, pad,
}
use raptor_kernel.Kprintf.Digits.{number}
use raptor_kernel.Kprintf.Formats.{Plain}
use raptor_kernel.Kprintf.Numeral.{Numeral}
use raptor_kernel.Kprintf.Pieces.{Piece, plain, field, hex, padded}
use raptor_kernel.Kprintf.Printed.{kvprintf-Prints, is_plain-Plain}
use raptor_kernel.Kprintf.Total.{FormatFits}
use raptor_kernel.Console.{Console, console_write, console_set_color}
use raptor_kernel.Console.Sent.{Sent, Sent-write, Sent-trans, Sent-color, Sent-clear}
use raptor_kernel.Kernel.Panic.{panic, panic-Sent}
use raptor_kernel.Mm.Kheap.{Memory}
use raptor_kernel.Kernel.Boot.{
  Given, Machine, Boot, halted, failed, multiboot_magic, shown, console_init, drivers_up, memory_up,
  bring_up,
}
use raptor_kernel.Kernel.Boot.Steps.{with_text-out}

abbrev pub wrong_magic : List ℕ
wrong_magic = bytes "not loaded by a Multiboot bootloader (magic %08x)"

cleared : (m : Machine) → m.console.capturing ≡ false → Sent m.console (console_init m).console []
unfolding console_init
cleared m off = Sent-clear m.console off

-- The banner of the boot, and what the panic says of the magic.
abbrev pub boot_banner : List ℕ
boot_banner = bytes "\nRaptor 0.2.1 (Velociraptor) booting...\n\n"

abbrev reason : (magic : ℕ) → List Piece
reason magic =
    plain (bytes "not loaded by a Multiboot bootloader (magic ")
    ∷ field false true (bytes "8") (hex false magic)
    ∷ plain (bytes ")")
    ∷ []

banner_is :
    (out : List ℕ)
    → kvprintf
        (suc (length (bytes "\n%s %s (%s) booting...\n\n")))
        (bytes "\n%s %s (%s) booting...\n\n")
        (string (some raptor_name)
          ∷ string (some raptor_version)
          ∷ string (some raptor_codename)
          ∷ [])
      ≡ some out
    → out ≡ boot_banner
unfolding kvprintf print_directive directive print_string flags field_width emit pad
banner_is out e = cc

reason_is :
    (magic : ℕ) (out : List ℕ)
    → magic < 2 ^ 32
    → kvprintf (suc (length wrong_magic)) wrong_magic (word magic ∷ []) ≡ some out
    → (t : List ℕ) × Numeral 16 false magic t
      × (out
          ≡ bytes "not loaded by a Multiboot bootloader (magic "
            ++ (padded false b'0' 8 t ++ bytes ")"))
unfolding number raptor_kernel.Kprintf.Digits.digit_value
reason_is magic out small e =
    let (out', e', (rest, same, (t, rest', numeral, same', (rest2, same2, end)))) =
      kvprintf-Prints (suc (length wrong_magic)) (reason magic)
        (plain_text, (((refl, tt), refl, omega arith), small, ((refl, tt), tt))) (omega arith) in
    (t, numeral, cc)
  where
    plain_text : Plain (bytes "not loaded by a Multiboot bootloader (magic ")
    plain_text = is_plain-Plain (bytes "not loaded by a Multiboot bootloader (magic ") refl

-- Without Multiboot's magic kmain halts in a panic that is seen: the serial port is sent the banner with
-- the kernel's name, version and codename, the panic's heading, the reason with the magic that was found
-- as a numeral of at least eight digits in base 16, the last line, and nothing else. There was no
-- capture before, and the magic has 32 bits.
pub bring_up-halted :
    (fuel : ℕ) (g : Given) (memory : Memory) (m : Machine)
    → g.magic ≢ multiboot_magic
    → g.magic < 2 ^ 32
    → m.console.capturing ≡ false
    → (t : List ℕ) × (con : Console) × Numeral 16 false g.magic t
      × (bring_up fuel g memory m ≡ halted con)
      × Sent m.console con (
          boot_banner
          ++ ((bytes "\n*** KERNEL PANIC ***\n"
                ++ (bytes "not loaded by a Multiboot bootloader (magic "
                    ++ (padded false b'0' 8 t ++ bytes ")")))
              ++ bytes "\nSystem halted.\n"))
unfolding bring_up FormatFits
bring_up-halted fuel g memory m other small off =
    let unknown : (g.magic == multiboot_magic) ≡ false = ground (arith, other) in
    let m1 : Machine = shown (console_init m) (λ con. console_set_color con 10 0) in
    let refused : Option Console → Boot =
      λ o. elim o as (λ x. Boot) [ none ↦ failed | some con' ↦ halted con' ] in
    let go : Console → Boot = λ con.
      let m2 : Machine = record m1 { console = console_set_color con 7 0 } in
      if g.magic == multiboot_magic
      then memory_up fuel g (drivers_up g memory m2)
      else refused (panic m2.console wrong_magic (word g.magic ∷ [])) in
    let (banner, run, printed) =
      with_text-out m1 "\n%s %s (%s) booting...\n\n"
        (string (some raptor_name)
          ∷ string (some raptor_version)
          ∷ string (some raptor_codename)
          ∷ [])
        go (tt, (tt, (tt, tt))) in
    let con1 = console_set_color (console_write m1.console banner) 7 0 in
    let (out, e, con, stop, sent) = panic-Sent con1 wrong_magic (word g.magic ∷ []) (small, tt) in
    let (t, numeral, text) = reason_is g.magic out small e in
    let last_line = bytes "\nSystem halted.\n" in
    (
      t,
      con,
      numeral,
      run
          ∙ ap
              (λ b.
                if b
                then memory_up fuel g (drivers_up g memory (record m1 { console = con1 }))
                else refused (panic con1 wrong_magic (word g.magic ∷ [])))
              unknown
          ∙ ap refused stop,
      subst
          (λ b. Sent m.console con (
            b
            ++ ((bytes "\n*** KERNEL PANIC ***\n"
                  ++ (bytes "not loaded by a Multiboot bootloader (magic "
                      ++ (padded false b'0' 8 t ++ bytes ")")))
                ++ last_line)))
          (banner_is banner printed)
          (subst
            (λ o.
              Sent m.console con (banner ++ ((bytes "\n*** KERNEL PANIC ***\n" ++ o) ++ last_line)))
            text
            (Sent-trans m.console con1 con banner
              ((bytes "\n*** KERNEL PANIC ***\n" ++ out) ++ last_line)
              (Sent-color m.console (console_write m1.console banner) banner 7 0 (
                Sent-write m.console m1.console [] banner
                  (Sent-color m.console (console_init m).console [] 10 0 (cleared m off))))
              sent)),
    )
