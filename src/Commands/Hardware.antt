-- ===== src/Commands/Hardware.antt =====
-- lscpu and lspci of shell/commands.c. What the cpuid instruction returns for a leaf, and what a
-- register of the PCI configuration space reads as, come from the hardware.
use Prim.Native.Nat.{bit_and, bit_or}
use raptor_kernel.Prelude.{
  ℕ, zero, suc, ◌+◌, ◌*◌, ◌/◌, ◌%◌, ◌^◌, Bool, List, [], ◌∷◌, ◌++◌, leb, ◌==◌, ◌!=◌, if◌then◌else◌,
}
use raptor_kernel.Prelude.Text.{bytes}
use raptor_kernel.Mm.Allocator.{Allocator}
use raptor_kernel.Kprintf.{word}
use raptor_kernel.Shell.{skip_spaces}
use raptor_kernel.Commands.World.{Action, pure, ◌>>◌, console_putc, console_write, kprintf}
use raptor_kernel.Commands.Tree.{text_arg}
use raptor_kernel.Commands.Text.{c_text}

-- What cpuid leaves in the registers.
pub record Cpuid : Type 0 where
  pub a : ℕ
  pub b : ℕ
  pub c : ℕ
  pub d : ℕ

-- The bytes of a word in memory, the lowest first.
abbrev pub word_bytes : ℕ → List ℕ
word_bytes w = w % 2 ^ 8 ∷ w / 2 ^ 8 % 2 ^ 8 ∷ w / 2 ^ 16 % 2 ^ 8 ∷ w / 2 ^ 24 % 2 ^ 8 ∷ []

unfoldable pub vendor : Cpuid → List ℕ
vendor r = c_text (word_bytes r.b ++ word_bytes r.d ++ word_bytes r.c)

abbrev pub leaf_bytes : Cpuid → List ℕ
leaf_bytes r = word_bytes r.a ++ word_bytes r.b ++ word_bytes r.c ++ word_bytes r.d

unfoldable pub brand : (cpuid : ℕ → Cpuid) → List ℕ
brand cpuid = skip_spaces (
    c_text (
      leaf_bytes (cpuid 0x80000002)
      ++ leaf_bytes (cpuid 0x80000003)
      ++ leaf_bytes (cpuid 0x80000004)))

abbrev pub edx_flags : List (ℕ × List ℕ)
edx_flags =
    (0, bytes "fpu")
    ∷ (3, bytes "pse")
    ∷ (4, bytes "tsc")
    ∷ (5, bytes "msr")
    ∷ (6, bytes "pae")
    ∷ (9, bytes "apic")
    ∷ (13, bytes "pge")
    ∷ (15, bytes "cmov")
    ∷ (23, bytes "mmx")
    ∷ (25, bytes "sse")
    ∷ (26, bytes "sse2")
    ∷ []

abbrev pub pci_class_name : ℕ → List ℕ
pci_class_name code =
    if code == 0
    then bytes "Unclassified"
    else if code == 1
    then bytes "Mass storage controller"
    else if code == 2
    then bytes "Network controller"
    else if code == 3
    then bytes "Display controller"
    else if code == 4
    then bytes "Multimedia controller"
    else if code == 5
    then bytes "Memory controller"
    else if code == 6
    then bytes "Bridge"
    else if code == 0x0c
    then bytes "Serial bus controller"
    else bytes "Other"

-- The address that pci_read writes to the address port.
unfoldable pub pci_address : (bus dev fn off : ℕ) → ℕ
pci_address bus dev fn off =
    bit_or (bit_or (bit_or (bit_or 0x80000000 (bus * 2 ^ 16)) (dev * 2 ^ 11)) (fn * 2 ^ 8))
      (bit_and off 0xfc)

-- `config` is what the data port reads as, by the address.
unfoldable pub pci_read : (config : ℕ → ℕ) → (bus dev fn off : ℕ) → ℕ
unfolding pci_address
pci_read config bus dev fn off = config (pci_address bus dev fn off)

-- There is no device where the vendor reads as all ones.
abbrev pub absent : ℕ → Bool
absent id = bit_and id 0xffff == 0xffff

unfoldable pub fn_count : (config : ℕ → ℕ) → (dev : ℕ) → ℕ
unfolding pci_read
fn_count config dev = if bit_and (pci_read config 0 dev 0 0x0c) 0x00800000 != 0 then 8 else 1

module _ {A : Allocator} where
  -- The loop over the features of edx.
  unfoldable pub flag_names : (d : ℕ) → List (ℕ × List ℕ) → Action A (Unit {0})
  flag_names d [] = pure tt
  flag_names d (f ∷ fs) = do
    if bit_and d (2 ^ f.0) != 0 then kprintf " %s" (text_arg f.1 ∷ []) else pure tt
    flag_names d fs

  unfoldable pub cmd_lscpu : (cpuid : ℕ → Cpuid) → List (List ℕ) → Action A ℕ
  unfolding vendor brand flag_names
  cmd_lscpu cpuid argv = do
    kprintf "Vendor:      %s\n" (text_arg (vendor (cpuid 0)) ∷ [])
    if leb 0x80000004 (cpuid 0x80000000).a
        then kprintf "Model name:  %s\n" (text_arg (brand cpuid) ∷ [])
        else pure tt
    let r = cpuid 1
    kprintf "Family:      %u  Model: %u  Stepping: %u\n" (
        word (bit_and (r.a / 2 ^ 8) 0xf)
        ∷ word (bit_or (bit_and (r.a / 2 ^ 4) 0xf) (bit_and (r.a / 2 ^ 12) 0xf0))
        ∷ word (bit_and r.a 0xf)
        ∷ [])
    console_write "Flags:      "
    flag_names r.d edx_flags
    if bit_and r.c 1 != 0 then console_write " sse3" else pure tt
    console_putc 10
    pure 0

  -- The line of a function that is there.
  abbrev pub pci_line : (config : ℕ → ℕ) → (dev fn : ℕ) → Action A (Unit {0})
  pci_line config dev fn =
      let id = pci_read config 0 dev fn 0x00 in
      if absent id
      then pure tt
      else kprintf "00:%02x.%u  %04x:%04x  %s\n" (
          word dev
          ∷ word fn
          ∷ word (bit_and id 0xffff)
          ∷ word (id / 2 ^ 16)
          ∷ text_arg (pci_class_name (pci_read config 0 dev fn 0x08 / 2 ^ 24 % 2 ^ 8))
          ∷ [])

  -- The loop over `n` functions from `fn` on.
  unfoldable pub pci_functions : (config : ℕ → ℕ) → (dev fn n : ℕ) → Action A (Unit {0})
  unfolding pci_read
  pci_functions config dev fn zero = pure tt
  pci_functions config dev fn (suc n) = do
    pci_line config dev fn
    pci_functions config dev (fn + 1) n

  -- The loop over `n` slots from `dev` on.
  unfoldable pub pci_slots : (config : ℕ → ℕ) → (dev n : ℕ) → Action A (Unit {0})
  unfolding pci_functions fn_count
  pci_slots config dev zero = pure tt
  pci_slots config dev (suc n) = do
    if absent (pci_read config 0 dev 0 0x00)
        then pure tt
        else pci_functions config dev 0 (fn_count config dev)
    pci_slots config (dev + 1) n

  unfoldable pub cmd_lspci : (config : ℕ → ℕ) → List (List ℕ) → Action A ℕ
  unfolding pci_slots
  cmd_lspci config argv = do pci_slots config 0 32; pure 0
