-- ===== src/Kernel/Idt/Names.antt =====
-- The names of kernel/idt.c's exception_names and the words that its page fault line chooses, against
-- the processor's vectors and the bits of the error code.
use Prim.Native.Nat.{bit_and}
use raptor_kernel.Prelude.{
  ℕ, ◌/◌, ◌%◌, ◌<◌, ◌≤◌, ◌≡◌, ◌⊎◌, refl, sym, inl, inr, Bool, true, false, ◌&&◌, List, [], ◌∷◌, ltb,
  leb, ◌==◌, if◌then◌else◌, arith, Bool-cases, all_below, all_below_lem, and_parts,
}
use raptor_kernel.Prelude.Text.{bytes}
use raptor_kernel.Shell.{same_text}
use raptor_kernel.Shell.Redirect.{same_text_iff}
use raptor_kernel.Bits.{bit, bit_and-pow}
use raptor_kernel.Kernel.Idt.Exception.{exception_name}

-- The exceptions of the processor by their vector.
abbrev vectors : List (ℕ × List ℕ)
vectors =
    (0, bytes "Division by zero")
    ∷ (1, bytes "Debug")
    ∷ (2, bytes "Non-maskable interrupt")
    ∷ (3, bytes "Breakpoint")
    ∷ (4, bytes "Overflow")
    ∷ (5, bytes "Bound range exceeded")
    ∷ (6, bytes "Invalid opcode")
    ∷ (7, bytes "Device not available")
    ∷ (8, bytes "Double fault")
    ∷ (9, bytes "Coprocessor segment overrun")
    ∷ (10, bytes "Invalid TSS")
    ∷ (11, bytes "Segment not present")
    ∷ (12, bytes "Stack-segment fault")
    ∷ (13, bytes "General protection fault")
    ∷ (14, bytes "Page fault")
    ∷ (16, bytes "x87 floating-point exception")
    ∷ (17, bytes "Alignment check")
    ∷ (18, bytes "Machine check")
    ∷ (19, bytes "SIMD floating-point exception")
    ∷ (20, bytes "Virtualization exception")
    ∷ (21, bytes "Control protection exception")
    ∷ (28, bytes "Hypervisor injection exception")
    ∷ (29, bytes "VMM communication exception")
    ∷ (30, bytes "Security exception")
    ∷ []

abbrev name_among : List (ℕ × List ℕ) → (n : ℕ) → (otherwise : List ℕ) → List ℕ
name_among [] n otherwise = otherwise
name_among (v ∷ vs) n otherwise = if n == v.0 then v.1 else name_among vs n otherwise

-- A vector below 32 that has no exception is reserved.
abbrev pub vector_name : (n : ℕ) → List ℕ
vector_name n = name_among vectors n (if leb 32 n then bytes "Unknown" else bytes "Reserved")

table : all_below 32 (λ n. same_text (exception_name n) (vector_name n)) ≡ true
table = refl

named_below : (n : ℕ) → n < 32 → exception_name n ≡ vector_name n
named_below n h =
    (same_text_iff (exception_name n) (vector_name n)).0
      (all_below_lem 32 (λ k. same_text (exception_name k) (vector_name k)) table n h)

abbrev below_32 : List (ℕ × List ℕ) → Bool
below_32 [] = true
below_32 (v ∷ vs) = ltb v.0 32 && below_32 vs

name_among-none :
    (vs : List (ℕ × List ℕ)) (n : ℕ) (otherwise : List ℕ)
    → below_32 vs ≡ true
    → 32 ≤ n
    → name_among vs n otherwise ≡ otherwise
name_among-none [] n otherwise all h = refl
name_among-none (v ∷ vs) n otherwise all h =
    let (low, rest) = and_parts (ltb v.0 32) (below_32 vs) all in
    let other : (n == v.0) ≡ false = ground (arith, low, h) in
    rw other (name_among-none vs n otherwise rest h)

unknown_above : (n : ℕ) → 32 ≤ n → exception_name n ≡ vector_name n
unknown_above n h =
    let large : ltb n 32 ≡ false = ground arith in
    let high : leb 32 n ≡ true = ground arith in
    rw (large, high) (sym (name_among-none vectors n (bytes "Unknown") refl h))

ltb_cases : (n k : ℕ) → (n < k) ⊎ (k ≤ n)
ltb_cases n k = elim (Bool-cases (ltb n k)) [
  | inl low ↦ inl (ground arith)
  | inr high ↦ inr (ground arith)
]

pub exception_name_lem : (n : ℕ) → exception_name n ≡ vector_name n
exception_name_lem n = elim (ltb_cases n 32) [
  | inl low ↦ named_below n low
  | inr high ↦ unknown_above n high
]

-- The code's choices by `err_code & 2`, `& 4` and `& 1`.
pub write_bit :
    (w : ℕ) (a b : List ℕ) → (if bit_and w 2 == 0 then a else b) ≡ (if w / 2 % 2 == 1 then b else a)
unfolding bit
write_bit w a b = ground (arith, bit_and-pow w 1)

pub user_bit :
    (w : ℕ) (a b : List ℕ) → (if bit_and w 4 == 0 then a else b) ≡ (if w / 4 % 2 == 1 then b else a)
unfolding bit
user_bit w a b = ground (arith, bit_and-pow w 2)

pub present_bit :
    (w : ℕ) (a b : List ℕ) → (if bit_and w 1 == 0 then a else b) ≡ (if w % 2 == 1 then b else a)
unfolding bit
present_bit w a b = ground (arith, bit_and-pow w 0)
