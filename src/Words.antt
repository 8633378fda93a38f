-- ===== src/Words.antt =====
-- Unsigned 32-bit arithmetic, as the kernel's `uint32_t` and `size_t` have it: the result wraps.
use raptor_kernel.Prelude.{ℕ, ◌+◌, ◌-◌, ◌%◌, ◌^◌}

abbrev pub add32 : ℕ → ℕ → ℕ
add32 a b = (a + b) % 2 ^ 32

-- Subtraction on ℕ stops at 0, so the modulus is added first; both operands are below it.
abbrev pub sub32 : ℕ → ℕ → ℕ
sub32 a b = (a + 2 ^ 32 - b) % 2 ^ 32
