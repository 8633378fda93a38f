-- ===== src/Bits.antt =====
-- The binary digits of a word, and what C's `&`, `|` and `~` with one bit of it do to them.
use Prim.Native.Nat.{bit_and, bit_or, digits, bit_and-bitwise, bit_or-bitwise}
use native.Mathlib.Nat.{pow-suc, one-le-pow}
use raptor_kernel.Prelude.{
  ℕ, zero, suc, ◌+◌, ◌-◌, ◌*◌, ◌/◌, ◌%◌, ◌^◌, ◌≤◌, ◌<◌, min, max, ◌≡◌, refl, ap, ◌∙◌, false, arith,
  ◌==◌, if◌then◌else◌,
}

pow-lt : (k n : ℕ) → k < n → 2 ^ k < 2 ^ n
pow-lt k zero h = absurd (omega arith)
pow-lt zero (suc n) h = omega (arith, pow-suc 2 n, one-le-pow n 2)
pow-lt (suc k) (suc n) h = omega (arith, pow-suc 2 n, pow-suc 2 k, pow-lt k n (omega arith))

-- Bit number `k`.
unfoldable pub bit : ℕ → ℕ → ℕ
bit w zero = w % 2
bit w (suc k) = bit (w / 2) k

-- `~(1u << k)` in `n` bits.
abbrev pub all_but : ℕ → ℕ → ℕ
all_but n k = 2 ^ n - 1 - 2 ^ k

module _ (z : ℕ → ℕ) (f : ℕ → ℕ → ℕ) where
  digits_enough : (n k a b : ℕ) → a ≤ n → a ≤ k → digits z f n a b ≡ digits z f k a b
  digits_enough zero zero a b h h' = refl
  digits_enough zero (suc k) zero b h h' = refl
  digits_enough zero (suc k) (suc a) b h h' = absurd (omega arith)
  digits_enough (suc n) zero zero b h h' = refl
  digits_enough (suc n) zero (suc a) b h h' = absurd (omega arith)
  digits_enough (suc n) (suc k) zero b h h' = refl
  digits_enough (suc n) (suc k) (suc a) b h h' =
      ap (λ (t : ℕ). t * 2 + f (suc a % 2) (b % 2))
        (digits_enough n k (suc a / 2) (b / 2) (omega arith) (omega arith))

pub bit_and-low : (a b : ℕ) → bit_and a b ≡ bit_and (a / 2) (b / 2) * 2 + min (a % 2) (b % 2)
bit_and-low zero b = omega (arith, bit_and-bitwise zero b, bit_and-bitwise zero (b / 2))
bit_and-low (suc a) b = omega (
  arith,
  bit_and-bitwise (suc a) b,
  bit_and-bitwise (suc a / 2) (b / 2),
  digits_enough (λ y. 0) min a (suc a / 2) (suc a / 2) (b / 2) (omega arith) (omega arith),
)

pub bit_or-low : (a b : ℕ) → bit_or a b ≡ bit_or (a / 2) (b / 2) * 2 + max (a % 2) (b % 2)
bit_or-low zero b = omega (arith, bit_or-bitwise zero b, bit_or-bitwise zero (b / 2))
bit_or-low (suc a) b = omega (
  arith,
  bit_or-bitwise (suc a) b,
  bit_or-bitwise (suc a / 2) (b / 2),
  digits_enough (λ y. y) max a (suc a / 2) (suc a / 2) (b / 2) (omega arith) (omega arith),
)

and-zero_below : (n a : ℕ) → a ≤ n → bit_and a 0 ≡ 0
and-zero_below zero zero h = refl
and-zero_below zero (suc a) h = absurd (omega arith)
and-zero_below (suc n) zero h = refl
and-zero_below (suc n) (suc a) h =
    omega (arith, bit_and-low (suc a) 0, and-zero_below n (suc a / 2) (omega arith))

or-zero_below : (n a : ℕ) → a ≤ n → bit_or a 0 ≡ a
or-zero_below zero zero h = refl
or-zero_below zero (suc a) h = absurd (omega arith)
or-zero_below (suc n) zero h = refl
or-zero_below (suc n) (suc a) h =
    omega (arith, bit_or-low (suc a) 0, or-zero_below n (suc a / 2) (omega arith))

pub bit-lt : (w k : ℕ) → bit w k < 2
unfolding bit
bit-lt w zero = omega arith
bit-lt w (suc k) = bit-lt (w / 2) k

pow-half : (k : ℕ) → 2 ^ suc k / 2 ≡ 2 ^ k
pow-half k = omega (arith, pow-suc 2 k)

pow-even : (k : ℕ) → 2 ^ suc k % 2 ≡ 0
pow-even k = omega (arith, pow-suc 2 k)

bit_and-pow_suc : (w k : ℕ) → bit_and w (2 ^ suc k) ≡ bit_and (w / 2) (2 ^ k) * 2
bit_and-pow_suc w k = bit_and-low w (2 ^ suc k) ∙ rw (pow-half k, pow-even k) (omega arith)

bit_or-pow_suc : (w k : ℕ) → bit_or w (2 ^ suc k) ≡ bit_or (w / 2) (2 ^ k) * 2 + w % 2
bit_or-pow_suc w k = bit_or-low w (2 ^ suc k) ∙ rw (pow-half k, pow-even k) (omega arith)

-- `w & (1u << k)` is bit `k` in its place.
pub bit_and-pow : (w k : ℕ) → bit_and w (2 ^ k) ≡ bit w k * 2 ^ k
unfolding bit
bit_and-pow w zero = omega (arith, bit_and-low w 1, and-zero_below (w / 2) (w / 2) (omega arith))
bit_and-pow w (suc k) = omega (
  arith,
  bit_and-pow_suc w k,
  bit_and-pow (w / 2) k,
  ap (λ (t : ℕ). bit (w / 2) k * t) (pow-suc 2 k),
)

bit_or-one : (w : ℕ) → bit_or w 1 / 2 ≡ w / 2
bit_or-one w = omega (arith, bit_or-low w 1, or-zero_below (w / 2) (w / 2) (omega arith))

bit_or-half : (w k : ℕ) → bit_or w (2 ^ suc k) / 2 ≡ bit_or (w / 2) (2 ^ k)
bit_or-half w k = omega (arith, bit_or-pow_suc w k)

-- `w | (1u << k)` sets bit `k` and no other.
pub bit-bit_or : (w k j : ℕ) → bit (bit_or w (2 ^ k)) j ≡ (if j == k then 1 else bit w j)
unfolding bit
bit-bit_or w zero zero = omega (arith, bit_or-low w 1)
bit-bit_or w zero (suc j) = let no : (suc j == zero) ≡ false = ground arith in rw (no, bit_or-one w)
bit-bit_or w (suc k) zero =
    let no : (zero == suc k) ≡ false = ground arith in rw no (omega (arith, bit_or-pow_suc w k))
bit-bit_or w (suc k) (suc j) =
    let same : (suc j == suc k) ≡ (j == k) = ground arith in
    rw (same, bit_or-half w k) (bit-bit_or (w / 2) k j)

bit_and-half : (w b : ℕ) → bit_and w b / 2 ≡ bit_and (w / 2) (b / 2)
bit_and-half w b = omega (arith, bit_and-low w b)

-- A mask of `n` ones keeps the bits below `n`.
bit-ones : (n w j : ℕ) → j < n → bit (bit_and w (2 ^ n - 1)) j ≡ bit w j
unfolding bit
bit-ones zero w j h = absurd (omega arith)
bit-ones (suc n) w zero h =
    omega (arith, bit_and-low w (2 ^ suc n - 1), pow-suc 2 n, one-le-pow n 2)
bit-ones (suc n) w (suc j) h =
    let half : (2 ^ suc n - 1) / 2 ≡ 2 ^ n - 1 = omega (arith, pow-suc 2 n, one-le-pow n 2) in
    rw (bit_and-half w (2 ^ suc n - 1), half) (bit-ones n (w / 2) j (omega arith))

-- `w & ~(1u << k)` clears bit `k` and no other below `n`.
pub bit-bit_and-all_but :
    (n w k j : ℕ)
    → k < n
    → j < n
    → bit (bit_and w (all_but n k)) j ≡ (if j == k then 0 else bit w j)
unfolding bit
bit-bit_and-all_but zero w k j hk hj = absurd (omega arith)
bit-bit_and-all_but (suc n) w zero zero hk hj =
    omega (arith, bit_and-low w (all_but (suc n) 0), pow-suc 2 n, one-le-pow n 2)
bit-bit_and-all_but (suc n) w zero (suc j) hk hj =
    let no : (suc j == zero) ≡ false = ground arith in
    let half : all_but (suc n) 0 / 2 ≡ 2 ^ n - 1 = omega (arith, pow-suc 2 n, one-le-pow n 2) in
    rw (no, bit_and-half w (all_but (suc n) 0), half) (bit-ones n (w / 2) j (omega arith))
bit-bit_and-all_but (suc n) w (suc k) zero hk hj =
    let no : (zero == suc k) ≡ false = ground arith in
    rw no (
      omega (
        arith,
        bit_and-low w (all_but (suc n) (suc k)),
        pow-suc 2 n,
        pow-suc 2 k,
        pow-lt k n (omega arith),
      ))
bit-bit_and-all_but (suc n) w (suc k) (suc j) hk hj =
    let same : (suc j == suc k) ≡ (j == k) = ground arith in
    let half : all_but (suc n) (suc k) / 2 ≡ all_but n k =
      omega (arith, pow-suc 2 n, pow-suc 2 k, pow-lt k n (omega arith)) in
    rw (same, bit_and-half w (all_but (suc n) (suc k)), half)
      (bit-bit_and-all_but n (w / 2) k j (omega arith) (omega arith))

-- Masks keep the low bits.
bit_and-1 : (a : ℕ) → bit_and a 1 ≡ a % 2
bit_and-1 a = omega (arith, bit_and-low a 1, and-zero_below (a / 2) (a / 2) (omega arith))

bit_and-3 : (a : ℕ) → bit_and a 3 ≡ a % 4
bit_and-3 a = omega (arith, bit_and-low a 3, bit_and-1 (a / 2))

bit_and-7 : (a : ℕ) → bit_and a 7 ≡ a % 8
bit_and-7 a = omega (arith, bit_and-low a 7, bit_and-3 (a / 2))

pub bit_and-15 : (a : ℕ) → bit_and a 15 ≡ a % 16
bit_and-15 a = omega (arith, bit_and-low a 15, bit_and-7 (a / 2))

bit_and-31 : (a : ℕ) → bit_and a 31 ≡ a % 32
bit_and-31 a = omega (arith, bit_and-low a 31, bit_and-15 (a / 2))

bit_and-63 : (a : ℕ) → bit_and a 63 ≡ a % 64
bit_and-63 a = omega (arith, bit_and-low a 63, bit_and-31 (a / 2))

pub bit_and-127 : (a : ℕ) → bit_and a 127 ≡ a % 128
bit_and-127 a = omega (arith, bit_and-low a 127, bit_and-63 (a / 2))

pub bit_and-255 : (a : ℕ) → bit_and a 255 ≡ a % 256
bit_and-255 a = omega (arith, bit_and-low a 255, bit_and-127 (a / 2))

bit_and-511 : (a : ℕ) → bit_and a 511 ≡ a % 512
bit_and-511 a = omega (arith, bit_and-low a 511, bit_and-255 (a / 2))

bit_and-1023 : (a : ℕ) → bit_and a 1023 ≡ a % 1024
bit_and-1023 a = omega (arith, bit_and-low a 1023, bit_and-511 (a / 2))

bit_and-2047 : (a : ℕ) → bit_and a 2047 ≡ a % 2048
bit_and-2047 a = omega (arith, bit_and-low a 2047, bit_and-1023 (a / 2))

bit_and-4095 : (a : ℕ) → bit_and a 4095 ≡ a % 4096
bit_and-4095 a = omega (arith, bit_and-low a 4095, bit_and-2047 (a / 2))

bit_and-8191 : (a : ℕ) → bit_and a 8191 ≡ a % 8192
bit_and-8191 a = omega (arith, bit_and-low a 8191, bit_and-4095 (a / 2))

bit_and-16383 : (a : ℕ) → bit_and a 16383 ≡ a % 16384
bit_and-16383 a = omega (arith, bit_and-low a 16383, bit_and-8191 (a / 2))

bit_and-32767 : (a : ℕ) → bit_and a 32767 ≡ a % 32768
bit_and-32767 a = omega (arith, bit_and-low a 32767, bit_and-16383 (a / 2))

pub bit_and-65535 : (a : ℕ) → bit_and a 65535 ≡ a % 65536
bit_and-65535 a = omega (arith, bit_and-low a 65535, bit_and-32767 (a / 2))
