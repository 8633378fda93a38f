-- ===== src/Mm/Paging/Mapped.antt =====
-- paging_mapped_mib of mm/paging.c.
use Prim.Native.Nat.{bit_and}
use raptor_kernel.Prelude.{
  ℕ, zero, suc, ◌+◌, ◌-◌, ◌*◌, ◌/◌, ◌%◌, ◌^◌, ◌<◌, ◌≤◌, ◌≡◌, refl, ap, sym, ◌∙◌, inl, inr, true,
  ◌==◌, ◌!=◌, if◌then◌else◌, arith, ==_iff, min, all_below, all_below_lem,
}
use raptor_kernel.Mm.Paging.{
  kernel_pde, large_page, map_entries, map_entries-inside, map_entries-outside, entries,
  entries-bound, paging_init,
}

-- The number of present entries among the `n` from `i` on.
unfoldable pub mapped_loop : (ℕ → ℕ) → (i n : ℕ) → ℕ
mapped_loop pd i zero = 0
mapped_loop pd i (suc n) = (if bit_and (pd i) 1 != 0 then 1 else 0) + mapped_loop pd (i + 1) n

unfoldable pub paging_mapped_mib : (ℕ → ℕ) → ℕ
unfolding mapped_loop
paging_mapped_mib pd = mapped_loop pd 0 1024 * 4 % 2 ^ 32

below_word : (n : ℕ) → n % 2 ^ 32 < 2 ^ 32
below_word n = omega arith

pub paging_mapped_mib-word : (pd : ℕ → ℕ) → paging_mapped_mib pd < 2 ^ 32
unfolding paging_mapped_mib
paging_mapped_mib-word pd = below_word (mapped_loop pd 0 1024 * 4)

mapped_loop-add :
    (pd : ℕ → ℕ) (i a b k m : ℕ)
    → i + a ≡ k
    → a + b ≡ m
    → mapped_loop pd i m ≡ mapped_loop pd i a + mapped_loop pd k b
unfolding mapped_loop
mapped_loop-add pd i zero b k m at all =
    let e : b ≡ m = omega (arith, all) in
    let e' : k ≡ i = omega (arith, at) in rw (e, e') (omega arith)
mapped_loop-add pd i (suc a) b k zero at all = absurd (omega (arith, all))
mapped_loop-add pd i (suc a) b k (suc m) at all =
    let rest = mapped_loop-add pd (i + 1) a b k m (omega (arith, at)) (omega (arith, all)) in
    rw rest (omega arith)

mapped_loop-none :
    (pd : ℕ → ℕ) (i n : ℕ) → ((j : ℕ) → i ≤ j → j < i + n → pd j ≡ 0) → mapped_loop pd i n ≡ 0
unfolding mapped_loop
mapped_loop-none pd i zero h = refl
mapped_loop-none pd i (suc n) h =
    let rest = mapped_loop-none pd (i + 1) n (λ j a b. h j (omega (arith, a)) (omega (arith, b))) in
    rw (h i (omega arith) (omega arith), rest) refl

mapped_loop-all :
    (pd : ℕ → ℕ) (i n : ℕ)
    → ((j : ℕ) → i ≤ j → j < i + n → bit_and (pd j) 1 ≡ 1)
    → mapped_loop pd i n ≡ n
unfolding mapped_loop
mapped_loop-all pd i zero h = refl
mapped_loop-all pd i (suc n) h =
    let rest = mapped_loop-all pd (i + 1) n (λ j a b. h j (omega (arith, a)) (omega (arith, b))) in
    rw (h i (omega arith) (omega arith), rest) (omega arith)

present-test : all_below 256 (λ i. bit_and (large_page i) 1 == 1) ≡ true
unfolding large_page
present-test = refl

present : (i : ℕ) → i < 256 → bit_and (large_page i) 1 ≡ 1
present i h =
    (==_iff (bit_and (large_page i) 1) 1).0
      (all_below_lem 256 (λ i. bit_and (large_page i) 1 == 1) present-test i h)

map_entries-mapped :
    (n rest : ℕ) (pd : ℕ → ℕ)
    → ((j : ℕ) → pd j ≡ 0)
    → n ≤ 256
    → mapped_loop (map_entries pd 0 n) 0 (kernel_pde + (n + rest)) ≡ n
map_entries-mapped n rest pd blank few =
    let pd' = map_entries pd 0 n in
    let low =
      mapped_loop-none pd' 0 kernel_pde
        (λ j a b. map_entries-outside pd 0 n j (inl (omega (arith, b))) ∙ blank j) in
    let mid = mapped_loop-all pd' kernel_pde n (λ j a b.
      ap (λ k. bit_and (pd' k) 1) (at j a)
      ∙ ap (λ v. bit_and v 1)
          (map_entries-inside pd 0 n (j - kernel_pde) (omega arith) (omega (arith, a, b)))
      ∙ present (j - kernel_pde) (omega (arith, a, b, few))) in
    let high =
      mapped_loop-none pd' (kernel_pde + n) rest
        (λ j a b. map_entries-outside pd 0 n j (inr (omega (arith, a))) ∙ blank j) in
    mapped_loop-add pd' 0 kernel_pde (n + rest) kernel_pde (kernel_pde + (n + rest)) (omega arith)
      (omega arith)
    ∙ ap (λ t. t + mapped_loop pd' kernel_pde (n + rest)) low
    ∙ (let e : 0 + mapped_loop pd' kernel_pde (n + rest) ≡ mapped_loop pd' kernel_pde (n + rest) =
          omega arith in
        e)
    ∙ mapped_loop-add pd' kernel_pde n rest (kernel_pde + n) (n + rest) (omega arith) (omega arith)
    ∙ ap (λ t. t + mapped_loop pd' (kernel_pde + n) rest) mid
    ∙ ap (λ t. n + t) high
    ∙ omega arith
  where
    at : (j : ℕ) → kernel_pde ≤ j → j ≡ kernel_pde + (j - kernel_pde)
    at j h = omega arith

entries_lem : (kib : ℕ) → kib < 2 ^ 32 - 1023 → entries kib ≡ min 256 ((kib + 4095) / 4096)
unfolding entries
entries_lem kib h = ground arith

-- On a directory that paging_init fills from the blank one, paging_mapped_mib is the machine's memory
-- in MiB, rounded up to a multiple of 4 and at most 1024; the KiB fit 32 bits.
pub paging_mapped_mib_lem :
    (kib : ℕ) (pd : ℕ → ℕ)
    → ((j : ℕ) → pd j ≡ 0)
    → kib < 2 ^ 32 - 1023
    → paging_mapped_mib (paging_init kib pd) ≡ min 1024 ((kib + 4095) / 4096 * 4)
unfolding paging_init
paging_mapped_mib_lem kib pd blank small =
    let n = entries kib in
    let few = entries-bound kib in
    let total : kernel_pde + (n + (256 - n)) ≡ 1024 = omega (arith, few) in
    whole (map_entries pd 0 n)
    ∙ ap (λ k. mapped_loop (map_entries pd 0 n) 0 k * 4 % 2 ^ 32) (sym total)
    ∙ ap (λ k. k * 4 % 2 ^ 32) (map_entries-mapped n (256 - n) pd blank few)
    ∙ omega (arith, few, entries_lem kib small)
  where
    whole : (pd : ℕ → ℕ) → paging_mapped_mib pd ≡ mapped_loop pd 0 1024 * 4 % 2 ^ 32
    whole pd = unfold paging_mapped_mib in refl
