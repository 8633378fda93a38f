-- ===== src/Mm/Paging.antt =====
-- mm/paging.c: the page directory as a function of the entry's index. The memory size comes from
-- pmm_total_kib.
pub mod Mapped
mod Tests
use Prim.Native.Nat.{bit_or}
use raptor_kernel.Prelude.{
  ℕ, zero, suc, ◌+◌, ◌-◌, ◌*◌, ◌/◌, ◌%◌, ◌^◌, ◌<◌, ◌≤◌, ◌≡◌, ◌⊎◌, refl, ap, sym, ◌∙◌, inl, inr,
  Bool, true, false, ltb, ◌==◌, if◌then◌else◌, arith, Bool-cases, ==_iff, min, all_below,
  all_below_lem,
}

abbrev pub kernel_pde : ℕ
kernel_pde = 768

abbrev pub pde_flags : ℕ
pde_flags = 0x83

unfoldable pub set_entry : (ℕ → ℕ) → ℕ → ℕ → ℕ → ℕ
set_entry pd i v j = if i == j then v else pd j

-- `(i << 22) | PDE_PRESENT | PDE_WRITE | PDE_LARGE`
unfoldable pub large_page : ℕ → ℕ
large_page i = bit_or (bit_or (bit_or (i * 2 ^ 22 % 2 ^ 32) 1) 2) 0x80

-- The loop from `i` on, for `n` entries.
unfoldable pub map_entries : (ℕ → ℕ) → (i n : ℕ) → ℕ → ℕ
unfolding set_entry large_page
map_entries pd i zero = pd
map_entries pd i (suc n) = map_entries (set_entry pd (kernel_pde + i) (large_page i)) (i + 1) n

unfoldable pub entries : (total_kib : ℕ) → ℕ
entries total_kib =
    let mib = (total_kib + 1023) % 2 ^ 32 / 1024 in
    let n = (mib + 3) / 4 in if ltb (1024 - kernel_pde) n then 1024 - kernel_pde else n

unfoldable pub paging_init : (total_kib : ℕ) → (ℕ → ℕ) → ℕ → ℕ
unfolding map_entries entries
paging_init total_kib pd = map_entries pd 0 (entries total_kib)

large_page-test : all_below 256 (λ i. large_page i == i * 2 ^ 22 + pde_flags) ≡ true
unfolding large_page
large_page-test = refl

large_page_lem : (i : ℕ) → i < 256 → large_page i ≡ i * 2 ^ 22 + pde_flags
large_page_lem i h =
    (==_iff (large_page i) (i * 2 ^ 22 + pde_flags)).0
      (all_below_lem 256 (λ i. large_page i == i * 2 ^ 22 + pde_flags) large_page-test i h)

pub map_entries-outside :
    (pd : ℕ → ℕ) (i n j : ℕ)
    → (j < kernel_pde + i) ⊎ (kernel_pde + i + n ≤ j)
    → map_entries pd i n j ≡ pd j
unfolding map_entries set_entry
map_entries-outside pd i zero j h = refl
map_entries-outside pd i (suc n) j h =
    map_entries-outside (set_entry pd (kernel_pde + i) (large_page i)) (i + 1) n j
      (omega (arith, h))
    ∙ ground (arith, h)

pub map_entries-inside :
    (pd : ℕ → ℕ) (i n k : ℕ)
    → i ≤ k
    → k < i + n
    → map_entries pd i n (kernel_pde + k) ≡ large_page k
unfolding map_entries set_entry
map_entries-inside pd i zero k h l = absurd (omega arith)
map_entries-inside pd i (suc n) k h l = elim (Bool-cases (i == k)) [
  | inl here ↦
      let e : i ≡ k = (==_iff i k).0 here in
      map_entries-outside (set_entry pd (kernel_pde + i) (large_page i)) (i + 1) n (kernel_pde + k)
        (omega (arith, e))
      ∙ rw ((==_iff (kernel_pde + i) (kernel_pde + k)).1 (omega (arith, e)), set_entry)
          (ap large_page e)
  | inr later ↦
      map_entries-inside (set_entry pd (kernel_pde + i) (large_page i)) (i + 1) n k
        (ground (arith, later, h)) (omega arith)
]

pub entries-bound : (kib : ℕ) → entries kib ≤ 256
unfolding entries
entries-bound kib = ground arith

-- paging_init maps the first RAM of the machine, in large pages present and writable, from
-- 0xC0000000 on: the entry that covers each address of RAM below 1 GiB holds its physical page, and
-- the entries below 768, with the page of NULL, are left as they were.
pub paging_init_lem :
    (kib a : ℕ) (pd : ℕ → ℕ)
    → kib < 2 ^ 32 - 1023
    → a < kib * 1024
    → a < 2 ^ 30
    → (paging_init kib pd (kernel_pde + a / 2 ^ 22) ≡ a / 2 ^ 22 * 2 ^ 22 + pde_flags)
      × ((j : ℕ) → j < kernel_pde → paging_init kib pd j ≡ pd j)
unfolding paging_init
paging_init_lem kib a pd h r w =
    let covered : a / 2 ^ 22 < entries kib = unfold entries in ground (arith, h, r, w) in
    (
      map_entries-inside pd 0 (entries kib) (a / 2 ^ 22) (omega arith) (omega (arith, covered))
          ∙ large_page_lem (a / 2 ^ 22) (omega (arith, w)),
      (λ j k. map_entries-outside pd 0 (entries kib) j (inl (omega (arith, k)))),
    )

pub paging_init-lower :
    (kib : ℕ) (pd : ℕ → ℕ) (j : ℕ) → j < kernel_pde → paging_init kib pd j ≡ pd j
unfolding paging_init
paging_init-lower kib pd j low = map_entries-outside pd 0 (entries kib) j (inl (omega (arith, low)))
