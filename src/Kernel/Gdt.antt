-- ===== src/Kernel/Gdt.antt =====
-- kernel/gdt.c: the descriptors of the table, by index, and the registers that are loaded.
mod Tests
use Prim.Native.Nat.{bit_and, bit_or}
use raptor_kernel.Prelude.{
  ℕ, ◌+◌, ◌-◌, ◌*◌, ◌/◌, ◌%◌, ◌^◌, ◌<◌, ◌≤◌, ◌≡◌, refl, List, [], ◌∷◌, ap, sym, ◌∙◌, Bool, true,
  false, ◌&&◌, ◌==◌, if◌then◌else◌, arith, ==_iff, all_below, all_below_lem, and_parts,
}
use raptor_kernel.Kernel.Event.{Event, lgdt, segments}
use raptor_kernel.Bits.{bit_and-15, bit_and-255, bit_and-65535}

pub record GdtEntry : Type 0 where
  pub limit_low : ℕ
  pub base_low : ℕ
  pub base_mid : ℕ
  pub access : ℕ
  pub granularity : ℕ
  pub base_high : ℕ

unfoldable pub gdt_entry : (base limit access gran : ℕ) → GdtEntry
gdt_entry base limit access gran = record {
  base_low = bit_and base 0xffff;
  base_mid = bit_and (base / 2 ^ 16) 0xff;
  base_high = bit_and (base / 2 ^ 24) 0xff;
  limit_low = bit_and limit 0xffff;
  granularity = bit_or (bit_and (limit / 2 ^ 16) 0x0f) (bit_and gran 0xf0);
  access = access;
}

unfoldable pub gdt_set : (ℕ → GdtEntry) → (i base limit access gran : ℕ) → ℕ → GdtEntry
unfolding gdt_entry
gdt_set gdt i base limit access gran j = if i == j then gdt_entry base limit access gran else gdt j

unfoldable pub gdt_init : (ℕ → GdtEntry) → ℕ → GdtEntry
unfolding gdt_set
gdt_init gdt =
    let g0 = gdt_set gdt 0 0 0 0 0 in
    let g1 = gdt_set g0 1 0 0xfffff 0x9a 0xc0 in
    let g2 = gdt_set g1 2 0 0xfffff 0x92 0xc0 in
    let g3 = gdt_set g2 3 0 0xfffff 0xfa 0xc0 in gdt_set g3 4 0 0xfffff 0xf2 0xc0

-- The table at `gdt_at` with its five descriptors of 8 bytes, and the kernel's two selectors.
unfoldable pub gdt_load : {H : Type 0} → (gdt_at : ℕ) → List (Event H)
gdt_load gdt_at = lgdt (5 * 8 - 1) gdt_at ∷ segments 0x08 0x10 ∷ []

-- The processor's reading of a descriptor.
abbrev pub base_of : GdtEntry → ℕ
base_of e = e.base_low + e.base_mid * 2 ^ 16 + e.base_high * 2 ^ 24

abbrev pub limit_of : GdtEntry → ℕ
limit_of e = e.limit_low + e.granularity % 16 * 2 ^ 16

abbrev pub nibbles : (l g : ℕ) → Bool
nibbles l g = (bit_or l (bit_and g 0xf0) % 16 == l) && (bit_or l (bit_and g 0xf0) / 16 == g / 16)

nibbles-test : all_below 16 (λ l. all_below 256 (λ g. nibbles l g)) ≡ true
nibbles-test = refl

nibbles_lem : (l g : ℕ) → l < 16 → g < 256 → nibbles l g ≡ true
nibbles_lem l g h k =
    all_below_lem 256 (λ g. nibbles l g)
      (all_below_lem 16 (λ l. all_below 256 (λ g. nibbles l g)) nibbles-test l h) g k

-- A descriptor of all 4 GiB: 2^20 pages from address 0 on, for code or data of 32 bits.
pub record Flat (e : GdtEntry) (access : ℕ) : Type 0 where
  pub base : base_of e ≡ 0
  pub limit : limit_of e ≡ 2 ^ 20 - 1
  pub kind : e.access ≡ access
  pub pages : e.granularity / 16 ≡ 0xc

-- The segments of the kernel and of its users are flat, the code and the data of each.
pub gdt_init-Flat :
    (gdt : ℕ → GdtEntry)
    → Flat (gdt_init gdt 1) 0x9a
      × Flat (gdt_init gdt 2) 0x92
      × Flat (gdt_init gdt 3) 0xfa
      × Flat (gdt_init gdt 4) 0xf2
unfolding gdt_init gdt_set gdt_entry
gdt_init-Flat gdt = (
  record { base = refl; limit = refl; kind = refl; pages = refl },
  record { base = refl; limit = refl; kind = refl; pages = refl },
  record { base = refl; limit = refl; kind = refl; pages = refl },
  record { base = refl; limit = refl; kind = refl; pages = refl },
)

-- The processor reads back from a descriptor the base, the 20-bit limit, the access byte and the
-- granularity flags that gdt_set was given.
pub gdt_entry_lem :
    (base limit access gran : ℕ)
    → base < 2 ^ 32
    → limit < 2 ^ 20
    → gran < 2 ^ 8
    → (base_of (gdt_entry base limit access gran) ≡ base)
      × (limit_of (gdt_entry base limit access gran) ≡ limit)
      × ((gdt_entry base limit access gran).access ≡ access)
      × ((gdt_entry base limit access gran).granularity / 16 ≡ gran / 16)
unfolding gdt_entry
gdt_entry_lem base limit access gran h k g =
    let high = bit_and-15 (limit / 2 ^ 16) in
    let (low, flags) =
      and_parts _ _ (nibbles_lem (bit_and (limit / 2 ^ 16) 0x0f) gran (omega (arith, high)) g) in
    let low' : bit_or (bit_and (limit / 2 ^ 16) 0x0f) (bit_and gran 0xf0) % 16
        ≡ bit_and (limit / 2 ^ 16) 0x0f =
      (==_iff _ _).0 low in
    (
      omega
          (arith, bit_and-65535 base, bit_and-255 (base / 2 ^ 16), bit_and-255 (base / 2 ^ 24), h),
      omega (arith, bit_and-65535 limit, high, low', k),
      refl,
      (==_iff _ _).0 flags,
    )
