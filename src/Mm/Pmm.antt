-- ===== src/Mm/Pmm.antt =====
-- mm/pmm.c: the physical frame allocator, a bitmap with one bit per 4 KiB frame.
pub mod Frames
pub mod Tests
pub mod Count
pub mod Service
pub mod Boot
use Prim.Native.Nat.{bit_and, bit_or}
use raptor_kernel.Prelude.{
  ℕ, zero, suc, ◌+◌, ◌*◌, ◌/◌, ◌%◌, ◌^◌, Bool, ◌&&◌, Option, none, some, ltb, ◌==◌, ◌!=◌,
  if◌then◌else◌,
}
use raptor_kernel.Words.{add32, sub32}
use raptor_kernel.Bits.{all_but}

abbrev pub page_size : ℕ
page_size = 4096

abbrev pub max_frames : ℕ
max_frames = 1024 * 1024 * 1024 / page_size

abbrev pub kernel_vbase : ℕ
kernel_vbase = 0xC0000000

-- V2P(a): from the higher-half address to the physical one.
abbrev pub v2p : ℕ → ℕ
v2p a = sub32 a kernel_vbase

abbrev pub flag_mem : ℕ
flag_mem = 1

-- `bitmap`, `total_frames` and `used_frames`. The bitmap gives each word by its index.
pub record Pmm : Type 0 where
  pub bitmap : ℕ → ℕ
  pub total_frames : ℕ
  pub used_frames : ℕ

-- The two fields of the Multiboot information that pmm_init reads.
pub record MultibootInfo : Type 0 where
  pub flags : ℕ
  pub mem_upper : ℕ

unfoldable pub set_word : (ℕ → ℕ) → ℕ → ℕ → ℕ → ℕ
set_word bitmap i w j = if i == j then w else bitmap j

-- `bitmap[frame / 32] & (1u << (frame % 32))`, as a condition.
pub is_marked : Pmm → (frame : ℕ) → Bool
is_marked p frame = bit_and (p.bitmap (frame / 32)) (2 ^ (frame % 32)) != 0

pub mark_used : Pmm → (frame : ℕ) → Pmm
mark_used p frame = if is_marked p frame then p else record p {
  bitmap = set_word p.bitmap (frame / 32) (bit_or (p.bitmap (frame / 32)) (2 ^ (frame % 32)));
  used_frames = add32 p.used_frames 1;
}

-- The loop of pmm_init over the addresses below `reserved_end`; `none` when it runs out of fuel.
pub reserve_loop : ℕ → (addr reserved_end : ℕ) → Pmm → Option Pmm
reserve_loop zero addr reserved_end p = none
reserve_loop (suc fuel) addr reserved_end p =
    let rest =
      reserve_loop fuel (add32 addr page_size) reserved_end (mark_used p (addr / page_size)) in
    if ltb addr reserved_end then rest else some p

-- `none` stands for the panic without a memory map. `heap_end` is kheap_end_addr().
pub pmm_init : ℕ → MultibootInfo → (heap_end : ℕ) → Pmm → Option Pmm
pmm_init fuel mbi heap_end p =
    if bit_and mbi.flags flag_mem == 0
    then none
    else let total_kib = add32 1024 mbi.mem_upper in
      let frames = total_kib / (page_size / 1024) in
      let total = if ltb max_frames frames then max_frames else frames in
      reserve_loop fuel 0 (v2p heap_end) (record p { total_frames = total })

-- The loop of pmm_alloc_frame from frame `f`, with `n` frames left.
pub alloc_loop : (n f : ℕ) → Pmm → ℕ × Pmm
alloc_loop zero f p = (0, p)
alloc_loop (suc n) f p =
    let rest = alloc_loop n (f + 1) p in
    if is_marked p f then rest else (f * page_size % 2 ^ 32, mark_used p f)

pub pmm_alloc_frame : Pmm → ℕ × Pmm
pmm_alloc_frame p = alloc_loop p.total_frames 0 p

pub pmm_free_frame : Pmm → (addr : ℕ) → Pmm
pmm_free_frame p addr =
    let frame = addr / page_size in
    if ltb frame p.total_frames && is_marked p frame
    then record p {
      bitmap =
          set_word p.bitmap (frame / 32)
            (bit_and (p.bitmap (frame / 32)) (all_but 32 (frame % 32)));
      used_frames = sub32 p.used_frames 1;
    }
    else p

pub pmm_total_kib : Pmm → ℕ
pmm_total_kib p = p.total_frames * (page_size / 1024) % 2 ^ 32

pub pmm_used_kib : Pmm → ℕ
pmm_used_kib p = p.used_frames * (page_size / 1024) % 2 ^ 32
