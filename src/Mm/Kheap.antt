-- ===== src/Mm/Kheap.antt =====
-- mm/kheap.c: the kernel heap over a store of block headers. The store gives the header that
-- memory holds at an address, stale or arbitrary bytes included, so that reading it never fails.
-- Payload bytes are apart: a write into a payload changes the store only between two headers.
pub mod Cells
pub mod Tests
pub mod Chain
pub mod FirstFit
pub mod Neighbours
pub mod Holds
pub mod Client
pub mod Accounting
pub mod Released
pub mod Service
pub mod Merge
pub mod Release
pub mod Alloc
use raptor_kernel.Prelude.{
  ℕ, zero, suc, ◌-◌, ◌*◌, ◌/◌, Bool, true, false, not, ◌&&◌, ltb, leb, ◌==◌, ◌!=◌, if◌then◌else◌,
}
use raptor_kernel.Words.{add32, sub32}
use raptor_kernel.Mm.Outcome.{
  Outcome, ok, panic, out_of_fuel, Panic, corrupted_header, bad_pointer, double_free,
}

abbrev pub heap_size : ℕ
heap_size = 4 * 1024 * 1024

abbrev pub page_size : ℕ
page_size = 4096

-- "RAPT"
abbrev pub block_magic : ℕ
block_magic = 0x52415054

abbrev pub min_split : ℕ
min_split = 16

-- `sizeof(struct block)` on the 32-bit target: five words, the flag padded to one.
abbrev pub header_size : ℕ
header_size = 20

-- ALIGN_UP(x, a) at a power of two: the mask `~(a - 1)` clears the low bits.
abbrev pub align_up : ℕ → ℕ → ℕ
align_up x a = add32 x (a - 1) / a * a

pub record Block : Type 0 where
  pub magic : ℕ
  pub size : ℕ
  pub free : Bool
  pub next : ℕ
  pub prev : ℕ

abbrev pub Memory : Type 0
Memory = ℕ → Block

abbrev pub null : ℕ
null = 0

unfoldable pub write : Memory → ℕ → Block → Memory
write m p b q = if p == q then b else m q

-- `heap_start`, `heap_head` and the memory that they point into.
pub record Heap : Type 0 where
  pub start : ℕ
  pub head : ℕ
  pub memory : Memory

pub kheap_end_addr : Heap → ℕ
kheap_end_addr h = add32 h.start heap_size

pub kheap_init : (kernel_end : ℕ) → Memory → Heap
kheap_init kernel_end m =
    let start = align_up kernel_end page_size in
    record {
      start = start;
      head = start;
      memory = write m start (record {
        magic = block_magic;
        size = heap_size - header_size;
        free = true;
        next = null;
        prev = null;
      });
    }

-- `if (p) p->prev = b;`
pub set_prev : Memory → (p b : ℕ) → Memory
set_prev m p b = if p == null then m else write m p (record (m p) { prev = b })

pub split : Memory → (b size : ℕ) → Memory
split m b size =
    if ltb (m b).size (add32 (add32 size header_size) min_split)
    then m
    else let rest = add32 (add32 b header_size) size in
      let m1 = write m rest (record {
        magic = block_magic;
        size = sub32 (sub32 (m b).size size) header_size;
        free = true;
        next = (m b).next;
        prev = b;
      }) in
      let m2 = set_prev m1 (m b).next rest in
      write m2 b (record (m2 b) { size = size; next = rest })

-- `b->free = f;`
pub set_free : Memory → (b : ℕ) → Bool → Memory
set_free m b f = write m b (record (m b) { free = f })

-- The body of kmalloc's loop on a block that fits.
pub take_block : Memory → (b size : ℕ) → Memory
take_block m b size = set_free (split m b size) b false

-- The loop of kmalloc from block `b`: the pointer that it returns, and the memory.
pub kmalloc_loop : ℕ → Memory → (b size : ℕ) → Outcome (ℕ × Memory)
kmalloc_loop zero m b size = out_of_fuel
kmalloc_loop (suc fuel) m b size =
    let later = kmalloc_loop fuel m (m b).next size in
    if b == null
    then ok (null, m)
    else if (m b).magic != block_magic
    then panic (corrupted_header b)
    else if (m b).free && leb size (m b).size
    then ok (add32 b header_size, take_block m b size)
    else later

pub kmalloc : ℕ → Heap → ℕ → Outcome (ℕ × Memory)
kmalloc fuel h size =
    if size == 0 then ok (null, h.memory) else kmalloc_loop fuel h.memory h.head (align_up size 8)

pub merge_next : Memory → (b : ℕ) → Memory
merge_next m b =
    let n = (m b).next in
    if n == null
    then m
    else if not (m b).free
    then m
    else if not (m n).free
    then m
    else let m1 =
        write m b (record (m b) { size = add32 (m b).size (add32 header_size (m n).size) }) in
      let m2 = write m1 b (record (m1 b) { next = (m1 n).next }) in set_prev m2 (m2 b).next b

-- `if (b->prev && b->prev->free) merge_next(b->prev);`
pub merge_prev : Memory → (b : ℕ) → Memory
merge_prev m b =
    let p = (m b).prev in if p == null then m else if (m p).free then merge_next m p else m

pub kfree : Memory → (ptr : ℕ) → Outcome Memory
kfree m ptr =
    if ptr == null
    then ok m
    else let b = sub32 ptr header_size in
      if (m b).magic != block_magic
      then panic (bad_pointer ptr)
      else if (m b).free
      then panic (double_free ptr)
      else ok (merge_prev (merge_next (set_free m b true) b) b)

pub record Stats : Type 0 where
  pub total : ℕ
  pub used : ℕ
  pub largest_free : ℕ

pub kheap_stats_loop : ℕ → Memory → (b : ℕ) → Stats → Outcome Stats
kheap_stats_loop zero m b s = out_of_fuel
kheap_stats_loop (suc fuel) m b s =
    let s' : Stats = record {
      total = add32 s.total (m b).size;
      used = if (m b).free then s.used else add32 s.used (m b).size;
      largest_free =
          if (m b).free
          then if ltb s.largest_free (m b).size then (m b).size else s.largest_free
          else s.largest_free;
    } in
    let later = kheap_stats_loop fuel m (m b).next s' in if b == null then ok s else later

pub kheap_stats : ℕ → Heap → Outcome Stats
kheap_stats fuel h =
    kheap_stats_loop fuel h.memory h.head (record { total = 0; used = 0; largest_free = 0 })
