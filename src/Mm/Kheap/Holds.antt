-- ===== src/Mm/Kheap/Holds.antt =====
-- The heap invariant of mm/kheap.c, and kheap_init, kmalloc and kfree against the abstract heap.
use raptor_kernel.Prelude.{
  ℕ, ◌+◌, ◌-◌, ◌*◌, ◌/◌, ◌<◌, ◌≤◌, ◌^◌, ◌≡◌, refl, ◌∙◌, true, false, List, [], ◌∷◌, some, arith,
  ◌==◌, length,
}
use raptor_kernel.Mm.Outcome.{ok}
use raptor_kernel.Mm.Kheap.{
  Memory, Heap, null, kheap_init, kheap_end_addr, kmalloc, kfree, header_size, heap_size, page_size,
  align_up,
}
use raptor_kernel.Mm.Kheap.Cells.{Cell, cell, span, alloc_at, alloc, find_at, release}
use raptor_kernel.Mm.Kheap.Chain.{link, Chain, write_self}
use raptor_kernel.Mm.Kheap.Alloc.{kmalloc_loop-Searched}
use raptor_kernel.Mm.Kheap.Release.{kfree-ok, Chain-merge_prev}
use raptor_kernel.Mm.Kheap.FirstFit.{Coalesced, span-alloc, alloc-Coalesced}
use raptor_kernel.Mm.Kheap.Neighbours.{span-release, release-Coalesced}

-- More rounds than the heap has room for headers.
abbrev pub heap_fuel : ℕ
heap_fuel = heap_size / header_size + 1

-- The heap's memory holds exactly the blocks `cs`: their headers are linked both ways in address
-- order, they fill the region, which lies inside the address space, and no two neighbours are free.
pub record Holds (h : Heap) (cs : List Cell) : Type 0 where
  pub positive : 0 < h.start
  pub in_memory : h.start + heap_size < 2 ^ 32
  pub filled : span cs ≡ heap_size
  pub first : h.head ≡ h.start
  pub chain : Chain h.memory null h.start cs
  pub coalesced : Coalesced cs

abbrev pub with_memory : Heap → Memory → Heap
with_memory h m = record h { memory = m }

header-count-le : (cs : List Cell) → header_size * length cs ≤ span cs
header-count-le [] = omega arith
header-count-le (c ∷ cs) = omega (arith, header-count-le cs)

pub length-lt-fuel : {h : Heap} {cs : List Cell} → Holds h cs → length cs < heap_fuel
length-lt-fuel {cs} v = omega (arith, header-count-le cs)

pub link-first : {h : Heap} {cs : List Cell} → Holds h cs → h.head ≡ link h.start cs
link-first {h} {cs = []} v = absurd (omega arith)
link-first {h} {cs = c ∷ cs} v = v.first

-- kheap_init leaves a single free block that fills the 4 MiB from the first page boundary at or
-- after the kernel's end, if the kernel ends where a heap behind it fits in the address space.
pub kheap_init-Holds :
    (kernel_end : ℕ) (m : Memory)
    → 0 < kernel_end
    → kernel_end + page_size + heap_size < 2 ^ 32
    → Holds (kheap_init kernel_end m) (cell (heap_size - header_size) true ∷ [])
      × (kernel_end ≤ (kheap_init kernel_end m).start)
      × ((kheap_init kernel_end m).start < kernel_end + page_size)
unfolding kheap_init
kheap_init-Holds kernel_end m pos fits = (
  record {
    positive = omega arith;
    in_memory = omega arith;
    filled = refl;
    first = refl;
    chain = (write_self m (align_up kernel_end page_size) _, tt);
    coalesced = (refl, tt);
  },
  omega arith,
  omega arith,
)

pub kheap_end_addr_lem :
    (h : Heap) → h.start + heap_size < 2 ^ 32 → kheap_end_addr h ≡ h.start + heap_size
unfolding kheap_end_addr
kheap_end_addr_lem h fits = omega (arith, fits)

-- kmalloc of a size above 0 never panics and ends within `heap_fuel` rounds. It returns what first
-- fit over the heap's blocks returns for the size rounded up to 8, as 32-bit arithmetic rounds it,
-- and leaves a heap that holds the blocks of first fit.
pub kmalloc-alloc :
    (fuel n : ℕ) {h : Heap} {cs : List Cell}
    → heap_fuel ≤ fuel
    → 0 < n
    → Holds h cs
    → (m : Memory) × (kmalloc fuel h n ≡ ok (alloc_at (align_up n 8) h.start cs, m))
      × Holds (with_memory h m) (alloc (align_up n 8) cs)
unfolding kmalloc
kmalloc-alloc fuel n {h} {cs} enough pos v =
    let size : ℕ = align_up n 8 in
    let run =
      kmalloc_loop-Searched fuel size h.memory null h.start cs v.positive
        (omega (arith, v.in_memory, v.filled)) (omega (arith, v.filled))
        (omega (arith, length-lt-fuel v)) v.chain in
    let some_size : (n == 0) ≡ false = ground arith in
    (
      run.after_search,
      rw (some_size, link-first v) run.returned,
      record {
        positive = v.positive;
        in_memory = v.in_memory;
        filled = span-alloc size cs ∙ v.filled;
        first = v.first;
        chain = run.chain;
        coalesced = alloc-Coalesced size cs v.coalesced;
      },
    )

-- kfree of a block in use never panics, and leaves a heap that holds the blocks with that one
-- free and joined to its free neighbours.
pub kfree-release :
    {h : Heap} {cs : List Cell} (b : ℕ) (c : Cell)
    → Holds h cs
    → find_at h.start b cs ≡ some c
    → c.free ≡ false
    → (m : Memory) × (kfree h.memory (b + header_size) ≡ ok m)
      × Holds (with_memory h m) (release h.start b cs)
kfree-release {h} {cs} b c v found used =
    let low : h.start + span cs < 2 ^ 32 = omega (arith, v.in_memory, v.filled) in
    (
      _,
      kfree-ok h.memory h.start b cs c v.positive low v.chain found used,
      record {
        positive = v.positive;
        in_memory = v.in_memory;
        filled = span-release h.start b cs ∙ v.filled;
        first = v.first;
        chain = Chain-merge_prev h.memory h.start b cs c v.positive low v.chain found;
        coalesced = release-Coalesced h.start b cs v.coalesced;
      },
    )
