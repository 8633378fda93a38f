-- ===== src/Mm/Kheap/Tests.antt =====
-- mm/kheap.c on a heap behind a kernel that ends at 1 MiB.
use raptor_kernel.Prelude.{
  ℕ, ◌+◌, ◌*◌, ◌<◌, ◌≤◌, ◌≡◌, ◌≢◌, ◌↔◌, refl, true, false, List, [], ◌∷◌, arith, length,
}
use raptor_kernel.Mm.Outcome.{ok, panic, double_free}
use raptor_kernel.Mm.Kheap.{
  Memory, Heap, null, write, kmalloc, kfree, kheap_stats, header_size, heap_size, block_magic,
  kmalloc_loop, take_block,
}
use raptor_kernel.Mm.Kheap.Cells.{Cell, cell, alloc, alloc_at, release, find_at}
use raptor_kernel.Mm.Kheap.Holds.{heap_fuel, Holds, with_memory, kmalloc-alloc, kfree-release}
use raptor_kernel.Mm.Kheap.Client.{
  Granted, InUse, kmalloc-Granted, kfree-kmalloc, kfree_twice, kfree-keeps,
}
use raptor_kernel.Mm.Kheap.Accounting.{kheap_stats_lem, kmalloc-null_iff, payload, in_use}

abbrev pub start : ℕ
start = 0x10_1000

-- Memory before the heap is set up holds no header.
abbrev pub blank : Memory
blank _ = record { magic = 0; size = 0; free = false; next = 0; prev = 0 }

abbrev pub blocks : List Cell
blocks = cell 16 false ∷ cell 4_194_248 true ∷ []

-- A heap with one block of 16 bytes in use.
abbrev pub demo : Heap
demo = record {
  start = start;
  head = start;
  memory =
      write
        (write blank start
          (record { magic = block_magic; size = 16; free = false; next = start + 36; prev = 0 }))
        (start + 36)
        (record { magic = block_magic; size = 4_194_248; free = true; next = 0; prev = start });
}

pub demo-Holds : Holds demo blocks
unfolding write
demo-Holds = record {
  positive = omega arith;
  in_memory = omega arith;
  filled = refl;
  first = refl;
  chain = (refl, (refl, tt));
  coalesced = (refl, (refl, tt));
}

kmalloc-alloc_example :
    (m : Memory) × (kmalloc heap_fuel demo 10 ≡ ok (alloc_at 16 start blocks, m))
    × Holds (with_memory demo m) (alloc 16 blocks)
kmalloc-alloc_example = kmalloc-alloc heap_fuel 10 (omega arith) (omega arith) demo-Holds

kfree-release_example :
    (m : Memory) × (kfree demo.memory (start + 20) ≡ ok m)
    × Holds (with_memory demo m) (release start start blocks)
kfree-release_example = kfree-release start (cell 16 false) demo-Holds (unfold find_at in refl) refl

-- The memory after kmalloc(10): the free block split at 16 bytes.
abbrev granted : Memory
granted = take_block demo.memory (start + 36) 16

-- The allocator's own run.
kmalloc-demo : kmalloc heap_fuel demo 10 ≡ ok (start + 56, granted)
unfolding kmalloc kmalloc_loop write
kmalloc-demo = refl

kmalloc-Granted_example :
    (b : ℕ) × (ds : List Cell) × (start + 56 ≡ b + header_size)
    × Granted start 10 blocks ds b
    × Holds (with_memory demo granted) ds
kmalloc-Granted_example =
    kmalloc-Granted heap_fuel 10 (start + 56) granted (omega arith) (omega arith) (omega arith)
      demo-Holds kmalloc-demo (omega arith)

kfree-kmalloc_example :
    (m : Memory) × (kfree granted (start + 56) ≡ ok m) × Holds (with_memory demo m) blocks
kfree-kmalloc_example =
    kfree-kmalloc heap_fuel 10 (start + 56) granted (omega arith) (omega arith) demo-Holds
      kmalloc-demo (omega arith)

kfree_twice_example :
    (m : Memory) × (kfree demo.memory (start + 20) ≡ ok m)
    × (kfree m (start + 20) ≡ panic (double_free (start + 20)))
kfree_twice_example = kfree_twice start 16 demo-Holds (unfold find_at in refl)

kfree-keeps_example :
    (m : Memory) × (ds : List Cell) × (kfree demo.memory (start + 20) ≡ ok m)
    × Holds (with_memory demo m) ds
    × ((x s : ℕ) → InUse start blocks x s → x ≢ start → InUse start ds x s)
kfree-keeps_example = kfree-keeps start 16 demo-Holds (unfold find_at in refl)

kheap_stats_lem_example :
    (kheap_stats heap_fuel demo
      ≡ ok (record { total = 4_194_264; used = 16; largest_free = 4_194_248 }))
    × (payload blocks + header_size * length blocks ≡ heap_size)
    × (in_use blocks ≤ payload blocks)
kheap_stats_lem_example = kheap_stats_lem heap_fuel (omega arith) demo-Holds

kmalloc-null_iff_example : (start + 56 ≡ null) ↔ (4_194_248 < 16)
kmalloc-null_iff_example =
    kmalloc-null_iff heap_fuel 10 (start + 56) granted
      (record { total = 4_194_264; used = 16; largest_free = 4_194_248 }) (omega arith)
      (omega arith) (omega arith) demo-Holds (kheap_stats_lem heap_fuel (omega arith) demo-Holds).0
      kmalloc-demo
