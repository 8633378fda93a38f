-- ===== src/Mm.antt =====
-- The directory mm/: the kernel heap, the physical frame allocator, and paging.
pub mod Outcome
pub mod Allocator
pub mod Kheap
pub mod Pmm
pub mod Paging
