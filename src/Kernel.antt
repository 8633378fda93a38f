-- ===== src/Kernel.antt =====
-- The directory kernel/: the descriptor tables, the dispatch of interrupts, panics, and kmain.
pub mod Event
pub mod Gdt
pub mod Idt
pub mod Panic
pub mod Boot
pub mod Main
mod Tests
