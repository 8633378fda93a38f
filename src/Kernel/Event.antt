-- ===== src/Kernel/Event.antt =====
-- What the code of kernel/ does to the processor and the ports, one event after the other.
use raptor_kernel.Prelude.{ℕ}

-- A handler of an interrupt is a value of `H`.
pub data Event (H : Type 0) : Type 0 where
  ran : H → Event H
  outb : (port value : ℕ) → Event H
  -- The registers of the two tables, as the instructions of these names load them.
  lgdt : (limit base : ℕ) → Event H
  lidt : (limit base : ℕ) → Event H
  -- The selectors of the code and of the data.
  segments : (code stack : ℕ) → Event H
  -- Interrupts are on from here.
  sti : Event H
  -- The physical address of the page directory.
  cr3 : (address : ℕ) → Event H
