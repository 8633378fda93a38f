-- ===== src/Kernel/Main.antt =====
-- kmain of kernel/main.c: from the bootloader to the shell, on the lines that are typed there.
use raptor_kernel.Prelude.{ℕ, none, some, List, []}
use raptor_kernel.Mm.Allocator.{Allocator}
use raptor_kernel.Mm.Kheap.{Heap, Memory}
use raptor_kernel.Console.{console_putc}
use raptor_kernel.Fs.Ramfs.{Ramfs}
use raptor_kernel.Fs.Ramfs.Init.{ramfs_init}
use raptor_kernel.Commands.World.{World}
use raptor_kernel.Commands.Registry.{Hardware, shell_commands}
use raptor_kernel.Execute.Run.{shell_run}
use raptor_kernel.Kernel.Boot.{Given, Machine, Boot, running, halted, failed, step, bring_up}

-- The machine with the shell's state after the lines, or how the boot ended before it.
pub data Ended (A : Allocator) : Type 0 where
  in_shell : Machine → World A → Ended A
  stopped : Boot → Ended A

module _ {A : Allocator} (fuel : ℕ) (hw : Hardware) where
  -- The shell's state at its start, on the file system `fs`. `ticks` have passed since the timer was
  -- programmed.
  abbrev pub entering : Machine → Ramfs → A.State → (ticks : ℕ) → World A
  entering m fs s ticks = record {
    fs = fs;
    heap = s;
    cwd = 0;
    console = console_putc (step m.console "ramfs mounted at /") 10;
    history = record { history_ring = λ i. []; history_total = 0 };
    pmm = m.pmm;
    ticks = ticks;
  }

  -- ramfs_init and shell_run, on the machine that is up. `heap` is the allocator's state on a heap.
  unfoldable pub user_space :
      (heap : Heap → A.State) → Ramfs → (ticks : ℕ) → (lines : List (List ℕ)) → Machine → Ended A
  user_space heap fs ticks lines m = elim (ramfs_init A fuel fs (heap m.heap)) [
    | none ↦ stopped failed
    | some r ↦ elim (shell_run fuel (shell_commands fuel hw) lines (entering m r.0 r.1 ticks)) [
      | none ↦ stopped failed
      | some w ↦ in_shell m w.1
    ]
  ]

  unfoldable pub kmain :
      Given
      → Memory
      → Machine
      → (heap : Heap → A.State) → Ramfs
      → (ticks : ℕ) → (lines : List (List ℕ)) → Ended A
  unfolding user_space
  kmain g memory m heap fs ticks lines = elim (bring_up fuel g memory m) [
    | running m' ↦ user_space heap fs ticks lines m'
    | halted con ↦ stopped (halted con)
    | failed ↦ stopped failed
  ]
