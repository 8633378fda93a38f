-- ===== src/Execute/Reread.antt =====
-- A redirection of shell/shell.c and cat of shell/commands.c after it.
use raptor_kernel.Prelude.{ℕ, ◌+◌, ◌≡◌, Bool, List, if◌then◌else◌, take, length}
use raptor_kernel.Mm.Allocator.{Allocator}
use raptor_kernel.Console
use raptor_kernel.Fs.Ramfs.{Ramfs}
use raptor_kernel.Fs.Ramfs.SameTree.{SameTree}
use raptor_kernel.Fs.Ramfs.Write.{NoMemory}
use raptor_kernel.Commands.World.{World}
use raptor_kernel.Execute.{capture_max}

module _ {A : Allocator} where
  -- kmalloc gives NULL in a redirection of `out` to the file `f`.
  pub data OutOfMemory (w : World A) (f : ℕ) (append : Bool) (out : List ℕ) : Type 0 where
    for_capture : (A.kmalloc w.heap capture_max).0 ≡ 0 → OutOfMemory w f append out
    for_file :
        NoMemory A
          (A.kmalloc w.heap capture_max).1
          ((if append then (w.fs.node f).size else 0) + length (take capture_max out))
        → OutOfMemory w f append out
