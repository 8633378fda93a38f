-- ===== src/Execute/RereadNew.antt =====
-- A redirection of shell/shell.c to a file that is not there yet, and cat of shell/commands.c after it.
use raptor_kernel.Prelude.{ℕ, ◌≡◌, Bool, false, Option, some, List, [], take, length}
use raptor_kernel.Mm.Allocator.{Allocator}
use raptor_kernel.Console
use raptor_kernel.Console.Sent.{Sent}
use raptor_kernel.Fs.Ramfs.Files.{node_size}
use raptor_kernel.Fs.Ramfs.Write.{NoMemory}
use raptor_kernel.Commands.World.{World, Action, console_write}
use raptor_kernel.Execute.{capture_max}
use raptor_kernel.Execute.ToFile.{failed_text}
use raptor_kernel.Execute.Redirect.{Writes}
use raptor_kernel.Execute.NewFile.{OldPaths, StaysLive, CatPrints, NewFile, refused_text}

module _ {A : Allocator} where
  -- The outcomes of a redirection of the output `out` to the new file at `path`.
  pub data NewRedirected (fuel k : ℕ) (w : World A) (path out : List ℕ)
      (result : Option (Unit {0} × World A)) : Type 0 where
    to_new_file :
        (v : World A)
        → result ≡ some (tt, v)
        → CatPrints fuel v path (take capture_max out)
        → v.console.vga ≡ w.console.vga
        → v.console.serial ≡ w.console.serial
        → v.console.capturing ≡ false
        → StaysLive w v
        → OldPaths k w v
        → NewRedirected fuel k w path out result
    to_empty_file :
        (v : World A)
        → result ≡ some (tt, v)
        → NoMemory A
            (A.kmalloc (A.kmalloc w.heap capture_max).1 node_size).1
            (length (take capture_max out))
        → CatPrints fuel v path []
        → Sent w.console v.console (failed_text path)
        → StaysLive w v
        → OldPaths k w v
        → NewRedirected fuel k w path out result
    no_file :
        (v : World A)
        → result ≡ some (tt, v)
        → (A.kmalloc (A.kmalloc w.heap capture_max).1 node_size).0 ≡ 0
        → v.fs ≡ w.fs
        → Sent w.console v.console (refused_text path)
        → StaysLive w v
        → NewRedirected fuel k w path out result
    no_capture :
        (A.kmalloc w.heap capture_max).0 ≡ 0
        → result
          ≡ console_write "rsh: out of memory for redirection\n"
              (record w { heap = (A.kmalloc w.heap capture_max).1 })
        → NewRedirected fuel k w path out result

module _ {A : Allocator} (fuel k : ℕ) (w : World A) (path out : List ℕ) (append : Bool)
    (run : Action A ℕ) (writes : Writes run out) where
  -- The capture buffer, and the state with it.
  abbrev buf : ℕ
  buf = (A.kmalloc w.heap capture_max).0

  abbrev with_buf : World A
  with_buf = record w { heap = (A.kmalloc w.heap capture_max).1 }
