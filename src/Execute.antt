-- ===== src/Execute.antt =====
-- execute of shell/shell.c: a line as a command of a table, with its output to the console or, by a
-- capture, to a file.
pub mod ToFile
pub mod Redirect
pub mod Run
pub mod Reread
pub mod Round
pub mod NewFile
pub mod RereadNew
pub mod Tests
use mathlib.Core.Option
use raptor_kernel.Prelude.{
  ℕ, zero, suc, ◌+◌, ◌≡◌, Bool, true, false, not, ◌&&◌, ◌||◌, Option, none, some, List, [], ◌∷◌,
  ◌==◌, if◌then◌else◌, get_or,
}
use raptor_kernel.Mm.Allocator.{Allocator}
use raptor_kernel.Console
use raptor_kernel.Console.{Console}
use raptor_kernel.Shell.{
  Request, missing_target, plain, redirected, argv_max, tokenize, find_redirect, find_command,
}
use raptor_kernel.Commands.World.{
  World, Action, pure, ◌>>=◌, ◌>>◌, gets, console_write, kprintf, is_dir, ramfs_resolve,
  ramfs_create, ramfs_write, read_bytes,
}
use raptor_kernel.Commands.Tree.{text_arg}

abbrev pub capture_max : ℕ
capture_max = 16384

abbrev pub Table : Allocator → Type 0
Table A = List (List ℕ × (List (List ℕ) → Action A ℕ))

module _ {A : Allocator} where
  unfoldable pub heap_alloc : (size : ℕ) → Action A ℕ
  heap_alloc size w = let (p, s) = A.kmalloc w.heap size in some (p, record w { heap = s })

  unfoldable pub heap_free : (ptr : ℕ) → Action A (Unit {0})
  heap_free p w = Option.map (λ s. (tt, record w { heap = s })) (A.kfree w.heap p)

  -- The capture goes to the buffer at `p`.
  unfoldable pub capture_begin : (p cap : ℕ) → Action A (Unit {0})
  capture_begin p cap w =
      some (tt, record w { console = Console.console_capture_begin w.console (w.fs.bytes p) cap })

  -- The bytes that were captured.
  unfoldable pub capture_end : Action A (List ℕ)
  capture_end w =
      let (len, con) = Console.console_capture_end w.console in
      some (read_bytes con.capture_buf 0 len, record w { console = con })

  -- The capture of a command's output in the buffer at `p`.
  abbrev pub run_into : (p : ℕ) → Action A ℕ → Action A (List ℕ)
  run_into p run = do capture_begin p capture_max; code ← run; capture_end

  module _ (fuel : ℕ) where
    -- redirect_to_file once the node is found or made.
    abbrev pub write_to : List ℕ → List ℕ → (append : Bool) → (f : ℕ) → Action A (Unit {0})
    write_to path text append f = do
      dir ← is_dir f
      if (f == 0) || dir then kprintf "rsh: cannot write to %s\n" (text_arg path ∷ []) else (do
        done ← ramfs_write fuel f text append
        if done then pure tt else kprintf "rsh: write to %s failed\n" (text_arg path ∷ []))

    unfoldable pub redirect_to_file : List ℕ → List ℕ → (append : Bool) → Action A (Unit {0})
    redirect_to_file path text append = do
      old ← ramfs_resolve fuel path
      f ← (if old == 0 then ramfs_create fuel path false else pure old)
      write_to path text append f

    unfoldable pub run_captured :
        (List (List ℕ) → Action A ℕ)
        → List (List ℕ)
        → List ℕ
        → (append : Bool) → Action A (Unit {0})
    unfolding heap_alloc heap_free redirect_to_file
    run_captured run argv path append = do
      p ← heap_alloc capture_max
      if p == 0
          then console_write "rsh: out of memory for redirection\n"
          else (do text ← run_into p (run argv); redirect_to_file path text append; heap_free p)

    unfoldable pub with_command :
        Table A
        → List (List ℕ)
        → ((List (List ℕ) → Action A ℕ) → Action A (Unit {0}))
        → Action A (Unit {0})
    with_command table argv go = elim (find_command table (get_or argv 0 [])) [
      | none ↦
          kprintf "rsh: %s: command not found (try 'help')\n" (text_arg (get_or argv 0 []) ∷ [])
      | some run ↦ go run
    ]

    unfoldable pub run_request : Table A → Request → Action A (Unit {0})
    unfolding with_command run_captured
    run_request table missing_target = console_write "rsh: missing redirection target\n"
    run_request table (plain []) = pure tt
    run_request table (plain (a ∷ as')) =
        with_command table (a ∷ as') (λ run. do code ← run (a ∷ as'); pure tt)
    run_request table (redirected [] path append) = pure tt
    run_request table (redirected (a ∷ as') path append) =
        with_command table (a ∷ as') (λ run. run_captured run (a ∷ as') path append)

    unfoldable pub execute : Table A → List ℕ → Action A (Unit {0})
    unfolding run_request
    execute table line w = elim (tokenize fuel line argv_max) [
      | none ↦ none
      | some words ↦ run_request table (find_redirect words) w
    ]
