-- ===== src/Execute/Run.antt =====
-- The prompt and the loop of shell/shell.c. A line is given by its keys.
use raptor_kernel.Prelude.{ℕ, not, ◌&&◌, none, some, List, [], ◌∷◌, ◌!=◌, if◌then◌else◌}
use raptor_kernel.Prelude.Text.{bytes}
use raptor_kernel.Mm.Allocator.{Allocator}
use raptor_kernel.Console
use raptor_kernel.Shell.{line_max, read_line, history_add}
use raptor_kernel.Shell.Echo.{read_echo}
use raptor_kernel.Fs.Ramfs.Walk.{ramfs_path, path_max}
use raptor_kernel.Commands.World.{
  Action, pure, ◌>>=◌, ◌>>◌, gets, on_console, write_text, console_putc, console_write, set_cwd,
  is_dir, ramfs_resolve, payload,
}
use raptor_kernel.Execute.{Table, execute}

module _ {A : Allocator} where
  abbrev pub set_color : (fg : ℕ) → Action A (Unit {0})
  set_color fg = on_console (λ con. Console.console_set_color con fg 0)

  unfoldable pub print_prompt : Action A (Unit {0})
  print_prompt = do
    path ← gets (λ w. ramfs_path w.fs w.cwd path_max)
    set_color 10
    console_write "root@raptor"
    set_color 7
    console_putc b':'
    set_color 11
    write_text path
    set_color 7
    console_write "# "

  -- read_line, with what it shows.
  unfoldable pub read_input : (keys : List ℕ) → Action A (List ℕ)
  read_input keys w = elim (read_line w.history line_max keys) [
    | none ↦ none
    | some line ↦ some (
      line,
      record w { console = Console.console_write w.console (read_echo w.history line_max keys) },
    )
  ]

  unfoldable pub remember : List ℕ → Action A (Unit {0})
  remember [] w = some (tt, w)
  remember (c ∷ cs) w = some (tt, record w { history = history_add w.history (c ∷ cs) })

  module _ (fuel : ℕ) (table : Table A) where
    -- A round of the loop of shell_run.
    unfoldable pub shell_round : (keys : List ℕ) → Action A (Unit {0})
    unfolding print_prompt read_input remember
    shell_round keys = do
      print_prompt
      line ← read_input keys
      remember line
      execute fuel table line

    unfoldable pub shell_loop : List (List ℕ) → Action A (Unit {0})
    unfolding shell_round
    shell_loop [] = pure tt
    shell_loop (keys ∷ more) = do shell_round keys; shell_loop more

    -- The message of the day, when its file is there.
    unfoldable pub greet : Action A (Unit {0})
    greet = do
      n ← ramfs_resolve fuel (bytes "/etc/motd")
      dir ← is_dir n
      text ← gets (λ w. payload w.fs n)
      if (n != 0) && not dir then (do write_text text; console_putc 10) else pure tt

    -- shell_run on the lines that are typed.
    unfoldable pub shell_run : List (List ℕ) → Action A (Unit {0})
    unfolding greet shell_loop
    shell_run lines = do top ← gets (λ w. w.fs.root); set_cwd top; greet; shell_loop lines
