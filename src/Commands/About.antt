-- ===== src/Commands/About.antt =====
-- The commands of shell/commands.c that print constants, and sleep. The texts of the build and of the
-- compiler come from the build.
use raptor_kernel.Prelude.{ℕ, ◌*◌, none, some, List, [], ◌∷◌, ltb, ◌&&◌, if◌then◌else◌, length}
use raptor_kernel.Prelude.Text.{bytes}
use raptor_kernel.Version.{raptor_name, raptor_version, raptor_codename, raptor_arch}
use raptor_kernel.Mm.Allocator.{Allocator}
use raptor_kernel.Console
use raptor_kernel.Kprintf.Digits.{atoi_simple}
use raptor_kernel.Shell.{same_text}
use raptor_kernel.Drivers.Timer.{timer_sleep_ms}
use raptor_kernel.Commands.World.{
  Action, pure, ◌>>◌, on_console, console_write, kprintf, write_text,
}
use raptor_kernel.Commands.Tree.{text_arg, arg}

module _ {A : Allocator} where
  -- The loop of help over the names and summaries of the table.
  unfoldable pub help_lines : List (List ℕ × List ℕ) → Action A (Unit {0})
  help_lines [] = pure tt
  help_lines (c ∷ cs) = do kprintf "  %-10s %s\n" (text_arg c.0 ∷ text_arg c.1 ∷ []); help_lines cs

  unfoldable pub cmd_help : List (List ℕ × List ℕ) → List (List ℕ) → Action A ℕ
  unfolding help_lines
  cmd_help table argv = do
    console_write "Built-in commands:\n"
    help_lines table
    console_write "\nRedirect any output with '>' or '>>', e.g. 'ls /etc > /tmp/listing'.\n"
    pure 0

  unfoldable pub cmd_banner : List (List ℕ) → Action A ℕ
  cmd_banner argv = do
    on_console (λ con. Console.console_set_color con 10 0)
    console_write " ____    _    ____ _____ ___  ____\n"
    console_write "|  _ \\  / \\  |  _ \\_   _/ _ \\|  _ \\\n"
    console_write "| |_) |/ _ \\ | |_) || || | | | |_) |\n"
    console_write "|  _ </ ___ \\|  __/ | || |_| |  _ <\n"
    console_write "|_| \\_\\_/  \\_\\_|    |_| \\___/|_| \\_\\\n"
    on_console (λ con. Console.console_set_color con 7 0)
    kprintf "%s %s (%s) for %s\n" (
        text_arg raptor_name
        ∷ text_arg raptor_version
        ∷ text_arg raptor_codename
        ∷ text_arg raptor_arch
        ∷ [])
    pure 0

  unfoldable pub cmd_uname : (build compiler : List ℕ) → List (List ℕ) → Action A ℕ
  cmd_uname build compiler argv = do
    if ltb 1 (length argv) && same_text (arg argv 1) (bytes "-a")
        then kprintf "%s %s %s %s (built %s, %s)\n" (
            text_arg raptor_name
            ∷ text_arg raptor_version
            ∷ text_arg raptor_codename
            ∷ text_arg raptor_arch
            ∷ text_arg build
            ∷ text_arg compiler
            ∷ [])
        else kprintf "%s\n" (text_arg raptor_name ∷ [])
    pure 0

  unfoldable pub cmd_license : List (List ℕ) → Action A ℕ
  cmd_license argv = do
    write_text raptor_name
    console_write
        " is free software released under the GNU General\nPublic License, version 2 - the same license Linus Torvalds\nchose for Linux. See the LICENSE file in the source tree.\n"
    pure 0

  -- `readings` is what the loop of timer_sleep_ms reads of the counter.
  unfoldable pub cmd_sleep : (readings : List ℕ) → List (List ℕ) → Action A ℕ
  cmd_sleep readings argv =
      if ltb (length argv) 2 then (do console_write "usage: sleep <seconds>\n"; pure 1) else (λ w.
        elim (timer_sleep_ms w.ticks (atoi_simple (arg argv 1) 0 * 1000) readings) [
          | none ↦ none
          | some now ↦ some (0, record w { ticks = now })
        ])
