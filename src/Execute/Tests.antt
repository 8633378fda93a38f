-- ===== src/Execute/Tests.antt =====
-- shell/shell.c on a root with the empty file "a" and the heap of mm/kheap.c.
use raptor_kernel.Console.{Console, console_write}
use raptor_kernel.Shell.{history_add}
use raptor_kernel.Shell.Input.{Printable}
use raptor_kernel.Execute.{execute}
use raptor_kernel.Execute.Run.{print_prompt, shell_round}
use raptor_kernel.Execute.Round.{shell_round_lem}
use raptor_kernel.Prelude.{List, false, ◌++◌}
use raptor_kernel.Commands.Text.{cmd_echo}
use raptor_kernel.Fs.Ramfs.Tests.{only_root, in_kheap}
use raptor_kernel.Prelude.{ℕ, ◌≡◌, refl, true, false, some, [], ◌∷◌, ◌==◌, if◌then◌else◌, arith}
use raptor_kernel.Prelude.Text.{bytes}
use raptor_kernel.Mm.Kheap.Service.{kheap}
use raptor_kernel.Mm.Kheap.Tests.{demo, blocks, demo-Holds}
use raptor_kernel.Console.Tests.{quiet}
use raptor_kernel.Shell.{redirected, find_command}
use raptor_kernel.Fs.Ramfs.{RamfsNode, find_child, find_loop}
use raptor_kernel.Fs.Ramfs.Walk
use raptor_kernel.Fs.Ramfs.Walk.{
  skip_slashes, component, step, walk_round, walk_loop, starts_at, walk,
}
use raptor_kernel.Fs.Ramfs.Write.{nothing}
use raptor_kernel.Commands.World.{World}
use raptor_kernel.Commands.Text.{cmd_whoami}
use raptor_kernel.Execute.{Table, run_request}
use raptor_kernel.Execute.Redirect.{Writes, Redirected, run_request-Redirected}

abbrev pub nodes : ℕ → RamfsNode
nodes i =
    if i == 1
    then record {
      name = [];
      is_dir = true;
      buffer = 0;
      size = 0;
      capacity = 0;
      parent = 0;
      children = 2;
      next = 0;
    }
    else record {
      name = b'a' ∷ [];
      is_dir = false;
      buffer = 0;
      size = 0;
      capacity = 0;
      parent = 1;
      children = 0;
      next = 0;
    }

unfoldable pub started : World kheap
unfolding kheap
started = record {
  fs = record { node = nodes; root = 1; bytes = λ p i. 0 };
  heap = record { heap = demo; cells = blocks; holds = demo-Holds };
  cwd = 1;
  console = quiet;
  history = record { history_ring = λ i. []; history_total = 0 };
  pmm = record { bitmap = λ i. 0; total_frames = 0; used_frames = 0 };
  ticks = 0;
}

abbrev table : Table kheap
table = (bytes "whoami", cmd_whoami) ∷ []

whoami-Writes : Writes {A = kheap} (cmd_whoami (bytes "whoami" ∷ [])) (bytes "root\n")
unfolding cmd_whoami
whoami-Writes w = (0, refl)

a_found : Walk.ramfs_resolve 33 started.fs started.cwd (bytes "a") ≡ some 2
unfolding started Walk.ramfs_resolve walk walk_loop walk_round step component skip_slashes starts_at
    find_child find_loop
a_found = refl

-- `whoami >> a`
run_request-Redirected_example :
    Redirected started 2
      (bytes "a")
      true
      (bytes "root\n")
      (run_request 33 table (redirected (bytes "whoami" ∷ []) (bytes "a") true) started)
unfolding started
run_request-Redirected_example =
    run_request-Redirected 33 table started 2 (bytes "whoami") [] (bytes "a") true cmd_whoami
      (bytes "root\n") found whoami-Writes a_found (λ e. omega (arith, e)) refl
      (record { fits = omega arith; small = omega arith }) (nothing refl) (omega arith)
      (omega arith)
  where
    found : find_command table (bytes "whoami") ≡ some cmd_whoami
    found = unfold find_command in refl

-- The names lead to "a".
abbrev a_path : List (List ℕ)
a_path = bytes "a" ∷ []

abbrev echo_table : Table kheap
echo_table = (bytes "echo", cmd_echo) ∷ []

abbrev note : List ℕ
note = bytes "note"

-- A shell on the tree that is only a root.
abbrev at_root : World kheap
at_root = record started { fs = only_root; heap = in_kheap; cwd = only_root.root }

-- "whoami" and the enter key
shell_round_lem_example :
    (con : Console) × (print_prompt started ≡ some (tt, record started { console = con }))
    × (shell_round 33 table (bytes "whoami" ++ (10 ∷ [])) started
        ≡ execute 33 table (bytes "whoami") (record started {
          console = console_write con (bytes "whoami" ++ (10 ∷ []));
          history = history_add started.history (bytes "whoami");
        }))
shell_round_lem_example =
    shell_round_lem 33 table started b'w' (bytes "hoami") printable (omega arith)
  where
    printable : Printable (bytes "whoami")
    printable = (
      omega arith,
      omega arith,
      (
        omega arith,
        omega arith,
        (
          omega arith,
          omega arith,
          (omega arith, omega arith, (omega arith, omega arith, (omega arith, omega arith, tt))),
        ),
      ),
    )
