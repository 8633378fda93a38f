-- ===== src/Commands/Tests.antt =====
-- The commands of shell/commands.c on short texts.
use raptor_kernel.Prelude.{ℕ, arith, ◌<◌, refl, ◌≡◌, false, List, [], ◌∷◌, ◌++◌, length}
use raptor_kernel.Prelude.Text.{bytes}
use raptor_kernel.Commands.Text.{count_bytes}
use raptor_kernel.Commands.WordCount.{newlines, words_of, count_bytes_lem}
use raptor_kernel.Commands.Lines.{printed}
use raptor_kernel.Fs.Ramfs.Tests.{etc, tree, tree-Parented, etc-Descends}
use raptor_kernel.Fs.Ramfs.Resolve.{slash_path, tail_path}
use raptor_kernel.Mm.Allocator.Bump.{bump, nothing_given}
use raptor_kernel.Console.Tests.{quiet}
use raptor_kernel.Commands.World.{World, ◌>>=◌}
use raptor_kernel.Commands.Tree.{cmd_cd, cmd_pwd}
use raptor_kernel.Commands.Cwd.{cmd_pwd-cmd_cd}

abbrev note : List ℕ
note = bytes "to be\nor not\n"

count_bytes_lem_example :
    ((count_bytes (record { lines = 0; words = 0; in_word = false }) note).lines ≡ newlines note)
    × ((count_bytes (record { lines = 0; words = 0; in_word = false }) note).words
        ≡ length (words_of note))
count_bytes_lem_example = count_bytes_lem note

-- A root with the empty directory "etc".
abbrev in_tree : World bump
in_tree = record {
  fs = tree;
  heap = nothing_given;
  cwd = 1;
  console = quiet;
  history = record { history_ring = λ i. []; history_total = 0 };
  pmm = record { bitmap = λ i. 0; total_frames = 0; used_frames = 0 };
  ticks = 0;
}

-- `cd /etc`, and then `pwd`
cmd_pwd-cmd_cd_example :
    (cmd_cd 3 (bytes "cd" ∷ (b'/' ∷ tail_path (etc ∷ [])) ∷ []) >>= λ code. cmd_pwd 3 []) in_tree
    ≡ printed (record in_tree { cwd = 2 }) 0 (slash_path (etc ∷ []) ++ (10 ∷ []))
cmd_pwd-cmd_cd_example =
    cmd_pwd-cmd_cd 3 in_tree 1 (etc ∷ []) 2 [] tree-Parented (omega arith) refl etc-Descends
      (omega arith) refl (omega arith) (omega arith) short (omega arith)
  where
    short : length (slash_path (etc ∷ [])) < 256
    short = unfold slash_path in omega arith
