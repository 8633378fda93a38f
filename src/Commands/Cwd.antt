-- ===== src/Commands/Cwd.antt =====
-- cd and pwd of shell/commands.c, one after the other.
use raptor_kernel.Prelude.{
  ℕ, ◌+◌, ◌<◌, ◌≤◌, ◌≡◌, ◌≢◌, refl, ap, ◌∙◌, false, true, not, some, List, [], ◌∷◌, ◌++◌,
  append-nil, ◌==◌, if◌then◌else◌, length, arith,
}
use raptor_kernel.Prelude.Text.{bytes}
use raptor_kernel.Mm.Allocator.{Allocator}
use raptor_kernel.Console
use raptor_kernel.Fs.Ramfs.Walk
use raptor_kernel.Fs.Ramfs.Walk.{path_max, ramfs_path}
use raptor_kernel.Fs.Ramfs.Resolve.{slash_path, tail_path, Descends, ramfs_resolve-Descends}
use raptor_kernel.Fs.Ramfs.PathOf.{Parented, ramfs_path-Descends}
use raptor_kernel.Commands.World.{
  World, pure, ◌>>=◌, ◌>>◌, bind_lem, kprintf, kprintf-run, resolve-run, ramfs_resolve, is_dir,
  set_cwd,
}
use raptor_kernel.Commands.Tree.{text_arg, cmd_cd, cmd_pwd}
use raptor_kernel.Commands.Lines.{printed, line_format}

module _ {A : Allocator} where
  pwd-run :
      (fuel : ℕ) (w : World A) (argv : List (List ℕ)) (path : List ℕ)
      → ramfs_path w.fs w.cwd path_max ≡ path
      → cmd_pwd fuel argv w ≡ printed w 0 (path ++ (10 ∷ []))
  unfolding cmd_pwd
  pwd-run fuel w argv path e =
      let out = (path ++ []) ++ (10 ∷ []) in
      ap (λ p. (kprintf "%s\n" (text_arg p ∷ []) >>= λ u. pure 0) w) e
      ∙ bind_lem (kprintf "%s\n" (text_arg path ∷ [])) (λ u. pure 0) w
          (record w { console = Console.console_write w.console out }) tt
          (kprintf-run "%s\n" (text_arg path ∷ []) out w (line_format path))
      ∙ ap (λ p. printed w 0 (p ++ (10 ∷ []))) (append-nil path)

  pub cd-run :
      (fuel : ℕ) (w : World A) (path : List ℕ) (n : ℕ)
      → Walk.ramfs_resolve fuel w.fs w.cwd path ≡ some n
      → (n == 0) ≡ false
      → (w.fs.node n).is_dir ≡ true
      → cmd_cd fuel (bytes "cd" ∷ path ∷ []) w ≡ some (0, record w { cwd = n })
  unfolding cmd_cd
  cd-run fuel w path n found real dir =
      bind_lem (ramfs_resolve fuel path)
        (λ n. is_dir n >>= λ dir.
          if n == 0
          then (kprintf "cd: %s: no such directory\n" (text_arg path ∷ []) >> pure 1)
          else if not dir
          then (kprintf "cd: %s: not a directory\n" (text_arg path ∷ []) >> pure 1)
          else (set_cwd n >> pure 0))
        w w n (resolve-run fuel w n path found)
      ∙ rw (real, dir) refl

  -- cd to a directory by its absolute path, whatever the working directory, and then pwd: both succeed,
  -- the directory is the working directory, and what is written is the names that lead to it, a slash
  -- before each, and a newline. The names are one to 32, with a path below 256 bytes, and each node
  -- has the directory that it is in as its parent.
  pub cmd_pwd-cmd_cd :
      (fuel : ℕ) (w : World A) (k : ℕ) (ws : List (List ℕ)) (n : ℕ) (argv : List (List ℕ))
      → Parented w.fs
      → w.fs.root ≢ 0
      → (w.fs.node w.fs.root).parent ≡ 0
      → Descends w.fs k w.fs.root ws n
      → n ≢ 0
      → (w.fs.node n).is_dir ≡ true
      → 0 < length ws
      → length ws ≤ 32
      → length (slash_path ws) < path_max
      → k + length ws < fuel
      → (cmd_cd fuel (bytes "cd" ∷ (b'/' ∷ tail_path ws) ∷ []) >>= λ code. cmd_pwd fuel argv) w
        ≡ printed (record w { cwd = n }) 0 (slash_path ws ++ (10 ∷ []))
  cmd_pwd-cmd_cd fuel w k ws n argv up root top h real dir pos few room enough =
      let known : (n == 0) ≡ false = ground (arith, real) in
      bind_lem (cmd_cd fuel (bytes "cd" ∷ (b'/' ∷ tail_path ws) ∷ [])) (λ code. cmd_pwd fuel argv) w
        (record w { cwd = n }) 0
        (cd-run fuel w (b'/' ∷ tail_path ws) n
          (ramfs_resolve-Descends fuel w.fs k w.cwd ws n enough h) known dir)
      ∙ pwd-run fuel (record w { cwd = n }) argv (slash_path ws)
          (ramfs_path-Descends w.fs k path_max ws n up root top h pos few room)
