-- ===== src/Commands/Files.antt =====
-- cp and mv of shell/commands.c.
use raptor_kernel.Prelude.{
  ℕ, ◌-◌, Bool, false, not, ◌&&◌, ◌||◌, none, some, List, [], ◌∷◌, ◌==◌, ◌!=◌, if◌then◌else◌,
  length, take,
}
use raptor_kernel.Mm.Allocator.{Allocator}
use raptor_kernel.Fs.Ramfs.{ramfs_move}
use raptor_kernel.Fs.Ramfs.Walk.{path_max, append_text}
use raptor_kernel.Commands.World.{
  Action, pure, ◌>>=◌, ◌>>◌, gets, console_write, kprintf, is_dir, ramfs_resolve, ramfs_create,
  ramfs_write, payload,
}
use raptor_kernel.Commands.Tree.{text_arg, arg, want_file, split_parent}

module _ {A : Allocator} (fuel : ℕ) where
  -- Where cp copies to: a directory takes the source's name.
  unfoldable pub cp_target : (src : ℕ) → List ℕ → Action A (ℕ × List ℕ)
  unfolding append_text
  cp_target src path = do
    dst ← ramfs_resolve fuel path
    dir ← is_dir dst
    name ← gets (λ w. (w.fs.node src).name)
    let inside = append_text path_max (append_text path_max path (b'/' ∷ [])) name
    if (dst != 0) && dir
        then (do n ← ramfs_resolve fuel inside; pure (n, inside))
        else pure (dst, path)

  unfoldable pub cp_write : (src dst : ℕ) → List ℕ → Action A ℕ
  cp_write src dst path = do
    dir ← is_dir dst
    text ← gets (λ w. payload w.fs src)
    if (dst == 0) || dir
        then (do kprintf "cp: cannot create %s\n" (text_arg path ∷ []); pure 1)
        else (do
          done ← ramfs_write fuel dst text false
          if not done then (do console_write "cp: out of memory\n"; pure 1) else pure 0)

  unfoldable pub cmd_cp : List (List ℕ) → Action A ℕ
  unfolding cp_target cp_write
  cmd_cp argv =
      if length argv != 3 then (do console_write "usage: cp <src> <dst>\n"; pure 1) else (do
        src ← want_file fuel (arg argv 1)
        if src == 0 then pure 1 else (do
          (found, path) ← cp_target src (take (path_max - 1) (arg argv 2))
          dst ← (if found == 0 then ramfs_create fuel path false else pure found)
          cp_write src dst path))

  -- Where mv moves to, and the name there; the directory is 0 when mv has said why it fails.
  unfoldable pub mv_target : (src : ℕ) → List ℕ → Action A (ℕ × List ℕ)
  mv_target src path = do
    dst ← ramfs_resolve fuel path
    dir ← is_dir dst
    name ← gets (λ w. (w.fs.node src).name)
    if (dst != 0) && dir
        then pure (dst, name)
        else if dst != 0
        then (do kprintf "mv: %s: destination exists\n" (text_arg path ∷ []); pure (0, []))
        else (do
          (parent, last) ← split_parent fuel path
          parent_dir ← is_dir parent
          if (parent == 0) || not parent_dir
              then (do kprintf "mv: %s: no such directory\n" (text_arg path ∷ []); pure (0, []))
              else pure (parent, last))

  unfoldable pub move_node : (src parent : ℕ) → List ℕ → Action A Bool
  move_node src parent name w = elim (ramfs_move fuel w.fs src parent name) [
    | none ↦ none
    | some (done, fs') ↦ some (done, record w { fs = fs' })
  ]

  unfoldable pub cmd_mv : List (List ℕ) → Action A ℕ
  unfolding mv_target move_node
  cmd_mv argv =
      if length argv != 3 then (do console_write "usage: mv <src> <dst>\n"; pure 1) else (do
        src ← ramfs_resolve fuel (arg argv 1)
        if src == 0
            then (do
              kprintf "mv: %s: no such file or directory\n" (text_arg (arg argv 1) ∷ [])
              pure 1)
            else (do
              (parent, name) ← mv_target src (arg argv 2)
              if parent == 0 then pure 1 else (do
                done ← move_node src parent name
                if not done then (do console_write "mv: move failed\n"; pure 1) else pure 0)))
