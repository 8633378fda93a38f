-- ===== src/Commands/Tree.antt =====
-- The commands of shell/commands.c on the file system's tree. `argv` is the list of the words, the
-- command's name first; a command returns its exit status.
use raptor_kernel.Prelude.{
  ℕ, zero, suc, ◌+◌, Bool, true, false, not, Option, none, some, List, [], ◌∷◌, ltb, leb, ◌==◌,
  if◌then◌else◌, length, get_or, drop,
}
use raptor_kernel.Mm.Allocator.{Allocator}
use raptor_kernel.Kprintf.{Arg, word, string}
use raptor_kernel.Shell.{same_text}
use raptor_kernel.Fs.Ramfs.Walk.{path_max, ramfs_path}
use raptor_kernel.Commands.World.{
  Action, pure, ◌>>=◌, ◌>>◌, gets, on_console, write_text, console_putc, console_write, kprintf,
  set_cwd, is_dir, ramfs_resolve, ramfs_create, ramfs_delete, payload,
}
use raptor_kernel.Console.{console_set_color}

abbrev pub text_arg : List ℕ → Arg
text_arg s = string (some s)

-- `argv[i]`, where the caller has compared `argc`.
abbrev pub arg : List (List ℕ) → ℕ → List ℕ
arg argv i = get_or argv i []

-- The options of ls: whether `-l` is among the words, and the last of the others.
unfoldable pub ls_options :
    List (List ℕ) → (detail : Bool) → Option (List ℕ) → Bool × Option (List ℕ)
ls_options [] detail path = (detail, path)
ls_options (a ∷ as') detail path =
    let long = ls_options as' true path in
    let plain = ls_options as' detail (some a) in
    if same_text a (b'-' ∷ b'l' ∷ []) then long else plain

-- `f->size && f->data[f->size - 1] != '\n'`
unfoldable pub lacks_newline : List ℕ → Bool
lacks_newline [] = false
lacks_newline (c ∷ []) = not (c == 10)
lacks_newline (c ∷ d ∷ cs) = lacks_newline (d ∷ cs)

-- What stands before and after the last slash.
unfoldable pub last_slash : List ℕ → Option (List ℕ × List ℕ)
last_slash [] = none
last_slash (c ∷ cs) = elim (last_slash cs) [
  | some (dir, name) ↦ some (c ∷ dir, name)
  | none ↦ if c == b'/' then some ([], cs) else none
]

module _ {A : Allocator} (fuel : ℕ) where
  unfoldable pub want_file : List ℕ → Action A ℕ
  want_file path = do
    n ← ramfs_resolve fuel path
    dir ← is_dir n
    if n == 0
        then (do kprintf "%s: no such file or directory\n" (text_arg path ∷ []); pure 0)
        else if dir
        then (do kprintf "%s: is a directory\n" (text_arg path ∷ []); pure 0)
        else pure n

  unfoldable pub cmd_pwd : List (List ℕ) → Action A ℕ
  cmd_pwd argv = do
    path ← gets (λ w. ramfs_path w.fs w.cwd path_max)
    kprintf "%s\n" (text_arg path ∷ [])
    pure 0

  unfoldable pub cmd_cd : List (List ℕ) → Action A ℕ
  cmd_cd argv = do
    let target = if ltb 1 (length argv) then arg argv 1 else b'/' ∷ []
    n ← ramfs_resolve fuel target
    dir ← is_dir n
    if n == 0
        then (do kprintf "cd: %s: no such directory\n" (text_arg target ∷ []); pure 1)
        else if not dir
        then (do kprintf "cd: %s: not a directory\n" (text_arg target ∷ []); pure 1)
        else (do set_cwd n; pure 0)

  unfoldable pub ls_entry : (detail : Bool) → (c : ℕ) → Action A (Unit {0})
  ls_entry detail c = do
    n ← gets (λ w. w.fs.node c)
    let slash = if n.is_dir then b'/' ∷ [] else []
    if detail
        then kprintf "%c %8u  %s%s\n" (
            word (if n.is_dir then b'd' else b'-')
            ∷ word n.size
            ∷ text_arg n.name
            ∷ text_arg slash
            ∷ [])
        else (do
          if n.is_dir then on_console (λ con. console_set_color con 11 0) else pure tt
          kprintf "%s%s  " (text_arg n.name ∷ text_arg slash ∷ [])
          on_console (λ con. console_set_color con 7 0))

  -- The loop of ls over the siblings.
  unfoldable pub ls_entries : ℕ → (detail : Bool) → (c : ℕ) → Action A (Unit {0})
  unfolding ls_entry
  ls_entries zero detail c w = none
  ls_entries (suc k) detail c w =
      if c == 0
      then some (tt, w)
      else (do ls_entry detail c; next ← gets (λ v. (v.fs.node c).next); ls_entries k detail next) w

  unfoldable pub cmd_ls : List (List ℕ) → Action A ℕ
  unfolding ls_options ls_entries
  cmd_ls argv = do
    let (detail, path) = ls_options (drop 1 argv) false none
    n ← ramfs_resolve fuel (elim path [ none ↦ b'.' ∷ [] | some p ↦ p ])
    node ← gets (λ w. w.fs.node n)
    if n == 0
        then (do kprintf "ls: %s: no such file or directory\n" (string path ∷ []); pure 1)
        else if not node.is_dir
        then (do kprintf "%s\n" (text_arg node.name ∷ []); pure 0)
        else (do
          ls_entries fuel detail node.children
          if detail then pure tt else console_putc 10
          pure 0)

  unfoldable pub cat_files : List (List ℕ) → Action A ℕ
  unfolding want_file lacks_newline
  cat_files [] = pure 0
  cat_files (p ∷ ps) = do
    f ← want_file p
    text ← gets (λ w. payload w.fs f)
    if f == 0 then pure 1 else (do
      write_text text
      if lacks_newline text then console_putc 10 else pure tt
      cat_files ps)

  unfoldable pub cmd_cat : List (List ℕ) → Action A ℕ
  unfolding cat_files
  cmd_cat argv =
      if ltb (length argv) 2
      then (do console_write "usage: cat <file>...\n"; pure 1)
      else cat_files (drop 1 argv)

  unfoldable pub make_dirs : List (List ℕ) → Action A ℕ
  make_dirs [] = pure 0
  make_dirs (p ∷ ps) = do
    n ← ramfs_create fuel p true
    if n == 0
        then (do kprintf "mkdir: cannot create %s\n" (text_arg p ∷ []); pure 1)
        else make_dirs ps

  unfoldable pub cmd_mkdir : List (List ℕ) → Action A ℕ
  unfolding make_dirs
  cmd_mkdir argv =
      if ltb (length argv) 2
      then (do console_write "usage: mkdir <dir>...\n"; pure 1)
      else make_dirs (drop 1 argv)

  unfoldable pub touch_files : List (List ℕ) → Action A ℕ
  touch_files [] = pure 0
  touch_files (p ∷ ps) = do
    old ← ramfs_resolve fuel p
    n ← (if old == 0 then ramfs_create fuel p false else pure old)
    if n == 0
        then (do kprintf "touch: cannot create %s\n" (text_arg p ∷ []); pure 1)
        else touch_files ps

  unfoldable pub cmd_touch : List (List ℕ) → Action A ℕ
  unfolding touch_files
  cmd_touch argv =
      if ltb (length argv) 2
      then (do console_write "usage: touch <file>...\n"; pure 1)
      else touch_files (drop 1 argv)

  -- The loop of rm: the exit status, if it returns from the loop.
  unfoldable pub rm_words : List (List ℕ) → (recursive : Bool) → (removed : ℕ) → Action A ℕ
  rm_words [] recursive removed =
      if removed == 0 then (do console_write "usage: rm [-r] <path>...\n"; pure 1) else pure 0
  rm_words (a ∷ as') recursive removed =
      if same_text a (b'-' ∷ b'r' ∷ []) then rm_words as' true removed else (do
        n ← ramfs_resolve fuel a
        cwd ← gets (λ w. w.cwd)
        if n == 0
            then (do kprintf "rm: %s: no such file or directory\n" (text_arg a ∷ []); pure 1)
            else if n == cwd
            then (do console_write "rm: refusing to remove the working directory\n"; pure 1)
            else (do
              done ← ramfs_delete fuel n recursive
              if not done
                  then (do
                    kprintf "rm: %s: directory not empty (use -r)\n" (text_arg a ∷ [])
                    pure 1)
                  else rm_words as' recursive (removed + 1)))

  unfoldable pub cmd_rm : List (List ℕ) → Action A ℕ
  unfolding rm_words
  cmd_rm argv = rm_words (drop 1 argv) false 0

  -- The directory of a path, 0 for NULL, and its last name.
  unfoldable pub split_parent : List ℕ → Action A (ℕ × List ℕ)
  unfolding last_slash
  split_parent path = elim (last_slash path) [
    | none ↦ (do cwd ← gets (λ w. w.cwd); pure (cwd, path))
    | some (dir, name) ↦
        if length dir == 0
        then (do root ← gets (λ w. w.fs.root); pure (root, name))
        else if leb path_max (length dir)
        then pure (0, name)
        else (do n ← ramfs_resolve fuel dir; pure (n, name))
  ]
