-- ===== src/Execute/NewFile.antt =====
-- redirect_to_file of shell/shell.c to a file that is not there yet, and cat of shell/commands.c
-- after it.
use raptor_kernel.Prelude.{
  ℕ, suc, ◌+◌, ◌<◌, ◌≤◌, ◌≡◌, ◌≢◌, ◌^◌, refl, ap, sym, subst, ◌∙◌, Bool, true, false, Option, some,
  List, [], ◌∷◌, ◌++◌, append-nil, if◌then◌else◌, length, arith,
}
use raptor_kernel.Prelude.Text.{bytes}
use raptor_kernel.Mm.Allocator.{Allocator}
use raptor_kernel.Kprintf.{kvprintf, print_directive, directive, print_string, flags, field_width}
use raptor_kernel.Kprintf.Formats.{emit_plain}
use raptor_kernel.Console
use raptor_kernel.Fs.Ramfs.{Ramfs}
use raptor_kernel.Fs.Ramfs.Files.{node_size, payload, read_bytes}
use raptor_kernel.Fs.Ramfs.Siblings.{Linked, first_named}
use raptor_kernel.Fs.Ramfs.Resolve.{IsName, Descends, tail_path, ramfs_resolve-Descends}
use raptor_kernel.Fs.Ramfs.LastName.{path_to, length-path_to, ramfs_resolve-missing}
use raptor_kernel.Fs.Ramfs.Made.{Each}
use raptor_kernel.Fs.Ramfs.Create.{Blank, made, taken, no_memory, ramfs_create-ends}
use raptor_kernel.Fs.Ramfs.SameTree.{SameTree, Descends-same}
use raptor_kernel.Fs.Ramfs.Write.{NoMemory, nothing, ramfs_write-ends}
use raptor_kernel.Commands.World.{World, kprintf-run}
use raptor_kernel.Commands.Tree.{cmd_cat, text_arg}
use raptor_kernel.Commands.Lines.{printed}
use raptor_kernel.Commands.Cat.{closed, cmd_cat-run}
use raptor_kernel.Execute.{redirect_to_file, write_to}
use raptor_kernel.Execute.ToFile.{
  failed_text, Filed, filed, not_filed, write_to-Filed, redirect_to_file-create,
}

-- What redirect_to_file says when there is no file to write to.
abbrev pub refused_text : (path : List ℕ) → List ℕ
refused_text path = bytes "rsh: cannot write to " ++ (path ++ bytes "\n")

write_refused :
    (s : List ℕ)
    → kvprintf
        (suc (length (bytes "rsh: cannot write to %s\n")))
        (bytes "rsh: cannot write to %s\n")
        (text_arg s ∷ [])
      ≡ some (refused_text s)
unfolding kvprintf print_directive directive print_string flags field_width
write_refused s =
    rw (emit_plain s false 32 refl)
      (ap (λ t. some (bytes "rsh: cannot write to " ++ (t ++ bytes "\n"))) (append-nil s))

no_base : (append : Bool) (n : ℕ) → n ≡ 0 → (if append then n else 0) ≡ 0
no_base true n e = e
no_base false n e = refl

no_old :
    (fs : Ramfs) (n : ℕ) (append : Bool)
    → (fs.node n).size ≡ 0
    → (if append then payload fs n else []) ≡ []
unfolding read_bytes
no_old fs n true e = ap (read_bytes (fs.bytes (fs.node n).buffer) 0) e
no_old fs n false e = refl

module _ {A : Allocator} where
  -- What `k` children at most led to in `w` is led to in `v`, where there is one more.
  abbrev pub OldPaths : (k : ℕ) → (w v : World A) → Type 0
  OldPaths k w v =
      (vs : List (List ℕ)) (m : ℕ)
      → Descends w.fs k w.fs.root vs m
      → Descends v.fs (suc k) v.fs.root vs m

  abbrev pub StaysLive : (w v : World A) → Type 0
  StaysLive w v = (q : ℕ) → A.Live w.heap q → A.Live v.heap q

  abbrev pub CatPrints : (fuel : ℕ) → World A → (path out : List ℕ) → Type 0
  CatPrints fuel v path out = cmd_cat fuel (bytes "cat" ∷ path ∷ []) v ≡ printed v 0 (closed out)

  -- The outcomes of redirect_to_file on the new file at `path`.
  pub data NewFile (fuel k : ℕ) (w : World A) (path text : List ℕ)
      (result : Option (Unit {0} × World A)) : Type 0 where
    stored :
        (v : World A)
        → result ≡ some (tt, v)
        → ((s : A.State) → CatPrints fuel (record v { heap = s }) path text)
        → v.console ≡ w.console
        → StaysLive w v
        → OldPaths k w v
        → NewFile fuel k w path text result
    left_empty :
        (v : World A)
        → result ≡ some (tt, v)
        → NoMemory A (A.kmalloc w.heap node_size).1 (length text)
        → ((s : A.State) → CatPrints fuel (record v { heap = s }) path [])
        → v.console ≡ Console.console_write w.console (failed_text path)
        → StaysLive w v
        → OldPaths k w v
        → NewFile fuel k w path text result
    not_made :
        (v : World A)
        → result ≡ some (tt, v)
        → (A.kmalloc w.heap node_size).0 ≡ 0
        → v.fs ≡ w.fs
        → v.console ≡ Console.console_write w.console (refused_text path)
        → StaysLive w v
        → NewFile fuel k w path text result

unchanged : (fs g : Ramfs) → g ≡ fs → SameTree fs g
unchanged fs g e = subst (SameTree fs) (sym e) (record {
  root = refl;
  names = λ i. refl;
  dirs = λ i. refl;
  lists = λ i. refl;
  nexts = λ i. refl;
})

some_injective : {m n : ℕ} → some m ≡ some n → m ≡ n
some_injective h = cc

module _ {A : Allocator} (fuel k : ℕ) (w : World A) (ws : List (List ℕ)) (x text : List ℕ)
    (append : Bool) where
  -- The absolute path of the file.
  abbrev path : List ℕ
  path = b'/' ∷ tail_path (path_to ws x)

  -- The state after the file `n` was made.
  abbrev with_file : Ramfs → World A
  with_file fs = record w { fs = fs; heap = (A.kmalloc w.heap node_size).1 }

  cat_new :
      (fs : Ramfs) (n : ℕ) (v : World A) (out : List ℕ)
      → k + length ws + 2 < fuel
      → SameTree fs v.fs
      → Descends fs (suc k) fs.root (path_to ws x) n
      → n ≢ 0
      → (fs.node n).is_dir ≡ false
      → payload v.fs n ≡ out
      → CatPrints fuel v path out
  cat_new fs n v out enough same there real file e =
      let counted = length-path_to ws x in
      cmd_cat-run fuel v path n
        (ramfs_resolve-Descends fuel v.fs (suc k) v.cwd (path_to ws x) n
          (omega (arith, counted, enough))
          (subst (λ r. Descends v.fs (suc k) r (path_to ws x) n) (sym same.root)
            (Descends-same fs v.fs same (suc k) fs.root (path_to ws x) n there)))
        real (same.dirs n ∙ file)
      ∙ ap (λ t. printed v 0 (closed t)) e

  old_paths :
      (fs : Ramfs) (v : World A) → SameTree fs v.fs → OldPaths k w (with_file fs) → OldPaths k w v
  old_paths fs v same old vs m h =
      subst (λ r. Descends v.fs (suc k) r vs m) (sym same.root)
        (Descends-same fs v.fs same (suc k) fs.root vs m (old vs m h))

  Filed-NewFile :
      (fs : Ramfs) (n : ℕ) (result : Option (Unit {0} × World A))
      → k + length ws + 2 < fuel
      → Blank fs n
      → (fs.node n).is_dir ≡ false
      → n ≢ 0
      → Descends fs (suc k) fs.root (path_to ws x) n
      → StaysLive w (with_file fs)
      → OldPaths k w (with_file fs)
      → Filed (with_file fs) n path append text result
      → NewFile fuel k w path text result
  Filed-NewFile fs n result enough (buf, size, cap) file real there kept old ends = elim ends [
    | filed v e contents con lives same ↦
        stored v e
          (λ s.
            cat_new fs n (record v { heap = s }) text enough same there real file
              (contents ∙ ap (λ t. t ++ text) (no_old fs n append size)))
          con (λ q l. lives q (kept q l) (λ z. A.Live-real w.heap q l (z ∙ buf)))
          (old_paths fs v same old)
    | not_filed v e same lives short con ↦
        let tree : SameTree fs v.fs = unchanged fs v.fs same in
        let base = no_base append (fs.node n).size size in
        left_empty v e
          (subst (NoMemory A (A.kmalloc w.heap node_size).1) (omega (arith, base)) short)
          (λ s.
            cat_new fs n (record v { heap = s }) [] enough tree there real file
              (ap (λ (g : Ramfs). payload g n) same ∙ no_old fs n true size))
          con (λ q l. lives q (kept q l)) (old_paths fs v tree old)
  ]

  -- Output that goes to a file by an absolute path of names, of which all but the last lead to a
  -- directory that has no such name: redirect_to_file ends, and cat of the path then prints the
  -- output, with a newline if it does not end with one; or kmalloc gives NULL for the buffer, and the
  -- file is there and empty; or kmalloc gives NULL for the node, and the tree is as it was. It tells of
  -- both failures with the path. What the old paths led to they still lead to, and what was in use
  -- stays in use. The tree's nodes, `P`, are in use on the heap, and the output is below 2 GiB.
  pub cmd_cat-redirect_to_file :
      (d : ℕ) (ids : List ℕ) (P : ℕ → Type 0)
      → k + length ws + 2 < fuel
      → 32 < fuel
      → length text + 8 ≤ 2 ^ 31
      → ((e : ℕ) → P e → A.Live w.heap e)
      → P w.fs.root
      → ((e : ℕ) (es : List ℕ) → P e → Linked w.fs (w.fs.node e).children es → Each P es)
      → Descends w.fs k w.fs.root ws d
      → (w.fs.node d).is_dir ≡ true
      → Linked w.fs (w.fs.node d).children ids
      → length ids ≤ k
      → IsName x
      → first_named w.fs ids x ≡ 0
      → NewFile fuel k w path text (redirect_to_file fuel path text append w)
  cmd_cat-redirect_to_file d ids P enough rounds word used_nodes top held h isdir l few name
        unused =
      let found =
        ramfs_resolve-missing fuel w.fs k w.cwd ws d x ids h name isdir l few
          (omega (arith, enough)) unused in
      elim (ramfs_create-ends A fuel w.fs w.heap k w.cwd d ws x ids false P enough used_nodes top
        held h isdir l few name) [
          | made n fs e now before file blank live kept there old ↦
              let real = A.Live-real (A.kmalloc w.heap node_size).1 n live in
              let base = no_base append (fs.node n).size blank.1 in
              subst (NewFile fuel k w path text)
                (sym (redirect_to_file-create fuel w n path text append fs _ found e))
                (Filed-NewFile fs n (write_to fuel path text append n (with_file fs)) enough blank
                  file real there kept old
                  (write_to-Filed fuel (with_file fs) n path text append real file (
                    ramfs_write-ends A fuel fs (A.kmalloc w.heap node_size).1 n text append rounds
                      real file
                      (record { fits = omega (arith, blank.1); small = omega (arith, blank.2) })
                      (nothing blank.0) (omega (arith, base, word)))))
          | taken n real there e ↦ absurd (real (some_injective (sym (there w.cwd) ∙ found)))
          | no_memory s e null kept ↦
              not_made
                (record w {
                  heap = s;
                  console = Console.console_write w.console (refused_text path);
                })
                (redirect_to_file-create fuel w 0 path text append w.fs s found e
                  ∙ kprintf-run "rsh: cannot write to %s\n" _ _ _ (write_refused path))
                null refl refl kept
        ]
