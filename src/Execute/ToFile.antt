-- ===== src/Execute/ToFile.antt =====
-- redirect_to_file of shell/shell.c, on a file that exists and on one that it makes.
use raptor_kernel.Prelude.{
  ℕ, suc, ◌+◌, ◌≡◌, ◌≢◌, refl, ap, sym, subst, ◌∙◌, Bool, true, false, Option, none, some, List, [],
  ◌∷◌, ◌++◌, append-nil, ◌==◌, if◌then◌else◌, length, arith,
}
use raptor_kernel.Prelude.Text.{bytes}
use raptor_kernel.Mm.Allocator.{Allocator}
use raptor_kernel.Kprintf.{kvprintf, print_directive, directive, print_string, flags, field_width}
use raptor_kernel.Kprintf.Formats.{emit_plain}
use raptor_kernel.Console
use raptor_kernel.Console.{Console}
use raptor_kernel.Fs.Ramfs.{Ramfs}
use raptor_kernel.Fs.Ramfs.Walk
use raptor_kernel.Fs.Ramfs.Files.{payload, read_bytes}
use raptor_kernel.Fs.Ramfs.Files
use raptor_kernel.Fs.Ramfs.Written.{payload-Written}
use raptor_kernel.Fs.Ramfs.SameTree.{SameTree, Written-SameTree}
use raptor_kernel.Fs.Ramfs.Write.{WriteEnds, NoMemory, done, no_memory}
use raptor_kernel.Commands.World.{
  World, Action, pure, ◌>>=◌, bind_lem, resolve-run, kprintf, kprintf-run, ramfs_resolve,
  ramfs_create, ramfs_write,
}
use raptor_kernel.Commands.Tree.{text_arg}
use raptor_kernel.Execute.{write_to, redirect_to_file}

-- What redirect_to_file says when the write fails.
abbrev pub failed_text : (path : List ℕ) → List ℕ
failed_text path = bytes "rsh: write to " ++ (path ++ bytes " failed\n")

write_failed :
    (s : List ℕ)
    → kvprintf
        (suc (length (bytes "rsh: write to %s failed\n")))
        (bytes "rsh: write to %s failed\n")
        (text_arg s ∷ [])
      ≡ some (failed_text s)
unfolding kvprintf print_directive directive print_string flags field_width
write_failed s =
    rw (emit_plain s false 32 refl)
      (ap (λ t. some (bytes "rsh: write to " ++ (t ++ bytes " failed\n"))) (append-nil s))

old_text :
    (fs : Ramfs) (f : ℕ) (append : Bool)
    → read_bytes (fs.bytes (fs.node f).buffer) 0 (if append then (fs.node f).size else 0)
      ≡ (if append then payload fs f else [])
unfolding read_bytes
old_text fs f true = refl
old_text fs f false = refl

module _ {A : Allocator} where
  -- The outcomes of redirect_to_file on the file `f` at `path`.
  pub data Filed (w : World A) (f : ℕ) (path : List ℕ) (append : Bool) (text : List ℕ)
      (result : Option (Unit {0} × World A)) : Type 0 where
    filed :
        (w' : World A)
        → result ≡ some (tt, w')
        → payload w'.fs f ≡ (if append then payload w.fs f else []) ++ text
        → w'.console ≡ w.console
        → ((q : ℕ) → A.Live w.heap q → q ≢ (w.fs.node f).buffer → A.Live w'.heap q)
        → SameTree w.fs w'.fs
        → Filed w f path append text result
    not_filed :
        (w' : World A)
        → result ≡ some (tt, w')
        → w'.fs ≡ w.fs
        → ((q : ℕ) → A.Live w.heap q → A.Live w'.heap q)
        → NoMemory A w.heap ((if append then (w.fs.node f).size else 0) + length text)
        → w'.console ≡ Console.console_write w.console (failed_text path)
        → Filed w f path append text result

  write-run :
      (fuel : ℕ) (w : World A) (f : ℕ) (text : List ℕ) (append ok : Bool) (fs : Ramfs) (s : A.State)
      → Files.ramfs_write A fuel w.fs w.heap f text append ≡ some (ok, fs, s)
      → ramfs_write {A = A} fuel f text append w ≡ some (ok, record w { fs = fs; heap = s })
  write-run fuel w f text append ok fs s e =
      ap
        (λ o. elim o as (λ x. Option (Bool × World A)) [
          | none ↦ none
          | some r ↦ some (r.0, record w { fs = r.1; heap = r.2 })
        ])
        e

  -- redirect_to_file on a file that exists, up to what follows ramfs_write.
  abbrev after_write : (path : List ℕ) → (ok : Bool) → Action A (Unit {0})
  after_write path ok =
      if ok then pure tt else kprintf "rsh: write to %s failed\n" (text_arg path ∷ [])

  write_to-steps :
      (fuel : ℕ) (w : World A) (f : ℕ) (path text : List ℕ) (append ok : Bool) (fs : Ramfs)
      (s : A.State)
      → (f == 0) ≡ false
      → (w.fs.node f).is_dir ≡ false
      → Files.ramfs_write A fuel w.fs w.heap f text append ≡ some (ok, fs, s)
      → write_to fuel path text append f w ≡ after_write path ok (record w { fs = fs; heap = s })
  write_to-steps fuel w f path text append ok fs s e file r =
      rw (e, file)
        (bind_lem (ramfs_write fuel f text append) (after_write path) w
          (record w { fs = fs; heap = s }) ok (write-run fuel w f text append ok fs s r))

  pub write_to-Filed :
      (fuel : ℕ) (w : World A) (f : ℕ) (path text : List ℕ) (append : Bool)
      → f ≢ 0
      → (w.fs.node f).is_dir ≡ false
      → WriteEnds A w.fs w.heap f
          (if append then (w.fs.node f).size else 0)
          text
          (Files.ramfs_write A fuel w.fs w.heap f text append)
      → Filed w f path append text (write_to fuel path text append f w)
  write_to-Filed fuel w f path text append real file ends =
      let e : (f == 0) ≡ false = ground (arith, real) in
      elim ends [
        | done fs' s' b c r written owned kept apart ↦
            filed (record w { fs = fs'; heap = s' })
              (write_to-steps fuel w f path text append true fs' s' e file r)
              (payload-Written w.fs fs' f (if append then (w.fs.node f).size else 0) text b c
                  written
                ∙ ap (λ old. old ++ text) (old_text w.fs f append))
              refl kept
              (Written-SameTree w.fs fs' f (if append then (w.fs.node f).size else 0) text b c
                written)
        | no_memory s' r kept short ↦
            not_filed
              (record w { heap = s'; console = Console.console_write w.console (failed_text path) })
              (write_to-steps fuel w f path text append false w.fs s' e file r
                ∙ kprintf-run "rsh: write to %s failed\n" _ _ _ (write_failed path))
              refl kept short refl
      ]

  pub redirect_to_file-Filed :
      (fuel : ℕ) (w : World A) (f : ℕ) (path text : List ℕ) (append : Bool)
      → Walk.ramfs_resolve fuel w.fs w.cwd path ≡ some f
      → f ≢ 0
      → (w.fs.node f).is_dir ≡ false
      → WriteEnds A w.fs w.heap f
          (if append then (w.fs.node f).size else 0)
          text
          (Files.ramfs_write A fuel w.fs w.heap f text append)
      → Filed w f path append text (redirect_to_file fuel path text append w)
  unfolding redirect_to_file
  redirect_to_file-Filed fuel w f path text append found real file ends =
      let e : (f == 0) ≡ false = ground (arith, real) in
      subst (Filed w f path append text)
        (sym (
          bind_lem (ramfs_resolve fuel path)
            (λ old.
              (if old == 0 then ramfs_create fuel path false else pure old)
              >>= write_to fuel path text append)
            w w f (resolve-run fuel w f path found)
          ∙ bind_lem (if f == 0 then ramfs_create fuel path false else pure f)
              (write_to fuel path text append) w w f (rw e refl)))
        (write_to-Filed fuel w f path text append real file ends)

  -- A path that leads to nothing: a node is made, and then written or not.
  pub redirect_to_file-create :
      (fuel : ℕ) (w : World A) (n : ℕ) (path text : List ℕ) (append : Bool) (fs : Ramfs)
      (s : A.State)
      → Walk.ramfs_resolve fuel w.fs w.cwd path ≡ some 0
      → Files.ramfs_create A fuel w.fs w.heap w.cwd path false ≡ some (n, fs, s)
      → redirect_to_file fuel path text append w
        ≡ write_to fuel path text append n (record w { fs = fs; heap = s })
  unfolding redirect_to_file
  redirect_to_file-create fuel w n path text append fs s found made =
      bind_lem (ramfs_resolve fuel path)
        (λ old.
          (if old == 0 then ramfs_create fuel path false else pure old)
          >>= write_to fuel path text append)
        w w 0 (resolve-run fuel w 0 path found)
      ∙ bind_lem (ramfs_create fuel path false) (write_to fuel path text append) w
          (record w { fs = fs; heap = s }) n
          (ap
            (λ o. elim o as (λ x. Option (ℕ × World A)) [
              | none ↦ none
              | some r ↦ some (r.0, record w { fs = r.1; heap = r.2 })
            ])
            made)
