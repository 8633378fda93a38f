-- ===== src/Commands/Cat.antt =====
-- cat of shell/commands.c on a file that exists.
use raptor_kernel.Prelude.{
  ℕ, sym, ◌≡◌, ◌≢◌, refl, ap, ◌∙◌, inl, inr, false, Option, some, List, [], ◌∷◌, ◌++◌, append-nil,
  ◌==◌, if◌then◌else◌, arith, Bool-cases,
}
use raptor_kernel.Prelude.Text.{bytes}
use raptor_kernel.Mm.Allocator.{Allocator}
use raptor_kernel.Console
use raptor_kernel.Fs.Ramfs.Walk
use raptor_kernel.Commands.World.{
  World, Action, pure, ◌>>=◌, ◌>>◌, bind_lem, gets, is_dir, kprintf, write_text, console_putc,
  resolve-run, ramfs_resolve, payload,
}
use raptor_kernel.Commands.Tree.{text_arg, want_file, lacks_newline, cat_files, cmd_cat}
use raptor_kernel.Commands.Lines.{printed, console_write-append}

-- What cat prints of a file: its contents, and a newline if they do not end with one.
abbrev pub closed : List ℕ → List ℕ
closed text = text ++ (if lacks_newline text then 10 ∷ [] else [])

module _ {A : Allocator} (fuel : ℕ) where
  want_file-run :
      (w : World A) (path : List ℕ) (f : ℕ)
      → Walk.ramfs_resolve fuel w.fs w.cwd path ≡ some f
      → (f == 0) ≡ false
      → (w.fs.node f).is_dir ≡ false
      → want_file {A = A} fuel path w ≡ some (f, w)
  unfolding want_file
  want_file-run w path f found real file =
      bind_lem (ramfs_resolve fuel path)
        (λ n. is_dir n >>= λ dir.
          if n == 0
          then (kprintf "%s: no such file or directory\n" (text_arg path ∷ []) >> pure 0)
          else if dir
          then (kprintf "%s: is a directory\n" (text_arg path ∷ []) >> pure 0)
          else pure n)
        w w f (resolve-run fuel w f path found)
      ∙ rw (real, file) refl

  -- What follows the text in cat.
  abbrev rest_of_cat : List ℕ → Action A ℕ
  rest_of_cat text = (if lacks_newline text then console_putc 10 else pure tt) >> cat_files fuel []

  show_text :
      (w : World A) (text : List ℕ)
      → rest_of_cat text (record w { console = Console.console_write w.console text })
        ≡ printed w 0 (closed text)
  unfolding cat_files Console.console_write
  show_text w text = elim (Bool-cases (lacks_newline text)) [
    | inl e ↦ rw e (
        ap (λ (con : Console.Console). shown_on con)
          (console_write-append w.console text (10 ∷ [])))
    | inr e ↦
        rw e (
          ap (λ (t : List ℕ). shown_on (Console.console_write w.console t)) (sym (append-nil text)))
  ]
    where
      shown_on : Console.Console → Option (ℕ × World A)
      shown_on con = some (0, record w { console = con })

  -- cat of a file that exists prints its contents, and a newline if they do not end with one.
  pub cmd_cat-run :
      (w : World A) (path : List ℕ) (f : ℕ)
      → Walk.ramfs_resolve fuel w.fs w.cwd path ≡ some f
      → f ≢ 0
      → (w.fs.node f).is_dir ≡ false
      → cmd_cat {A = A} fuel (bytes "cat" ∷ path ∷ []) w ≡ printed w 0 (closed (payload w.fs f))
  unfolding cmd_cat cat_files
  cmd_cat-run w path f found real file =
      let e : (f == 0) ≡ false = ground (arith, real) in
      bind_lem (want_file fuel path)
        (λ f. gets (λ (w : World A). payload w.fs f) >>= λ text.
          if f == 0 then pure 1 else (write_text text >>= λ u. rest_of_cat text))
        w w f (want_file-run w path f found e file)
      ∙ rw e (show_text w (payload w.fs f))
