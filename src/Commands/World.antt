-- ===== src/Commands/World.antt =====
-- The state that the commands of shell/commands.c work on, and actions on it: an action returns a
-- value and the new state, or `none` when it panics or a loop runs out of fuel.
use raptor_kernel.Prelude.{ℕ, suc, ◌≡◌, ap, Bool, Option, none, some, List, length}
use Prim.Native.String.{String}
use raptor_kernel.Prelude.Text.{bytes}
use raptor_kernel.Mm.Allocator.{Allocator}
use raptor_kernel.Mm.Pmm.{Pmm}
use raptor_kernel.Kprintf.{Arg, kvprintf}
use raptor_kernel.Console
use raptor_kernel.Console.{Console}
use raptor_kernel.Shell.{History}
use raptor_kernel.Fs.Ramfs.{Ramfs}
use raptor_kernel.Fs.Ramfs.Walk
use raptor_kernel.Fs.Ramfs.Files
pub use raptor_kernel.Fs.Ramfs.Files.{payload, read_bytes}

pub record World (A : Allocator) : Type 0 where
  pub fs : Ramfs
  pub heap : A.State
  pub cwd : ℕ
  pub console : Console
  pub history : History
  pub pmm : Pmm
  pub ticks : ℕ

abbrev pub Action : Allocator → Type 0 → Type 0
Action A R = World A → Option (R × World A)

module _ {A : Allocator} where
  abbrev pub pure : {R : Type 0} → R → Action A R
  pure r w = some (r, w)

  infixl 5 ◌>>=◌ ◌>>◌
  abbrev pub ◌>>=◌ : {R S : Type 0} → Action A R → (R → Action A S) → Action A S
  ◌>>=◌ m f w = elim (m w) [ none ↦ none | some (r, w') ↦ f r w' ]

  pub bind_lem :
      {R S : Type 0} (m : Action A R) (f : R → Action A S) (w w' : World A) (r : R)
      → m w ≡ some (r, w')
      → (m >>= f) w ≡ f r w'
  bind_lem {S = S} m f w w' r e =
      ap (λ o. elim o as (λ x. Option (S × World A)) [ none ↦ none | some (r, w') ↦ f r w' ]) e

  abbrev pub ◌>>◌ : {S : Type 0} → Action A (Unit {0}) → Action A S → Action A S
  m >> k = m >>= λ _. k

  -- A value read from the state.
  abbrev pub gets : {R : Type 0} → (World A → R) → Action A R
  gets f w = some (f w, w)

  abbrev pub gets_opt : {R : Type 0} → (World A → Option R) → Action A R
  gets_opt f w = elim (f w) [ none ↦ none | some r ↦ some (r, w) ]

  abbrev pub on_console : (Console → Console) → Action A (Unit {0})
  on_console f w = some (tt, record w { console = f w.console })

  abbrev pub write_text : List ℕ → Action A (Unit {0})
  write_text cs = on_console (λ c. Console.console_write c cs)

  abbrev pub console_putc : ℕ → Action A (Unit {0})
  console_putc c = on_console (λ con. Console.console_putc con c)

  abbrev pub console_write : String → Action A (Unit {0})
  console_write s = write_text (bytes s)

  -- kprintf: a format has enough rounds in one more than its bytes.
  abbrev pub kprintf : String → List Arg → Action A (Unit {0})
  kprintf fmt args w = elim (kvprintf (suc (length (bytes fmt))) (bytes fmt) args) [
    | none ↦ none
    | some out ↦ write_text out w
  ]

  pub kprintf-run :
      (fmt : String) (args : List Arg) (out : List ℕ) (w : World A)
      → kvprintf (suc (length (bytes fmt))) (bytes fmt) args ≡ some out
      → kprintf fmt args w ≡ write_text out w
  kprintf-run fmt args out w e =
      ap
        (λ o. elim o as (λ x. Option (Unit {0} × World A)) [
          | none ↦ none
          | some out' ↦ write_text out' w
        ])
        e

  abbrev pub set_cwd : ℕ → Action A (Unit {0})
  set_cwd n w = some (tt, record w { cwd = n })

  abbrev pub is_dir : ℕ → Action A Bool
  is_dir n = gets (λ w. (w.fs.node n).is_dir)

  -- A file system operation with the result that it returns.
  abbrev pub on_files : {R : Type 0} → (Ramfs → A.State → Option (R × Ramfs × A.State)) → Action A R
  on_files f w = elim (f w.fs w.heap) [
    | none ↦ none
    | some r ↦ some (r.0, record w { fs = r.1; heap = r.2 })
  ]

  module _ (fuel : ℕ) where
    abbrev pub ramfs_resolve : List ℕ → Action A ℕ
    ramfs_resolve path = gets_opt (λ w. Walk.ramfs_resolve fuel w.fs w.cwd path)

    abbrev pub ramfs_create : List ℕ → (is_dir : Bool) → Action A ℕ
    ramfs_create path dir w = on_files (λ fs s. Files.ramfs_create A fuel fs s w.cwd path dir) w

    abbrev pub ramfs_write : (file : ℕ) → List ℕ → (append : Bool) → Action A Bool
    ramfs_write file text append = on_files (λ fs s. Files.ramfs_write A fuel fs s file text append)

    abbrev pub ramfs_delete : (node : ℕ) → (recursive : Bool) → Action A Bool
    ramfs_delete n recursive = on_files (λ fs s. Files.ramfs_delete A fuel fs s n recursive)

  pub resolve-run :
      (fuel : ℕ) (w : World A) (f : ℕ) (path : List ℕ)
      → Walk.ramfs_resolve fuel w.fs w.cwd path ≡ some f
      → ramfs_resolve fuel path w ≡ some (f, w)
  resolve-run fuel w f path e =
      ap (λ o. elim o as (λ x. Option (ℕ × World A)) [ none ↦ none | some r ↦ some (r, w) ]) e
