-- ===== src/Fs/Ramfs/Init.antt =====
-- ramfs_init of fs/ramfs.c: the tree at start.
use raptor_kernel.Prelude.{
  ℕ, true, false, Option, none, some, List, [], ◌∷◌, ◌++◌, ◌==◌, if◌then◌else◌,
}
use raptor_kernel.Prelude.Text.{bytes}
use raptor_kernel.Version.{raptor_name, raptor_version, raptor_codename}
use raptor_kernel.Mm.Allocator.{Allocator}
use raptor_kernel.Fs.Ramfs.{Ramfs}
use raptor_kernel.Fs.Ramfs.Files.{node_new, ramfs_create, ramfs_write}

-- `dirs` of ramfs_init.
abbrev pub first_dirs : List (List ℕ)
first_dirs =
    bytes "/bin"
    ∷ bytes "/etc"
    ∷ bytes "/home"
    ∷ bytes "/home/user"
    ∷ bytes "/tmp"
    ∷ bytes "/usr"
    ∷ bytes "/var"
    ∷ []

abbrev pub motd : List ℕ
motd =
    bytes "Welcome to "
    ++ raptor_name
    ++ bytes " "
    ++ raptor_version
    ++ bytes " ("
    ++ raptor_codename
    ++ bytes ")!\nType 'help' to see the available commands.\n"

abbrev pub os_release : List ℕ
os_release =
    bytes "NAME=\""
    ++ raptor_name
    ++ bytes "\"\nVERSION=\""
    ++ raptor_version
    ++ bytes " ("
    ++ raptor_codename
    ++ bytes ")\"\nID=raptor\nPRETTY_NAME=\""
    ++ raptor_name
    ++ bytes " "
    ++ raptor_version
    ++ bytes "\"\nHOME_URL=\"https://github.com/ramiraptor/raptor-kernel\"\n"

abbrev pub readme : List ℕ
readme =
    raptor_name
    ++ bytes
        " is a small Unix-like teaching kernel.\n\nEverything you see in this filesystem lives in RAM and is\nrebuilt on every boot. Try things like:\n\n    ls /etc\n    cat /etc/motd\n    echo hello > /tmp/note && cat /tmp/note\n    free\n    uname -a\n"

module _ (A : Allocator) (fuel : ℕ) where
  unfoldable pub preload_file :
      Ramfs → A.State → (path contents : List ℕ) → Option (Ramfs × A.State)
  preload_file fs s path contents = elim (ramfs_create A fuel fs s fs.root path false) [
    | none ↦ none
    | some (f, fs1, s1) ↦
        if f == 0 then some (fs1, s1) else elim (ramfs_write A fuel fs1 s1 f contents false) [
          | none ↦ none
          | some (done, fs2, s2) ↦ some (fs2, s2)
        ]
  ]

  unfoldable pub make_first_dirs : Ramfs → A.State → List (List ℕ) → Option (Ramfs × A.State)
  make_first_dirs fs s [] = some (fs, s)
  make_first_dirs fs s (path ∷ paths) = elim (ramfs_create A fuel fs s fs.root path true) [
    | none ↦ none
    | some (n, fs1, s1) ↦ make_first_dirs fs1 s1 paths
  ]

  unfoldable pub preload_files : Ramfs → A.State → List (List ℕ × List ℕ) → Option (Ramfs × A.State)
  unfolding preload_file
  preload_files fs s [] = some (fs, s)
  preload_files fs s (f ∷ files) = elim (preload_file fs s f.0 f.1) [
    | none ↦ none
    | some (fs1, s1) ↦ preload_files fs1 s1 files
  ]

  unfoldable pub ramfs_init : Ramfs → A.State → Option (Ramfs × A.State)
  unfolding node_new make_first_dirs preload_files
  ramfs_init fs s =
      let (n, fs1, s1) = node_new A fs s [] true in
      elim (make_first_dirs (record fs1 { root = n }) s1 first_dirs) [
        | none ↦ none
        | some (fs2, s2) ↦ preload_files fs2 s2 (
            (bytes "/etc/motd", motd)
            ∷ (bytes "/etc/os-release", os_release)
            ∷ (bytes "/README.txt", readme)
            ∷ [])
      ]
