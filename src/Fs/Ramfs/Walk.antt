-- ===== src/Fs/Ramfs/Walk.antt =====
-- walk, ramfs_resolve and ramfs_path of fs/ramfs.c.
use mathlib.Core.Option
use raptor_kernel.Prelude.{
  ℕ, zero, suc, ◌-◌, Bool, false, not, ◌&&◌, ◌||◌, Option, none, some, List, [], ◌∷◌, ◌++◌, leb,
  ◌==◌, if◌then◌else◌, take, length, reverse,
}
use raptor_kernel.Shell.{same_text}
use raptor_kernel.Fs.Ramfs.{Ramfs, find_child, name_max}

abbrev pub path_max : ℕ
path_max = 256

unfoldable pub skip_slashes : List ℕ → List ℕ
skip_slashes [] = []
skip_slashes (c ∷ cs) = let rest = skip_slashes cs in if c == b'/' then rest else c ∷ cs

-- The bytes up to the next slash, and the rest.
unfoldable pub component : List ℕ → List ℕ × List ℕ
component [] = ([], [])
component (c ∷ cs) =
    let (word, rest) = component cs in if c == b'/' then ([], c ∷ cs) else (c ∷ word, rest)

-- What walk returns: the node, and the directory and the name that it stores through its pointers.
pub record Walked : Type 0 where
  pub result : ℕ
  pub parent_out : ℕ
  pub name_out : List ℕ

abbrev pub missing : Walked
missing = record { result = 0; parent_out = 0; name_out = [] }

abbrev pub is_dots : List ℕ → Bool
is_dots w = same_text w (b'.' ∷ []) || same_text w (b'.' ∷ b'.' ∷ [])

-- The node that one component leads to. `none`: the component is looked up in a file.
unfoldable pub step : ℕ → Ramfs → (cur : ℕ) → List ℕ → Option (Option ℕ)
unfolding find_child
step fuel fs cur word =
    let up = (fs.node cur).parent in
    if same_text word (b'.' ∷ [])
    then some (some cur)
    else if same_text word (b'.' ∷ b'.' ∷ [])
    then some (some (if up == 0 then cur else up))
    else if not ((fs.node cur).is_dir)
    then some none
    else Option.map some (find_child fuel fs cur word)

-- One round of walk; `go` walks on from the node found.
unfoldable pub walk_round :
    ℕ
    → Ramfs
    → (cur : ℕ) → List ℕ
    → (wants_parent : Bool) → (ℕ → List ℕ → Option Walked)
    → Option Walked
unfolding step component skip_slashes
walk_round fuel fs cur [] wants_parent go = some (record missing { result = cur })
walk_round fuel fs cur (c ∷ cs) wants_parent go =
    let (word, after) = component (c ∷ cs) in
    let rest = skip_slashes after in
    if leb name_max (length word) then some missing else elim (step fuel fs cur word) [
      | none ↦ none
      | some none ↦ some missing
      | some (some n) ↦
          let more = go n rest in
          if (length rest == 0) && wants_parent && not (is_dots word)
          then some (record { result = n; parent_out = cur; name_out = take (name_max - 1) word })
          else if n == 0
          then some missing
          else more
    ]

unfoldable pub walk_loop : ℕ → Ramfs → (cur : ℕ) → List ℕ → (wants_parent : Bool) → Option Walked
unfolding walk_round skip_slashes
walk_loop zero fs cur p wants_parent = none
walk_loop (suc fuel) fs cur p wants_parent =
    walk_round (suc fuel) fs cur (skip_slashes p) wants_parent
      (λ n rest. walk_loop fuel fs n rest wants_parent)

unfoldable pub starts_at : Ramfs → (cwd : ℕ) → List ℕ → ℕ
starts_at fs cwd [] = cwd
starts_at fs cwd (c ∷ cs) = if c == b'/' then fs.root else cwd

unfoldable pub walk : ℕ → Ramfs → (cwd : ℕ) → List ℕ → (wants_parent : Bool) → Option Walked
unfolding walk_loop starts_at
walk fuel fs cwd path wants_parent = walk_loop fuel fs (starts_at fs cwd path) path wants_parent

unfoldable pub ramfs_resolve : ℕ → Ramfs → (cwd : ℕ) → List ℕ → Option ℕ
unfolding walk
ramfs_resolve fuel fs cwd path =
    Option.map (λ w. w.result) (walk fuel fs (if cwd == 0 then fs.root else cwd) path false)

-- The loop that collects the node and its ancestors below the root, `k` of them at most.
unfoldable pub ancestors : (k : ℕ) → Ramfs → (node : ℕ) → List ℕ
ancestors zero fs n = []
ancestors (suc k) fs n =
    let above = ancestors k fs ((fs.node n).parent) in
    if (fs.node n).parent == 0 then [] else n ∷ above

-- `strlcpy(buf + strlen(buf), text, len - strlen(buf))`
unfoldable pub append_text : (len : ℕ) → List ℕ → List ℕ → List ℕ
append_text len buf text = buf ++ take (len - length buf - 1) text

unfoldable pub print_names : (len : ℕ) → Ramfs → List ℕ → List ℕ → List ℕ
unfolding append_text
print_names len fs [] buf = buf
print_names len fs (n ∷ ns) buf =
    print_names len fs ns (append_text len (append_text len buf (b'/' ∷ [])) ((fs.node n).name))

-- `chain` has room for 32 nodes.
unfoldable pub ramfs_path : Ramfs → (node len : ℕ) → List ℕ
unfolding ancestors print_names
ramfs_path fs node len =
    if (fs.node node).parent == 0
    then take (len - 1) (b'/' ∷ [])
    else print_names len fs (reverse (ancestors 32 fs node)) []
