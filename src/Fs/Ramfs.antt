-- ===== src/Fs/Ramfs.antt =====
-- fs/ramfs.c: the nodes of the tree by address, 0 for NULL, linked to their parent, first child and
-- next sibling. A name is its text. A file's payload is in a buffer: `bytes` gives the bytes of the
-- buffer at an address by their offset. A loop takes fuel, and `none` says that it ran out.
pub mod Walk
pub mod Files
pub mod Contents
pub mod Written
pub mod Write
pub mod Init
pub mod Tree
pub mod Resolve
pub mod LastName
pub mod Made
pub mod Create
pub mod CreateSteps
pub mod Forest
pub mod Freed
pub mod Unlinked
pub mod Delete
pub mod PathOf
pub mod SameTree
pub mod Siblings
pub mod Tests
mod InitTests
use mathlib.Core.Option
use raptor_kernel.Prelude.{
  ℕ, zero, suc, ◌+◌, ◌-◌, ◌≡◌, Bool, true, false, not, ◌&&◌, ◌||◌, Option, none, some, List, [],
  ◌∷◌, ltb, leb, ◌==◌, if◌then◌else◌, take, length,
}
use raptor_kernel.Shell.{same_text}

abbrev pub name_max : ℕ
name_max = 32

pub record RamfsNode : Type 0 where
  pub name : List ℕ
  pub is_dir : Bool
  pub buffer : ℕ
  pub size : ℕ
  pub capacity : ℕ
  pub parent : ℕ
  pub children : ℕ
  pub next : ℕ

pub record Ramfs : Type 0 where
  pub node : ℕ → RamfsNode
  pub root : ℕ
  pub bytes : ℕ → ℕ → ℕ

unfoldable pub set_node : Ramfs → ℕ → RamfsNode → Ramfs
set_node fs i n = record fs { node = λ j. if i == j then n else fs.node j }

unfoldable pub attach : Ramfs → (parent child : ℕ) → Ramfs
unfolding set_node
attach fs parent child =
    let fs1 =
      set_node fs child
        (record (fs.node child) { parent = parent; next = (fs.node parent).children }) in
    set_node fs1 parent (record (fs1.node parent) { children = child })

-- `*pp = to`: `pp` is the link of the sibling `prev`, or the parent's when `prev` is NULL.
unfoldable pub relink : Ramfs → (parent prev to : ℕ) → Ramfs
unfolding set_node
relink fs parent prev to =
    if prev == 0
    then set_node fs parent (record (fs.node parent) { children = to })
    else set_node fs prev (record (fs.node prev) { next = to })

-- The loop of detach over the siblings.
unfoldable pub unlink_loop : ℕ → Ramfs → (parent prev cur target : ℕ) → Option Ramfs
unfolding relink
unlink_loop zero fs parent prev cur target = none
unlink_loop (suc fuel) fs parent prev cur target =
    let more = unlink_loop fuel fs parent cur ((fs.node cur).next) target in
    if cur == 0
    then some fs
    else if cur == target
    then some (relink fs parent prev ((fs.node target).next))
    else more

unfoldable pub detach : ℕ → Ramfs → (target : ℕ) → Option Ramfs
unfolding unlink_loop set_node
detach fuel fs target =
    let parent = (fs.node target).parent in
    Option.map (λ fs'. set_node fs' target (record (fs'.node target) { parent = 0; next = 0 }))
      (unlink_loop fuel fs parent 0 ((fs.node parent).children) target)

-- The loop of find_child, from the sibling `c` on.
unfoldable pub find_loop : ℕ → Ramfs → (c : ℕ) → (name : List ℕ) → Option ℕ
find_loop zero fs c name = none
find_loop (suc fuel) fs c name =
    let more = find_loop fuel fs ((fs.node c).next) name in
    if c == 0 then some 0 else if same_text ((fs.node c).name) name then some c else more

unfoldable pub find_child : ℕ → Ramfs → (dir : ℕ) → (name : List ℕ) → Option ℕ
unfolding find_loop
find_child fuel fs dir name = find_loop fuel fs ((fs.node dir).children) name

-- The loop of ramfs_move: whether the node is above `p`, or is `p` itself.
unfoldable pub is_above : ℕ → Ramfs → (node p : ℕ) → Option Bool
is_above zero fs node p = none
is_above (suc fuel) fs node p =
    let more = is_above fuel fs node ((fs.node p).parent) in
    if p == 0 then some false else if p == node then some true else more

unfoldable pub ramfs_move : ℕ → Ramfs → (target new_parent : ℕ) → List ℕ → Option (Bool × Ramfs)
unfolding find_child is_above detach attach set_node
ramfs_move fuel fs target new_parent new_name =
    if (target == 0)
      || (target == fs.root)
      || (new_parent == 0)
      || not ((fs.node new_parent).is_dir)
    then some (false, fs)
    else elim (find_child fuel fs new_parent new_name) [
      | none ↦ none
      | some found ↦
          if not (found == 0) then some (false, fs) else elim (is_above fuel fs target new_parent) [
            | none ↦ none
            | some true ↦ some (false, fs)
            | some false ↦ elim (detach fuel fs target) [
              | none ↦ none
              | some fs1 ↦
                  let fs2 =
                    set_node fs1 target
                      (record (fs1.node target) { name = take (name_max - 1) new_name }) in
                  some (true, attach fs2 new_parent target)
            ]
          ]
    ]
