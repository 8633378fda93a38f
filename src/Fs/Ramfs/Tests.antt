-- ===== src/Fs/Ramfs/Tests.antt =====
-- fs/ramfs.c on a root with the directory "etc" and a file "a" that is not attached yet.
use mathlib.Core.Option
use raptor_kernel.Prelude.{
  ℕ, ◌+◌, ◌≡◌, sym, refl, Bool, true, false, some, List, [], ◌∷◌, ◌==◌, if◌then◌else◌, arith, inl,
  inr, Bool-cases, ==_iff, subst, length, ◌<◌,
}
use raptor_kernel.Fs.Ramfs.{
  RamfsNode, Ramfs, set_node, attach, find_loop, find_child, is_above, ramfs_move,
}
use raptor_kernel.Fs.Ramfs.Walk.{
  skip_slashes, component, step, walk_round, walk_loop, starts_at, walk, ramfs_resolve,
}
use raptor_kernel.Mm.Kheap.Service.{kheap}
use raptor_kernel.Mm.Kheap.Tests.{start, demo, blocks, demo-Holds}
use raptor_kernel.Fs.Ramfs.Files.{ramfs_create, ramfs_write}
use raptor_kernel.Fs.Ramfs.Write.{WriteEnds, nothing, ramfs_write-ends}
use raptor_kernel.Fs.Ramfs.Resolve.{IsName, Descends, slash_path, tail_path, ramfs_resolve-Descends}
use raptor_kernel.Fs.Ramfs.LastName.{path_to}
use raptor_kernel.Fs.Ramfs.Made.{Each}
use raptor_kernel.Fs.Ramfs.Create.{CreateEnds, ramfs_create-ends}
use raptor_kernel.Mm.Kheap.{header_size}
use raptor_kernel.Mm.Kheap.Cells.{find_at}
use raptor_kernel.Mm.Allocator.Bump.{bump}
use raptor_kernel.Fs.Ramfs.Files.{ramfs_delete}
use raptor_kernel.Fs.Ramfs.Walk.{ramfs_path}
use raptor_kernel.Fs.Ramfs.Forest.{Forest, leaf, branch, pointers}
use raptor_kernel.Fs.Ramfs.Freed.{FreedAll}
use raptor_kernel.Fs.Ramfs.Delete.{Detached, ramfs_delete-ends}
use raptor_kernel.Fs.Ramfs.PathOf.{Parented, ramfs_resolve-ramfs_path}
use raptor_kernel.Fs.Ramfs.Tree.{Under, ramfs_move-Under}
use raptor_kernel.Fs.Ramfs.Siblings.{Linked, first_named}

abbrev pub etc : List ℕ
etc = b'e' ∷ b't' ∷ b'c' ∷ []

abbrev a : List ℕ
a = b'a' ∷ []

abbrev nodes : ℕ → RamfsNode
nodes i =
    if i == 1
    then record {
      name = [];
      is_dir = true;
      buffer = 0;
      size = 0;
      capacity = 0;
      parent = 0;
      children = 2;
      next = 0;
    }
    else if i == 2
    then record {
      name = etc;
      is_dir = true;
      buffer = 0;
      size = 0;
      capacity = 0;
      parent = 1;
      children = 0;
      next = 0;
    }
    else record {
      name = a;
      is_dir = false;
      buffer = 0;
      size = 0;
      capacity = 0;
      parent = 0;
      children = 0;
      next = 0;
    }

abbrev pub tree : Ramfs
tree = record { node = nodes; root = 1; bytes = λ p i. 0 }

tree-Linked : Linked tree 2 (2 ∷ [])
tree-Linked = (refl, (λ e. omega (arith, e)), refl)

-- "/etc/../a"
resolved :
    ramfs_resolve 9
      (attach tree 1 3)
      2
      (b'/' ∷ b'e' ∷ b't' ∷ b'c' ∷ b'/' ∷ b'.' ∷ b'.' ∷ b'/' ∷ b'a' ∷ [])
    ≡ some 3
unfolding ramfs_resolve walk walk_loop walk_round step component skip_slashes starts_at find_child
    find_loop attach set_node
resolved = refl

-- A directory is not moved into itself.
no_cycle : Option.map (λ r. r.0) (ramfs_move 9 tree 2 2 a) ≡ some false
unfolding ramfs_move find_child find_loop is_above
no_cycle = refl

etc-IsName : IsName etc
etc-IsName = record {
  some_bytes = omega arith;
  short = omega arith;
  no_slash = (refl, (refl, (refl, tt)));
  no_dot = refl;
  no_dots = refl;
}

pub etc-Descends : Descends tree 1 1 (etc ∷ []) 2
unfolding first_named
etc-Descends = (etc-IsName, refl, (2 ∷ []), tree-Linked, omega arith, (λ e. omega (arith, e)), refl)

-- "/etc" from the working directory "/etc"
ramfs_resolve-Descends_example : ramfs_resolve 3 tree 2 (b'/' ∷ b'e' ∷ b't' ∷ b'c' ∷ []) ≡ some 2
unfolding tail_path slash_path
ramfs_resolve-Descends_example =
    ramfs_resolve-Descends 3 tree 1 2 (etc ∷ []) 2 (omega arith) etc-Descends

-- Moving "/etc" to "/a"
ramfs_move-Under_example :
    (r : Bool × Ramfs) × (ramfs_move 3 tree 2 1 a ≡ some r) × (e' : ℕ) × Under r.1 e' 2
ramfs_move-Under_example =
    ramfs_move-Under 3 tree 2 1 0 a (2 ∷ []) (2 ∷ []) (λ e. omega (arith, e)) refl tree-Linked
      (omega arith) tree-Linked (omega arith) refl (omega arith) 1 2 ((λ e. omega (arith, e)), refl)

unfoldable pub in_kheap : kheap.State
unfolding kheap
in_kheap = record { heap = demo; cells = blocks; holds = demo-Holds }

-- Appending "hi" to the empty file.
ramfs_write-ends_example :
    WriteEnds kheap tree in_kheap 3 0
      (b'h' ∷ b'i' ∷ [])
      (ramfs_write kheap 33 tree in_kheap 3 (b'h' ∷ b'i' ∷ []) true)
ramfs_write-ends_example =
    ramfs_write-ends kheap 33 tree in_kheap 3 (b'h' ∷ b'i' ∷ []) true (omega arith)
      (λ e. omega (arith, e)) refl (record { fits = omega arith; small = omega arith })
      (nothing refl) (omega arith)

-- The heap's block in use is the root.
abbrev pub only_root : Ramfs
only_root = record {
  node = λ i. record {
    name = [];
    is_dir = true;
    buffer = 0;
    size = 0;
    capacity = 0;
    parent = 0;
    children = 0;
    next = 0;
  };
  root = start + header_size;
  bytes = λ p i. 0;
}

pub root_live : kheap.Live in_kheap only_root.root
unfolding kheap in_kheap find_at
root_live = record { block = start; size = 16; behind = refl; used = refl }

pub no_children :
    (e : ℕ) (es : List ℕ)
    → kheap.Live in_kheap e
    → Linked only_root (only_root.node e).children es
    → Each (kheap.Live in_kheap) es
no_children e [] live l = tt
no_children e (i ∷ es) live l = absurd (l.1 (sym l.0))

-- Making "/etc".
ramfs_create-ends_example :
    CreateEnds kheap 3 0 only_root in_kheap [] etc true
      (ramfs_create kheap 3 only_root in_kheap 0 (b'/' ∷ tail_path (path_to [] etc)) true)
ramfs_create-ends_example =
    ramfs_create-ends kheap 3 only_root in_kheap 0 0 only_root.root [] etc [] true
      (kheap.Live in_kheap) (omega arith) (λ e l. l) root_live no_children refl refl refl
      (omega arith) etc-IsName

abbrev etc_alone : Forest
etc_alone = branch 2 leaf leaf

-- Two pointers given out.
abbrev two_given : bump.State
two_given = (2, λ q. false)

-- `rm -r /etc`
ramfs_delete-ends_example :
    (fs' : Ramfs) × (s' : bump.State) × (ramfs_delete bump 3 tree two_given 2 true
      ≡ some (true, fs', s'))
    × Detached tree fs' 1 2 etc_alone leaf
    × FreedAll bump two_given s' (pointers tree etc_alone)
ramfs_delete-ends_example =
    ramfs_delete-ends bump 3 tree two_given 2 true etc_alone leaf (omega arith) (omega arith)
      (omega arith) refl (refl, (λ e. omega (arith, e)), refl, refl) (tt, tt, tt, tt, tt)
      ((λ e. omega (arith, e)), tt, tt) (inl (refl, refl)) (omega arith)
      (unfold pointers in (inl refl, (inr (((λ e. omega (arith, e)), omega arith, refl), tt), tt)))

under_etc : (ids : List ℕ) → Linked tree 0 ids → Each (λ i. (tree.node i).parent ≡ 1) ids
under_etc [] l = tt
under_etc (i ∷ ids) l = absurd (l.1 (sym l.0))

under_root : (ids : List ℕ) → Linked tree 2 ids → Each (λ i. (tree.node i).parent ≡ 1) ids
under_root [] l = tt
under_root (i ∷ ids) l = (
  subst (λ k. (tree.node k).parent ≡ 1) l.0 refl,
  under_etc ids (subst (λ k. Linked tree (tree.node k).next ids) (sym l.0) l.2),
)

pub tree-Parented : Parented tree
tree-Parented e [] l = tt
tree-Parented e (i ∷ ids) l = elim (Bool-cases (e == 1)) [
  | inl at_root ↦
      subst (λ k. Each (λ i. (tree.node i).parent ≡ k) (i ∷ ids)) (sym ((==_iff e 1).0 at_root))
        (under_root (i ∷ ids) (rw at_root at l))
  | inr other ↦ elim (Bool-cases (e == 2)) [
    | inl at_etc ↦ absurd (l.1 (sym (rw (other, at_etc) at l.0)))
    | inr neither ↦ absurd (l.1 (sym (rw (other, neither) at l.0)))
  ]
]

-- "/etc"
ramfs_resolve-ramfs_path_example :
    (ramfs_path tree 2 256 ≡ slash_path (etc ∷ []))
    × (ramfs_resolve 3 tree 2 (ramfs_path tree 2 256) ≡ some 2)
ramfs_resolve-ramfs_path_example =
    ramfs_resolve-ramfs_path 3 tree 1 2 256 (etc ∷ []) 2 tree-Parented (omega arith) refl
      etc-Descends (omega arith) (omega arith) short (omega arith)
  where
    short : length (slash_path (etc ∷ [])) < 256
    short = unfold slash_path in omega arith
