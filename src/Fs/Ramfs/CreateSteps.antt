-- ===== src/Fs/Ramfs/CreateSteps.antt =====
-- The steps of ramfs_create of fs/ramfs.c: the walk to the directory, the node and its place.
use mathlib.Core.Option
use raptor_kernel.Prelude.{
  ℕ, ◌+◌, ◌-◌, ◌<◌, ◌≤◌, ◌≡◌, ◌≢◌, refl, ap, sym, subst, ◌∙◌, Bool, true, false, some, List, [],
  ◌∷◌, take, ◌==◌, if◌then◌else◌, length, arith,
}
use raptor_kernel.Mm.Allocator.{Allocator}
use raptor_kernel.Shell.{same_text}
use raptor_kernel.Fs.Ramfs.{RamfsNode, Ramfs, set_node, attach, name_max}
use raptor_kernel.Fs.Ramfs.Walk.{walk, starts_at, skip_slashes}
use raptor_kernel.Fs.Ramfs.Files.{node_size, blank_node, node_new, create_at, ramfs_create}
use raptor_kernel.Fs.Ramfs.Siblings.{Linked, first_named}
use raptor_kernel.Fs.Ramfs.Resolve.{IsName, tail_path, Descends, Descends-names, skip-tail_path}
use raptor_kernel.Fs.Ramfs.LastName.{path_to, AllNames-path_to, walk_loop-parent}

pub Descends-append :
    (fs : Ramfs) (k e : ℕ) (vs : List (List ℕ)) (d : ℕ) (w : List ℕ) (ids : List ℕ) (n : ℕ)
    → Descends fs k e vs d
    → IsName w
    → (fs.node d).is_dir ≡ true
    → Linked fs (fs.node d).children ids
    → length ids ≤ k
    → n ≢ 0
    → first_named fs ids w ≡ n
    → Descends fs k e (path_to vs w) n
Descends-append fs k e [] d w ids n h name dir l few real found = (
  name,
  ap (λ x. (fs.node x).is_dir) h ∙ dir,
  ids,
  subst (λ x. Linked fs (fs.node x).children ids) (sym h) l,
  few,
  (λ z. real (sym found ∙ z)),
  found,
)
Descends-append fs k e (v ∷ vs) d w ids n (vname, vdir, es, vl, vfew, vreal, rest) name dir l few
      real found =
    (
      vname,
      vdir,
      es,
      vl,
      vfew,
      vreal,
      Descends-append fs k (first_named fs es v) vs d w ids n rest name dir l few real found,
    )

pub found_first :
    (fs : Ramfs) (p : ℕ) (ids : List ℕ) (w : List ℕ)
    → same_text (fs.node p).name w ≡ true
    → first_named fs (p ∷ ids) w ≡ p
unfolding first_named
found_first fs p ids w e = rw e refl

module _ (A : Allocator) where
  abbrev pub new_node : List ℕ → (dir : Bool) → RamfsNode
  new_node w dir = record blank_node { name = take (name_max - 1) w; is_dir = dir }

  pub node_new-null :
      (fs : Ramfs) (s : A.State) (w : List ℕ) (dir : Bool)
      → ((A.kmalloc s node_size).0 == 0) ≡ true
      → node_new A fs s w dir ≡ (0, fs, (A.kmalloc s node_size).1)
  unfolding node_new
  node_new-null fs s w dir e = rw e refl

  pub node_new-made :
      (fs : Ramfs) (s : A.State) (w : List ℕ) (dir : Bool)
      → ((A.kmalloc s node_size).0 == 0) ≡ false
      → node_new A fs s w dir ≡ (
        (A.kmalloc s node_size).0,
        set_node fs (A.kmalloc s node_size).0 (new_node w dir),
        (A.kmalloc s node_size).1,
      )
  unfolding node_new
  node_new-made fs s w dir e = rw e refl

  -- ramfs_create with the directory found, and a new node or NULL for it.
  abbrev pub attached : Ramfs → (d : ℕ) → (ℕ × Ramfs × A.State) → ℕ × Ramfs × A.State
  attached fs d q = if q.0 == 0 then (0, q.1, q.2) else (q.0, attach q.1 d q.0, q.2)

  pub create_at-found :
      (fs : Ramfs) (s : A.State) (r d : ℕ) (w : List ℕ) (dir : Bool)
      → r ≡ 0
      → (d == 0) ≡ false
      → (length w == 0) ≡ false
      → (fs.node d).is_dir ≡ true
      → create_at A fs s (record { result = r; parent_out = d; name_out = w }) dir
        ≡ attached fs d (node_new A fs s w dir)
  unfolding create_at
  create_at-found fs s r d w dir e ed ew edir = rw (e, ed, ew, edir) refl

  pub create_at-taken :
      (fs : Ramfs) (s : A.State) (r d : ℕ) (w : List ℕ) (dir : Bool)
      → (r == 0) ≡ false
      → create_at A fs s (record { result = r; parent_out = d; name_out = w }) dir ≡ (0, fs, s)
  unfolding create_at
  create_at-taken fs s r d w dir e = rw e refl

  pub create-walk :
      (fuel : ℕ) (fs : Ramfs) (s : A.State) (k cwd d : ℕ) (ws : List (List ℕ)) (w : List ℕ)
      (ids : List ℕ) (dir : Bool)
      → k + length ws + 2 < fuel
      → Descends fs k fs.root ws d
      → (fs.node d).is_dir ≡ true
      → Linked fs (fs.node d).children ids
      → length ids ≤ k
      → IsName w
      → ramfs_create A fuel fs s cwd (b'/' ∷ tail_path (path_to ws w)) dir
        ≡ some (
            create_at A fs s
              (record { result = first_named fs ids w; parent_out = d; name_out = w })
              dir)
  unfolding ramfs_create walk
  create-walk fuel fs s k cwd d ws w ids dir enough h isdir l few name =
      let names = AllNames-path_to ws w (Descends-names fs k fs.root ws d h) name in
      ap (Option.map (λ r. create_at A fs s r dir)) (
        unfold starts_at in
        walk_loop-parent fuel fs k fs.root (b'/' ∷ tail_path (path_to ws w)) ws d w ids h name isdir
          l few (omega (arith, enough))
          (unfold skip_slashes in skip-tail_path (path_to ws w) names))
