-- ===== src/Fs/Ramfs/Create.antt =====
-- ramfs_create of fs/ramfs.c and the paths of the nodes.
use raptor_kernel.Prelude.{
  ℕ, suc, ◌+◌, ◌-◌, ◌<◌, ◌≤◌, ◌≡◌, ◌≢◌, refl, ap, sym, subst, ◌∙◌, inl, inr, Bool, true, Option,
  some, List, ◌∷◌, take-all, ◌==◌, length, arith, Bool-cases, ==_iff,
}
use raptor_kernel.Mm.Allocator.{Allocator}
use raptor_kernel.Shell.Redirect.{same_text_iff}
use raptor_kernel.Fs.Ramfs.{RamfsNode, Ramfs, set_node, attach, name_max}
use raptor_kernel.Fs.Ramfs.Walk.{ramfs_resolve}
use raptor_kernel.Fs.Ramfs.Files.{node_size, ramfs_create}
use raptor_kernel.Fs.Ramfs.Siblings.{Linked, first_named}
use raptor_kernel.Fs.Ramfs.Resolve.{IsName, tail_path, Descends, ramfs_resolve-Descends}
use raptor_kernel.Fs.Ramfs.LastName.{path_to, length-path_to, ramfs_resolve-missing}
use raptor_kernel.Fs.Ramfs.Made.{
  Made, made_child, attach-Made, Each, NotIn-Each, grown-Linked, Descends-Made, Descends-end,
}
use raptor_kernel.Fs.Ramfs.CreateSteps.{
  Descends-append, found_first, new_node, attached, node_new-null, node_new-made, create_at-found,
  create_at-taken, create-walk,
}

-- A node without contents.
abbrev pub Blank : Ramfs → (n : ℕ) → Type 0
Blank fs n = ((fs.node n).buffer ≡ 0) × ((fs.node n).size ≡ 0) × ((fs.node n).capacity ≡ 0)

module _ (A : Allocator) where
  -- The outcomes of ramfs_create of the name `w` behind the names `ws`.
  pub data CreateEnds (fuel k : ℕ) (fs : Ramfs) (s : A.State) (ws : List (List ℕ)) (w : List ℕ)
      (dir : Bool) (result : Option (ℕ × Ramfs × A.State)) : Type 0 where
    made :
        (n : ℕ) (fs' : Ramfs)
        → result ≡ some (n, fs', (A.kmalloc s node_size).1)
        → ((cwd : ℕ) → ramfs_resolve fuel fs' cwd (b'/' ∷ tail_path (path_to ws w)) ≡ some n)
        → ((cwd : ℕ) → ramfs_resolve fuel fs cwd (b'/' ∷ tail_path (path_to ws w)) ≡ some 0)
        → (fs'.node n).is_dir ≡ dir
        → Blank fs' n
        → A.Live (A.kmalloc s node_size).1 n
        → ((q : ℕ) → A.Live s q → A.Live (A.kmalloc s node_size).1 q)
        → Descends fs' (suc k) fs'.root (path_to ws w) n
        → ((vs : List (List ℕ)) (m : ℕ)
            → Descends fs k fs.root vs m
            → Descends fs' (suc k) fs'.root vs m)
        → CreateEnds fuel k fs s ws w dir result
    taken :
        (n : ℕ)
        → n ≢ 0
        → ((cwd : ℕ) → ramfs_resolve fuel fs cwd (b'/' ∷ tail_path (path_to ws w)) ≡ some n)
        → result ≡ some (0, fs, s)
        → CreateEnds fuel k fs s ws w dir result
    no_memory :
        (s' : A.State)
        → result ≡ some (0, fs, s')
        → (A.kmalloc s node_size).0 ≡ 0
        → ((q : ℕ) → A.Live s q → A.Live s' q)
        → CreateEnds fuel k fs s ws w dir result

  create_unused-ends :
      (fuel : ℕ) (fs : Ramfs) (s : A.State) (k cwd d : ℕ) (ws : List (List ℕ)) (w : List ℕ)
      (ids : List ℕ) (dir : Bool) (P : ℕ → Type 0)
      → k + length ws + 2 < fuel
      → ((e : ℕ) → P e → A.Live s e)
      → P fs.root
      → ((e : ℕ) (es : List ℕ) → P e → Linked fs (fs.node e).children es → Each P es)
      → Descends fs k fs.root ws d
      → (fs.node d).is_dir ≡ true
      → Linked fs (fs.node d).children ids
      → length ids ≤ k
      → IsName w
      → first_named fs ids w ≡ 0
      → CreateEnds fuel k fs s ws w dir
          (ramfs_create A fuel fs s cwd (b'/' ∷ tail_path (path_to ws w)) dir)
  create_unused-ends fuel fs s k cwd d ws w ids dir P enough used_nodes top held h isdir l few name
        unused =
      let p = (A.kmalloc s node_size).0 in
      let s1 = (A.kmalloc s node_size).1 in
      let fs' = attach (set_node fs p (new_node A w dir)) d p in
      let in_d = Descends-end P fs k fs.root ws d held top h in
      let some_bytes = name.some_bytes in
      let walked = create-walk A fuel fs s k cwd d ws w ids dir enough h isdir l few name in
      let run =
        walked
        ∙ ap some (
            create_at-found A fs s (first_named fs ids w) d w dir unused
              (ground (arith, A.Live-real s d (used_nodes d in_d))) (ground (arith, some_bytes))
              isdir) in
      elim (Bool-cases (p == 0)) [
        | inl full ↦
            let null = (==_iff p 0).0 full in
            no_memory s1
              (run ∙ ap (λ q. some (attached A fs d q)) (node_new-null A fs s w dir full)) null
              (A.kmalloc-null s node_size (omega arith) (omega arith) null)
        | inr got ↦
            let (fresh, live, kept) =
              A.kmalloc-fresh s node_size (omega arith) (omega arith) (ground (arith, got)) in
            let apart : p ≢ d = (λ z. fresh (used_nodes p (subst P (sym z) in_d))) in
            let real_p : p ≢ 0 = ground (arith, got) in
            let short = name.short in
            let mk : Made fs fs' d p w dir =
              subst (λ v. Made fs fs' d p v dir) (take-all (name_max - 1) w (omega (arith, short)))
                (attach-Made fs d p apart (new_node A w dir)) in
            let old =
              Descends-Made fs fs' d p w dir mk real_p P ids k (λ q. fresh (used_nodes p q)) held l
                unused fs.root in
            let notin = NotIn-Each P p ids (λ q. fresh (used_nodes p q)) (held d ids in_d l) in
            let found : first_named fs' (p ∷ ids) w ≡ p =
              found_first fs' p ids w ((same_text_iff (fs'.node p).name w).1 mk.name_now) in
            let all =
              Descends-append fs' (suc k) fs.root ws d w (p ∷ ids) p (old ws d top h) name
                (mk.dirs d apart ∙ isdir) (grown-Linked fs fs' d p w dir mk real_p ids notin l)
                (omega (arith, few)) real_p found in
            let counted = length-path_to ws w in
            let blank = made_child fs d p apart (new_node A w dir) in
            let there =
              subst (λ r. Descends fs' (suc k) r (path_to ws w) p) (sym mk.root_same) all in
            made p fs'
              (run
                ∙ ap (λ q. some (attached A fs d q)) (node_new-made A fs s w dir got)
                ∙ rw got refl)
              (λ c.
                ramfs_resolve-Descends fuel fs' (suc k) c (path_to ws w) p
                  (omega (arith, counted, enough)) there)
              (λ c.
                ramfs_resolve-missing fuel fs k c ws d w ids h name isdir l few
                  (omega (arith, enough)) unused)
              mk.dir_now
              (
                ap (λ (y : RamfsNode). y.buffer) blank,
                ap (λ (y : RamfsNode). y.size) blank,
                ap (λ (y : RamfsNode). y.capacity) blank,
              )
              live kept there
              (λ vs m g.
                subst (λ r. Descends fs' (suc k) r vs m) (sym mk.root_same) (old vs m top g))
      ]

  -- ramfs_create by an absolute path of names, of which all but the last lead to a directory. If the
  -- path leads to a node already, ramfs_create gives NULL and nothing changes. Otherwise the new node,
  -- of the kind asked for and without contents, is what ramfs_resolve finds by that path from then on,
  -- where it found nothing, and what the old paths led to they still lead to; or kmalloc gives NULL
  -- for a node, and so does ramfs_create, with the tree as it was. Every pointer in use stays in use
  -- either way. The tree's nodes, `P`, are in use on the heap: the root is one, and so are the
  -- children of each.
  pub ramfs_create-ends :
      (fuel : ℕ) (fs : Ramfs) (s : A.State) (k cwd d : ℕ) (ws : List (List ℕ)) (w : List ℕ)
      (ids : List ℕ) (dir : Bool) (P : ℕ → Type 0)
      → k + length ws + 2 < fuel
      → ((e : ℕ) → P e → A.Live s e)
      → P fs.root
      → ((e : ℕ) (es : List ℕ) → P e → Linked fs (fs.node e).children es → Each P es)
      → Descends fs k fs.root ws d
      → (fs.node d).is_dir ≡ true
      → Linked fs (fs.node d).children ids
      → length ids ≤ k
      → IsName w
      → CreateEnds fuel k fs s ws w dir
          (ramfs_create A fuel fs s cwd (b'/' ∷ tail_path (path_to ws w)) dir)
  ramfs_create-ends fuel fs s k cwd d ws w ids dir P enough used_nodes top held h isdir l few name =
      elim (Bool-cases (first_named fs ids w == 0)) [
        | inl unused ↦
            create_unused-ends fuel fs s k cwd d ws w ids dir P enough used_nodes top held h isdir l
              few name ((==_iff (first_named fs ids w) 0).0 unused)
        | inr used ↦
            let n = first_named fs ids w in
            let real : n ≢ 0 = ground (arith, used) in
            let there = Descends-append fs k fs.root ws d w ids n h name isdir l few real refl in
            let counted = length-path_to ws w in
            taken n real
              (λ c.
                ramfs_resolve-Descends fuel fs k c (path_to ws w) n (omega (arith, counted, enough))
                  there)
              (create-walk A fuel fs s k cwd d ws w ids dir enough h isdir l few name
                ∙ ap some (create_at-taken A fs s n d w dir used))
      ]
