-- ===== src/Fs/Ramfs/Delete.antt =====
-- ramfs_delete of fs/ramfs.c: the tree that stays, and what is freed.
use raptor_kernel.Prelude.{
  ℕ, zero, suc, ◌<◌, ◌≡◌, ◌≢◌, refl, ap, sym, subst, ◌∙◌, inl, inr, Bool, true, false, not, ◌&&◌,
  some, ◌==◌, arith, Bool-cases, ==_iff,
}
use raptor_kernel.Mm.Allocator.{Allocator}
use raptor_kernel.Fs.Ramfs.{RamfsNode, Ramfs, set_node, detach}
use raptor_kernel.Fs.Ramfs.Siblings.{set_node_ne}
use raptor_kernel.Fs.Ramfs.Files.{free_tree, ramfs_delete}
use raptor_kernel.Fs.Ramfs.Forest.{
  Forest, leaf, branch, Spells, Out, Simple, Top, height, pointers, without, Out-In, Top-In,
  In-below, Inside-below, Spells-below, In-real, In-without, height-below, pointers-same,
  Spells-frame, Out-null,
}
use raptor_kernel.Fs.Ramfs.Freed.{kfree_all, free_tree-all, Freeable, FreedAll, kfree_all-Freeable}
use raptor_kernel.Fs.Ramfs.Unlinked.{Relinked, unlink_loop-Spells}

-- A directory's children after one of them was detached with what stands below it.
pub record Detached (fs fs' : Ramfs) (parent n : ℕ) (f below : Forest) : Type 0 where
  pub siblings : Spells fs' (fs'.node parent).children (without n f)
  pub apart : Spells fs' (fs'.node n).children below
  pub buffers : (i : ℕ) → (fs'.node i).buffer ≡ (fs.node i).buffer
  pub bytes_same : fs'.bytes ≡ fs.bytes
  pub root_same : fs'.root ≡ fs.root

module _ (fs fs1 : Ramfs) (parent n : ℕ) (f below : Forest) (r : Relinked fs fs1 parent 0 f)
    (h : Spells fs (fs.node parent).children f) (simple : Simple f) (out : Out parent f)
    (top : Top n f below) where
  abbrev cut : Ramfs
  cut = set_node fs1 n (record (fs1.node n) { parent = 0; next = 0 })

  n_apart : n ≢ parent
  n_apart = (λ z. Out-In parent n f out (Top-In n f below top) (sym z))

  cut_list : (i : ℕ) → (cut.node i).children ≡ (fs1.node i).children
  unfolding set_node
  cut_list i = elim (Bool-cases (n == i)) [
    | inl e ↦ rw e (ap (λ k. (fs1.node k).children) ((==_iff n i).0 e))
    | inr e ↦ rw e refl
  ]

  cut_buffer : (i : ℕ) → (cut.node i).buffer ≡ (fs1.node i).buffer
  unfolding set_node
  cut_buffer i = elim (Bool-cases (n == i)) [
    | inl e ↦ rw e (ap (λ k. (fs1.node k).buffer) ((==_iff n i).0 e))
    | inr e ↦ rw e refl
  ]

  cut_next : (i : ℕ) → i ≢ n → (cut.node i).next ≡ (fs1.node i).next
  cut_next i ne = ap (λ (x : RamfsNode). x.next) (set_node_ne fs1 n i _ (λ e. ne (sym e)))

  pub cut-Detached :
      Spells fs1 (fs1.node parent).children (without n f) → Detached fs cut parent n f below
  cut-Detached left = record {
    siblings =
        subst (λ c. Spells cut c (without n f)) (sym (cut_list parent))
          (Spells-frame fs1 cut (fs1.node parent).children (without n f) (λ i j. cut_list i)
            (λ i j. cut_next i (In-without n i f below simple top j).1) left);
    apart =
        subst (λ c. Spells cut c below) (sym (cut_list n ∙ r.lists n (inl n_apart)))
          (Spells-frame fs cut (fs.node n).children below
            (λ i j.
              cut_list i
              ∙ r.lists i (inl (λ z. Out-In parent i f out (In-below n i f below top j) (sym z))))
            (λ i j.
              let (off, inside) = Inside-below n i f below simple top j in
              cut_next i off
              ∙ r.nexts i (In-real fs (fs.node parent).children i f h (In-below n i f below top j))
                  inside)
            (Spells-below fs (fs.node parent).children n f below h top));
    buffers = λ i. cut_buffer i ∙ ap (λ (x : RamfsNode). x.buffer) (r.rest_same i);
    bytes_same = unfold set_node in r.bytes_same;
    root_same = unfold set_node in r.root_same;
  }

pub detach-Detached :
    (fuel : ℕ) (fs : Ramfs) (n : ℕ) (f below : Forest)
    → let parent = (fs.node n).parent in
      Spells fs (fs.node parent).children f
      → Simple f
      → Out parent f
      → Top n f below
      → height f < fuel
      → (fs' : Ramfs) × (detach fuel fs n ≡ some fs') × Detached fs fs' (fs.node n).parent n f below
unfolding detach
detach-Detached fuel fs n f below h simple out top deep =
    let parent = (fs.node n).parent in
    let zero_out = Out-null fs (fs.node parent).children f h in
    let (fs1, run, r, left) =
      unlink_loop-Spells fuel fs parent 0 n f below h simple out zero_out top deep in
    (
      set_node fs1 n (record (fs1.node n) { parent = 0; next = 0 }),
      rw run refl,
      cut-Detached fs fs1 parent n f below r h simple out top left,
    )

-- ramfs_delete of a node that is neither the root nor, without `recursive`, a directory with children:
-- it ends without a panic; the node is out of its parent's children, and its siblings and all that
-- stands below them are still there; each node and each buffer of its tree is freed once and is not
-- in use any more, and everything else that was in use still is. The tree's nodes and buffers are
-- in use at the start, and none of them twice.
pub ramfs_delete-ends :
    (A : Allocator) (fuel : ℕ) (fs : Ramfs) (s : A.State) (n : ℕ) (recursive : Bool)
    (f below : Forest)
    → n ≢ 0
    → n ≢ fs.root
    → (fs.node n).parent ≢ 0
    → ((fs.node n).is_dir && not ((fs.node n).children == 0) && not recursive) ≡ false
    → Spells fs (fs.node (fs.node n).parent).children f
    → Simple f
    → Out (fs.node n).parent f
    → Top n f below
    → height f < fuel
    → Freeable A s (pointers fs (branch n below leaf))
    → (fs' : Ramfs) × (s' : A.State) × (ramfs_delete A fuel fs s n recursive ≡ some (true, fs', s'))
      × Detached fs fs' (fs.node n).parent n f below
      × FreedAll A s s' (pointers fs (branch n below leaf))
unfolding ramfs_delete
ramfs_delete-ends A zero fs s n recursive f below real other up allowed h simple out top deep free =
    absurd (omega arith)
ramfs_delete-ends A (suc fuel) fs s n recursive f below real other up allowed h simple out top deep
      free =
    let parent = (fs.node n).parent in
    let a : (n == 0) ≡ false = ground (arith, real) in
    let b : (n == fs.root) ≡ false = ground (arith, other) in
    let c : (parent == 0) ≡ false = ground (arith, up) in
    let (fs1, run, cut) = detach-Detached (suc fuel) fs n f below h simple out top deep in
    let low = height-below n f below top in
    let (s1, freed, all) = kfree_all-Freeable A s (pointers fs (branch n below leaf)) free in
    let same = pointers-same fs fs1 (branch n below leaf) cut.buffers in
    let tree : free_tree A (suc fuel) fs1 s n ≡ some s1 =
      free_tree-all A fuel fs1 s n below cut.apart (omega (arith, low, deep))
      ∙ ap (kfree_all A s) same
      ∙ freed in
    (fs1, s1, rw (a, b, c, allowed, run, tree) refl, cut, all)
