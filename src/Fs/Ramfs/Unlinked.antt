-- ===== src/Fs/Ramfs/Unlinked.antt =====
-- The loop of detach in fs/ramfs.c on a forest: it takes out one node and leaves the others.
use raptor_kernel.Prelude.{
  ℕ, zero, suc, ◌<◌, ◌≡◌, ◌≢◌, ◌⊎◌, refl, ap, sym, subst, ◌∙◌, inl, inr, true, false, some, ◌==◌,
  if◌then◌else◌, arith, Bool-cases, ==_iff,
}
use raptor_kernel.Fs.Ramfs.{RamfsNode, Ramfs, set_node, relink, unlink_loop}
use raptor_kernel.Fs.Ramfs.Siblings.{set_node_self, set_node_ne}
use raptor_kernel.Fs.Ramfs.Forest.{
  Forest, leaf, branch, Spells, Out, Simple, height, without, Top, Out-In, Out-Apart, Inside,
  Inside-Out, Spells-frame,
}

-- The link that `pp` of detach points to.
abbrev pub link : Ramfs → (parent prev : ℕ) → ℕ
link fs parent prev = if prev == 0 then (fs.node parent).children else (fs.node prev).next

-- Only links have changed: none of a node's children but the parent's, and only when its link is the
-- one, and no `next` but that of `prev` and of outermost nodes of the forest.
pub record Relinked (fs fs' : Ramfs) (parent prev : ℕ) (f : Forest) : Type 0 where
  pub rest_same :
      (i : ℕ)
      → fs'.node i
        ≡ record (fs.node i) { children = (fs'.node i).children; next = (fs'.node i).next }
  pub root_same : fs'.root ≡ fs.root
  pub bytes_same : fs'.bytes ≡ fs.bytes
  pub lists : (i : ℕ) → ((i ≢ parent) ⊎ (prev ≢ 0)) → (fs'.node i).children ≡ (fs.node i).children
  pub nexts : (i : ℕ) → i ≢ prev → Inside i f → (fs'.node i).next ≡ (fs.node i).next

abbrev OnlyLinks : RamfsNode → RamfsNode → Type 0
OnlyLinks x y = y ≡ record x { children = y.children; next = y.next }

set_links :
    (fs : Ramfs) (i : ℕ) (x : RamfsNode)
    → OnlyLinks (fs.node i) x
    → (j : ℕ) → OnlyLinks (fs.node j) ((set_node fs i x).node j)
unfolding set_node
set_links fs i x e j = elim (Bool-cases (i == j)) [
  | inl same ↦ rw same (subst (λ k. OnlyLinks (fs.node k) x) ((==_iff i j).0 same) e)
  | inr other ↦ rw other refl
]

field_same :
    (fs : Ramfs) (j : ℕ) (x : RamfsNode) (g : RamfsNode → ℕ) (i : ℕ)
    → g x ≡ g (fs.node j)
    → g ((set_node fs j x).node i) ≡ g (fs.node i)
unfolding set_node
field_same fs j x g i e = elim (Bool-cases (j == i)) [
  | inl same ↦ rw same (e ∙ ap (λ k. g (fs.node k)) ((==_iff j i).0 same))
  | inr other ↦ rw other refl
]

relink-Relinked :
    (fs : Ramfs) (parent prev to : ℕ) (f : Forest)
    → Relinked fs (relink fs parent prev to) parent prev f
      × (link (relink fs parent prev to) parent prev ≡ to)
unfolding relink
relink-Relinked fs parent prev to f = elim (Bool-cases (prev == 0)) [
  | inl top ↦
      let x = record (fs.node parent) { children = to } in
      let zero_prev = (==_iff prev 0).0 top in
      rw top (
        record {
          rest_same = set_links fs parent x refl;
          root_same = unfold set_node in refl;
          bytes_same = unfold set_node in refl;
          lists = λ i h. elim h [
            | inl ne ↦
                ap (λ (y : RamfsNode). y.children) (set_node_ne fs parent i x (λ e. ne (sym e)))
            | inr ne ↦ absurd (ne zero_prev)
          ];
          nexts = λ i ne o. field_same fs parent x (λ y. y.next) i refl;
        },
        ap (λ (y : RamfsNode). y.children) (set_node_self fs parent x),
      )
  | inr inner ↦
      let x = record (fs.node prev) { next = to } in
      rw inner (
        record {
          rest_same = set_links fs prev x refl;
          root_same = unfold set_node in refl;
          bytes_same = unfold set_node in refl;
          lists = λ i h. field_same fs prev x (λ y. y.children) i refl;
          nexts =
              λ i ne o. ap (λ (y : RamfsNode). y.next) (set_node_ne fs prev i x (λ e. ne (sym e)));
        },
        ap (λ (y : RamfsNode). y.next) (set_node_self fs prev x),
      )
]

-- A step of the loop leaves the link before it alone.
link_same :
    (fs fs' : Ramfs) (parent m prev : ℕ) (rest : Forest)
    → Relinked fs fs' parent m rest
    → m ≢ 0
    → prev ≢ m
    → Out prev rest
    → link fs' parent prev ≡ link fs parent prev
link_same fs fs' parent m prev rest r real ne o = elim (Bool-cases (prev == 0)) [
  | inl top ↦ rw top (r.lists parent (inr real))
  | inr inner ↦ rw inner (r.nexts prev ne (Inside-Out prev rest o))
]

-- The loop of detach takes the tree of the node out of the forest that the links spell.
pub unlink_loop-Spells :
    (fuel : ℕ) (fs : Ramfs) (parent prev n : ℕ) (f below : Forest)
    → Spells fs (link fs parent prev) f
    → Simple f
    → Out parent f
    → Out prev f
    → Top n f below
    → height f < fuel
    → (fs' : Ramfs) × (unlink_loop fuel fs parent prev (link fs parent prev) n ≡ some fs')
      × Relinked fs fs' parent prev f
      × Spells fs' (link fs' parent prev) (without n f)
unfolding unlink_loop
unlink_loop-Spells zero fs parent prev n f below h simple op ov top deep = absurd (omega arith)
unlink_loop-Spells (suc fuel) fs parent prev n leaf below h simple op ov top deep = absurd top
unlink_loop-Spells (suc fuel) fs parent prev n (branch m kids rest) below h simple op ov
      (inl (e, k)) deep =
    let real : (link fs parent prev == 0) ≡ false = ground (arith, h.0, h.1) in
    let hit : (link fs parent prev == n) ≡ true = (==_iff (link fs parent prev) n).1 (h.0 ∙ e) in
    let hit' : (m == n) ≡ true = (==_iff m n).1 e in
    let fs' = relink fs parent prev (fs.node n).next in
    let (r, now) = relink-Relinked fs parent prev (fs.node n).next (branch m kids rest) in
    let spelled : Spells fs (fs.node n).next rest =
      subst (λ x. Spells fs (fs.node x).next rest) e h.3 in
    (
      fs',
      rw (real, hit) refl,
      r,
      rw hit' (
          subst (λ c. Spells fs' c rest) (sym now)
            (Spells-frame fs fs' (fs.node n).next rest
              (λ i j.
                (relink-Relinked fs parent prev (fs.node n).next leaf).0.lists i
                  (inl (λ z. Out-In parent i rest op.2 j (sym z))))
              (λ i j.
                (relink-Relinked fs parent prev (fs.node n).next leaf).0.nexts i
                  (λ z. Out-In prev i rest ov.2 j (sym z)) tt)
              spelled)),
    )
unlink_loop-Spells (suc fuel) fs parent prev n (branch m kids rest) below h simple op ov
      (inr (ne, top)) deep =
    let real : (link fs parent prev == 0) ≡ false = ground (arith, h.0, h.1) in
    let miss : (m == n) ≡ false = ground (arith, ne) in
    let inner : (m == 0) ≡ false = ground (arith, h.1) in
    let (fs', run, r, spelled) =
      unlink_loop-Spells fuel fs parent m n rest below (rw inner h.3) simple.4 op.2 simple.1 top
        (omega arith) in
    let step : unlink_loop fuel fs parent m (fs.node m).next n ≡ some fs' = rw inner at run in
    let away : (link fs parent prev == n) ≡ false = ground (arith, ne, h.0) in
    (
      fs',
      rw (real, away)
          (subst (λ c. unlink_loop fuel fs parent c (fs.node c).next n ≡ some fs') (sym h.0) step),
      record {
        rest_same = r.rest_same;
        root_same = r.root_same;
        bytes_same = r.bytes_same;
        lists = λ i k. r.lists i (inr h.1);
        nexts = λ i k o. r.nexts i o.0 o.1;
      },
      rw miss (
        link_same fs fs' parent m prev rest r h.1 ov.0 ov.2 ∙ h.0,
        h.1,
        subst (λ c. Spells fs' c kids) (sym (r.lists m (inr h.1)))
            (Spells-frame fs fs' (fs.node m).children kids (λ i j. r.lists i (inr h.1))
              (λ i j.
                r.nexts i (λ z. Out-In m i kids simple.0 j (sym z))
                  (Inside-Out i rest (Out-Apart i kids rest simple.2 j)))
              h.2),
        rw inner at spelled,
      ),
    )
