-- ===== src/Fs/Ramfs/Tree.antt =====
-- ramfs_move of fs/ramfs.c: it ends, and the nodes stay a tree.
use raptor_kernel.Prelude.{
  ℕ, zero, suc, ◌-◌, ◌<◌, ◌≡◌, ◌≢◌, refl, ap, sym, subst, ◌∙◌, inl, inr, Bool, true, false, not,
  ◌||◌, some, List, [], ◌∷◌, take, ◌==◌, length, arith, Bool-cases, ==_iff,
}
use raptor_kernel.Fs.Ramfs.{
  RamfsNode, Ramfs, set_node, attach, relink, unlink_loop, detach, is_above, ramfs_move, name_max,
}
use raptor_kernel.Fs.Ramfs.Siblings.{
  Linked, first_named, find_child_lem, set_node_self, set_node_ne,
}

-- The root is `d` parents above the node.
abbrev pub Under : Ramfs → (d n : ℕ) → Type 0
Under fs zero n = n ≡ fs.root
Under fs (suc d) n = (n ≢ 0) × Under fs d (fs.node n).parent

-- None of the node and the `d` nodes above it is `t`.
abbrev Avoids : Ramfs → (t d n : ℕ) → Type 0
Avoids fs t zero n = n ≢ t
Avoids fs t (suc d) n = (n ≢ t) × Avoids fs t d (fs.node n).parent

-- No node but `t` has got another parent.
abbrev Kept : Ramfs → Ramfs → (t : ℕ) → Type 0
Kept fs fs' t = (fs'.root ≡ fs.root) × ((n : ℕ) → n ≢ t → (fs'.node n).parent ≡ (fs.node n).parent)

Kept-trans : (a b c : Ramfs) (t : ℕ) → Kept a b t → Kept b c t → Kept a c t
Kept-trans a b c t h k = (k.0 ∙ h.0, λ n ne. k.1 n ne ∙ h.1 n ne)

set_node-parent :
    (fs : Ramfs) (i : ℕ) (x : RamfsNode) (n : ℕ)
    → x.parent ≡ (fs.node i).parent
    → ((set_node fs i x).node n).parent ≡ (fs.node n).parent
unfolding set_node
set_node-parent fs i x n e = elim (Bool-cases (i == n)) [
  | inl same ↦ rw same (e ∙ ap (λ k. (fs.node k).parent) ((==_iff i n).0 same))
  | inr other ↦ rw other refl
]

set_node-Kept :
    (fs : Ramfs) (i : ℕ) (x : RamfsNode) (t : ℕ)
    → x.parent ≡ (fs.node i).parent
    → Kept fs (set_node fs i x) t
set_node-Kept fs i x t e = (unfold set_node in refl, λ n ne. set_node-parent fs i x n e)

set_target-Kept : (fs : Ramfs) (t : ℕ) (x : RamfsNode) → Kept fs (set_node fs t x) t
set_target-Kept fs t x = (
  unfold set_node in refl,
  λ n ne. ap (λ (y : RamfsNode). y.parent) (set_node_ne fs t n x (λ e. ne (sym e))),
)

relink-Kept : (fs : Ramfs) (parent prev to t : ℕ) → Kept fs (relink fs parent prev to) t
unfolding relink
relink-Kept fs parent prev to t = elim (Bool-cases (prev == 0)) [
  | inl e ↦ rw e (set_node-Kept fs parent (record (fs.node parent) { children = to }) t refl)
  | inr e ↦ rw e (set_node-Kept fs prev (record (fs.node prev) { next = to }) t refl)
]

unlink_loop-Kept :
    (fuel : ℕ) (fs : Ramfs) (parent prev cur t : ℕ) (ids : List ℕ)
    → Linked fs cur ids
    → length ids < fuel
    → (fs' : Ramfs) × (unlink_loop fuel fs parent prev cur t ≡ some fs') × Kept fs fs' t
unfolding unlink_loop
unlink_loop-Kept zero fs parent prev cur t ids l h = absurd (omega arith)
unlink_loop-Kept (suc fuel) fs parent prev cur t [] l h =
    let e : (cur == 0) ≡ true = (==_iff cur 0).1 l in (fs, rw e refl, (refl, λ n ne. refl))
unlink_loop-Kept (suc fuel) fs parent prev cur t (i ∷ ids) l h =
    let real : (cur == 0) ≡ false = ground (arith, l.0, l.1) in
    let more =
      unlink_loop-Kept fuel fs parent cur (fs.node cur).next t ids
        (subst (λ k. Linked fs (fs.node k).next ids) (sym l.0) l.2) (omega arith) in
    elim (Bool-cases (cur == t)) [
      | inl e ↦ (
        relink fs parent prev (fs.node t).next,
        rw (real, e) refl,
        relink-Kept fs parent prev (fs.node t).next t,
      )
      | inr e ↦ (more.0, rw (real, e) more.1, more.2)
    ]

detach-Kept :
    (fuel : ℕ) (fs : Ramfs) (t : ℕ) (ids : List ℕ)
    → Linked fs (fs.node (fs.node t).parent).children ids
    → length ids < fuel
    → (fs' : Ramfs) × (detach fuel fs t ≡ some fs') × Kept fs fs' t
unfolding detach
detach-Kept fuel fs t ids l h =
    let up = (fs.node t).parent in
    let (fs1, e, k) = unlink_loop-Kept fuel fs up 0 (fs.node up).children t ids l h in
    (
      set_node fs1 t (record (fs1.node t) { parent = 0; next = 0 }),
      rw e refl,
      Kept-trans fs fs1 (set_node fs1 t (record (fs1.node t) { parent = 0; next = 0 })) t k
          (set_target-Kept fs1 t (record (fs1.node t) { parent = 0; next = 0 })),
    )

attach-Kept :
    (fs : Ramfs) (parent t : ℕ)
    → Kept fs (attach fs parent t) t × (((attach fs parent t).node t).parent ≡ parent)
unfolding attach
attach-Kept fs parent t =
    let x = record (fs.node t) { parent = parent; next = (fs.node parent).children } in
    let fs1 = set_node fs t x in
    let y = record (fs1.node parent) { children = t } in
    (
      Kept-trans fs fs1 (set_node fs1 parent y) t (set_target-Kept fs t x)
          (set_node-Kept fs1 parent y t refl),
      set_node-parent fs1 parent y t refl ∙ ap (λ (n : RamfsNode). n.parent) (set_node_self fs t x),
    )

is_above-null : (fuel : ℕ) (fs : Ramfs) (t : ℕ) → 0 < fuel → is_above fuel fs t 0 ≡ some false
unfolding is_above
is_above-null zero fs t h = absurd (omega arith)
is_above-null (suc fuel) fs t h = refl

module _ (fs : Ramfs) (real_root : fs.root ≢ 0) (top : (fs.node fs.root).parent ≡ 0) where
  is_above-ends :
      (fuel d t p : ℕ)
      → Under fs d p
      → suc d < fuel
      → (b : Bool) × (is_above fuel fs t p ≡ some b) × (b ≡ false → Avoids fs t d p)
  unfolding is_above
  is_above-ends zero d t p u h = absurd (omega arith)
  is_above-ends (suc fuel) zero t p u h =
      let real : (p == 0) ≡ false = ground (arith, real_root, u) in
      let up : (fs.node p).parent ≡ 0 = ap (λ k. (fs.node k).parent) u ∙ top in
      elim (Bool-cases (p == t)) [
        | inl e ↦ (true, rw (real, e) refl, λ k. absurd (clash k))
        | inr e ↦ (
          false,
          rw (real, e, up) (is_above-null fuel fs t (omega arith)),
          λ k. ground (arith, e),
        )
      ]
    where
      clash : true ≡ false → ⊥
      clash k = cc
  is_above-ends (suc fuel) (suc d) t p u h =
      let real : (p == 0) ≡ false = ground (arith, u.0) in
      let (b, more, avoids) = is_above-ends fuel d t (fs.node p).parent u.1 (omega arith) in
      elim (Bool-cases (p == t)) [
        | inl e ↦ (true, rw (real, e) refl, λ k. absurd (clash k))
        | inr e ↦ (b, rw (real, e) more, λ k. (ground (arith, e), avoids k))
      ]
    where
      clash : true ≡ false → ⊥
      clash k = cc

Under-Avoids :
    (fs fs' : Ramfs) (t d p : ℕ) → Kept fs fs' t → Avoids fs t d p → Under fs d p → Under fs' d p
Under-Avoids fs fs' t zero p k a u = u ∙ sym k.0
Under-Avoids fs fs' t (suc d) p k a u = (
  u.0,
  subst (Under fs' d) (sym (k.1 p a.0)) (Under-Avoids fs fs' t d (fs.node p).parent k a.1 u.1),
)

Under-moved :
    (fs fs' : Ramfs) (t np d : ℕ)
    → Kept fs fs' t
    → (fs'.node t).parent ≡ np
    → Under fs' d np
    → (e n : ℕ) → Under fs e n
    → (e' : ℕ) × Under fs' e' n
Under-moved fs fs' t np d k now below zero n u = (0, u ∙ sym k.0)
Under-moved fs fs' t np d k now below (suc e) n u =
    let (e', rest) = Under-moved fs fs' t np d k now below e (fs.node n).parent u.1 in
    elim (Bool-cases (n == t)) [
      | inl same ↦ (
        suc d,
        (
          u.0,
          subst (Under fs' d) (sym (ap (λ i. (fs'.node i).parent) ((==_iff n t).0 same) ∙ now))
              below,
        ),
      )
      | inr other ↦ (suc e', (u.0, subst (Under fs' e') (sym (k.1 n (ground (arith, other)))) rest))
    ]

-- The last steps of ramfs_move.
abbrev placed : Ramfs → (t np : ℕ) → List ℕ → Ramfs
placed fs t np name =
    attach (set_node fs t (record (fs.node t) { name = take (name_max - 1) name })) np t

placed-Kept :
    (fs fs1 : Ramfs) (t np : ℕ) (name : List ℕ)
    → Kept fs fs1 t
    → Kept fs (placed fs1 t np name) t × (((placed fs1 t np name).node t).parent ≡ np)
placed-Kept fs fs1 t np name k =
    let x = record (fs1.node t) { name = take (name_max - 1) name } in
    let fs2 = set_node fs1 t x in
    let (k', now) = attach-Kept fs2 np t in
    (
      Kept-trans fs fs1 (placed fs1 t np name) t k
          (Kept-trans fs1 fs2 (placed fs1 t np name) t (set_target-Kept fs1 t x) k'),
      now,
    )

-- ramfs_move ends, and every node below the root is below it afterwards.
move_all :
    (fuel : ℕ) (fs : Ramfs) (t np d : ℕ) (name : List ℕ) (ids ids' : List ℕ)
    → fs.root ≢ 0
    → (fs.node fs.root).parent ≡ 0
    → Linked fs (fs.node np).children ids
    → length ids < fuel
    → Linked fs (fs.node (fs.node t).parent).children ids'
    → length ids' < fuel
    → Under fs d np
    → suc d < fuel
    → (r : Bool × Ramfs) × (ramfs_move fuel fs t np name ≡ some r)
      × ((e n : ℕ) → Under fs e n → (e' : ℕ) × Under r.1 e' n)
unfolding ramfs_move
move_all fuel fs t np d name ids ids' real top l h l' h' u deep =
    let (above, ea, avoids) = is_above-ends fs real top fuel d t np u deep in
    let (fs1, ed, k) = detach-Kept fuel fs t ids' l' h' in
    let (k', now) = placed-Kept fs fs1 t np name k in
    let ef = find_child_lem fuel fs np ids name l h in
    let guard = (t == 0) || (t == fs.root) || (np == 0) || not (fs.node np).is_dir in
    elim (Bool-cases guard) [
      | inl stop ↦ ((false, fs), rw stop refl, λ e n v. (e, v))
      | inr go ↦ elim (Bool-cases (first_named fs ids name == 0)) [
        | inr taken ↦ ((false, fs), rw (go, ef, taken) refl, λ e n v. (e, v))
        | inl unused ↦ elim (Bool-cases above) [
          | inl inside ↦ ((false, fs), rw (go, ef, unused, ea, inside) refl, λ e n v. (e, v))
          | inr outside ↦ (
            (true, placed fs1 t np name),
            rw (go, ef, unused, ea, outside, ed) refl,
            Under-moved fs (placed fs1 t np name) t np d k' now
                (Under-Avoids fs (placed fs1 t np name) t d np k' (avoids outside) u),
          )
        ]
      ]
    ]

-- ramfs_move ends, refused or done, and a node that was below the root is below it afterwards, at
-- whatever depth: no directory comes to stand below itself. It needs one round more than the
-- children of the old and of the new parent, and two more than the depth of the new one.
pub ramfs_move-Under :
    (fuel : ℕ) (fs : Ramfs) (t np d : ℕ) (name : List ℕ) (ids ids' : List ℕ)
    → fs.root ≢ 0
    → (fs.node fs.root).parent ≡ 0
    → Linked fs (fs.node np).children ids
    → length ids < fuel
    → Linked fs (fs.node (fs.node t).parent).children ids'
    → length ids' < fuel
    → Under fs d np
    → suc d < fuel
    → (e n : ℕ) → Under fs e n
    → (r : Bool × Ramfs) × (ramfs_move fuel fs t np name ≡ some r) × (e' : ℕ) × Under r.1 e' n
ramfs_move-Under fuel fs t np d name ids ids' real top l h l' h' u deep e n v =
    let (r, run, below) = move_all fuel fs t np d name ids ids' real top l h l' h' u deep in
    (r, run, (below e n v).0, (below e n v).1)
