-- ===== src/Fs/Ramfs/Siblings.antt =====
-- The children of a directory of fs/ramfs.c as the list that their links spell: find_child and
-- attach.
use raptor_kernel.Prelude.{
  ℕ, zero, suc, ◌<◌, ◌≡◌, ◌≢◌, refl, ap, sym, subst, ◌∙◌, inl, inr, false, some, List, [], ◌∷◌,
  ◌==◌, if◌then◌else◌, length, arith, Bool-cases, ==_iff,
}
use raptor_kernel.Shell.{same_text}
use raptor_kernel.Shell.Redirect.{same_text_iff}
use raptor_kernel.Fs.Ramfs.{RamfsNode, Ramfs, set_node, attach, find_loop, find_child}

-- The links from `c` on spell the nodes `ids`.
abbrev pub Linked : Ramfs → ℕ → List ℕ → Type 0
Linked fs c [] = c ≡ 0
Linked fs c (i ∷ ids) = (c ≡ i) × (i ≢ 0) × Linked fs ((fs.node i).next) ids

-- The first of the nodes that has the name, 0 if none has it.
unfoldable pub first_named : Ramfs → List ℕ → List ℕ → ℕ
first_named fs [] name = 0
first_named fs (i ∷ ids) name =
    if same_text ((fs.node i).name) name then i else first_named fs ids name

find_loop_lem :
    (fuel : ℕ) (fs : Ramfs) (c : ℕ) (ids : List ℕ) (name : List ℕ)
    → Linked fs c ids
    → length ids < fuel
    → find_loop fuel fs c name ≡ some (first_named fs ids name)
unfolding find_loop first_named
find_loop_lem zero fs c ids name l h = absurd (omega arith)
find_loop_lem (suc fuel) fs c [] name l h = rw l refl
find_loop_lem (suc fuel) fs c (i ∷ ids) name l h =
    let real : (i == 0) ≡ false = ground (arith, l.1) in
    let rest = find_loop_lem fuel fs ((fs.node i).next) ids name l.2 (omega arith) in
    rw (l.0, real, rest)
      (elim (Bool-cases (same_text ((fs.node i).name) name)) [
        | inl found ↦ rw found refl
        | inr other ↦ rw other refl
      ])

-- find_child returns, within a round more than the directory has children, the first of them that
-- has the name, and NULL when none has it.
pub find_child_lem :
    (fuel : ℕ) (fs : Ramfs) (dir : ℕ) (ids : List ℕ) (name : List ℕ)
    → Linked fs ((fs.node dir).children) ids
    → length ids < fuel
    → find_child fuel fs dir name ≡ some (first_named fs ids name)
unfolding find_child
find_child_lem fuel fs dir ids name l h =
    find_loop_lem fuel fs ((fs.node dir).children) ids name l h

pub set_node_self : (fs : Ramfs) (i : ℕ) (n : RamfsNode) → (set_node fs i n).node i ≡ n
unfolding set_node
set_node_self fs i n = rw ((==_iff i i).1 refl) refl

pub set_node_ne :
    (fs : Ramfs) (i j : ℕ) (n : RamfsNode) → i ≢ j → (set_node fs i n).node j ≡ fs.node j
unfolding set_node
set_node_ne fs i j n h = let e : (i == j) ≡ false = ground (arith, h) in rw e refl

-- No node of the list is `i`.
abbrev pub NotIn : ℕ → List ℕ → Type 0
NotIn i [] = Unit {0}
NotIn i (j ∷ js) = (i ≢ j) × NotIn i js

pub Linked-frame :
    (fs fs' : Ramfs) (x c : ℕ) (ids : List ℕ)
    → ((i : ℕ) → x ≢ i → (fs'.node i).next ≡ (fs.node i).next)
    → NotIn x ids
    → Linked fs c ids
    → Linked fs' c ids
Linked-frame fs fs' x c [] same n l = l
Linked-frame fs fs' x c (i ∷ ids) same n l = (
  l.0,
  l.1,
  subst (λ k. Linked fs' k ids) (sym (same i n.0))
      (Linked-frame fs fs' x ((fs.node i).next) ids same n.1 l.2),
)

module _ (fs : Ramfs) (parent child : ℕ) (apart : child ≢ parent) where
  abbrev linked_child : Ramfs
  linked_child =
      set_node fs child
        (record (fs.node child) { parent = parent; next = (fs.node parent).children })

  attach-parent :
      (attach fs parent child).node parent ≡ record (linked_child.node parent) { children = child }
  unfolding attach
  attach-parent = set_node_self linked_child parent _

  attach-child :
      (attach fs parent child).node child
      ≡ record (fs.node child) { parent = parent; next = (fs.node parent).children }
  unfolding attach
  attach-child =
      set_node_ne linked_child parent child _ (λ e. apart (sym e)) ∙ set_node_self fs child _

  attach-next : (i : ℕ) → child ≢ i → ((attach fs parent child).node i).next ≡ (fs.node i).next
  unfolding attach
  attach-next i ne = elim (Bool-cases (parent == i)) [
    | inl e ↦
        subst (λ j. ((attach fs parent child).node j).next ≡ (fs.node j).next)
          ((==_iff parent i).0 e)
          (ap (λ (n : RamfsNode). n.next) attach-parent
            ∙ ap (λ (n : RamfsNode). n.next) (set_node_ne fs child parent _ apart))
    | inr other ↦
        ap (λ (n : RamfsNode). n.next)
          (set_node_ne linked_child parent i _ (ground (arith, other))
            ∙ set_node_ne fs child i _ ne)
  ]

-- attach makes a node that is not yet among them the first child of a directory, before the children
-- it had, and the directory its parent.
pub attach-Linked :
    (fs : Ramfs) (parent child : ℕ) (ids : List ℕ)
    → child ≢ 0
    → child ≢ parent
    → NotIn child ids
    → Linked fs ((fs.node parent).children) ids
    → Linked
        (attach fs parent child)
        (((attach fs parent child).node parent).children)
        (child ∷ ids)
      × (((attach fs parent child).node child).parent ≡ parent)
attach-Linked fs parent child ids real apart fresh l = (
  (
    ap (λ (n : RamfsNode). n.children) (attach-parent fs parent child apart),
    real,
    subst (λ k. Linked (attach fs parent child) k ids)
        (sym (ap (λ (n : RamfsNode). n.next) (attach-child fs parent child apart)))
        (Linked-frame fs (attach fs parent child) child ((fs.node parent).children) ids
          (attach-next fs parent child apart) fresh l),
  ),
  ap (λ (n : RamfsNode). n.parent) (attach-child fs parent child apart),
)

-- A node that is attached to a directory is what find_child finds there by the node's name.
pub find_child-attach :
    (fuel : ℕ) (fs : Ramfs) (parent child : ℕ) (ids : List ℕ)
    → child ≢ 0
    → child ≢ parent
    → NotIn child ids
    → Linked fs ((fs.node parent).children) ids
    → suc (length ids) < fuel
    → find_child fuel (attach fs parent child) parent ((fs.node child).name) ≡ some child
unfolding first_named
find_child-attach fuel fs parent child ids real apart fresh l h =
    let linked = (attach-Linked fs parent child ids real apart fresh l).0 in
    let e = ap (λ (n : RamfsNode). n.name) (attach-child fs parent child apart) in
    find_child_lem fuel (attach fs parent child) parent (child ∷ ids) ((fs.node child).name) linked
      h
    ∙ rw ((same_text_iff _ _).1 e) refl
