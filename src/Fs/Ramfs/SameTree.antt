-- ===== src/Fs/Ramfs/SameTree.antt =====
-- Two states of fs/ramfs.c with the same tree: what a write to a file keeps.
use raptor_kernel.Prelude.{
  ℕ, ◌+◌, ◌≡◌, refl, ap, sym, subst, ◌∙◌, inl, inr, List, [], ◌∷◌, ◌==◌, if◌then◌else◌, length,
  arith, Bool-cases, ==_iff,
}
use raptor_kernel.Shell.{same_text}
use raptor_kernel.Fs.Ramfs.{RamfsNode, Ramfs}
use raptor_kernel.Fs.Ramfs.Siblings.{Linked, first_named}
use raptor_kernel.Fs.Ramfs.Resolve.{Descends}
use raptor_kernel.Fs.Ramfs.Written.{Written}

pub record SameTree (fs fs' : Ramfs) : Type 0 where
  pub root : fs'.root ≡ fs.root
  pub names : (i : ℕ) → (fs'.node i).name ≡ (fs.node i).name
  pub dirs : (i : ℕ) → (fs'.node i).is_dir ≡ (fs.node i).is_dir
  pub lists : (i : ℕ) → (fs'.node i).children ≡ (fs.node i).children
  pub nexts : (i : ℕ) → (fs'.node i).next ≡ (fs.node i).next

-- A field that a write leaves alone.
kept_field :
    {R : Type 0} (field : RamfsNode → R) (fs fs' : Ramfs) (f base : ℕ) (text : List ℕ) (b cap : ℕ)
    → Written fs fs' f base text b cap
    → field (record (fs.node f) { buffer = b; size = base + length text; capacity = cap })
      ≡ field (fs.node f)
    → (i : ℕ) → field (fs'.node i) ≡ field (fs.node i)
kept_field field fs fs' f base text b cap w same i = elim (Bool-cases (f == i)) [
  | inl e ↦
      subst (λ k. field (fs'.node k) ≡ field (fs.node k)) ((==_iff f i).0 e)
        (ap field w.node_now ∙ same)
  | inr e ↦ ap field (w.others i (λ z. absurd (ground (arith, e, z))))
]

pub Written-SameTree :
    (fs fs' : Ramfs) (f base : ℕ) (text : List ℕ) (b cap : ℕ)
    → Written fs fs' f base text b cap
    → SameTree fs fs'
Written-SameTree fs fs' f base text b cap w = record {
  root = w.root_same;
  names = kept_field (λ (n : RamfsNode). n.name) fs fs' f base text b cap w refl;
  dirs = kept_field (λ (n : RamfsNode). n.is_dir) fs fs' f base text b cap w refl;
  lists = kept_field (λ (n : RamfsNode). n.children) fs fs' f base text b cap w refl;
  nexts = kept_field (λ (n : RamfsNode). n.next) fs fs' f base text b cap w refl;
}

module _ (fs fs' : Ramfs) (same : SameTree fs fs') where
  Linked-same : (c : ℕ) (ids : List ℕ) → Linked fs c ids → Linked fs' c ids
  Linked-same c [] l = l
  Linked-same c (i ∷ ids) l = (
    l.0,
    l.1,
    subst (λ k. Linked fs' k ids) (sym (same.nexts i)) (Linked-same (fs.node i).next ids l.2),
  )

  first_named-same : (ids : List ℕ) (w : List ℕ) → first_named fs' ids w ≡ first_named fs ids w
  unfolding first_named
  first_named-same [] w = refl
  first_named-same (i ∷ ids) w =
      ap (λ n. if same_text n w then i else first_named fs' ids w) (same.names i)
      ∙ ap (λ k. if same_text (fs.node i).name w then i else k) (first_named-same ids w)

  pub Descends-same :
      (k d : ℕ) (ws : List (List ℕ)) (n : ℕ) → Descends fs k d ws n → Descends fs' k d ws n
  Descends-same k d [] n h = h
  Descends-same k d (w ∷ ws) n (name, dir, ids, linked, few, real, rest) =
      let e = first_named-same ids w in
      (
        name,
        same.dirs d ∙ dir,
        ids,
        subst (λ c. Linked fs' c ids) (sym (same.lists d))
            (Linked-same (fs.node d).children ids linked),
        few,
        (λ z. real (sym e ∙ z)),
        subst (λ c. Descends fs' k c ws n) (sym e)
            (Descends-same k (first_named fs ids w) ws n rest),
      )
