-- ===== src/Fs/Ramfs/Made.antt =====
-- The tree of fs/ramfs.c after a node was attached: the old paths.
use raptor_kernel.Prelude.{
  ℕ, suc, ◌≤◌, ◌≡◌, ◌≢◌, refl, ap, sym, subst, ◌∙◌, inl, inr, Bool, true, false, List, [], ◌∷◌,
  ◌==◌, if◌then◌else◌, length, arith, Bool-cases, ==_iff,
}
use raptor_kernel.Shell.{same_text}
use raptor_kernel.Shell.Redirect.{same_text_iff}
use raptor_kernel.Fs.Ramfs.{RamfsNode, Ramfs, set_node, attach}
use raptor_kernel.Fs.Ramfs.Siblings.{
  Linked, NotIn, first_named, set_node_self, set_node_ne, Linked-frame,
}
use raptor_kernel.Fs.Ramfs.Resolve.{Descends}

-- What differs after a node `n` has become the first child of `d`.
pub record Made (fs fs' : Ramfs) (d n : ℕ) (w : List ℕ) (dir : Bool) : Type 0 where
  pub name_now : (fs'.node n).name ≡ w
  pub dir_now : (fs'.node n).is_dir ≡ dir
  pub behind : (fs'.node n).next ≡ (fs.node d).children
  pub first : (fs'.node d).children ≡ n
  pub root_same : fs'.root ≡ fs.root
  pub names : (i : ℕ) → n ≢ i → (fs'.node i).name ≡ (fs.node i).name
  pub dirs : (i : ℕ) → n ≢ i → (fs'.node i).is_dir ≡ (fs.node i).is_dir
  pub nexts : (i : ℕ) → n ≢ i → (fs'.node i).next ≡ (fs.node i).next
  pub lists : (i : ℕ) → n ≢ i → d ≢ i → (fs'.node i).children ≡ (fs.node i).children

module _ (fs : Ramfs) (d n : ℕ) (apart : n ≢ d) (x : RamfsNode) where
  abbrev pub fs1 : Ramfs
  fs1 = set_node fs n x

  abbrev fs2 : Ramfs
  fs2 = set_node fs1 n (record (fs1.node n) { parent = d; next = (fs1.node d).children })

  made_other : (i : ℕ) → n ≢ i → d ≢ i → (attach fs1 d n).node i ≡ fs.node i
  unfolding attach
  made_other i ne ne' =
      set_node_ne fs2 d i _ ne' ∙ set_node_ne fs1 n i _ ne ∙ set_node_ne fs n i x ne

  made_parent : (attach fs1 d n).node d ≡ record (fs.node d) { children = n }
  unfolding attach
  made_parent =
      set_node_self fs2 d _
      ∙ ap (λ (y : RamfsNode). record y { children = n })
          (set_node_ne fs1 n d _ apart ∙ set_node_ne fs n d x apart)

  pub made_child : (attach fs1 d n).node n ≡ record x { parent = d; next = (fs.node d).children }
  unfolding attach
  made_child =
      set_node_ne fs2 d n _ (λ e. apart (sym e))
      ∙ set_node_self fs1 n _
      ∙ ap (λ (y : RamfsNode). record y { parent = d; next = (fs1.node d).children })
          (set_node_self fs n x)
      ∙ ap (λ c. record x { parent = d; next = c })
          (ap (λ (y : RamfsNode). y.children) (set_node_ne fs n d x apart))

  -- A field that attaching does not set in the parent.
  made_same :
      {T : Type 0} (g : RamfsNode → T) (i : ℕ)
      → n ≢ i
      → g (record (fs.node d) { children = n }) ≡ g (fs.node d)
      → g ((attach fs1 d n).node i) ≡ g (fs.node i)
  made_same g i ne h = elim (Bool-cases (d == i)) [
    | inl e ↦
        subst (λ j. g ((attach fs1 d n).node j) ≡ g (fs.node j)) ((==_iff d i).0 e)
          (ap g made_parent ∙ h)
    | inr e ↦ ap g (made_other i ne (ground (arith, e)))
  ]

  pub attach-Made : Made fs (attach fs1 d n) d n x.name x.is_dir
  attach-Made = record {
    name_now = ap (λ (y : RamfsNode). y.name) made_child;
    dir_now = ap (λ (y : RamfsNode). y.is_dir) made_child;
    behind = ap (λ (y : RamfsNode). y.next) made_child;
    first = ap (λ (y : RamfsNode). y.children) made_parent;
    root_same = unfold attach in (unfold set_node in refl);
    names = λ i ne. made_same (λ y. y.name) i ne refl;
    dirs = λ i ne. made_same (λ y. y.is_dir) i ne refl;
    nexts = λ i ne. made_same (λ y. y.next) i ne refl;
    lists = λ i ne ne'. ap (λ (y : RamfsNode). y.children) (made_other i ne ne');
  }

abbrev pub Each : (ℕ → Type 0) → List ℕ → Type 0
Each P [] = Unit {0}
Each P (i ∷ ids) = P i × Each P ids

pub NotIn-Each : (P : ℕ → Type 0) (n : ℕ) (ids : List ℕ) → (P n → ⊥) → Each P ids → NotIn n ids
NotIn-Each P n [] fresh h = tt
NotIn-Each P n (i ∷ ids) fresh h =
    ((λ e. fresh (subst P (sym e) h.0)), NotIn-Each P n ids fresh h.1)

pub first_named-Each :
    (P : ℕ → Type 0) (fs : Ramfs) (ids : List ℕ) (v : List ℕ)
    → first_named fs ids v ≢ 0
    → Each P ids
    → P (first_named fs ids v)
unfolding first_named
first_named-Each P fs [] v real h = absurd (real refl)
first_named-Each P fs (i ∷ ids) v real h =
    pick (same_text (fs.node i).name v) real (λ r. first_named-Each P fs ids v r h.1)
  where
    pick :
        (b : Bool)
        → (if b then i else first_named fs ids v) ≢ 0
        → (first_named fs ids v ≢ 0 → P (first_named fs ids v))
        → P (if b then i else first_named fs ids v)
    pick true r rest = h.0
    pick false r rest = rest r

Linked-unique : (fs : Ramfs) (c : ℕ) (xs ys : List ℕ) → Linked fs c xs → Linked fs c ys → xs ≡ ys
Linked-unique fs c [] [] l l' = refl
Linked-unique fs c [] (y ∷ ys) l l' = absurd (l'.1 (sym l'.0 ∙ l))
Linked-unique fs c (x ∷ xs) [] l l' = absurd (l.1 (sym l.0 ∙ l'))
Linked-unique fs c (x ∷ xs) (y ∷ ys) l l' =
    let same : x ≡ y = sym l.0 ∙ l'.0 in
    ap (λ i. i ∷ xs) same
    ∙ ap (λ zs. y ∷ zs)
        (Linked-unique fs (fs.node y).next xs ys
          (subst (λ i. Linked fs (fs.node i).next xs) same l.2) l'.2)

first_named-Made :
    (fs fs' : Ramfs) (n : ℕ) (ids : List ℕ) (v : List ℕ)
    → ((i : ℕ) → n ≢ i → (fs'.node i).name ≡ (fs.node i).name)
    → NotIn n ids
    → first_named fs' ids v ≡ first_named fs ids v
unfolding first_named
first_named-Made fs fs' n [] v same h = refl
first_named-Made fs fs' n (i ∷ ids) v same h =
    let rest = first_named-Made fs fs' n ids v same h.1 in
    ap (λ name. if same_text name v then i else first_named fs' ids v) (same i h.0)
    ∙ ap (λ r. if same_text (fs.node i).name v then i else r) rest

module _ (fs fs' : Ramfs) (d n : ℕ) (w : List ℕ) (dir : Bool) (made : Made fs fs' d n w dir)
    (real_n : n ≢ 0) where
  pub grown-Linked :
      (es : List ℕ)
      → NotIn n es
      → Linked fs (fs.node d).children es
      → Linked fs' (fs'.node d).children (n ∷ es)
  grown-Linked es notin l = (
    made.first,
    real_n,
    subst (λ c. Linked fs' c es) (sym made.behind)
        (Linked-frame fs fs' n (fs.node d).children es made.nexts notin l),
  )

  -- The children of an old directory afterwards, and which of them a name means.
  abbrev Lists : (k e : ℕ) → (v : List ℕ) → (c : ℕ) → Type 0
  Lists k e v c =
      (es : List ℕ) × Linked fs' (fs'.node e).children es
      × (length es ≤ suc k)
      × (first_named fs' es v ≡ c)

  grown-Lists :
      (k e : ℕ) (v : List ℕ) (es ids : List ℕ)
      → n ≢ e
      → NotIn n es
      → Linked fs (fs.node e).children es
      → length es ≤ k
      → first_named fs es v ≢ 0
      → Linked fs (fs.node d).children ids
      → first_named fs ids w ≡ 0
      → Lists k e v (first_named fs es v)
  unfolding first_named
  grown-Lists k e v es ids apart notin l few real lids unused = elim (Bool-cases (d == e)) [
    | inr other ↦ (
      es,
      subst (λ c. Linked fs' c es) (sym (made.lists e apart (ground (arith, other))))
          (Linked-frame fs fs' n (fs.node e).children es made.nexts notin l),
      omega (arith, few),
      first_named-Made fs fs' n es v made.names notin,
    )
    | inl same ↦
        let de : d ≡ e = (==_iff d e).0 same in
        let ld : Linked fs (fs.node d).children es =
          subst (λ x. Linked fs (fs.node x).children es) (sym de) l in
        let eq : es ≡ ids = Linked-unique fs (fs.node d).children es ids ld lids in
        (
          n ∷ es,
          subst (λ x. Linked fs' (fs'.node x).children (n ∷ es)) de (grown-Linked es notin ld),
          omega (arith, few),
          elim (Bool-cases (same_text (fs'.node n).name v)) [
            | inr differs ↦ rw differs (first_named-Made fs fs' n es v made.names notin)
            | inl hit ↦
                let wv : w ≡ v = sym made.name_now ∙ (same_text_iff (fs'.node n).name v).0 hit in
                absurd (
                  real
                    (ap (λ x. first_named fs x v) eq ∙ ap (first_named fs ids) (sym wv) ∙ unused))
          ],
        )
  ]

  -- Old paths still lead where they led.
  pub Descends-Made :
      (P : ℕ → Type 0) (ids : List ℕ) (k : ℕ)
      → (P n → ⊥)
      → ((e : ℕ) (es : List ℕ) → P e → Linked fs (fs.node e).children es → Each P es)
      → Linked fs (fs.node d).children ids
      → first_named fs ids w ≡ 0
      → (e : ℕ) (vs : List (List ℕ)) (m : ℕ) → P e
      → Descends fs k e vs m
      → Descends fs' (suc k) e vs m
  Descends-Made P ids k fresh held lids unused e [] m live h = h
  Descends-Made P ids k fresh held lids unused e (v ∷ vs) m live
        (name, is_directory, es, l, few, real, rest) =
      let apart : n ≢ e = (λ z. fresh (subst P (sym z) live)) in
      let lives = held e es live l in
      let c = first_named fs es v in
      let more =
        Descends-Made P ids k fresh held lids unused c vs m (first_named-Each P fs es v real lives)
          rest in
      let (es', l', few', now) =
        grown-Lists k e v es ids apart (NotIn-Each P n es fresh lives) l few real lids unused in
      (
        name,
        made.dirs e apart ∙ is_directory,
        es',
        l',
        few',
        (λ z. real (sym now ∙ z)),
        subst (λ x. Descends fs' (suc k) x vs m) (sym now) more,
      )

pub Descends-end :
    (P : ℕ → Type 0) (fs : Ramfs) (k e : ℕ) (vs : List (List ℕ)) (m : ℕ)
    → ((e : ℕ) (es : List ℕ) → P e → Linked fs (fs.node e).children es → Each P es)
    → P e
    → Descends fs k e vs m
    → P m
Descends-end P fs k e [] m held live h = subst P h live
Descends-end P fs k e (v ∷ vs) m held live (name, dir, es, l, few, real, rest) =
    Descends-end P fs k (first_named fs es v) vs m held
      (first_named-Each P fs es v real (held e es live l)) rest
