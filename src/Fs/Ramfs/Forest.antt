-- ===== src/Fs/Ramfs/Forest.antt =====
-- The nodes of fs/ramfs.c below a directory as a forest: each node with its children and with the
-- siblings behind it.
use raptor_kernel.Prelude.{
  ℕ, suc, ◌+◌, ◌<◌, ◌≡◌, ◌≢◌, arith, true, false, ==_iff, refl, ap, sym, subst, ◌∙◌, inl, inr, List,
  [], ◌∷◌, ◌++◌, ◌⊎◌, ◌==◌, if◌then◌else◌, max,
}
use raptor_kernel.Fs.Ramfs.{Ramfs}

pub data Forest : Type 0 where
  leaf : Forest
  branch : (n : ℕ) → (kids rest : Forest) → Forest

-- The links from `c` on spell the forest.
abbrev pub Spells : Ramfs → (c : ℕ) → Forest → Type 0
Spells fs c leaf = c ≡ 0
Spells fs c (branch n kids rest) =
    (c ≡ n) × (n ≢ 0) × Spells fs (fs.node n).children kids × Spells fs (fs.node n).next rest

-- `x` is none of the nodes.
abbrev pub Out : ℕ → Forest → Type 0
Out x leaf = Unit {0}
Out x (branch n kids rest) = (x ≢ n) × Out x kids × Out x rest

-- `x` is one of the nodes.
abbrev pub In : ℕ → Forest → Type 0
In x leaf = ⊥
In x (branch n kids rest) = (x ≡ n) ⊎ (In x kids ⊎ In x rest)

pub Out-In : (x i : ℕ) (f : Forest) → Out x f → In i f → x ≢ i
Out-In x i leaf o h = absurd h
Out-In x i (branch n kids rest) o (inl e) = λ z. o.0 (z ∙ e)
Out-In x i (branch n kids rest) o (inr (inl h)) = Out-In x i kids o.1 h
Out-In x i (branch n kids rest) o (inr (inr h)) = Out-In x i rest o.2 h

-- No node of the first forest is in the second.
abbrev pub Apart : Forest → Forest → Type 0
Apart leaf g = Unit {0}
Apart (branch n kids rest) g = Out n g × Apart kids g × Apart rest g

-- Each node stands in one place.
abbrev pub Simple : Forest → Type 0
Simple leaf = Unit {0}
Simple (branch n kids rest) = Out n kids × Out n rest × Apart kids rest × Simple kids × Simple rest

-- How deep free_tree and its loop go.
abbrev pub height : Forest → ℕ
height leaf = 0
height (branch n kids rest) = suc (max (suc (height kids)) (height rest))

-- The pointers to free, in the order in which free_tree frees them: of each node its children, its
-- buffer and itself.
unfoldable pub pointers : Ramfs → Forest → List ℕ
pointers fs leaf = []
pointers fs (branch n kids rest) = pointers fs kids ++ ((fs.node n).buffer ∷ n ∷ pointers fs rest)

-- The forest without the tree of `n`, which is one of the outermost nodes.
abbrev pub without : ℕ → Forest → Forest
without n leaf = leaf
without n (branch m kids rest) = if m == n then rest else branch m kids (without n rest)

-- `x` is none of the outermost nodes.
abbrev pub Inside : ℕ → Forest → Type 0
Inside x leaf = Unit {0}
Inside x (branch n kids rest) = (x ≢ n) × Inside x rest

pub Inside-Out : (x : ℕ) (f : Forest) → Out x f → Inside x f
Inside-Out x leaf o = tt
Inside-Out x (branch n kids rest) o = (o.0, Inside-Out x rest o.2)

-- `n` is one of the outermost nodes, with the forest below it.
abbrev pub Top : ℕ → Forest → (below : Forest) → Type 0
Top n leaf below = ⊥
Top n (branch m kids rest) below = ((m ≡ n) × (kids ≡ below)) ⊎ ((m ≢ n) × Top n rest below)

pub Out-Apart : (i : ℕ) (f g : Forest) → Apart f g → In i f → Out i g
Out-Apart i leaf g a h = absurd h
Out-Apart i (branch n kids rest) g a (inl e) = subst (λ x. Out x g) (sym e) a.0
Out-Apart i (branch n kids rest) g a (inr (inl h)) = Out-Apart i kids g a.1 h
Out-Apart i (branch n kids rest) g a (inr (inr h)) = Out-Apart i rest g a.2 h

pub Spells-frame :
    (fs fs' : Ramfs) (c : ℕ) (f : Forest)
    → ((i : ℕ) → In i f → (fs'.node i).children ≡ (fs.node i).children)
    → ((i : ℕ) → In i f → (fs'.node i).next ≡ (fs.node i).next)
    → Spells fs c f
    → Spells fs' c f
Spells-frame fs fs' c leaf lists nexts h = h
Spells-frame fs fs' c (branch n kids rest) lists nexts (e, real, k, r) = (
  e,
  real,
  subst (λ x. Spells fs' x kids) (sym (lists n (inl refl)))
      (Spells-frame fs fs' (fs.node n).children kids (λ i o. lists i (inr (inl o)))
        (λ i o. nexts i (inr (inl o))) k),
  subst (λ x. Spells fs' x rest) (sym (nexts n (inl refl)))
      (Spells-frame fs fs' (fs.node n).next rest (λ i o. lists i (inr (inr o)))
        (λ i o. nexts i (inr (inr o))) r),
)

pub Top-In : (n : ℕ) (f below : Forest) → Top n f below → In n f
Top-In n leaf below t = absurd t
Top-In n (branch m kids rest) below (inl (e, k)) = inl (sym e)
Top-In n (branch m kids rest) below (inr (ne, t)) = inr (inr (Top-In n rest below t))

pub In-below : (n i : ℕ) (f below : Forest) → Top n f below → In i below → In i f
In-below n i leaf below t h = absurd t
In-below n i (branch m kids rest) below (inl (e, k)) h = inr (inl (subst (In i) (sym k) h))
In-below n i (branch m kids rest) below (inr (ne, t)) h = inr (inr (In-below n i rest below t h))

-- What stands below an outermost node is no outermost node.
pub Inside-below :
    (n i : ℕ) (f below : Forest) → Simple f → Top n f below → In i below → (i ≢ n) × Inside i f
Inside-below n i leaf below simple t h = absurd t
Inside-below n i (branch m kids rest) below simple (inl (e, k)) h =
    let j : In i kids = subst (In i) (sym k) h in
    let ne : i ≢ m = (λ z. Out-In m i kids simple.0 j (sym z)) in
    ((λ z. ne (z ∙ sym e)), (ne, Inside-Out i rest (Out-Apart i kids rest simple.2 j)))
Inside-below n i (branch m kids rest) below simple (inr (ne, t)) h =
    let (off, inside) = Inside-below n i rest below simple.4 t h in
    (off, ((λ z. Out-In m i rest simple.1 (In-below n i rest below t h) (sym z)), inside))

pub Spells-below :
    (fs : Ramfs) (c n : ℕ) (f below : Forest)
    → Spells fs c f
    → Top n f below
    → Spells fs (fs.node n).children below
Spells-below fs c n leaf below h t = absurd t
Spells-below fs c n (branch m kids rest) below h (inl (e, k)) =
    subst (λ x. Spells fs (fs.node x).children below) e
      (subst (Spells fs (fs.node m).children) k h.2)
Spells-below fs c n (branch m kids rest) below h (inr (ne, t)) =
    Spells-below fs (fs.node m).next n rest below h.3 t

pub In-real : (fs : Ramfs) (c i : ℕ) (f : Forest) → Spells fs c f → In i f → i ≢ 0
In-real fs c i leaf h j = absurd j
In-real fs c i (branch n kids rest) h (inl e) = λ z. h.1 (sym e ∙ z)
In-real fs c i (branch n kids rest) h (inr (inl j)) = In-real fs (fs.node n).children i kids h.2 j
In-real fs c i (branch n kids rest) h (inr (inr j)) = In-real fs (fs.node n).next i rest h.3 j

pub In-without :
    (n i : ℕ) (f below : Forest) → Simple f → Top n f below → In i (without n f) → In i f × (i ≢ n)
In-without n i leaf below simple t j = absurd t
In-without n i (branch m kids rest) below simple (inl (e, k)) j =
    let hit : (m == n) ≡ true = (==_iff m n).1 e in
    let j' : In i rest = rw hit at j in (inr (inr j'), λ z. Out-In m i rest simple.1 j' (e ∙ sym z))
In-without n i (branch m kids rest) below simple (inr (ne, t)) j =
    let miss : (m == n) ≡ false = ground (arith, ne) in
    kept (rw miss at j) (λ h. In-without n i rest below simple.4 t h)
  where
    apart : In i kids → i ≢ n
    apart h z =
        Out-In n n rest (subst (λ x. Out x rest) z (Out-Apart i kids rest simple.2 h))
          (Top-In n rest below t) refl

    kept :
        In i (branch m kids (without n rest))
        → (In i (without n rest) → In i rest × (i ≢ n))
        → In i (branch m kids rest) × (i ≢ n)
    kept (inl e) r = (inl e, λ z. ne (sym e ∙ z))
    kept (inr (inl h)) r = (inr (inl h), apart h)
    kept (inr (inr h)) r = (inr (inr (r h).0), (r h).1)

pub height-below : (n : ℕ) (f below : Forest) → Top n f below → height below + 1 < height f
height-below n leaf below t = absurd t
height-below n (branch m kids rest) below (inl (e, k)) = let h = ap height k in omega (arith, h)
height-below n (branch m kids rest) below (inr (ne, t)) =
    let h = height-below n rest below t in omega (arith, h)

pub pointers-same :
    (fs fs' : Ramfs) (f : Forest)
    → ((i : ℕ) → (fs'.node i).buffer ≡ (fs.node i).buffer)
    → pointers fs' f ≡ pointers fs f
unfolding pointers
pointers-same fs fs' leaf same = refl
pointers-same fs fs' (branch n kids rest) same =
    ap (λ ps. ps ++ ((fs'.node n).buffer ∷ n ∷ pointers fs' rest)) (pointers-same fs fs' kids same)
    ∙ ap (λ b. pointers fs kids ++ (b ∷ n ∷ pointers fs' rest)) (same n)
    ∙ ap (λ qs. pointers fs kids ++ ((fs.node n).buffer ∷ n ∷ qs)) (pointers-same fs fs' rest same)

pub Out-null : (fs : Ramfs) (c : ℕ) (f : Forest) → Spells fs c f → Out 0 f
Out-null fs c leaf h = tt
Out-null fs c (branch n kids rest) h = (
  (λ z. h.1 (sym z)),
  Out-null fs (fs.node n).children kids h.2,
  Out-null fs (fs.node n).next rest h.3,
)
