-- ===== src/Fs/Ramfs/Freed.antt =====
-- free_tree of fs/ramfs.c: what it frees.
use raptor_kernel.Prelude.{
  ℕ, zero, suc, ◌<◌, ◌≡◌, ◌≢◌, ◌⊎◌, refl, ap, sym, ◌∙◌, inl, inr, false, Option, none, some, List,
  [], ◌∷◌, ◌++◌, ◌==◌, arith,
}
use raptor_kernel.Mm.Allocator.{Allocator}
use raptor_kernel.Fs.Ramfs.{Ramfs}
use raptor_kernel.Fs.Ramfs.Siblings.{NotIn}
use raptor_kernel.Fs.Ramfs.Files.{free_tree, free_children}
use raptor_kernel.Fs.Ramfs.Forest.{Forest, leaf, branch, Spells, height, pointers}

module _ (A : Allocator) where
  -- kfree of each pointer in turn.
  unfoldable pub kfree_all : A.State → List ℕ → Option A.State
  kfree_all s [] = some s
  kfree_all s (p ∷ ps) = elim (A.kfree s p) [ none ↦ none | some s1 ↦ kfree_all s1 ps ]

  abbrev bind : Option A.State → (A.State → Option A.State) → Option A.State
  bind o f = elim o as (λ x. Option A.State) [ none ↦ none | some s ↦ f s ]

  bind_same :
      (o : Option A.State) (f g : A.State → Option A.State)
      → ((s : A.State) → f s ≡ g s)
      → bind o f ≡ bind o g
  bind_same none f g h = refl
  bind_same (some s) f g h = h s

  bind_assoc :
      (o : Option A.State) (f g : A.State → Option A.State)
      → bind (bind o f) g ≡ bind o (λ s. bind (f s) g)
  bind_assoc none f g = refl
  bind_assoc (some s) f g = refl

  kfree_all-append :
      (s : A.State) (ps qs : List ℕ)
      → kfree_all s (ps ++ qs) ≡ bind (kfree_all s ps) (λ s1. kfree_all s1 qs)
  unfolding kfree_all
  kfree_all-append s [] qs = refl
  kfree_all-append s (p ∷ ps) qs =
      bind_same (A.kfree s p) (λ s1. kfree_all s1 (ps ++ qs))
        (λ s1. bind (kfree_all s1 ps) (λ s2. kfree_all s2 qs)) (λ s1. kfree_all-append s1 ps qs)
      ∙ sym (bind_assoc (A.kfree s p) (λ s1. kfree_all s1 ps) (λ s2. kfree_all s2 qs))

  free-node :
      (fuel : ℕ) (fs : Ramfs) (s : A.State) (n : ℕ) (ps qs : List ℕ)
      → n ≢ 0
      → ((s1 : A.State) → free_children A fuel fs s1 (fs.node n).children ≡ kfree_all s1 ps)
      → ((s1 : A.State) → free_children A (suc fuel) fs s1 (fs.node n).next ≡ kfree_all s1 qs)
      → free_children A (suc (suc fuel)) fs s n ≡ kfree_all s (ps ++ ((fs.node n).buffer ∷ n ∷ qs))
  unfolding free_tree kfree_all
  free-node fuel fs s n ps qs real hk hr =
      let e : (n == 0) ≡ false = ground (arith, real) in
      let b = (fs.node n).buffer in
      let both : A.State → Option A.State = (λ s1. bind (A.kfree s1 b) (λ s2. A.kfree s2 n)) in
      let later : A.State → Option A.State =
        (λ s1. free_children A (suc fuel) fs s1 (fs.node n).next) in
      rw e (
        ap (λ o. bind (bind o both) later) (hk s)
        ∙ bind_assoc (kfree_all s ps) both later
        ∙ bind_same (kfree_all s ps) (λ s1. bind (both s1) later) (λ s1. kfree_all s1 (b ∷ n ∷ qs))
            (λ s1.
              bind_assoc (A.kfree s1 b) (λ s2. A.kfree s2 n) later
              ∙ bind_same (A.kfree s1 b) (λ s2. bind (A.kfree s2 n) later)
                  (λ s2. bind (A.kfree s2 n) (λ s3. kfree_all s3 qs))
                  (λ s2. bind_same (A.kfree s2 n) later (λ s3. kfree_all s3 qs) hr))
        ∙ sym (kfree_all-append s ps (b ∷ n ∷ qs)))

  -- The loop of free_tree on siblings frees, of each of them, what stands below it, its buffer and
  -- itself, in this order, and nothing else.
  pub free_children-all :
      (fuel : ℕ) (fs : Ramfs) (s : A.State) (c : ℕ) (f : Forest)
      → Spells fs c f
      → height f < fuel
      → free_children A fuel fs s c ≡ kfree_all s (pointers fs f)
  unfolding pointers
  free_children-all zero fs s c f h deep = absurd (omega arith)
  free_children-all (suc fuel) fs s c leaf h deep =
      unfold free_tree in (unfold kfree_all in rw h refl)
  free_children-all (suc zero) fs s c (branch n kids rest) h deep = absurd (omega arith)
  free_children-all (suc (suc fuel)) fs s c (branch n kids rest) h deep =
      ap (free_children A (suc (suc fuel)) fs s) h.0
      ∙ free-node fuel fs s n (pointers fs kids) (pointers fs rest) h.1
          (λ s1. free_children-all fuel fs s1 (fs.node n).children kids h.2 (omega arith))
          (λ s1. free_children-all (suc fuel) fs s1 (fs.node n).next rest h.3 (omega arith))

  bind-some : (o : Option A.State) → o ≡ bind o some
  bind-some none = refl
  bind-some (some s) = refl

  pub free_tree-all :
      (fuel : ℕ) (fs : Ramfs) (s : A.State) (n : ℕ) (below : Forest)
      → Spells fs (fs.node n).children below
      → height below < fuel
      → free_tree A (suc fuel) fs s n ≡ kfree_all s (pointers fs (branch n below leaf))
  unfolding free_tree pointers kfree_all
  free_tree-all fuel fs s n below h deep =
      let b = (fs.node n).buffer in
      let both : A.State → Option A.State = (λ s1. bind (A.kfree s1 b) (λ s2. A.kfree s2 n)) in
      ap (λ o. bind o both) (free_children-all fuel fs s (fs.node n).children below h deep)
      ∙ bind_same (kfree_all s (pointers fs below)) both (λ s1. kfree_all s1 (b ∷ n ∷ []))
          (λ s1.
            bind_same (A.kfree s1 b) (λ s2. A.kfree s2 n) (λ s2. kfree_all s2 (n ∷ []))
              (λ s2. bind-some (A.kfree s2 n)))
      ∙ sym (kfree_all-append s (pointers fs below) (b ∷ n ∷ []))

  -- Each pointer is NULL, or in use and none of those behind it.
  abbrev pub Freeable : A.State → List ℕ → Type 0
  Freeable s [] = Unit {0}
  Freeable s (p ∷ ps) = ((p ≡ 0) ⊎ (A.Live s p × NotIn p ps)) × Freeable s ps

  Freeable-kept :
      (s s1 : A.State) (p : ℕ) (ps : List ℕ)
      → NotIn p ps
      → ((q : ℕ) → A.Live s q → q ≢ p → A.Live s1 q)
      → Freeable s ps
      → Freeable s1 ps
  Freeable-kept s s1 p [] out kept h = tt
  Freeable-kept s s1 p (q ∷ ps) out kept (inl z, h) = (inl z, Freeable-kept s s1 p ps out.1 kept h)
  Freeable-kept s s1 p (q ∷ ps) out kept (inr (l, o), h) =
      (inr (kept q l (λ e. out.0 (sym e)), o), Freeable-kept s s1 p ps out.1 kept h)

  -- What freeing pointers leaves: what else was in use, and none of them.
  pub record FreedAll (s s' : A.State) (ps : List ℕ) : Type 0 where
    pub kept : (q : ℕ) → A.Live s q → NotIn q ps → A.Live s' q
    pub only : (q : ℕ) → A.Live s' q → A.Live s q × NotIn q ps

  pub kfree_all-Freeable :
      (s : A.State) (ps : List ℕ)
      → Freeable s ps
      → (s' : A.State) × (kfree_all s ps ≡ some s') × FreedAll s s' ps
  unfolding kfree_all
  kfree_all-Freeable s [] h = (s, refl, record { kept = λ q l o. l; only = λ q l. (l, tt) })
  kfree_all-Freeable s (p ∷ ps) (inl z, h) =
      let (s', e, f) = kfree_all-Freeable s ps h in
      (
        s',
        ap (λ o. bind o (λ s1. kfree_all s1 ps)) (ap (A.kfree s) z ∙ A.kfree-null s) ∙ e,
        record {
          kept = λ q l o. f.kept q l o.1;
          only = λ q l.
              ((f.only q l).0, ((λ e. A.Live-real s q (f.only q l).0 (e ∙ z)), (f.only q l).1));
        },
      )
  kfree_all-Freeable s (p ∷ ps) (inr (l, out), h) =
      let (s1, e1, kept) = A.kfree-live s p l in
      let (s', e, f) = kfree_all-Freeable s1 ps (Freeable-kept s s1 p ps out kept h) in
      (
        s',
        ap (λ o. bind o (λ s1. kfree_all s1 ps)) e1 ∙ e,
        record {
          kept = λ q m o. f.kept q (kept q m o.0) o.1;
          only = λ q m.
              let (old, ne) = A.kfree-only s s1 p q l e1 (f.only q m).0 in
              (old, (ne, (f.only q m).1));
        },
      )
