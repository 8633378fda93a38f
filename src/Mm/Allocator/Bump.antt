-- ===== src/Mm/Allocator/Bump.antt =====
-- An allocator that gives the pointers 1, 2, 3 and so on, for runs of the code that uses one.
use raptor_kernel.Prelude.{
  ℕ, ◌+◌, ◌≤◌, ◌≡◌, ◌≢◌, refl, sym, subst, ◌∙◌, inl, inr, Bool, true, false, Option, some, ◌==◌,
  if◌then◌else◌, arith, Bool-cases, ==_iff,
}
use raptor_kernel.Mm.Allocator.{Allocator}

-- The state is the number of pointers given out, and which of them are back.
abbrev pub Given : Type 0
Given = ℕ × (ℕ → Bool)

abbrev pub marked : (ℕ → Bool) → ℕ → Bool → ℕ → Bool
marked back p b q = if p == q then b else back q

abbrev pub Out : Given → ℕ → Type 0
Out s p = (p ≢ 0) × (p ≤ s.0) × (s.1 p ≡ false)

pub bump_fresh :
    (s : Given)
    → (Out s (s.0 + 1) → ⊥)
      × Out (s.0 + 1, marked s.1 (s.0 + 1) false) (s.0 + 1)
      × ((q : ℕ) → Out s q → Out (s.0 + 1, marked s.1 (s.0 + 1) false) q)
bump_fresh s = (
  (λ l. let h = l.1 in omega (arith, h)),
  ((λ z. omega (arith, z)), omega arith, rw ((==_iff (s.0 + 1) (s.0 + 1)).1 refl) refl),
  (λ q l.
      let h = l.1 in
      let e : (s.0 + 1 == q) ≡ false = ground (arith, h) in (l.0, omega (arith, h), rw e l.2)),
)

pub bump_live : (s : Given) (p : ℕ) → (q : ℕ) → Out s q → q ≢ p → Out (s.0, marked s.1 p true) q
bump_live s p q l ne = let e : (p == q) ≡ false = ground (arith, ne) in (l.0, l.1, rw e l.2)

bump_only : (s : Given) (p q : ℕ) → Out (s.0, marked s.1 p true) q → Out s q × (q ≢ p)
bump_only s p q l = elim (Bool-cases (p == q)) [
  | inl e ↦ absurd (clash (sym (rw e at l.2)))
  | inr e ↦ ((l.0, l.1, rw e at l.2), (λ z. ground (arith, e, z)))
]
  where
    clash : false ≡ true → ⊥
    clash h = cc

-- kfree of NULL does nothing.
abbrev pub bump_kfree : Given → ℕ → Option Given
bump_kfree s p = if p == 0 then some s else some (s.0, marked s.1 p true)

pub bump_freed : (s : Given) (p : ℕ) → p ≢ 0 → bump_kfree s p ≡ some (s.0, marked s.1 p true)
bump_freed s p real = let e : (p == 0) ≡ false = ground (arith, real) in rw e refl

pub bump_kfree-only :
    (s s' : Given) (p q : ℕ) → Out s p → bump_kfree s p ≡ some s' → Out s' q → Out s q × (q ≢ p)
bump_kfree-only s s' p q l e h =
    bump_only s p q (subst (λ t. Out t q) (injective (sym e ∙ bump_freed s p l.0)) h)
  where
    injective : {a b : Given} → some a ≡ some b → a ≡ b
    injective h = cc

abbrev pub nothing_given : Given
nothing_given = (0, (λ q. false))

abbrev pub bump : Allocator
bump = record {
  State = Given;
  kmalloc = λ s n. (s.0 + 1, (s.0 + 1, marked s.1 (s.0 + 1) false));
  kfree = bump_kfree;
  kheap_stats = λ s. record { total = 0; used = s.0; largest_free = 0 };
  Live = Out;
  Live-real = λ s p l. l.0;
  kmalloc-fresh = λ s n pos small real. bump_fresh s;
  kmalloc-null = λ s n pos small e. absurd (omega (arith, e));
  kfree-null = λ s. refl;
  kfree-live = λ s p l. ((s.0, marked s.1 p true), bump_freed s p l.0, bump_live s p);
  kfree-only = bump_kfree-only;
}
