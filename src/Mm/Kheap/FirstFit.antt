-- ===== src/Mm/Kheap/FirstFit.antt =====
-- Laws of the abstract heap of mm/kheap.c: what allocation and release do to the list of blocks.
use raptor_kernel.Prelude.{
  ℕ, ◌+◌, ◌-◌, ◌≤◌, ◌≡◌, ◌⊎◌, refl, inl, inr, Bool, true, false, ◌&&◌, List, [], ◌∷◌, some, arith,
  ltb, ◌==◌, Bool-cases, ==_iff,
}
use raptor_kernel.Mm.Kheap.{header_size, min_split}
use raptor_kernel.Mm.Kheap.Cells.{Cell, cell, after, span, carve, fits, alloc_at, alloc, find_at}
use raptor_kernel.Mm.Kheap.Merge.{find_at-le}

abbrev pub head_free : List Cell → Bool
head_free [] = false
head_free (d ∷ ds) = d.free

-- No two neighbours are both free.
abbrev pub Coalesced : List Cell → Type 0
Coalesced [] = Unit {0}
Coalesced (c ∷ cs) = ((c.free && head_free cs) ≡ false) × Coalesced cs

-- No block can serve `n` bytes.
abbrev pub NoneFits : ℕ → List Cell → Type 0
NoneFits n [] = Unit {0}
NoneFits n (c ∷ cs) = (fits n c ≡ false) × NoneFits n cs

module _ (n : ℕ) where
  span-carve : (c : Cell) (cs : List Cell) → n ≤ c.size → span (carve n c cs) ≡ span (c ∷ cs)
  unfolding carve
  span-carve c cs h = ground arith

  -- Allocation keeps the bytes that the blocks take.
  pub span-alloc : (cs : List Cell) → span (alloc n cs) ≡ span cs
  unfolding alloc
  span-alloc [] = refl
  span-alloc (c ∷ cs) = ground (arith, span-alloc cs, span-carve c cs)

  carve-Coalesced :
      (c : Cell) (cs : List Cell) → c.free ≡ true → Coalesced (c ∷ cs) → Coalesced (carve n c cs)
  unfolding carve
  carve-Coalesced c cs free ok = elim (Bool-cases (ltb c.size (n + header_size + min_split))) [
    | inl whole ↦ rw whole (refl, ok.1)
    | inr large ↦ rw large (refl, (rw free at ok.0, ok.1))
  ]

  head_free-alloc :
      (b : Bool) (cs : List Cell)
      → (b && head_free cs) ≡ false
      → (b && head_free (alloc n cs)) ≡ false
  unfolding alloc carve
  head_free-alloc b [] h = h
  head_free-alloc b (c ∷ cs) h = ground arith

  pub alloc-Coalesced : (cs : List Cell) → Coalesced cs → Coalesced (alloc n cs)
  unfolding alloc
  alloc-Coalesced [] ok = tt
  alloc-Coalesced (c ∷ cs) ok = elim (Bool-cases (fits n c)) [
    | inl fit ↦ rw fit (carve-Coalesced c cs (ground arith) ok)
    | inr miss ↦ rw miss (head_free-alloc c.free cs ok.0, alloc-Coalesced cs ok.1)
  ]

  -- The allocator returns 0 exactly when no block fits.
  pub alloc_at-zero_iff :
      (a : ℕ) (cs : List Cell)
      → (NoneFits n cs → alloc_at n a cs ≡ 0) × (alloc_at n a cs ≡ 0 → NoneFits n cs)
  unfolding alloc_at
  alloc_at-zero_iff a [] = (λ h. refl, λ h. tt)
  alloc_at-zero_iff a (c ∷ cs) = elim (Bool-cases (fits n c)) [
    | inl fit ↦ rw fit (λ h. cc (h.0), λ h. absurd (omega arith))
    | inr miss ↦ rw miss (
      λ h. (alloc_at-zero_iff (after a c) cs).0 h.1,
      λ h. (refl, (alloc_at-zero_iff (after a c) cs).1 h),
    )
  ]

  find_at-carve :
      (a b : ℕ) (c : Cell) (cs : List Cell) (d : Cell)
      → n ≤ c.size
      → find_at (after a c) b cs ≡ some d
      → find_at a b (carve n c cs) ≡ some d
  unfolding find_at carve
  find_at-carve a b c cs d fit found =
      let far = find_at-le (after a c) b cs d found in
      elim (Bool-cases (ltb c.size (n + header_size + min_split))) [
        | inl whole ↦ rw whole (ground arith)
        | inr large ↦
            let e : a + header_size + n + header_size + (c.size - n - header_size) ≡ after a c =
              ground arith in
            let no1 : (a == b) ≡ false = ground arith in
            let no2 : (a + header_size + n == b) ≡ false = ground arith in
            rw (large, no1, no2, e) found
      ]

  -- Every block in use before an allocation is in use after it, at its address and of its size.
  pub find_at-alloc :
      (a b : ℕ) (cs : List Cell) (d : Cell)
      → find_at a b cs ≡ some d
      → d.free ≡ false
      → find_at a b (alloc n cs) ≡ some d
  unfolding find_at alloc
  find_at-alloc a b [] d found used = cc
  find_at-alloc a b (c ∷ cs) d found used = elim (Bool-cases (fits n c)) [
    | inl fit ↦
        let there : (a == b) ≡ false = ground arith in
        rw fit (find_at-carve a b c cs d (ground arith) (rw there at found))
    | inr miss ↦ rw miss (ground (arith, find_at-alloc (after a c) b cs d))
  ]

  -- The block at `b` was free and large enough; it is now in use, at most as large.
  pub record HandedOut (a b : ℕ) (cs : List Cell) : Type 0 where
    pub was : Cell
    pub now : Cell
    pub found : find_at a b cs ≡ some was
    pub fit : fits n was ≡ true
    pub taken : find_at a b (alloc n cs) ≡ some now
    pub used : now.free ≡ false
    pub large : n ≤ now.size
    pub not_larger : now.size ≤ was.size

  HandedOut-first :
      (a b : ℕ) (c : Cell) (cs : List Cell)
      → fits n c ≡ true
      → (a == b) ≡ true
      → HandedOut a b (c ∷ cs)
  unfolding find_at alloc carve
  HandedOut-first a b c cs fit here = elim (Bool-cases (ltb c.size (n + header_size + min_split))) [
    | inl whole ↦ record {
      was = c;
      now = cell c.size false;
      found = rw here;
      fit = fit;
      taken = rw (fit, whole, here);
      used = refl;
      large = ground arith;
      not_larger = omega arith;
    }
    | inr large ↦ record {
      was = c;
      now = cell n false;
      found = rw here;
      fit = fit;
      taken = rw (fit, large, here);
      used = refl;
      large = omega arith;
      not_larger = ground arith;
    }
  ]

  pub alloc_at-le : (a b : ℕ) (cs : List Cell) → alloc_at n a cs ≡ b + header_size → a ≤ b
  unfolding alloc_at
  alloc_at-le a b [] e = absurd (omega arith)
  alloc_at-le a b (c ∷ cs) e = ground (arith, alloc_at-le (after a c) b cs)

  pub alloc_at-HandedOut :
      (a b : ℕ) (cs : List Cell) → alloc_at n a cs ≡ b + header_size → HandedOut a b cs
  unfolding find_at alloc_at alloc
  alloc_at-HandedOut a b [] e = absurd (omega arith)
  alloc_at-HandedOut a b (c ∷ cs) e = elim (Bool-cases (fits n c)) [
    | inl fit ↦ HandedOut-first a b c cs fit (ground arith)
    | inr miss ↦
        let e' : alloc_at n (after a c) cs ≡ b + header_size = rw miss at e in
        let rest = alloc_at-HandedOut (after a c) b cs e' in
        let far : (a == b) ≡ false = ground (arith, alloc_at-le (after a c) b cs e') in
        record {
          was = rest.was;
          now = rest.now;
          found = rw far rest.found;
          fit = rest.fit;
          taken = rw (miss, far) rest.taken;
          used = rest.used;
          large = rest.large;
          not_larger = rest.not_larger;
        }
  ]

  find_at-uncarve :
      (a b : ℕ) (c : Cell) (cs : List Cell) (d : Cell)
      → n ≤ c.size
      → (a == b) ≡ false
      → find_at a b (carve n c cs) ≡ some d
      → d.free ≡ false
      → find_at (after a c) b cs ≡ some d
  unfolding find_at carve
  find_at-uncarve a b c cs d fit far found used =
      elim (Bool-cases (ltb c.size (n + header_size + min_split))) [
        | inl whole ↦ rw (whole, far) at found
        | inr large ↦
            let e : a + header_size + n + header_size + (c.size - n - header_size) ≡ after a c =
              ground arith in
            ground (arith, large, far, found, e)
      ]

  -- A block in use after an allocation is the one handed out, or was in use before.
  pub find_at-unalloc :
      (a b : ℕ) (cs : List Cell) (d : Cell)
      → find_at a b (alloc n cs) ≡ some d
      → d.free ≡ false
      → (alloc_at n a cs ≡ b + header_size) ⊎ (find_at a b cs ≡ some d)
  unfolding find_at alloc_at alloc
  find_at-unalloc a b [] d found used = cc
  find_at-unalloc a b (c ∷ cs) d found used = elim (Bool-cases (fits n c)) [
    | inl fit ↦ elim (Bool-cases (a == b)) [
      | inl here ↦ inl (rw fit (omega (arith, (==_iff a b).0 here)))
      | inr far ↦
          inr (rw far (find_at-uncarve a b c cs d (ground arith) far (rw fit at found) used))
    ]
    | inr miss ↦ ground (arith, find_at-unalloc (after a c) b cs d)
  ]
