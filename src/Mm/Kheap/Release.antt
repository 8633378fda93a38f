-- ===== src/Mm/Kheap/Release.antt =====
-- kfree against `release` on the list of blocks.
use raptor_kernel.Prelude.{
  ℕ, ◌+◌, ◌<◌, ◌≤◌, ◌^◌, ◌≡◌, ◌≢◌, refl, ap, subst₂, sym, ◌∙◌, inl, inr, true, false, ◌&&◌, List,
  [], ◌∷◌, some, arith, ◌==◌, Bool-cases, ==_iff,
}
use raptor_kernel.Words.{sub32}
use raptor_kernel.Mm.Outcome.{ok, panic, double_free}
use raptor_kernel.Mm.Kheap.{
  Block, Memory, null, set_free, merge_next, merge_prev, set_prev, write, kfree, header_size,
  block_magic,
}
use raptor_kernel.Mm.Kheap.Cells.{Cell, cell, after, span, find_at, coalesce, release}
use raptor_kernel.Mm.Kheap.Chain.{Chain}
use raptor_kernel.Mm.Kheap.Merge.{
  mark_at, merge_at, pred_at, find_at-le, Chain-find_at, Chain-merge_at, Chain-mark_at,
}

-- The blocks once `b` is free and joined to its successor.
abbrev forward : ℕ → ℕ → List Cell → List Cell
forward a b cs = merge_at a b (mark_at a b cs)

module _ (b : ℕ) where
  span-mark_at : (a : ℕ) (cs : List Cell) → span (mark_at a b cs) ≡ span cs
  unfolding mark_at
  span-mark_at a [] = refl
  span-mark_at a (c ∷ cs) = ground (arith, span-mark_at (after a c) cs)

  span-coalesce : (c : Cell) (cs : List Cell) → span (coalesce c cs) ≡ span (c ∷ cs)
  unfolding coalesce
  span-coalesce c [] = refl
  span-coalesce c (d ∷ ds) = ground arith

  span-merge_at : (a : ℕ) (cs : List Cell) → span (merge_at a b cs) ≡ span cs
  unfolding merge_at
  span-merge_at a [] = refl
  span-merge_at a (c ∷ cs) = ground (arith, span-merge_at (after a c) cs, span-coalesce c cs)

  find_at-mark_at :
      (a : ℕ) (cs : List Cell) (d : Cell)
      → find_at a b cs ≡ some d
      → find_at a b (mark_at a b cs) ≡ some (cell d.size true)
  unfolding find_at mark_at
  find_at-mark_at a [] d found = cc
  find_at-mark_at a (c ∷ cs) d found = elim (Bool-cases (a == b)) [
    | inl here ↦ ground arith
    | inr there ↦ rw (there, there) (find_at-mark_at (after a c) cs d (rw there at found))
  ]

  find_at-coalesce :
      (a : ℕ) (c : Cell) (cs : List Cell)
      → (a == b) ≡ true
      → (d : Cell) × (find_at a b (coalesce c cs) ≡ some d) × (d.free ≡ c.free)
  unfolding find_at coalesce
  find_at-coalesce a c [] here = (c, rw here, refl)
  find_at-coalesce a c (d ∷ ds) here = elim (Bool-cases (c.free && d.free)) [
    | inl both ↦ (cell (c.size + header_size + d.size) true, rw both (rw here), ground arith)
    | inr busy ↦ (c, rw busy (rw here), refl)
  ]

  find_at-merge_at :
      (a : ℕ) (cs : List Cell) (d : Cell)
      → find_at a b cs ≡ some d
      → (d' : Cell) × (find_at a b (merge_at a b cs) ≡ some d') × (d'.free ≡ d.free)
  unfolding find_at merge_at
  find_at-merge_at a [] d found = cc
  find_at-merge_at a (c ∷ cs) d found = elim (Bool-cases (a == b)) [
    | inl here ↦
        let e : c ≡ d = ground arith in
        let (d', f, g) = find_at-coalesce a c cs here in
        (d', rw here f, g ∙ ap (λ (x : Cell). x.free) e)
    | inr there ↦
        let (d', f, g) = find_at-merge_at (after a c) cs d (rw there at found) in
        (d', rw there (rw there f), g)
  ]

  pred_at-coalesce :
      (prev a : ℕ) (c : Cell) (cs : List Cell)
      → (a == b) ≡ true
      → pred_at prev a b (coalesce c cs) ≡ prev
  unfolding pred_at coalesce
  pred_at-coalesce prev a c [] here = rw here
  pred_at-coalesce prev a c (d ∷ ds) here = ground arith

  -- Where `b` is the first block nothing is left to join; otherwise its predecessor is in the list.
  pred_at-first :
      (prev a : ℕ) (cs : List Cell)
      → (a == b) ≡ true
      → (pred_at prev a b (forward a b cs) ≡ prev) × (release a b cs ≡ forward a b cs)
  unfolding release mark_at merge_at
  pred_at-first prev a [] here = (unfold pred_at in refl, refl)
  pred_at-first prev a (c ∷ cs) here =
      rw (here, here) (pred_at-coalesce prev a (cell c.size true) cs here, refl)

  -- What release does where `b` is not the first block: its predecessor `q` is in the list, and
  -- is joined to it.
  record Joins (prev a : ℕ) (cs : List Cell) : Type 0 where
    q : ℕ
    is_pred : pred_at prev a b (forward a b cs) ≡ q
    behind : a ≤ q
    before : q < b
    e : Cell
    present : find_at a q (forward a b cs) ≡ some e
    release_lem : release a b cs ≡ merge_at a q (forward a b cs)

  module _ (prev a : ℕ) (c : Cell) (cs : List Cell) (there : (a == b) ≡ false) where
    forward-skip : forward a b (c ∷ cs) ≡ c ∷ forward (after a c) b cs
    unfolding mark_at merge_at
    forward-skip = rw (there, there)

    pred_at-skip :
        pred_at prev a b (forward a b (c ∷ cs)) ≡ pred_at a (after a c) b (forward (after a c) b cs)
    unfolding pred_at
    pred_at-skip = rw (forward-skip, there)

    Joins-next : (after a c == b) ≡ true → Joins prev a (c ∷ cs)
    unfolding release find_at merge_at
    Joins-next next =
        let (p, r) = pred_at-first a (after a c) cs next in
        let self : (a == a) ≡ true = ground arith in
        record {
          q = a;
          is_pred = pred_at-skip ∙ p;
          behind = omega arith;
          before = omega (arith, (==_iff (after a c) b).0 next);
          e = c;
          present = rw (forward-skip, self);
          release_lem = rw (forward-skip, self, there, next, r);
        }

    Joins-later : (after a c == b) ≡ false → Joins a (after a c) cs → Joins prev a (c ∷ cs)
    unfolding release find_at merge_at
    Joins-later later j =
        let far : (a == j.q) ≡ false = ground (arith, j.behind) in
        record {
          q = j.q;
          is_pred = pred_at-skip ∙ j.is_pred;
          behind = omega (arith, j.behind);
          before = j.before;
          e = j.e;
          present = rw (forward-skip, far) j.present;
          release_lem = rw (forward-skip, far, there, later, j.release_lem);
        }

  Joins-found :
      (prev a : ℕ) (cs : List Cell) (d : Cell)
      → find_at a b cs ≡ some d
      → (a == b) ≡ false
      → Joins prev a cs
  unfolding find_at
  Joins-found prev a [] d found there = cc
  Joins-found prev a (c ∷ cs) d found there = elim (Bool-cases (after a c == b)) [
    | inl next ↦ Joins-next prev a c cs there next
    | inr later ↦
        Joins-later prev a c cs there later
          (Joins-found a (after a c) cs d (rw there at found) later)
  ]

-- What kfree leaves of memory, once its checks have passed.
abbrev freed : Memory → ℕ → Memory
freed m b = merge_next (set_free m b true) b

-- A block that is found ends within the list's bytes.
pub find_at-end :
    (a b : ℕ) (cs : List Cell) (d : Cell)
    → find_at a b cs ≡ some d
    → b + header_size + d.size ≤ a + span cs
unfolding find_at
find_at-end a b [] d found = cc
find_at-end a b (c ∷ cs) d found = ground (arith, find_at-end (after a c) b cs d)

merge_prev-first : (m : Memory) (b : ℕ) → (m b).prev ≡ null → merge_prev m b ≡ m
unfolding merge_prev
merge_prev-first m b e = rw e

merge_prev-later : (m : Memory) (b q : ℕ) → (m b).prev ≡ q → 0 < q → merge_prev m b ≡ merge_next m q
unfolding merge_prev merge_next
merge_prev-later m b q e pos =
    let real : (q == null) ≡ false = ground arith in rw (e, real) (ground arith)

-- merge_next changes neither flag nor magic of another block.
merge_next-other :
    (m : Memory) (q x : ℕ)
    → x ≢ q
    → ((merge_next m q x).free ≡ (m x).free) × ((merge_next m q x).magic ≡ (m x).magic)
unfolding merge_next set_prev write
merge_next-other m q x ne = ground arith

module _ (m : Memory) (a b : ℕ) (cs : List Cell) (c : Cell) (pos : 0 < a)
    (low : a + span cs < 2 ^ 32) (ch : Chain m null a cs) (found : find_at a b cs ≡ some c) where
  Chain-forward : Chain (freed m b) null a (forward a b cs)
  Chain-forward =
      (Chain-merge_at (set_free m b true) null a b (mark_at a b cs) (cell c.size true) pos
        (rw (span-mark_at b a cs) low) (Chain-mark_at m null a b cs c ch found)
        (find_at-mark_at b a cs c found)).0

  prev-forward : (freed m b b).prev ≡ pred_at null a b (forward a b cs)
  prev-forward =
      let (d, f, _) =
        find_at-merge_at b a (mark_at a b cs) (cell c.size true) (find_at-mark_at b a cs c found) in
      ap (λ (r : Block). r.prev)
        (Chain-find_at (freed m b) null a b (forward a b cs) Chain-forward f)

  span-forward : span (forward a b cs) ≡ span cs
  span-forward = span-merge_at b a (mark_at a b cs) ∙ span-mark_at b a cs

  -- The last statement of kfree.
  pub Chain-merge_prev : Chain (merge_prev (freed m b) b) null a (release a b cs)
  Chain-merge_prev = elim (Bool-cases (a == b)) [
    | inl here ↦
        let (p, r) = pred_at-first b null a cs here in
        subst₂ (λ (mm : Memory) (xs : List Cell). Chain mm null a xs)
          (sym (merge_prev-first (freed m b) b (prev-forward ∙ p))) (sym r) Chain-forward
    | inr there ↦
        let j = Joins-found b null a cs c found there in
        subst₂ (λ (mm : Memory) (xs : List Cell). Chain mm null a xs)
          (sym (
            merge_prev-later (freed m b) b j.q (prev-forward ∙ j.is_pred)
              (omega (arith, j.behind))))
          (sym j.release_lem)
          (Chain-merge_at (freed m b) null a j.q (forward a b cs) j.e pos (rw span-forward low)
            Chain-forward j.present).0
  ]

  -- kfree of a block in use passes its checks.
  pub kfree-ok : c.free ≡ false → kfree m (b + header_size) ≡ ok (merge_prev (freed m b) b)
  unfolding kfree
  kfree-ok used =
      let e : sub32 (b + header_size) header_size ≡ b =
        omega (arith, find_at-end a b cs c found, find_at-le a b cs c found) in
      let real : (b + header_size == null) ≡ false = ground arith in
      rw (real, e, Chain-find_at m null a b cs ch found, used)

  -- kfree of a block that is free panics.
  pub kfree-double :
      c.free ≡ true → kfree m (b + header_size) ≡ panic (double_free (b + header_size))
  unfolding kfree
  kfree-double idle =
      let e : sub32 (b + header_size) header_size ≡ b =
        omega (arith, find_at-end a b cs c found, find_at-le a b cs c found) in
      let real : (b + header_size == null) ≡ false = ground arith in
      rw (real, e, Chain-find_at m null a b cs ch found, idle)

  -- The header that kfree leaves at the block, live or stale, says free.
  freed-header :
      ((merge_prev (freed m b) b b).free ≡ true)
      × ((merge_prev (freed m b) b b).magic ≡ block_magic)
  freed-header =
      let (d, f, g) =
        find_at-merge_at b a (mark_at a b cs) (cell c.size true) (find_at-mark_at b a cs c found) in
      let h = Chain-find_at (freed m b) null a b (forward a b cs) Chain-forward f in
      elim (Bool-cases (a == b)) [
        | inl here ↦
            let (p, _) = pred_at-first b null a cs here in
            rw (merge_prev-first (freed m b) b (prev-forward ∙ p))
              (ap (λ (r : Block). r.free) h ∙ g, ap (λ (r : Block). r.magic) h)
        | inr there ↦
            let j = Joins-found b null a cs c found there in
            let (k, l) = merge_next-other (freed m b) j.q b (omega (arith, j.before)) in
            rw
              (merge_prev-later (freed m b) b j.q (prev-forward ∙ j.is_pred)
                (omega (arith, j.behind)))
              (k ∙ ap (λ (r : Block). r.free) h ∙ g, l ∙ ap (λ (r : Block). r.magic) h)
      ]

  -- A second kfree of the pointer panics, also where the block was joined to a neighbour.
  pub kfree-again :
      kfree (merge_prev (freed m b) b) (b + header_size) ≡ panic (double_free (b + header_size))
  unfolding kfree
  kfree-again =
      let e : sub32 (b + header_size) header_size ≡ b =
        omega (arith, find_at-end a b cs c found, find_at-le a b cs c found) in
      let real : (b + header_size == null) ≡ false = ground arith in
      rw (real, e, freed-header.1, freed-header.0)
