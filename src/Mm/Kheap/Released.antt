-- ===== src/Mm/Kheap/Released.antt =====
-- Laws of the abstract heap of mm/kheap.c: releasing a block puts no other block in use.
use raptor_kernel.Prelude.{
  ℕ, ◌+◌, ◌≤◌, ◌≡◌, ◌≢◌, inl, inr, true, false, ◌&&◌, List, [], ◌∷◌, some, none, arith, ◌==◌,
  Bool-cases, ==_iff,
}
use raptor_kernel.Mm.Kheap.{header_size}
use raptor_kernel.Mm.Kheap.Cells.{Cell, cell, after, find_at, coalesce, release}

find_at-ge : (a x : ℕ) (cs : List Cell) (d : Cell) → find_at a x cs ≡ some d → a ≤ x
unfolding find_at
find_at-ge a x [] d found = cc
find_at-ge a x (c ∷ cs) d found = elim (Bool-cases (a == x)) [
  | inl here ↦ ground (arith, here)
  | inr far ↦ let h = find_at-ge (after a c) x cs d (rw far at found) in omega (arith, h)
]

find_at_of-coalesce :
    (a x : ℕ) (c : Cell) (cs : List Cell) (d : Cell)
    → find_at a x (coalesce c cs) ≡ some d
    → d.free ≡ false
    → find_at a x (c ∷ cs) ≡ some d
unfolding find_at coalesce
find_at_of-coalesce a x c [] d found used = found
find_at_of-coalesce a x c (e ∷ es) d found used = elim (Bool-cases (c.free && e.free)) [
  | inr busy ↦ rw busy at found
  | inl both ↦
      let sum : a + header_size + (c.size + header_size + e.size) ≡ after (after a c) e =
        omega arith in
      elim (Bool-cases (a == x)) [
        | inl here ↦ absurd (clash (rw (both, here) at found) used)
        | inr far ↦
            let later : find_at (after (after a c) e) x es ≡ some d =
              rw (both, sum, far) at found in
            let beyond = find_at-ge (after (after a c) e) x es d later in
            let past : (after a c == x) ≡ false = ground (arith, beyond) in rw (far, past) later
      ]
]
  where
    clash : some (cell (c.size + header_size + e.size) true) ≡ some d → d.free ≡ false → ⊥
    clash h k = cc

-- What is in use after a block was released was in use before, and is not that block.
pub find_at_of-release :
    (a b x : ℕ) (cs : List Cell) (d : Cell)
    → find_at a x (release a b cs) ≡ some d
    → d.free ≡ false
    → (find_at a x cs ≡ some d) × (x ≢ b)
unfolding find_at release
find_at_of-release a b x [] d found used = absurd (clash found)
  where
    clash : none ≡ some d → ⊥
    clash h = cc
find_at_of-release a b x (c ∷ cs) d found used =
    let rest = release (after a c) b cs in
    let inner : find_at (after a c) x rest ≡ some d
        → (find_at (after a c) x cs ≡ some d) × (x ≢ b) =
      (λ f. find_at_of-release (after a c) b x cs d f used) in
    elim (Bool-cases (a == b)) [
      | inl here ↦
          let same = (==_iff a b).0 here in
          let old = find_at_of-coalesce a x (cell c.size true) cs d (rw here at found) used in
          elim (Bool-cases (a == x)) [
            | inl hit ↦ absurd (busy (rw hit at old) used)
            | inr far ↦ (rw far (rw far at old), (λ z. absurd (ground (arith, far, z, same))))
          ]
      | inr away ↦
          let kept : find_at a x (c ∷ rest) ≡ some d = elim (Bool-cases (after a c == b)) [
            | inl next ↦ find_at_of-coalesce a x c rest d (rw (away, next) at found) used
            | inr later ↦ rw (away, later) at found
          ] in
          elim (Bool-cases (a == x)) [
            | inl hit ↦ (rw hit (rw hit at kept), (λ z. absurd (ground (arith, away, hit, z))))
            | inr far ↦ let (old, ne) = inner (rw far at kept) in (rw far old, ne)
          ]
    ]
  where
    busy : some (cell c.size true) ≡ some d → d.free ≡ false → ⊥
    busy h k = cc
