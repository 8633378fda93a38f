-- ===== src/Mm/Kheap/Neighbours.antt =====
-- Laws of the abstract heap of mm/kheap.c: what releasing a block does to the list of blocks.
use raptor_kernel.Prelude.{
  ℕ, ◌+◌, ◌-◌, ◌≡◌, ◌≢◌, refl, inl, inr, true, false, ◌&&◌, List, [], ◌∷◌, some, arith, ltb, ◌==◌,
  Bool-cases,
}
use raptor_kernel.Mm.Kheap.{header_size, min_split}
use raptor_kernel.Mm.Kheap.Cells.{
  Cell, cell, after, span, carve, fits, alloc_at, alloc, find_at, coalesce, release,
}
use raptor_kernel.Mm.Kheap.FirstFit.{head_free, Coalesced, alloc_at-le}

span-coalesce : (c : Cell) (cs : List Cell) → span (coalesce c cs) ≡ span (c ∷ cs)
unfolding coalesce
span-coalesce c [] = refl
span-coalesce c (d ∷ ds) = ground arith

-- Releasing keeps the bytes that the blocks take.
pub span-release : (a b : ℕ) (cs : List Cell) → span (release a b cs) ≡ span cs
unfolding release
span-release a b [] = refl
span-release a b (c ∷ cs) = ground (
  arith,
  span-release (after a c) b cs,
  span-coalesce (cell c.size true) cs,
  span-coalesce c (release (after a c) b cs),
)

coalesce-Coalesced : (c : Cell) (cs : List Cell) → Coalesced cs → Coalesced (coalesce c cs)
unfolding coalesce
coalesce-Coalesced c [] ok = (ground arith, tt)
coalesce-Coalesced c (d ∷ ds) ok = elim (Bool-cases (c.free && d.free)) [
  | inl both ↦ rw both (ground arith, ok.1)
  | inr busy ↦ rw busy (busy, ok)
]

coalesce-noop : (c : Cell) (cs : List Cell) → Coalesced (c ∷ cs) → coalesce c cs ≡ c ∷ cs
unfolding coalesce
coalesce-noop c [] ok = refl
coalesce-noop c (d ∷ ds) ok = rw ok.0

head_free-coalesce : (c : Cell) (cs : List Cell) → head_free (coalesce c cs) ≡ c.free
unfolding coalesce
head_free-coalesce c [] = refl
head_free-coalesce c (d ∷ ds) = ground arith

head_free-release :
    (a b : ℕ) (cs : List Cell) → (a == b) ≡ false → head_free (release a b cs) ≡ head_free cs
unfolding release
head_free-release a b [] far = refl
head_free-release a b (c ∷ cs) far = ground (arith, head_free-coalesce c (release (after a c) b cs))

-- Releasing a block leaves no two free neighbours.
pub release-Coalesced : (a b : ℕ) (cs : List Cell) → Coalesced cs → Coalesced (release a b cs)
unfolding release
release-Coalesced a b [] ok = tt
release-Coalesced a b (c ∷ cs) ok = elim (Bool-cases (a == b)) [
  | inl here ↦ rw here (coalesce-Coalesced (cell c.size true) cs ok.1)
  | inr far ↦ elim (Bool-cases (after a c == b)) [
    | inl next ↦
        rw (far, next)
          (coalesce-Coalesced c (release (after a c) b cs)
            (release-Coalesced (after a c) b cs ok.1))
    | inr later ↦
        rw (far, later)
          (
            rw (head_free-release (after a c) b cs later) ok.0,
            release-Coalesced (after a c) b cs ok.1,
          )
  ]
]

find_at-coalesce_used :
    (a x : ℕ) (c : Cell) (cs : List Cell) (d : Cell)
    → find_at a x (c ∷ cs) ≡ some d
    → d.free ≡ false
    → find_at a x (coalesce c cs) ≡ some d
unfolding find_at coalesce
find_at-coalesce_used a x c [] d found used = found
find_at-coalesce_used a x c (e ∷ es) d found used = elim (Bool-cases (c.free && e.free)) [
  | inl both ↦
      let sum : a + header_size + (c.size + header_size + e.size) ≡ after (after a c) e =
        omega arith in
      rw (both, sum) (ground arith)
  | inr busy ↦ rw busy found
]

-- A block in use other than the one released stays in use, at its address and of its size.
pub find_at-release :
    (a b x : ℕ) (cs : List Cell) (d : Cell)
    → find_at a x cs ≡ some d
    → d.free ≡ false
    → x ≢ b
    → find_at a x (release a b cs) ≡ some d
unfolding find_at release
find_at-release a b x [] d found used ne = cc
find_at-release a b x (c ∷ cs) d found used ne = elim (Bool-cases (a == b)) [
  | inl here ↦
      rw here
        (find_at-coalesce_used a x (cell c.size true) cs d (unfold find_at in ground arith) used)
  | inr far ↦
      let kept : find_at a x (c ∷ release (after a c) b cs) ≡ some d =
        unfold find_at in ground (arith, find_at-release (after a c) b x cs d) in
      elim (Bool-cases (after a c == b)) [
        | inl next ↦
            rw (far, next) (find_at-coalesce_used a x c (release (after a c) b cs) d kept used)
        | inr later ↦ rw (far, later) kept
      ]
]

release-carve :
    (n a b : ℕ) (c : Cell) (cs : List Cell)
    → Coalesced (c ∷ cs)
    → fits n c ≡ true
    → (a == b) ≡ true
    → release a b (carve n c cs) ≡ c ∷ cs
unfolding release carve
release-carve n a b c cs ok fit here =
    elim (Bool-cases (ltb c.size (n + header_size + min_split))) [
      | inl whole ↦
          let same : cell c.size true ≡ c = ground arith in
          rw (whole, here, same) (coalesce-noop c cs ok)
      | inr large ↦
          let same : cell (n + header_size + (c.size - n - header_size)) true ≡ c = ground arith in
          rw (large, here) (unfold coalesce in rw same)
    ]

release-restores :
    (a b : ℕ) (c : Cell) (xs cs : List Cell)
    → Coalesced (c ∷ cs)
    → (a == b) ≡ false
    → release (after a c) b xs ≡ cs
    → release a b (c ∷ xs) ≡ c ∷ cs
unfolding release
release-restores a b c xs cs ok far rest = elim (Bool-cases (after a c == b)) [
  | inl next ↦ rw (far, next, rest) (coalesce-noop c cs ok)
  | inr later ↦ rw (far, later, rest)
]

-- On a heap with no two free neighbours, releasing what was just allocated restores the blocks.
pub release-alloc :
    (n a b : ℕ) (cs : List Cell)
    → Coalesced cs
    → alloc_at n a cs ≡ b + header_size
    → release a b (alloc n cs) ≡ cs
unfolding alloc alloc_at
release-alloc n a b [] ok e = absurd (omega arith)
release-alloc n a b (c ∷ cs) ok e = elim (Bool-cases (fits n c)) [
  | inl fit ↦ rw fit (release-carve n a b c cs ok fit (ground arith))
  | inr miss ↦
      let e' : alloc_at n (after a c) cs ≡ b + header_size = rw miss at e in
      let far : (a == b) ≡ false = ground (arith, alloc_at-le n (after a c) b cs e') in
      let rest = release-alloc n (after a c) b cs ok.1 e' in
      rw miss (release-restores a b c (alloc n cs) cs ok far rest)
]
