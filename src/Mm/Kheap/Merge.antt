-- ===== src/Mm/Kheap/Merge.antt =====
-- The two steps of kfree on the chain, at any block: `b->free = true` and merge_next.
use raptor_kernel.Prelude.{
  ℕ, ◌+◌, ◌<◌, ◌≤◌, ◌^◌, ◌≡◌, ◌≢◌, refl, ap, subst, sym, ◌∙◌, inl, inr, true, false, ◌&&◌, List, [],
  ◌∷◌, some, arith, ◌==◌, if◌then◌else◌, Bool-cases, ==_iff,
}
use raptor_kernel.Words.{add32}
use raptor_kernel.Mm.Kheap.{Block, Memory, null, write, set_prev, set_free, merge_next, header_size}
use raptor_kernel.Mm.Kheap.Cells.{Cell, cell, after, span, find_at, coalesce}
use raptor_kernel.Mm.Kheap.Chain.{
  header, link, Chain, SameBelow, Chain-frame, write_self, write_ne, set_prev-SameBelow,
  Chain-set_prev, Chain-set_free, set_free_ne,
}

unfoldable pub mark_at : ℕ → (b : ℕ) → List Cell → List Cell
mark_at a b [] = []
mark_at a b (c ∷ cs) = if a == b then cell c.size true ∷ cs else c ∷ mark_at (after a c) b cs

unfoldable pub merge_at : ℕ → (b : ℕ) → List Cell → List Cell
merge_at a b [] = []
merge_at a b (c ∷ cs) = if a == b then coalesce c cs else c ∷ merge_at (after a c) b cs

-- The header in front of the one at `b`, where the list's first is behind `prev`.
unfoldable pub pred_at : (prev : ℕ) → ℕ → (b : ℕ) → List Cell → ℕ
pred_at prev a b [] = prev
pred_at prev a b (c ∷ cs) = if a == b then prev else pred_at a (after a c) b cs

-- The blocks after the one at `b`.
unfoldable pub succ_at : ℕ → (b : ℕ) → List Cell → List Cell
succ_at a b [] = []
succ_at a b (c ∷ cs) = if a == b then cs else succ_at (after a c) b cs

-- A block that is found stands at or behind the start.
pub find_at-le : (a b : ℕ) (cs : List Cell) (d : Cell) → find_at a b cs ≡ some d → a ≤ b
unfolding find_at
find_at-le a b [] d found = cc
find_at-le a b (c ∷ cs) d found = ground (arith, find_at-le (after a c) b cs d)

-- What memory holds at a block that is found.
pub Chain-find_at :
    (m : Memory) (prev a b : ℕ) (cs : List Cell) {d : Cell}
    → Chain m prev a cs
    → find_at a b cs ≡ some d
    → m b ≡ header d (link (after b d) (succ_at a b cs)) (pred_at prev a b cs)
unfolding find_at pred_at succ_at
Chain-find_at m prev a b [] ch found = cc
Chain-find_at m prev a b (c ∷ cs) {d} ch found = elim (Bool-cases (a == b)) [
  | inl here ↦
      let e : a ≡ b = ground arith in
      let e' : c ≡ d = ground arith in rw here (ap m (sym e) ∙ ch.0 ∙ rw (e, e'))
  | inr there ↦ rw there (Chain-find_at m a (after a c) b cs ch.1 (rw there at found))
]

module _ (m : Memory) (prev a : ℕ) (c : Cell) where
  merge_next-last : m a ≡ header c null prev → merge_next m a ≡ m
  unfolding merge_next
  merge_next-last e = rw e

  module _ (d : Cell) (ds : List Cell) (pos : 0 < a) (low : after (after a c) d + span ds < 2 ^ 32)
      (ch : Chain m prev a (c ∷ d ∷ ds)) where
    merge_next-busy : (c.free && d.free) ≡ false → merge_next m a ≡ m
    unfolding merge_next
    merge_next-busy busy =
        let real : (after a c == null) ≡ false = ground arith in
        rw (ch.0, real, ch.1.0) (ground arith)

    abbrev joined : Cell
    joined = cell (c.size + header_size + d.size) true

    abbrev grown : Memory
    grown = write m a (header joined (after a c) prev)

    abbrev unlinked : Memory
    unlinked = write grown a (header joined (link (after (after a c) d) ds) prev)

    merge_next-free :
        (c.free && d.free) ≡ true
        → merge_next m a ≡ set_prev unlinked (link (after (after a c) d) ds) a
    unfolding merge_next
    merge_next-free both =
        let real : (after a c == null) ≡ false = ground arith in
        let sum : add32 c.size (add32 header_size d.size) ≡ c.size + header_size + d.size =
          omega arith in
        let fc : c.free ≡ true = ground arith in
        let fd : d.free ≡ true = ground arith in
        rw (ch.0, real, ch.1.0, fc, fd, sum)
          (rw
            (
              write_self m a (header joined (after a c) prev),
              write_ne m a (after a c) (header joined (after a c) prev) (omega arith),
              ch.1.0,
            )
            (rw (write_self grown a (header joined (link (after (after a c) d) ds) prev))))

    -- Two free neighbours become one block.
    Chain-joined :
        Chain (set_prev unlinked (link (after (after a c) d) ds) a) prev a (joined ∷ ds)
        × SameBelow a m (set_prev unlinked (link (after (after a c) d) ds) a)
    Chain-joined =
        let e : after a joined ≡ after (after a c) d = omega arith in
        let top : Block = header joined (link (after (after a c) d) ds) prev in
        let below = set_prev-SameBelow unlinked (after (after a c) d) a ds in
        let away = λ (p : ℕ) (h : a ≢ p).
          write_ne grown a p top h ∙ write_ne m a p (header joined (after a c) prev) h in
        (
          (
            rw e (below a (omega arith) ∙ write_self grown a top),
            rw e (
                Chain-set_prev unlinked (after a c) (after (after a c) d) a ds (omega arith) (
                  Chain-frame (after a c) (after (after a c) d) ds ch.1.1
                    (λ p h. away p (omega arith)))),
          ),
          λ p h. below p (omega arith) ∙ away p (omega arith),
        )

    Chain-merge_pair :
        Chain (merge_next m a) prev a (coalesce c (d ∷ ds)) × SameBelow a m (merge_next m a)
    unfolding coalesce
    Chain-merge_pair = elim (Bool-cases (c.free && d.free)) [
      | inl both ↦ rw both (
          subst (λ (mm : Memory). Chain mm prev a (joined ∷ ds) × SameBelow a m mm)
            (sym (merge_next-free both)) Chain-joined)
      | inr busy ↦ rw busy (
          subst (λ (mm : Memory). Chain mm prev a (c ∷ d ∷ ds) × SameBelow a m mm)
            (sym (merge_next-busy busy)) (ch, λ p h. refl))
    ]

-- merge_next on the first block of a chain.
Chain-merge_first :
    (m : Memory) (prev a : ℕ) (c : Cell) (cs : List Cell)
    → 0 < a
    → after a c + span cs < 2 ^ 32
    → Chain m prev a (c ∷ cs)
    → Chain (merge_next m a) prev a (coalesce c cs) × SameBelow a m (merge_next m a)
unfolding coalesce
Chain-merge_first m prev a c [] pos low ch =
    subst (λ (mm : Memory). Chain mm prev a (c ∷ []) × SameBelow a m mm)
      (sym (merge_next-last m prev a c ch.0)) (ch, λ p h. refl)
Chain-merge_first m prev a c (d ∷ ds) pos low ch =
    Chain-merge_pair m prev a c d ds pos (omega arith) ch

link-coalesce : (a : ℕ) (c : Cell) (cs : List Cell) → link a (coalesce c cs) ≡ a
unfolding coalesce
link-coalesce a c [] = refl
link-coalesce a c (d ∷ ds) = ground arith

link-merge_at : (a b : ℕ) (cs : List Cell) → link a (merge_at a b cs) ≡ link a cs
unfolding merge_at
link-merge_at a b [] = refl
link-merge_at a b (c ∷ cs) = ground (arith, link-coalesce a c cs)

link-mark_at : (a b : ℕ) (cs : List Cell) → link a (mark_at a b cs) ≡ link a cs
unfolding mark_at
link-mark_at a b [] = refl
link-mark_at a b (c ∷ cs) = ground arith

pub Chain-merge_at :
    (m : Memory) (prev a b : ℕ) (cs : List Cell) (d : Cell)
    → 0 < a
    → a + span cs < 2 ^ 32
    → Chain m prev a cs
    → find_at a b cs ≡ some d
    → Chain (merge_next m b) prev a (merge_at a b cs) × SameBelow a m (merge_next m b)
unfolding merge_at find_at
Chain-merge_at m prev a b [] d pos low ch found = cc
Chain-merge_at m prev a b (c ∷ cs) d pos low ch found = elim (Bool-cases (a == b)) [
  | inl here ↦
      let e : a ≡ b = (==_iff a b).0 here in
      rw here (
        subst
          (λ (x : ℕ).
            Chain (merge_next m x) prev a (coalesce c cs) × SameBelow a m (merge_next m x))
          e (Chain-merge_first m prev a c cs pos (omega arith) ch))
  | inr there ↦
      let (rest, below) =
        Chain-merge_at m a (after a c) b cs d (omega arith) (omega arith) ch.1
          (rw there at found) in
      rw there (
        (below a (omega arith) ∙ ch.0 ∙ rw (link-merge_at (after a c) b cs), rest),
        λ p h. below p (omega arith),
      )
]

pub Chain-mark_at :
    (m : Memory) (prev a b : ℕ) (cs : List Cell) (d : Cell)
    → Chain m prev a cs
    → find_at a b cs ≡ some d
    → Chain (set_free m b true) prev a (mark_at a b cs)
unfolding mark_at find_at
Chain-mark_at m prev a b [] d ch found = cc
Chain-mark_at m prev a b (c ∷ cs) d ch found = elim (Bool-cases (a == b)) [
  | inl here ↦
      let e : a ≡ b = (==_iff a b).0 here in
      rw here (
        subst (λ (x : ℕ). Chain (set_free m x true) prev a (cell c.size true ∷ cs)) e
          (Chain-set_free m prev a c cs true ch))
  | inr there ↦
      let le = find_at-le (after a c) b cs d (rw there at found) in
      rw there (
        set_free_ne m b a true (omega arith) ∙ ch.0 ∙ rw (link-mark_at (after a c) b cs),
        Chain-mark_at m a (after a c) b cs d ch.1 (rw there at found),
      )
]
