-- ===== src/Mm/Kheap/Chain.antt =====
-- The doubly linked list of headers in memory that represents a list of blocks.
use raptor_kernel.Prelude.{ℕ, ◌<◌, ◌≤◌, ◌≡◌, ◌≢◌, refl, ap, ◌∙◌, Bool, List, [], ◌∷◌, arith}
use raptor_kernel.Mm.Kheap.{Block, Memory, null, write, set_prev, set_free, block_magic}
use raptor_kernel.Mm.Kheap.Cells.{Cell, cell, after}

abbrev pub header : Cell → (next prev : ℕ) → Block
header c n p = record { magic = block_magic; size = c.size; free = c.free; next = n; prev = p }

-- The pointer to the blocks `cs` that stand at `a`.
abbrev pub link : ℕ → List Cell → ℕ
link a [] = null
link a (c ∷ cs) = a

-- The headers of `cs`, from `a` on, behind a block at `prev`.
abbrev pub Chain : Memory → (prev a : ℕ) → List Cell → Type 0
Chain m prev a [] = Unit {0}
Chain m prev a (c ∷ cs) = (m a ≡ header c (link (after a c) cs) prev) × Chain m a (after a c) cs

-- The memories agree below an address, or from it on.
abbrev pub SameBelow : ℕ → Memory → Memory → Type 0
SameBelow a m m' = (p : ℕ) → p < a → m' p ≡ m p

abbrev pub SameFrom : ℕ → Memory → Memory → Type 0
SameFrom a m m' = (p : ℕ) → a ≤ p → m' p ≡ m p

pub Chain-frame :
    {m m' : Memory} (prev a : ℕ) (cs : List Cell)
    → Chain m prev a cs
    → SameFrom a m m'
    → Chain m' prev a cs
Chain-frame prev a [] ch same = tt
Chain-frame {m} {m'} prev a (c ∷ cs) ch same =
    (same a (omega arith) ∙ ch.0, Chain-frame a (after a c) cs ch.1 (λ p h. same p (omega arith)))

pub write_self : (m : Memory) (p : ℕ) (b : Block) → write m p b p ≡ b
unfolding write
write_self m p b = ground arith

pub write_ne : (m : Memory) (p q : ℕ) (b : Block) → p ≢ q → write m p b q ≡ m q
unfolding write
write_ne m p q b h = ground arith

pub set_prev_ne : (m : Memory) (p b q : ℕ) → p ≢ q → set_prev m p b q ≡ m q
unfolding set_prev
set_prev_ne m p b q h = ground (arith, write_ne m p q (record (m p) { prev = b }))

pub set_prev_self : (m : Memory) (p b : ℕ) → p ≢ null → set_prev m p b p ≡ record (m p) { prev = b }
unfolding set_prev
set_prev_self m p b h = ground (arith, write_self m p (record (m p) { prev = b }))

-- Writing the first block's `prev` hangs the chain behind another block.
pub Chain-set_prev :
    (m : Memory) (prev a b : ℕ) (cs : List Cell)
    → 0 < a
    → Chain m prev a cs
    → Chain (set_prev m (link a cs) b) b a cs
Chain-set_prev m prev a b [] pos ch = tt
Chain-set_prev m prev a b (c ∷ cs) pos ch = (
  set_prev_self m a b (omega arith) ∙ ap (λ (r : Block). record r { prev = b }) ch.0,
  Chain-frame a (after a c) cs ch.1 (λ p h. set_prev_ne m a b p (omega arith)),
)

pub set_free_ne : (m : Memory) (p q : ℕ) (f : Bool) → p ≢ q → set_free m p f q ≡ m q
unfolding set_free
set_free_ne m p q f h = write_ne m p q (record (m p) { free = f }) h

-- Changing the flag of the first block.
pub Chain-set_free :
    (m : Memory) (prev a : ℕ) (c : Cell) (cs : List Cell) (f : Bool)
    → Chain m prev a (c ∷ cs)
    → Chain (set_free m a f) prev a (cell c.size f ∷ cs)
unfolding set_free
Chain-set_free m prev a c cs f ch = (
  write_self m a (record (m a) { free = f }) ∙ ap (λ (r : Block). record r { free = f }) ch.0,
  Chain-frame a (after a c) cs ch.1
      (λ p h. write_ne m a p (record (m a) { free = f }) (omega arith)),
)

-- Writing the `prev` of a chain's first block changes nothing in front of the chain.
pub set_prev-SameBelow :
    (m : Memory) (a b : ℕ) (cs : List Cell) → SameBelow a m (set_prev m (link a cs) b)
unfolding set_prev
set_prev-SameBelow m a b [] p h = refl
set_prev-SameBelow m a b (c ∷ cs) p h = ground (arith, write_ne m a p (record (m a) { prev = b }))
