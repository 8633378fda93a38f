-- ===== src/Mm/Kheap/Cells.antt =====
-- The abstract heap: the blocks in address order, each a payload size and a free flag. The first
-- block's header stands at the address `a` that the functions take, and each block's header
-- follows the payload of the one before.
use raptor_kernel.Prelude.{
  ℕ, ◌+◌, ◌-◌, Bool, true, false, ◌&&◌, Option, none, some, List, [], ◌∷◌, ltb, leb, ◌==◌,
  if◌then◌else◌,
}
use raptor_kernel.Mm.Kheap.{header_size, min_split}

pub record Cell : Type 0 where
  pub size : ℕ
  pub free : Bool

abbrev pub cell : ℕ → Bool → Cell
cell s f = record { size = s; free = f }

-- The address behind a block.
abbrev pub after : ℕ → Cell → ℕ
after a c = a + header_size + c.size

-- The bytes that the blocks take, headers included.
abbrev pub span : List Cell → ℕ
span [] = 0
span (c ∷ cs) = header_size + c.size + span cs

-- First fit: the block that is handed out, cut in two if the remainder can hold a header and a
-- payload of `min_split`.
unfoldable pub carve : ℕ → Cell → List Cell → List Cell
carve n c cs =
    if ltb c.size (n + header_size + min_split)
    then cell c.size false ∷ cs
    else cell n false ∷ cell (c.size - n - header_size) true ∷ cs

-- Whether a block can serve a request of `n` bytes.
abbrev pub fits : ℕ → Cell → Bool
fits n c = c.free && leb n c.size

-- The payload address of the first block that fits, 0 if there is none.
unfoldable pub alloc_at : ℕ → ℕ → List Cell → ℕ
alloc_at n a [] = 0
alloc_at n a (c ∷ cs) = if fits n c then a + header_size else alloc_at n (after a c) cs

unfoldable pub alloc : ℕ → List Cell → List Cell
alloc n [] = []
alloc n (c ∷ cs) = if fits n c then carve n c cs else c ∷ alloc n cs

-- The block whose header stands at `b`.
unfoldable pub find_at : ℕ → (b : ℕ) → List Cell → Option Cell
find_at a b [] = none
find_at a b (c ∷ cs) = if a == b then some c else find_at (after a c) b cs

-- A block joined to the one behind it, if both are free.
unfoldable pub coalesce : Cell → List Cell → List Cell
coalesce c [] = c ∷ []
coalesce c (d ∷ ds) =
    if c.free && d.free then cell (c.size + header_size + d.size) true ∷ ds else c ∷ d ∷ ds

-- The block at `b` becomes free and is joined to its two neighbours.
unfoldable pub release : ℕ → (b : ℕ) → List Cell → List Cell
release a b [] = []
release a b (c ∷ cs) =
    if a == b
    then coalesce (cell c.size true) cs
    else (let rest = release (after a c) b cs in
        if after a c == b then coalesce c rest else c ∷ rest)
