-- ===== src/Mm/Kheap/Alloc.antt =====
-- kmalloc against first fit on the list of blocks.
use raptor_kernel.Prelude.{
  ℕ, zero, suc, ◌+◌, ◌-◌, ◌<◌, ◌≤◌, ◌^◌, ◌≡◌, refl, ap, subst, ◌∙◌, sym, inl, inr, true, false,
  List, [], ◌∷◌, arith, ltb, ◌==◌, Bool-cases, length,
}
use raptor_kernel.Words.{add32, sub32}
use raptor_kernel.Mm.Outcome.{Outcome, ok}
use raptor_kernel.Mm.Kheap.{
  Block, Memory, null, write, set_prev, split, take_block, kmalloc_loop, header_size, min_split,
  heap_size, set_free, heap_size,
}
use raptor_kernel.Mm.Kheap.Cells.{Cell, cell, after, span, carve, fits, alloc_at, alloc}
use raptor_kernel.Mm.Kheap.Chain.{
  header, link, Chain, SameBelow, Chain-frame, write_self, write_ne, Chain-set_prev, Chain-set_free,
  set_free_ne, set_prev-SameBelow,
}

module _ (m : Memory) (prev a n : ℕ) (c : Cell) (cs : List Cell) (pos : 0 < a)
    (low : after a c + span cs < 2 ^ 32) (small : c.size ≤ heap_size) (fit : n ≤ c.size)
    (ch : Chain m prev a (c ∷ cs)) where
  split_whole : ltb c.size (n + header_size + min_split) ≡ true → split m a n ≡ m
  unfolding split
  split_whole h = ground (arith, ch.0)

  -- The remainder's header, written first.
  abbrev rest : ℕ
  rest = a + header_size + n

  abbrev remainder : Cell
  remainder = cell (c.size - n - header_size) true

  abbrev rest_header : Block
  rest_header = header remainder (link (after a c) cs) a

  abbrev linked : Memory
  linked = set_prev (write m rest rest_header) (link (after a c) cs) rest

  split_parts :
      ltb c.size (n + header_size + min_split) ≡ false
      → split m a n ≡ write linked a (record (linked a) { size = n; next = rest })
  unfolding split
  split_parts h =
      let e1 : add32 (add32 a header_size) n ≡ rest = omega arith in
      let e2 : sub32 (sub32 c.size n) header_size ≡ c.size - n - header_size = ground arith in
      rw (ch.0) (
        let k : ltb c.size (add32 (add32 n header_size) min_split) ≡ false = ground arith in
        rw (k, e1, e2))

  module _ (large : ltb c.size (n + header_size + min_split) ≡ false) where
    after-remainder : after rest remainder ≡ after a c
    after-remainder = ground arith

    linked_below : (p : ℕ) → p < after a c → linked p ≡ write m rest rest_header p
    linked_below = set_prev-SameBelow (write m rest rest_header) (after a c) rest cs

    linked_tail : Chain linked rest (after a c) cs
    linked_tail =
        Chain-set_prev (write m rest rest_header) a (after a c) rest cs (omega arith)
          (Chain-frame a (after a c) cs ch.1 (λ p h. write_ne m rest p rest_header (ground arith)))

    abbrev cut : Block
    cut = record (linked a) { size = n; next = rest }

    Chain-cut : Chain (write linked a cut) prev a (cell n c.free ∷ remainder ∷ cs)
    Chain-cut = (
      write_self linked a cut
          ∙ ap (λ (r : Block). record r { size = n; next = rest })
              (linked_below a (omega arith) ∙ write_ne m rest a rest_header (omega arith) ∙ ch.0),
      (
        rw after-remainder (
            write_ne linked a rest cut (omega arith)
            ∙ linked_below rest (ground arith)
            ∙ write_self m rest rest_header),
        rw after-remainder (
            Chain-frame rest (after a c) cs linked_tail
              (λ p h. write_ne linked a p cut (omega arith))),
      ),
    )

    Chain-split : Chain (split m a n) prev a (cell n c.free ∷ remainder ∷ cs)
    Chain-split =
        subst (λ (mm : Memory). Chain mm prev a (cell n c.free ∷ remainder ∷ cs))
          (sym (split_parts large)) Chain-cut

    split-SameBelow : SameBelow a m (split m a n)
    split-SameBelow p h = rw (split_parts large) (
        write_ne linked a p cut (omega arith)
        ∙ linked_below p (omega arith)
        ∙ write_ne m rest p rest_header (omega arith))

  -- kmalloc's body on a block that fits carves it.
  Chain-take_block :
      Chain (take_block m a n) prev a (carve n c cs) × SameBelow a m (take_block m a n)
  unfolding take_block carve
  Chain-take_block = elim (Bool-cases (ltb c.size (n + header_size + min_split))) [
    | inl whole ↦ rw whole (
        subst
          (λ (mm : Memory).
            Chain (set_free mm a false) prev a (cell c.size false ∷ cs)
            × SameBelow a m (set_free mm a false))
          (sym (split_whole whole))
          (Chain-set_free m prev a c cs false ch, λ p h. set_free_ne m a p false (omega arith)))
    | inr large ↦ rw large (
      Chain-set_free (split m a n) prev a (cell n c.free) (remainder ∷ cs) false
          (Chain-split large),
      λ p h. set_free_ne (split m a n) a p false (omega arith) ∙ split-SameBelow large p h,
    )
  ]

-- What the search of kmalloc does to the chain from the block at `a` on.
pub record Searched (m : Memory) (prev a n : ℕ) (cs : List Cell) (r : Outcome (ℕ × Memory))
    : Type 0 where
  pub after_search : Memory
  pub returned : r ≡ ok (alloc_at n a cs, after_search)
  pub chain : Chain after_search prev a (alloc n cs)
  pub below : SameBelow a m after_search

Searched-nil :
    (fuel n : ℕ) (m : Memory) (prev a : ℕ)
    → Searched m prev a n [] (kmalloc_loop (suc fuel) m null n)
unfolding kmalloc_loop alloc_at alloc
Searched-nil fuel n m prev a = record {
  after_search = m;
  returned = refl;
  chain = tt;
  below = λ p h. refl;
}

link-alloc : (n a : ℕ) (cs : List Cell) → link a (alloc n cs) ≡ link a cs
unfolding alloc carve
link-alloc n a [] = refl
link-alloc n a (c ∷ cs) = ground arith

module _ (fuel n : ℕ) (m : Memory) (prev a : ℕ) (c : Cell) (cs : List Cell) (pos : 0 < a)
    (low : after a c + span cs < 2 ^ 32) (small : c.size ≤ heap_size)
    (ch : Chain m prev a (c ∷ cs)) where
  loop_hit :
      fits n c ≡ true → kmalloc_loop (suc fuel) m a n ≡ ok (a + header_size, take_block m a n)
  unfolding kmalloc_loop
  loop_hit fit =
      let real : (a == null) ≡ false = ground arith in
      let here : add32 a header_size ≡ a + header_size = omega arith in rw (real, ch.0, fit, here)

  loop_miss :
      fits n c ≡ false → kmalloc_loop (suc fuel) m a n ≡ kmalloc_loop fuel m (link (after a c) cs) n
  unfolding kmalloc_loop
  loop_miss miss = ground (arith, ch.0)

  Searched-hit : fits n c ≡ true → Searched m prev a n (c ∷ cs) (kmalloc_loop (suc fuel) m a n)
  unfolding alloc_at alloc
  Searched-hit fit =
      let fit' : n ≤ c.size = ground arith in
      let (chain, below) = Chain-take_block m prev a n c cs pos low small fit' ch in
      record {
        after_search = take_block m a n;
        returned = rw fit (loop_hit fit);
        chain = rw fit chain;
        below = below;
      }

  Searched-miss :
      fits n c ≡ false
      → Searched m a (after a c) n cs (kmalloc_loop fuel m (link (after a c) cs) n)
      → Searched m prev a n (c ∷ cs) (kmalloc_loop (suc fuel) m a n)
  unfolding alloc_at alloc
  Searched-miss miss rec = record {
    after_search = rec.after_search;
    returned = rw miss (loop_miss miss ∙ rec.returned);
    chain =
        rw miss (rec.below a (omega arith) ∙ ch.0 ∙ rw (link-alloc n (after a c) cs), rec.chain);
    below = λ p h. rec.below p (omega arith);
  }

pub kmalloc_loop-Searched :
    (fuel n : ℕ) (m : Memory) (prev a : ℕ) (cs : List Cell)
    → 0 < a
    → a + span cs < 2 ^ 32
    → span cs ≤ heap_size
    → length cs < fuel
    → Chain m prev a cs
    → Searched m prev a n cs (kmalloc_loop fuel m (link a cs) n)
kmalloc_loop-Searched zero n m prev a cs pos low small enough ch = absurd (omega arith)
kmalloc_loop-Searched (suc fuel) n m prev a [] pos low small enough ch =
    Searched-nil fuel n m prev a
kmalloc_loop-Searched (suc fuel) n m prev a (c ∷ cs) pos low small enough ch =
    elim (Bool-cases (fits n c)) [
      | inl fit ↦ Searched-hit fuel n m prev a c cs pos (omega arith) (omega arith) ch fit
      | inr miss ↦ Searched-miss fuel n m prev a c cs pos (omega arith) (omega arith) ch miss (
          kmalloc_loop-Searched fuel n m a (after a c) cs (omega arith) (omega arith) (omega arith)
            (omega arith) ch.1)
    ]
