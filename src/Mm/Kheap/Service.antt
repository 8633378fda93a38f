-- ===== src/Mm/Kheap/Service.antt =====
-- The kernel heap as the allocator that its clients use.
use raptor_kernel.Prelude.{
  ℕ, zero, suc, ◌+◌, ◌-◌, ◌<◌, ◌≡◌, ◌≢◌, refl, ap, sym, ◌∙◌, subst, Bool, true, false, Option, some,
  none, List, ◌==◌, leb, if◌then◌else◌, arith,
}
use raptor_kernel.Mm.Outcome.{Outcome, ok, panic, out_of_fuel}
use raptor_kernel.Mm.Allocator.{Allocator}
use raptor_kernel.Mm.Kheap.{Heap, Stats, kmalloc, kfree, kheap_stats, header_size, align_up}
use raptor_kernel.Mm.Kheap.Cells.{Cell, cell, alloc_at, alloc, find_at, release}
use raptor_kernel.Mm.Kheap.FirstFit.{find_at-alloc}
use raptor_kernel.Mm.Kheap.Neighbours.{find_at-release}
use raptor_kernel.Mm.Kheap.Released.{find_at_of-release}
use raptor_kernel.Mm.Kheap.Holds.{heap_fuel, Holds, with_memory, kmalloc-alloc, kfree-release}
use raptor_kernel.Mm.Kheap.Client.{InUse, alloc_at-block, alloc-Granted}

-- The heap in a state that the code leaves it in.
pub record KheapState : Type 0 where
  pub heap : Heap
  pub cells : List Cell
  pub holds : Holds heap cells

-- `p` points behind the header of a block in use.
pub record InUseAt (s : KheapState) (p : ℕ) : Type 0 where
  pub block : ℕ
  pub size : ℕ
  pub behind : p ≡ block + header_size
  pub used : InUse s.heap.start s.cells block size

-- The state after kmalloc of `n` bytes, and the pointer that it returns.
pub kmalloc_state :
    (s : KheapState) (n : ℕ)
    → 0 < n
    → (s' : KheapState) × (kmalloc heap_fuel s.heap n
        ≡ ok (alloc_at (align_up n 8) s.heap.start s.cells, s'.heap.memory))
      × (s'.heap.start ≡ s.heap.start)
      × (s'.cells ≡ alloc (align_up n 8) s.cells)
kmalloc_state s n pos =
    let (m, e, v) = kmalloc-alloc heap_fuel n (omega arith) pos s.holds in
    (
      record { heap = with_memory s.heap m; cells = alloc (align_up n 8) s.cells; holds = v },
      e,
      refl,
      refl,
    )

unfoldable pub kheap_kmalloc : KheapState → ℕ → ℕ × KheapState
unfolding kmalloc_state
kheap_kmalloc s zero = (0, s)
kheap_kmalloc s (suc n) =
    (alloc_at (align_up (suc n) 8) s.heap.start s.cells, (kmalloc_state s (suc n) (omega arith)).0)

-- kfree of the block at `b` in use.
freed :
    (s : KheapState) (b : ℕ) (c : Cell)
    → find_at s.heap.start b s.cells ≡ some c
    → c.free ≡ false
    → KheapState
freed s b c found used =
    let (m, run, v) = kfree-release b c s.holds found used in
    record { heap = with_memory s.heap m; cells = release s.heap.start b s.cells; holds = v }

kfree_found :
    (s : KheapState) (b : ℕ) (c : Cell) (free : Bool)
    → find_at s.heap.start b s.cells ≡ some c
    → c.free ≡ free
    → Option KheapState
kfree_found s b c true e f = none
kfree_found s b c false e f = some (freed s b c e f)

kfree_block :
    (s : KheapState) (b : ℕ) (r : Option Cell)
    → find_at s.heap.start b s.cells ≡ r
    → Option KheapState
kfree_block s b none e = none
kfree_block s b (some c) e = kfree_found s b c c.free e refl

-- kfree of NULL, or of a pointer to a block in use; of any other nothing is promised.
pub kheap_kfree : KheapState → (p : ℕ) → Option KheapState
kheap_kfree s p =
    if p == 0
    then some s
    else if leb header_size p
    then kfree_block s (p - header_size) (find_at s.heap.start (p - header_size) s.cells) refl
    else none

-- The state in which kfree leaves the heap.
abbrev pub Freed : (s s' : KheapState) (b : ℕ) → Type 0
Freed s s' b =
    (s'.heap.start ≡ s.heap.start)
    × (s'.cells ≡ release s.heap.start b s.cells)
    × (kfree s.heap.memory (b + header_size) ≡ ok s'.heap.memory)

kfree_found-Freed :
    (s : KheapState) (b size : ℕ) (c : Cell) (free : Bool)
    (e : find_at s.heap.start b s.cells ≡ some c) (f : c.free ≡ free)
    → c ≡ cell size false
    → (s' : KheapState) × (kfree_found s b c free e f ≡ some s') × Freed s s' b
unfolding kfree_found freed
kfree_found-Freed s b size c true e f h = absurd (clash (sym f ∙ ap (λ (d : Cell). d.free) h))
  where
    clash : true ≡ false → ⊥
    clash h = cc
kfree_found-Freed s b size c false e f h =
    (_, refl, (refl, refl, (kfree-release b c s.holds e f).1))

kfree_block-Freed :
    (s : KheapState) (b size : ℕ) (r : Option Cell) (e : find_at s.heap.start b s.cells ≡ r)
    → r ≡ some (cell size false)
    → (s' : KheapState) × (kfree_block s b r e ≡ some s') × Freed s s' b
unfolding kfree_block
kfree_block-Freed s b size none e h = absurd (clash h)
  where
    clash : none ≡ some (cell size false) → ⊥
    clash h = cc
kfree_block-Freed s b size (some c) e h = kfree_found-Freed s b size c c.free e refl (injective h)
  where
    injective : some c ≡ some (cell size false) → c ≡ cell size false
    injective h = cc

-- kfree of a pointer to a block in use runs the code's kfree to its end.
pub kheap_kfree-Freed :
    (s : KheapState) (b size : ℕ)
    → InUse s.heap.start s.cells b size
    → (s' : KheapState) × (kheap_kfree s (b + header_size) ≡ some s') × Freed s s' b
unfolding kheap_kfree
kheap_kfree-Freed s b size used =
    let back : b + header_size - header_size ≡ b = omega arith in
    let real : (b + header_size == 0) ≡ false = ground arith in
    let above : leb header_size (b + header_size) ≡ true = ground arith in
    let (s', e, f) =
      kfree_block-Freed s (b + header_size - header_size) size
        (find_at s.heap.start (b + header_size - header_size) s.cells) refl
        (ap (λ x. find_at s.heap.start x s.cells) back ∙ used) in
    (s', rw (real, above) e, subst (λ x. Freed s s' x) back f)

-- On a heap in a state that the code leaves it in, kmalloc ends, for every size, with the pointer and
-- in the state that its clients are told.
pub kheap_kmalloc-runs :
    (s : KheapState) (n : ℕ)
    → kmalloc heap_fuel s.heap n ≡ ok ((kheap_kmalloc s n).0, (kheap_kmalloc s n).1.heap.memory)
unfolding kheap_kmalloc kmalloc
kheap_kmalloc-runs s zero = refl
kheap_kmalloc-runs s (suc n) = (kmalloc_state s (suc n) (omega arith)).1

pub kept_on_kmalloc : (s : KheapState) (n q : ℕ) → InUseAt s q → InUseAt (kheap_kmalloc s n).1 q
unfolding kheap_kmalloc kmalloc_state
kept_on_kmalloc s zero q u = u
kept_on_kmalloc s (suc n) q u = record {
  block = u.block;
  size = u.size;
  behind = u.behind;
  used =
      find_at-alloc (align_up (suc n) 8) s.heap.start u.block s.cells (cell u.size false) u.used
        refl;
}

pub fresh_on_kmalloc :
    (s : KheapState) (n : ℕ)
    → 0 < n
    → (kheap_kmalloc s n).0 ≢ 0
    → (InUseAt s (kheap_kmalloc s n).0 → ⊥) × InUseAt (kheap_kmalloc s n).1 (kheap_kmalloc s n).0
unfolding kheap_kmalloc kmalloc_state
fresh_on_kmalloc s zero pos ne = absurd (omega arith)
fresh_on_kmalloc s (suc n) pos ne =
    let k = align_up (suc n) 8 in
    let (b, e) = alloc_at-block k s.heap.start s.cells ne in
    let g = alloc-Granted 0 k s.heap.start b s.cells (omega arith) e in
    (
      (λ (u : InUseAt s (alloc_at k s.heap.start s.cells)).
          let same : u.block ≡ b = omega (arith, u.behind, e) in
          taken g.was u.size
            (sym g.was_there ∙ ap (λ x. find_at s.heap.start x s.cells) (sym same) ∙ u.used)
            g.was_free),
      record { block = b; size = g.size; behind = e; used = g.in_use },
    )
  where
    taken : (c : Cell) (size : ℕ) → some c ≡ some (cell size false) → c.free ≡ true → ⊥
    taken c size h f = cc

pub freed_law :
    (s : KheapState) (p : ℕ)
    → InUseAt s p
    → (s' : KheapState) × (kheap_kfree s p ≡ some s')
      × ((q : ℕ) → InUseAt s q → q ≢ p → InUseAt s' q)
freed_law s p u =
    let (s', e, (st, cs, run)) = kheap_kfree-Freed s u.block u.size u.used in
    (
      s',
      subst (λ x. kheap_kfree s x ≡ some s') (sym u.behind) e,
      λ q v ne. record {
        block = v.block;
        size = v.size;
        behind = v.behind;
        used =
            ap (λ a. find_at a v.block s'.cells) st
            ∙ ap (find_at s.heap.start v.block) cs
            ∙ find_at-release s.heap.start u.block v.block s.cells (cell v.size false) v.used refl
                (λ same. ne (v.behind ∙ ap (λ x. x + header_size) same ∙ sym u.behind));
      },
    )

pub only_law :
    (s s' : KheapState) (p q : ℕ)
    → InUseAt s p
    → kheap_kfree s p ≡ some s'
    → InUseAt s' q
    → InUseAt s q × (q ≢ p)
only_law s s' p q u e v =
    let (s1, e1, (st, cs, run)) = kheap_kfree-Freed s u.block u.size u.used in
    let same : s' ≡ s1 = injective (sym e ∙ ap (kheap_kfree s) u.behind ∙ e1) in
    let at : find_at s.heap.start v.block (release s.heap.start u.block s.cells)
        ≡ some (cell v.size false) =
      sym (
        ap (λ a. find_at a v.block s'.cells) (ap (λ (t : KheapState). t.heap.start) same ∙ st)
        ∙ ap (find_at s.heap.start v.block) (ap (λ (t : KheapState). t.cells) same ∙ cs))
      ∙ v.used in
    let (old, ne) =
      find_at_of-release s.heap.start u.block v.block s.cells (cell v.size false) at refl in
    (
      record { block = v.block; size = v.size; behind = v.behind; used = old },
      λ z. ne (apart v.block u.block (sym v.behind ∙ z ∙ u.behind)),
    )
  where
    injective : {a b : KheapState} → some a ≡ some b → a ≡ b
    injective h = cc

    apart : (a b : ℕ) → a + header_size ≡ b + header_size → a ≡ b
    apart a b h = omega arith

pub null_law : (s : KheapState) → kheap_kfree s 0 ≡ some s
unfolding kheap_kfree
null_law s = refl

stats_of : Outcome Stats → Stats
stats_of (ok t) = t
stats_of (panic p) = record { total = 0; used = 0; largest_free = 0 }
stats_of out_of_fuel = record { total = 0; used = 0; largest_free = 0 }

-- The code of mm/kheap.c as an allocator.
unfoldable pub kheap : Allocator
unfolding stats_of
kheap = record {
  State = KheapState;
  kmalloc = kheap_kmalloc;
  kfree = kheap_kfree;
  kheap_stats = λ s. stats_of (kheap_stats heap_fuel s.heap);
  Live = InUseAt;
  Live-real = λ s p u. λ z. omega (arith, z, u.behind);
  kmalloc-fresh = λ s n pos small ne.
      let (fresh, now) = fresh_on_kmalloc s n pos ne in (fresh, now, kept_on_kmalloc s n);
  kmalloc-null = λ s n pos small z. kept_on_kmalloc s n;
  kfree-null = null_law;
  kfree-live = freed_law;
  kfree-only = only_law;
}
