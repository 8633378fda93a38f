-- ===== src/Mm/Kheap/Client.antt =====
-- What a client of mm/kheap.c may rely on, across kmalloc and kfree.
use raptor_kernel.Prelude.{
  ℕ, ◌+◌, ◌<◌, ◌≤◌, ◌^◌, ◌≡◌, ◌≢◌, ◌⊎◌, refl, ap, inl, inr, sym, ◌∙◌, subst, subst₂, Bool, true,
  false, List, [], ◌∷◌, some, arith, Bool-cases,
}
use raptor_kernel.Mm.Outcome.{ok, panic, double_free}
use raptor_kernel.Mm.Kheap.{Memory, Heap, null, kmalloc, kfree, header_size, align_up}
use raptor_kernel.Mm.Kheap.Cells.{Cell, cell, after, span, fits, alloc_at, alloc, find_at, release}
use raptor_kernel.Mm.Kheap.Release.{find_at-end, kfree-ok, kfree-again}
use raptor_kernel.Mm.Kheap.Merge.{find_at-le}
use raptor_kernel.Mm.Kheap.FirstFit.{
  NoneFits, alloc_at-HandedOut, alloc_at-zero_iff, find_at-alloc, find_at-unalloc,
}
use raptor_kernel.Mm.Kheap.Neighbours.{release-alloc, find_at-release}
use raptor_kernel.Mm.Kheap.Holds.{heap_fuel, Holds, with_memory, kmalloc-alloc, kfree-release}

-- A block of `size` bytes in use, its header at `b`.
abbrev pub InUse : (start : ℕ) → List Cell → (b size : ℕ) → Type 0
InUse start cs b size = find_at start b cs ≡ some (cell size false)

some_fits :
    (a b : ℕ) (c : Cell) (cs : List Cell)
    → find_at a b cs ≡ some c
    → c.free ≡ true
    → ¬ NoneFits 0 cs
unfolding find_at
some_fits a b c [] found free none_fits = cc
some_fits a b c (d ∷ ds) found free none_fits =
    ground (arith, some_fits (after a d) b c ds, none_fits.0, none_fits.1)

-- How `n` bytes were granted from the blocks `cs`, which are now `ds`: at `b`, in a block that was
-- free, within the heap, and apart from all that was in use, which stays in use.
pub record Granted (start n : ℕ) (cs ds : List Cell) (b : ℕ) : Type 0 where
  pub was : Cell
  pub was_there : find_at start b cs ≡ some was
  pub was_free : was.free ≡ true
  pub size : ℕ
  pub large : n ≤ size
  pub in_use : InUse start ds b size
  pub above : start ≤ b
  pub below : b + header_size + size ≤ start + span cs
  pub kept : (x s : ℕ) → InUse start cs x s → InUse start ds x s
  pub only : (x s : ℕ) → InUse start ds x s → (x ≡ b) ⊎ InUse start cs x s

pub alloc_at-block :
    (n a : ℕ) (cs : List Cell) → alloc_at n a cs ≢ 0 → (b : ℕ) × (alloc_at n a cs ≡ b + header_size)
unfolding alloc_at
alloc_at-block n a [] ne = absurd (ne refl)
alloc_at-block n a (c ∷ cs) ne = elim (Bool-cases (fits n c)) [
  | inl fit ↦ (a, rw fit)
  | inr miss ↦ rw miss (alloc_at-block n (after a c) cs (rw miss at ne))
]

pub alloc-Granted :
    (k n a b : ℕ) (cs : List Cell)
    → k ≤ n
    → alloc_at n a cs ≡ b + header_size
    → Granted a k cs (alloc n cs) b
alloc-Granted k n a b cs h e =
    let g = alloc_at-HandedOut n a b cs e in
    let fit = g.fit in
    let end = find_at-end a b cs g.was g.found in
    record {
      was = g.was;
      was_there = g.found;
      was_free = ground (arith, fit);
      size = g.now.size;
      large = omega (arith, g.large);
      in_use = g.taken ∙ ap (λ (f : Bool). some (cell g.now.size f)) g.used;
      above = find_at-le a b cs g.was g.found;
      below = omega (arith, end, g.not_larger);
      kept = λ x s u. find_at-alloc n a x cs (cell s false) u refl;
      only = λ x s u. elim (find_at-unalloc n a x cs (cell s false) u refl) [
        | inl new ↦ inl (omega (arith, new))
        | inr old ↦ inr old
      ];
    }

-- Where kmalloc returns a pointer and not NULL, a block behind it with at least the bytes asked
-- for is granted; the sizes are those below the ones that rounding up to 8 wraps.
pub kmalloc-Granted :
    (fuel n p : ℕ) {h : Heap} {cs : List Cell} (m : Memory)
    → heap_fuel ≤ fuel
    → 0 < n
    → n + 7 < 2 ^ 32
    → Holds h cs
    → kmalloc fuel h n ≡ ok (p, m)
    → p ≢ null
    → (b : ℕ) × (ds : List Cell) × (p ≡ b + header_size)
      × Granted h.start n cs ds b
      × Holds (with_memory h m) ds
kmalloc-Granted fuel n p {h} {cs} m enough pos small v run ne =
    let (m', e, v') = kmalloc-alloc fuel n enough pos v in
    let ep : p ≡ alloc_at (align_up n 8) h.start cs = cc (run, e) in
    let em : m' ≡ m = cc (run, e) in
    let (b, eb) = alloc_at-block (align_up n 8) h.start cs (λ z. ne (ep ∙ z)) in
    let g = alloc-Granted n (align_up n 8) h.start b cs (omega arith) eb in
    (
      b,
      alloc (align_up n 8) cs,
      ep ∙ eb,
      g,
      subst (λ (x : Memory). Holds (with_memory h x) (alloc (align_up n 8) cs)) em v',
    )

-- kfree of what kmalloc has just returned succeeds and gives back the heap's blocks as they were.
pub kfree-kmalloc :
    (fuel n p : ℕ) {h : Heap} {cs : List Cell} (m : Memory)
    → heap_fuel ≤ fuel
    → 0 < n
    → Holds h cs
    → kmalloc fuel h n ≡ ok (p, m)
    → p ≢ null
    → (m' : Memory) × (kfree m p ≡ ok m') × Holds (with_memory h m') cs
kfree-kmalloc fuel n p {h} {cs} m enough pos v run ne =
    let size : ℕ = align_up n 8 in
    let (m1, e, v1) = kmalloc-alloc fuel n enough pos v in
    let ep : p ≡ alloc_at size h.start cs = cc (run, e) in
    let em : m1 ≡ m = cc (run, e) in
    let (b, eb) = alloc_at-block size h.start cs (λ z. ne (ep ∙ z)) in
    let g = alloc-Granted 0 size h.start b cs (omega arith) eb in
    let (m2, f, v2) = kfree-release b (cell g.size false) v1 g.in_use refl in
    let back = release-alloc size h.start b cs v.coalesced eb in
    (
      m2,
      subst₂ (λ (x : Memory) (q : ℕ). kfree x q ≡ ok m2) em (sym (ep ∙ eb)) f,
      subst (λ (xs : List Cell). Holds (with_memory h m2) xs) back v2,
    )

-- A second kfree of a pointer that kfree has just taken panics.
pub kfree_twice :
    {h : Heap} {cs : List Cell} (b size : ℕ)
    → Holds h cs
    → InUse h.start cs b size
    → (m : Memory) × (kfree h.memory (b + header_size) ≡ ok m)
      × (kfree m (b + header_size) ≡ panic (double_free (b + header_size)))
kfree_twice {h} {cs} b size v u =
    let low : h.start + span cs < 2 ^ 32 = omega (arith, v.in_memory, v.filled) in
    (
      _,
      kfree-ok h.memory h.start b cs (cell size false) v.positive low v.chain u refl,
      kfree-again h.memory h.start b cs (cell size false) v.positive low v.chain u,
    )

-- kfree of a block in use keeps every other block in use, at its address and of its size.
pub kfree-keeps :
    {h : Heap} {cs : List Cell} (b size : ℕ)
    → Holds h cs
    → InUse h.start cs b size
    → (m : Memory) × (ds : List Cell) × (kfree h.memory (b + header_size) ≡ ok m)
      × Holds (with_memory h m) ds
      × ((x s : ℕ) → InUse h.start cs x s → x ≢ b → InUse h.start ds x s)
kfree-keeps {h} {cs} b size v u =
    let (m, e, v') = kfree-release b (cell size false) v u refl in
    (
      m,
      release h.start b cs,
      e,
      v',
      λ x s w ne. find_at-release h.start b x cs (cell s false) w refl ne,
    )

-- A request of the last seven sizes of 32 bits is served like one of 0 bytes: with any block free,
-- a pointer is returned, though the request is larger than the heap.
pub kmalloc-wraps :
    (fuel n b : ℕ) (c : Cell) {h : Heap} {cs : List Cell}
    → heap_fuel ≤ fuel
    → 2 ^ 32 ≤ n + 7
    → n < 2 ^ 32
    → Holds h cs
    → find_at h.start b cs ≡ some c
    → c.free ≡ true
    → (p : ℕ) × (m : Memory) × (kmalloc fuel h n ≡ ok (p, m)) × (p ≢ null)
kmalloc-wraps fuel n b c {h} {cs} enough large word v found free =
    let (m, e, _) = kmalloc-alloc fuel n enough (omega arith) v in
    let zero_size : align_up n 8 ≡ 0 = omega arith in
    (
      alloc_at (align_up n 8) h.start cs,
      m,
      e,
      λ z.
          some_fits h.start b c cs found free
            ((alloc_at-zero_iff 0 h.start cs).1 (rw zero_size at z)),
    )
