-- ===== src/Mm/Kheap/Accounting.antt =====
-- kheap_stats of mm/kheap.c: what it sums, and what its maximum says of the next kmalloc.
use raptor_kernel.Prelude.{
  ℕ, zero, suc, ◌+◌, ◌*◌, ◌<◌, ◌≤◌, ◌^◌, ◌≡◌, ◌↔◌, refl, ap, sym, ◌∙◌, false, List, [], ◌∷◌, arith,
  ltb, ◌==◌, if◌then◌else◌, length, max,
}
use raptor_kernel.Words.{add32}
use raptor_kernel.Mm.Outcome.{Outcome, ok}
use raptor_kernel.Mm.Kheap.{
  Memory, Heap, Stats, null, kmalloc, kheap_stats, kheap_stats_loop, header_size, heap_size,
  align_up,
}
use raptor_kernel.Mm.Kheap.Cells.{Cell, after, span, alloc_at}
use raptor_kernel.Mm.Kheap.Chain.{link, Chain}
use raptor_kernel.Mm.Kheap.FirstFit.{NoneFits, alloc_at-zero_iff}
use raptor_kernel.Mm.Kheap.Holds.{heap_fuel, Holds, kmalloc-alloc, length-lt-fuel, link-first}

-- The payload bytes of all blocks, and of those in use.
abbrev pub payload : List Cell → ℕ
payload [] = 0
payload (c ∷ cs) = c.size + payload cs

abbrev pub in_use : List Cell → ℕ
in_use [] = 0
in_use (c ∷ cs) = (if c.free then 0 else c.size) + in_use cs

-- The largest payload of a free block.
abbrev pub largest : List Cell → ℕ
largest [] = 0
largest (c ∷ cs) = max (if c.free then c.size else 0) (largest cs)

payload-span : (cs : List Cell) → payload cs + header_size * length cs ≡ span cs
payload-span [] = refl
payload-span (c ∷ cs) = omega (arith, payload-span cs)

in_use-le : (cs : List Cell) → in_use cs ≤ payload cs
in_use-le [] = omega arith
in_use-le (c ∷ cs) = ground (arith, in_use-le cs)

-- What the loop of kheap_stats makes of one block.
abbrev Stats-next : Stats → Cell → Stats
Stats-next s c = record {
  total = add32 s.total c.size;
  used = if c.free then s.used else add32 s.used c.size;
  largest_free =
      if c.free
      then if ltb s.largest_free c.size then c.size else s.largest_free
      else s.largest_free;
}

Stats-next_lem :
    (t u l : ℕ) (c : Cell)
    → t + c.size < 2 ^ 32
    → u + c.size < 2 ^ 32
    → Stats-next (record { total = t; used = u; largest_free = l }) c ≡ record {
      total = t + c.size;
      used = if c.free then u else u + c.size;
      largest_free = if c.free then max l c.size else l;
    }
Stats-next_lem t u l c ht hu = ground arith

sums :
    (t u l : ℕ) (c : Cell) (cs : List Cell)
    → ◌≡◌ {A = Outcome Stats}
        (ok (record {
          total = t + c.size + payload cs;
          used = (if c.free then u else u + c.size) + in_use cs;
          largest_free = max (if c.free then max l c.size else l) (largest cs);
        }))
        (ok (record {
          total = t + payload (c ∷ cs);
          used = u + in_use (c ∷ cs);
          largest_free = max l (largest (c ∷ cs));
        }))
sums t u l c cs = ground arith

kheap_stats_loop_lem :
    (fuel : ℕ) (m : Memory) (prev a : ℕ) (cs : List Cell) (t u l : ℕ)
    → 0 < a
    → a + span cs < 2 ^ 32
    → length cs < fuel
    → t + span cs < 2 ^ 32
    → u + span cs < 2 ^ 32
    → Chain m prev a cs
    → kheap_stats_loop fuel m (link a cs) (record { total = t; used = u; largest_free = l })
      ≡ ok (record {
        total = t + payload cs;
        used = u + in_use cs;
        largest_free = max l (largest cs);
      })
unfolding kheap_stats_loop
kheap_stats_loop_lem zero m prev a cs t u l pos low enough ht hu ch = absurd (omega arith)
kheap_stats_loop_lem (suc fuel) m prev a [] t u l pos low enough ht hu ch = ground arith
kheap_stats_loop_lem (suc fuel) m prev a (c ∷ cs) t u l pos low enough ht hu ch =
    let real : (a == null) ≡ false = ground arith in
    let u' : ℕ = if c.free then u else u + c.size in
    let l' : ℕ = if c.free then max l c.size else l in
    let step = Stats-next_lem t u l c (omega arith) (omega arith) in
    let rest =
      kheap_stats_loop_lem fuel m a (after a c) cs (t + c.size) u' l' (omega arith) (omega arith)
        (omega arith) (omega arith) (ground arith) ch.1 in
    rw (real, ch.0)
      (ap (kheap_stats_loop fuel m (link (after a c) cs)) step ∙ rest ∙ sums t u l c cs)

-- kheap_stats never panics and reports what the blocks sum to: the payload of all blocks, of those
-- in use, and the largest free one. With the headers the total makes up the 4 MiB, and what is
-- used is part of it.
pub kheap_stats_lem :
    (fuel : ℕ) {h : Heap} {cs : List Cell}
    → heap_fuel ≤ fuel
    → Holds h cs
    → (kheap_stats fuel h
        ≡ ok (record { total = payload cs; used = in_use cs; largest_free = largest cs }))
      × (payload cs + header_size * length cs ≡ heap_size)
      × (in_use cs ≤ payload cs)
unfolding kheap_stats
kheap_stats_lem fuel {h} {cs} enough v = (
  rw (link-first v) (
      kheap_stats_loop_lem fuel h.memory null h.start cs 0 0 0 v.positive
        (omega (arith, v.in_memory, v.filled)) (omega (arith, length-lt-fuel v))
        (omega (arith, v.filled)) (omega (arith, v.filled)) v.chain
      ∙ ground arith),
  payload-span cs ∙ v.filled,
  in_use-le cs,
)

NoneFits-iff : (n : ℕ) (cs : List Cell) → 0 < n → NoneFits n cs ↔ (largest cs < n)
NoneFits-iff n [] pos = (λ h. pos, λ h. tt)
NoneFits-iff n (c ∷ cs) pos =
    let (f, g) = NoneFits-iff n cs pos in
    (λ h. ground (arith, h.0, f h.1), λ h. (ground arith, g (omega arith)))

-- For a request of at least 1 byte, and below the seven greatest sizes, which rounding up to 8 wraps:
-- kmalloc returns NULL exactly when the request, rounded up to 8, is above the largest free block that
-- kheap_stats reports.
pub kmalloc-null_iff :
    (fuel n p : ℕ) {h : Heap} {cs : List Cell} (m : Memory) (s : Stats)
    → heap_fuel ≤ fuel
    → 0 < n
    → n + 7 < 2 ^ 32
    → Holds h cs
    → kheap_stats fuel h ≡ ok s
    → kmalloc fuel h n ≡ ok (p, m)
    → (p ≡ null) ↔ (s.largest_free < align_up n 8)
kmalloc-null_iff fuel n p {h} {cs} m s enough pos small v stats run =
    let (m', e, _) = kmalloc-alloc fuel n enough pos v in
    let (e', _, _) = kheap_stats_lem fuel enough v in
    let ep : p ≡ alloc_at (align_up n 8) h.start cs = cc (run, e) in
    let el : s.largest_free ≡ largest cs =
      let es : s ≡ record { total = payload cs; used = in_use cs; largest_free = largest cs } =
        cc (stats, e') in
      ap (λ (r : Stats). r.largest_free) es in
    let (f, g) = alloc_at-zero_iff (align_up n 8) h.start cs in
    let (f', g') = NoneFits-iff (align_up n 8) cs (omega arith) in
    (λ z. rw el (f' (g (sym ep ∙ z))), λ lt. ep ∙ f (g' (rw el at lt)))
