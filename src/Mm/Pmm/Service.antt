-- ===== src/Mm/Pmm/Service.antt =====
-- pmm_alloc_frame and pmm_free_frame of mm/pmm.c against a set of frames.
use raptor_kernel.Prelude.{
  ℕ, zero, suc, ◌+◌, ◌*◌, ◌/◌, ◌%◌, ◌^◌, ◌<◌, ◌≤◌, ◌≡◌, ◌≢◌, ◌⊎◌, refl, ap, sym, subst, ◌∙◌, inl,
  inr, Bool, true, false, arith, ltb, ◌==◌, if◌then◌else◌, Bool-cases, ==_iff,
}
use raptor_kernel.Mm.Pmm.{
  Pmm, page_size, max_frames, is_marked, mark_used, alloc_loop, pmm_alloc_frame, pmm_free_frame,
}
use raptor_kernel.Mm.Pmm.Frames.{is_marked-mark_used, is_marked-pmm_free_frame}
use raptor_kernel.Mm.Pmm.Count.{
  IsCounted, total-mark_used, used_frames-mark_used, mark_used-IsCounted,
}

-- The search found `frame`: the first unmarked one from `f` on, below `end`.
record FirstFree (p : Pmm) (f end : ℕ) (r : ℕ × Pmm) : Type 0 where
  frame : ℕ
  from : f ≤ frame
  below : frame < end
  unmarked : is_marked p frame ≡ false
  earlier : (g : ℕ) → f ≤ g → g < frame → is_marked p g ≡ true
  result : r ≡ (frame * page_size % 2 ^ 32, mark_used p frame)

-- The search found every frame marked.
record Exhausted (p : Pmm) (f end : ℕ) (r : ℕ × Pmm) : Type 0 where
  all : (g : ℕ) → f ≤ g → g < end → is_marked p g ≡ true
  result : r ≡ (0, p)

FirstFree-later :
    (p : Pmm) (f end : ℕ) (r : ℕ × Pmm)
    → is_marked p f ≡ true
    → FirstFree p (f + 1) end r ⊎ Exhausted p (f + 1) end r
    → FirstFree p f end r ⊎ Exhausted p f end r
FirstFree-later p f end r old (inl s) = inl (record {
  frame = s.frame;
  from = omega (arith, s.from);
  below = s.below;
  unmarked = s.unmarked;
  earlier = λ g le lt. elim (Bool-cases (f == g)) [
    | inl here ↦ let e : f ≡ g = ground arith in ap (is_marked p) (sym e) ∙ old
    | inr there ↦ s.earlier g (ground arith) lt
  ];
  result = s.result;
})
FirstFree-later p f end r old (inr s) = inr (record {
  all = λ g le lt. elim (Bool-cases (f == g)) [
    | inl here ↦ let e : f ≡ g = ground arith in ap (is_marked p) (sym e) ∙ old
    | inr there ↦ s.all g (ground arith) lt
  ];
  result = s.result;
})

alloc_loop_lem :
    (n f end : ℕ) (p : Pmm)
    → f + n ≡ end
    → FirstFree p f end (alloc_loop n f p) ⊎ Exhausted p f end (alloc_loop n f p)
unfolding alloc_loop
alloc_loop_lem zero f end p e =
    inr (record { all = λ g le lt. absurd (omega arith); result = refl })
alloc_loop_lem (suc n) f end p e = elim (Bool-cases (is_marked p f)) [
  | inl old ↦ rw old (
      FirstFree-later p f end (alloc_loop n (f + 1) p) old
        (alloc_loop_lem n (f + 1) end p (omega arith)))
  | inr new ↦ rw new (
      inl (record {
        frame = f;
        from = omega arith;
        below = omega arith;
        unmarked = new;
        earlier = λ g le lt. absurd (omega arith);
        result = refl;
      }))
]

-- pmm_alloc_frame took the first free frame of the machine, marked it and nothing else, and
-- counted it.
pub record Taken (p : Pmm) (addr : ℕ) (p' : Pmm) : Type 0 where
  pub frame : ℕ
  pub address : addr ≡ frame * page_size
  pub in_memory : frame < p.total_frames
  pub was_free : is_marked p frame ≡ false
  pub first : (g : ℕ) → g < frame → is_marked p g ≡ true
  pub marks : (g : ℕ) → is_marked p' g ≡ (if g == frame then true else is_marked p g)
  pub same_total : p'.total_frames ≡ p.total_frames
  pub one_more : p'.used_frames ≡ p.used_frames + 1
  pub counted : IsCounted p'

-- pmm_alloc_frame found every frame of the machine in use, returned 0 and changed nothing.
pub record OutOfMemory (p : Pmm) (addr : ℕ) (p' : Pmm) : Type 0 where
  pub all_used : (g : ℕ) → g < p.total_frames → is_marked p g ≡ true
  pub zero_returned : addr ≡ 0
  pub same : p' ≡ p

FirstFree-Taken :
    (p : Pmm) (r : ℕ × Pmm) → IsCounted p → FirstFree p 0 p.total_frames r → Taken p r.0 r.1
FirstFree-Taken p r v s =
    let e0 : r.0 ≡ s.frame * page_size % 2 ^ 32 = ap (λ (t : ℕ × Pmm). t.0) s.result in
    let e1 : r.1 ≡ mark_used p s.frame = ap (λ (t : ℕ × Pmm). t.1) s.result in
    let small : s.frame < max_frames = omega (arith, s.below, v.bounded) in
    record {
      frame = s.frame;
      address = omega (arith, e0, small);
      in_memory = s.below;
      was_free = s.unmarked;
      first = λ g lt. s.earlier g (omega arith) lt;
      marks = λ g. ap (λ (t : Pmm). is_marked t g) e1 ∙ is_marked-mark_used p s.frame g;
      same_total = ap (λ (t : Pmm). t.total_frames) e1 ∙ total-mark_used p s.frame;
      one_more =
          ap (λ (t : Pmm). t.used_frames) e1 ∙ used_frames-mark_used p s.frame s.unmarked small v;
      counted = subst IsCounted (sym e1) (mark_used-IsCounted p s.frame small v);
    }

-- pmm_alloc_frame either takes the first free frame or finds all frames of the machine in use.
pub pmm_alloc_frame_lem :
    (p : Pmm)
    → IsCounted p
    → let (addr, p') = pmm_alloc_frame p in Taken p addr p' ⊎ OutOfMemory p addr p'
unfolding pmm_alloc_frame
pmm_alloc_frame_lem p v = elim (alloc_loop_lem p.total_frames 0 p.total_frames p (omega arith)) [
  | inl s ↦ inl (FirstFree-Taken p (alloc_loop p.total_frames 0 p) v s)
  | inr s ↦ inr (record {
    all_used = λ g lt. s.all g (omega arith) lt;
    zero_returned = ap (λ (t : ℕ × Pmm). t.0) s.result;
    same = ap (λ (t : ℕ × Pmm). t.1) s.result;
  })
]

restored : (b m : Bool) → (b ≡ true → m ≡ false) → (if b then false else if b then true else m) ≡ m
restored true m h = sym (h refl)
restored false m h = refl

Taken-restored :
    (p : Pmm) (addr : ℕ) (p' : Pmm)
    → Taken p addr p'
    → (g : ℕ) → is_marked (pmm_free_frame p' addr) g ≡ is_marked p g
Taken-restored p addr p' t g =
    let e : addr / page_size ≡ t.frame = omega (arith, t.address) in
    let inside : ltb t.frame p'.total_frames ≡ true = ground (arith, t.in_memory, t.same_total) in
    is_marked-pmm_free_frame p' addr g
    ∙ rw (e, inside, t.marks g)
        (restored (g == t.frame) (is_marked p g)
          (λ h. ap (is_marked p) ((==_iff g t.frame).0 h) ∙ t.was_free))

-- Freeing the address that pmm_alloc_frame returned, if it is not 0, restores the set of frames
-- in use.
pub free-alloc :
    (p : Pmm)
    → IsCounted p
    → (pmm_alloc_frame p).0 ≢ 0
    → let (addr, p') = pmm_alloc_frame p in
      (g : ℕ) → is_marked (pmm_free_frame p' addr) g ≡ is_marked p g
free-alloc p v ne = elim (pmm_alloc_frame_lem p v) [
  | inl t ↦ Taken-restored p (pmm_alloc_frame p).0 (pmm_alloc_frame p).1 t
  | inr out ↦ absurd (ne out.zero_returned)
]

Taken-apart : (p : Pmm) (a a' : ℕ) (p' p'' : Pmm) → Taken p a p' → Taken p' a' p'' → a' ≢ a
Taken-apart p a a' p' p'' t t' e =
    let same : t'.frame ≡ t.frame = omega (arith, t.address, t'.address, e) in
    let yes_marked : is_marked p' t'.frame ≡ true =
      t.marks t'.frame ∙ rw ((==_iff t'.frame t.frame).1 same) in
    cc (yes_marked, t'.was_free)

-- Two allocations in a row that both succeed return different frames.
pub alloc-distinct :
    (p : Pmm)
    → IsCounted p
    → let (addr, p') = pmm_alloc_frame p in
      (pmm_alloc_frame p').0 ≢ 0 → (pmm_alloc_frame p').0 ≢ addr
alloc-distinct p v ne = elim (pmm_alloc_frame_lem p v) [
  | inl t ↦ elim (pmm_alloc_frame_lem (pmm_alloc_frame p).1 t.counted) [
    | inl t' ↦ Taken-apart p _ _ _ _ t t'
    | inr out ↦ absurd (ne out.zero_returned)
  ]
  | inr out ↦ λ e. ne (e ∙ out.zero_returned)
]
