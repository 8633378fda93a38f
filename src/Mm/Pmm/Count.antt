-- ===== src/Mm/Pmm/Count.antt =====
-- The invariant of mm/pmm.c: `used_frames` is the number of frames that the bitmap marks.
use raptor_kernel.Prelude.{
  ℕ, zero, suc, ◌+◌, ◌/◌, ◌<◌, ◌≤◌, ◌≡◌, refl, ◌∙◌, inl, inr, Bool, true, false, ◌&&◌, arith, ltb,
  ◌==◌, if◌then◌else◌, Bool-cases, ==_iff,
}
use raptor_kernel.Mm.Pmm.{Pmm, page_size, max_frames, is_marked, mark_used, pmm_free_frame}
use raptor_kernel.Mm.Pmm.Frames.{is_marked-mark_used, is_marked-pmm_free_frame}

abbrev one_if : Bool → ℕ
one_if b = if b then 1 else 0

-- How many frames below `n` a set has.
unfoldable pub count : (ℕ → Bool) → ℕ → ℕ
count s zero = 0
count s (suc n) = one_if (s n) + count s n

pub count-le : (s : ℕ → Bool) (n : ℕ) → count s n ≤ n
unfolding count
count-le s zero = omega arith
count-le s (suc n) = ground (arith, count-le s n)

count-same :
    (s t : ℕ → Bool) (f n : ℕ)
    → ((g : ℕ) → t g ≡ (if g == f then t f else s g))
    → n ≤ f
    → count t n ≡ count s n
unfolding count
count-same s t f zero h le = refl
count-same s t f (suc n) h le = ground (arith, h n, count-same s t f n h)

-- Changing one member changes the count by it.
count-change :
    (s t : ℕ → Bool) (f n : ℕ)
    → ((g : ℕ) → t g ≡ (if g == f then t f else s g))
    → f < n
    → count t n + one_if (s f) ≡ count s n + one_if (t f)
unfolding count
count-change s t f zero h lt = absurd (omega arith)
count-change s t f (suc n) h lt = elim (Bool-cases (n == f)) [
  | inl here ↦
      let e : n ≡ f = (==_iff n f).0 here in
      rw e (omega (arith, count-same s t f f h (omega arith)))
  | inr there ↦ ground (arith, h n, count-change s t f n h)
]

-- At most `max_frames` frames are managed, and `used_frames` counts the marked ones among all
-- that the bitmap can describe.
pub record IsCounted (p : Pmm) : Type 0 where
  pub bounded : p.total_frames ≤ max_frames
  pub counted : p.used_frames ≡ count (is_marked p) max_frames

self-true : (f : ℕ) → (f == f) ≡ true
self-true f = ground arith

pub total-mark_used : (p : Pmm) (f : ℕ) → (mark_used p f).total_frames ≡ p.total_frames
unfolding mark_used
total-mark_used p f = ground arith

mark_used-old : (p : Pmm) (f : ℕ) → is_marked p f ≡ true → mark_used p f ≡ p
unfolding mark_used
mark_used-old p f h = rw h

module _ (p : Pmm) (f : ℕ) (new : is_marked p f ≡ false) (lt : f < max_frames)
    (v : IsCounted p) where
  count-mark_used :
      count (is_marked (mark_used p f)) max_frames ≡ count (is_marked p) max_frames + 1
  count-mark_used =
      let now : is_marked (mark_used p f) f ≡ true = is_marked-mark_used p f f ∙ rw (self-true f) in
      let step =
        count-change (is_marked p) (is_marked (mark_used p f)) f max_frames
          (λ g. rw now (is_marked-mark_used p f g)) lt in
      ground (arith, step, now, new)

  -- Marking an unmarked frame counts one more.
  pub used_frames-mark_used : (mark_used p f).used_frames ≡ p.used_frames + 1
  unfolding mark_used
  used_frames-mark_used = rw new (omega (arith, v.counted, count-le (is_marked p) max_frames))

  mark_used-new : IsCounted (mark_used p f)
  mark_used-new = record {
    bounded = rw (total-mark_used p f) v.bounded;
    counted = omega (arith, used_frames-mark_used, count-mark_used, v.counted);
  }

-- Marking a frame of the bitmap keeps the count right.
pub mark_used-IsCounted :
    (p : Pmm) (f : ℕ) → f < max_frames → IsCounted p → IsCounted (mark_used p f)
mark_used-IsCounted p f lt v = elim (Bool-cases (is_marked p f)) [
  | inl old ↦ rw (mark_used-old p f old) v
  | inr new ↦ mark_used-new p f new lt v
]

-- Freeing any address keeps the count right.
module _ (p : Pmm) (addr : ℕ) (v : IsCounted p) where
  abbrev frame : ℕ
  frame = addr / page_size

  module _ (inside : frame < p.total_frames) (old : is_marked p frame ≡ true) where
    count-pmm_free_frame :
        count (is_marked (pmm_free_frame p addr)) max_frames + 1 ≡ count (is_marked p) max_frames
    count-pmm_free_frame =
        let inside' : ltb frame p.total_frames ≡ true = ground arith in
        let now : is_marked (pmm_free_frame p addr) frame ≡ false =
          is_marked-pmm_free_frame p addr frame ∙ rw (inside', self-true frame) in
        let step =
          count-change (is_marked p) (is_marked (pmm_free_frame p addr)) frame max_frames
            (λ g. rw now (is_marked-pmm_free_frame p addr g ∙ rw inside'))
            (omega (arith, v.bounded)) in
        ground (arith, step, now, old)

    pub used_frames-pmm_free_frame : (pmm_free_frame p addr).used_frames + 1 ≡ p.used_frames
    unfolding pmm_free_frame
    used_frames-pmm_free_frame =
        let inside' : ltb frame p.total_frames ≡ true = ground arith in
        rw (inside', old)
          (omega (arith, v.counted, count-pmm_free_frame, count-le (is_marked p) max_frames))

  total-pmm_free_frame : (pmm_free_frame p addr).total_frames ≡ p.total_frames
  unfolding pmm_free_frame
  total-pmm_free_frame = ground arith

  unchanged : (ltb frame p.total_frames && is_marked p frame) ≡ false → pmm_free_frame p addr ≡ p
  unfolding pmm_free_frame
  unchanged h = rw h

  -- pmm_free_frame keeps the count of the frames in use right, whatever address it is given: one below
  -- the frames of the machine or not, one in use or not.
  pub pmm_free_frame-IsCounted : IsCounted (pmm_free_frame p addr)
  pmm_free_frame-IsCounted = elim (Bool-cases (ltb frame p.total_frames && is_marked p frame)) [
    | inl both ↦
        let inside : frame < p.total_frames = ground arith in
        let old : is_marked p frame ≡ true = ground arith in
        record {
          bounded = rw total-pmm_free_frame v.bounded;
          counted = omega (
            arith,
            used_frames-pmm_free_frame inside old,
            count-pmm_free_frame inside old,
            v.counted,
          );
        }
    | inr none_freed ↦ rw (unchanged none_freed) v
  ]
