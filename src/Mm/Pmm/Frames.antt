-- ===== src/Mm/Pmm/Frames.antt =====
-- The bitmap of mm/pmm.c as a set of frames.
use Prim.Native.Nat.{bit_and, bit_or}
use native.Mathlib.Nat.{one-le-pow}
use raptor_kernel.Prelude.{
  ℕ, ◌/◌, ◌%◌, ◌^◌, ◌<◌, ◌≡◌, refl, ap, ◌∙◌, inl, inr, Bool, true, false, ◌&&◌, arith, ltb, ◌==◌,
  if◌then◌else◌, Bool-cases, ==_iff,
}
use raptor_kernel.Bits.{bit, all_but, bit-lt, bit_and-pow, bit-bit_or, bit-bit_and-all_but}
use raptor_kernel.Words.{sub32}
use raptor_kernel.Mm.Pmm.{Pmm, page_size, set_word, is_marked, mark_used, pmm_free_frame}

-- The frame's bit, as a digit.
abbrev digit : Pmm → ℕ → ℕ
digit p f = bit (p.bitmap (f / 32)) (f % 32)

is_marked-digit : (p : Pmm) (f : ℕ) → is_marked p f ≡ (digit p f == 1)
unfolding is_marked
is_marked-digit p f =
    let w = p.bitmap (f / 32) in
    let k = f % 32 in
    elim (Bool-cases (bit w k == 1)) [
      | inl one ↦
          let e : bit w k ≡ 1 = ground arith in
          rw (bit_and-pow w k, e) (ground (arith, one-le-pow k 2))
      | inr other ↦
          let e : bit w k ≡ 0 = ground (arith, bit-lt w k) in rw (bit_and-pow w k, e) (ground arith)
    ]

same_place : (f g : ℕ) → (f / 32 == g / 32) ≡ true → (g % 32 == f % 32) ≡ (g == f)
same_place f g h = ground arith

digit-set_word :
    (b : ℕ → ℕ) (w v f g : ℕ)
    → ((j : ℕ) → j < 32 → bit w j ≡ (if j == f % 32 then v else bit (b (f / 32)) j))
    → bit (set_word b (f / 32) w (g / 32)) (g % 32)
      ≡ (if g == f then v else bit (b (g / 32)) (g % 32))
unfolding set_word
digit-set_word b w v f g h = elim (Bool-cases (f / 32 == g / 32)) [
  | inl same ↦
      let e : f / 32 ≡ g / 32 = ground arith in
      rw (same, h (g % 32) (omega arith), same_place f g same, e)
  | inr other ↦ let no : (g == f) ≡ false = ground arith in rw (other, no)
]

one_test : (b : Bool) (d : ℕ) → ((if b then 1 else d) == 1) ≡ (if b then true else d == 1)
one_test true d = refl
one_test false d = refl

zero_test : (b : Bool) (d : ℕ) → ((if b then 0 else d) == 1) ≡ (if b then false else d == 1)
zero_test true d = refl
zero_test false d = refl

already :
    (p : Pmm) (f g : ℕ) (v : Bool)
    → is_marked p f ≡ v
    → is_marked p g ≡ (if g == f then v else is_marked p g)
already p f g v h = elim (Bool-cases (g == f)) [
  | inl same ↦ rw same (ap (is_marked p) ((==_iff g f).0 same) ∙ h)
  | inr other ↦ rw other
]

-- Marking a frame puts it into the set, and changes no other.
pub is_marked-mark_used :
    (p : Pmm) (f g : ℕ) → is_marked (mark_used p f) g ≡ (if g == f then true else is_marked p g)
unfolding mark_used
is_marked-mark_used p f g = elim (Bool-cases (is_marked p f)) [
  | inl old ↦ rw old (already p f g true old)
  | inr new ↦ rw (
    new,
    is_marked-digit _ g,
    digit-set_word p.bitmap (bit_or (p.bitmap (f / 32)) (2 ^ (f % 32))) 1 f g
        (λ j h. bit-bit_or (p.bitmap (f / 32)) (f % 32) j),
    one_test (g == f) (digit p g),
    ← is_marked-digit p g,
  )
]

abbrev cleared : Pmm → ℕ → ℕ → Pmm
cleared p f n = record p {
  bitmap = set_word p.bitmap (f / 32) (bit_and (p.bitmap (f / 32)) (all_but 32 (f % 32)));
  used_frames = n;
}

is_marked-cleared :
    (p : Pmm) (f n g : ℕ) → is_marked (cleared p f n) g ≡ (if g == f then false else is_marked p g)
is_marked-cleared p f n g =
    is_marked-digit (cleared p f n) g
    ∙ rw (
      digit-set_word p.bitmap (bit_and (p.bitmap (f / 32)) (all_but 32 (f % 32))) 0 f g
          (λ j h. bit-bit_and-all_but 32 (p.bitmap (f / 32)) (f % 32) j (omega arith) h),
      zero_test (g == f) (digit p g),
      is_marked-digit p g,
    )

-- Freeing the frame of an address takes it out of the set, if it is a frame of the machine, and
-- changes no other.
pub is_marked-pmm_free_frame :
    (p : Pmm) (addr g : ℕ)
    → is_marked (pmm_free_frame p addr) g ≡ (
        if ltb (addr / page_size) p.total_frames && g == addr / page_size
        then false
        else is_marked p g)
unfolding pmm_free_frame
is_marked-pmm_free_frame p addr g = elim (Bool-cases (ltb (addr / page_size) p.total_frames)) [
  | inl inside ↦ elim (Bool-cases (is_marked p (addr / page_size))) [
    | inl old ↦ rw (inside, old) (is_marked-cleared p (addr / page_size) (sub32 p.used_frames 1) g)
    | inr new ↦ rw (inside, new) (already p (addr / page_size) g false new)
  ]
  | inr outside ↦ rw outside
]
