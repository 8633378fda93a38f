-- ===== src/Mm/Pmm/Boot.antt =====
-- pmm_init of mm/pmm.c: which frames it reserves.
use Prim.Native.Nat.{bit_and}
use raptor_kernel.Prelude.{
  ℕ, zero, suc, ◌+◌, ◌*◌, ◌/◌, ◌^◌, ◌<◌, ◌≤◌, ◌≡◌, ◌≢◌, refl, ◌∙◌, true, false, ◌&&◌, arith, ltb,
  leb, ◌==◌, if◌then◌else◌, some, dec_lt, min,
}
use raptor_kernel.Words.{add32}
use raptor_kernel.Mm.Pmm.{
  Pmm, MultibootInfo, page_size, max_frames, flag_mem, v2p, is_marked, mark_used, reserve_loop,
  pmm_init, pmm_total_kib,
}
use raptor_kernel.Mm.Pmm.Frames.{is_marked-mark_used}
use raptor_kernel.Mm.Pmm.Count.{IsCounted, total-mark_used, mark_used-IsCounted}

-- The frames from `k` on that begin below `end` are marked, besides those that were.
record Reserved (p : Pmm) (k end : ℕ) (p' : Pmm) : Type 0 where
  marks :
      (g : ℕ)
      → is_marked p' g ≡ (if leb k g && ltb (g * page_size) end then true else is_marked p g)
  total : p'.total_frames ≡ p.total_frames
  counted : IsCounted p'

module _ (fuel k end : ℕ) (p : Pmm) where
  reserve-step :
      (k * page_size < end)
      → end ≤ max_frames * page_size
      → reserve_loop (suc fuel) (k * page_size) end p
        ≡ reserve_loop fuel ((k + 1) * page_size) end (mark_used p k)
  unfolding reserve_loop
  reserve-step more low =
      let more' : ltb (k * page_size) end ≡ true = ground arith in
      let next : add32 (k * page_size) page_size ≡ (k + 1) * page_size = omega arith in
      let here : k * page_size / page_size ≡ k = omega arith in rw (more', next, here)

  Reserved-step :
      (p' : Pmm)
      → Reserved (mark_used p k) (k + 1) end p'
      → k * page_size < end
      → Reserved p k end p'
  Reserved-step p' r more = record {
    marks = λ g. r.marks g ∙ rw (is_marked-mark_used p k g) (ground arith);
    total = r.total ∙ total-mark_used p k;
    counted = r.counted;
  }

reserve_loop_lem :
    (fuel k end : ℕ) (p : Pmm)
    → 0 < fuel
    → end + page_size ≤ (k + fuel) * page_size
    → end ≤ max_frames * page_size
    → IsCounted p
    → (p' : Pmm) × (reserve_loop fuel (k * page_size) end p ≡ some p') × Reserved p k end p'
reserve_loop_lem zero k end p some_fuel enough low v = absurd (omega arith)
reserve_loop_lem (suc fuel) k end p some_fuel enough low v = elim (dec_lt (k * page_size) end) [
  | yes more ↦
      let small : k < max_frames = omega arith in
      let (p', e, r) =
        reserve_loop_lem fuel (k + 1) end (mark_used p k) (omega arith) (omega arith) low
          (mark_used-IsCounted p k small v) in
      (p', reserve-step fuel k end p more low ∙ e, Reserved-step fuel k end p p' r more)
  | no done ↦ (
    p,
    unfold reserve_loop in rw (let t : ltb (k * page_size) end ≡ false = ground arith in t),
    record { marks = λ g. ground arith; total = refl; counted = v },
  )
]

sized-IsCounted :
    (p : Pmm) (total : ℕ)
    → total ≤ max_frames
    → IsCounted p
    → IsCounted (record p { total_frames = total })
unfolding is_marked
sized-IsCounted p total le v = record { bounded = le; counted = v.counted }

sized-marks :
    (p : Pmm) (total end g : ℕ)
    → (if leb 0 g && ltb (g * page_size) end
        then true
        else is_marked (record p { total_frames = total }) g)
      ≡ (if ltb (g * page_size) end then true else is_marked p g)
unfolding is_marked
sized-marks p total end g = let low : leb 0 g ≡ true = ground arith in rw low

pmm_init-reserve :
    (fuel heap_end : ℕ) (mbi : MultibootInfo) (p : Pmm)
    → bit_and mbi.flags flag_mem ≢ 0
    → mbi.mem_upper + 1024 < 2 ^ 32
    → pmm_init fuel mbi heap_end p
      ≡ reserve_loop fuel
          (0 * page_size)
          (v2p heap_end)
          (record p { total_frames = min max_frames ((mbi.mem_upper + 1024) / 4) })
unfolding pmm_init
pmm_init-reserve fuel heap_end mbi p mem small =
    let has : (bit_and mbi.flags flag_mem == 0) ≡ false = ground arith in
    let kib : add32 1024 mbi.mem_upper ≡ mbi.mem_upper + 1024 = omega arith in
    let capped : (if ltb max_frames ((mbi.mem_upper + 1024) / 4)
          then max_frames
          else (mbi.mem_upper + 1024) / 4)
        ≡ min max_frames ((mbi.mem_upper + 1024) / 4) =
      ground arith in
    rw (has, kib, capped)

-- Enough rounds for every frame that the bitmap describes.
abbrev pub boot_fuel : ℕ
boot_fuel = max_frames + 1

-- With a memory map and a heap that ends within the first GiB of physical memory, pmm_init does
-- not panic, ends within `boot_fuel` rounds, and marks exactly the frames that begin below the
-- heap's end besides those that were marked. The number of frames is the machine's memory in
-- units of 4 KiB, at most `max_frames`, if the KiB fit 32 bits.
pub pmm_init_lem :
    (fuel heap_end : ℕ) (mbi : MultibootInfo) (p : Pmm)
    → boot_fuel ≤ fuel
    → v2p heap_end ≤ max_frames * page_size
    → bit_and mbi.flags flag_mem ≢ 0
    → mbi.mem_upper + 1024 < 2 ^ 32
    → IsCounted p
    → (p' : Pmm) × (pmm_init fuel mbi heap_end p ≡ some p')
      × IsCounted p'
      × (p'.total_frames ≡ min max_frames ((mbi.mem_upper + 1024) / 4))
      × ((g : ℕ)
          → is_marked p' g ≡ (if ltb (g * page_size) (v2p heap_end) then true else is_marked p g))
pmm_init_lem fuel heap_end mbi p enough low mem small v =
    let total : ℕ = min max_frames ((mbi.mem_upper + 1024) / 4) in
    let (p', e, r) =
      reserve_loop_lem fuel 0 (v2p heap_end) (record p { total_frames = total }) (omega arith)
        (omega arith) low (sized-IsCounted p total (omega arith) v) in
    (
      p',
      pmm_init-reserve fuel heap_end mbi p mem small ∙ e,
      r.counted,
      r.total,
      λ g. r.marks g ∙ sized-marks p total (v2p heap_end) g,
    )

-- pmm_total_kib is 4 KiB for each frame, as their number is bounded.
pub pmm_total_kib_lem :
    (p : Pmm) → p.total_frames ≤ max_frames → pmm_total_kib p ≡ p.total_frames * 4
unfolding pmm_total_kib
pmm_total_kib_lem p few = omega (arith, few)
