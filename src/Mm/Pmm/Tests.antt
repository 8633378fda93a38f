-- ===== src/Mm/Pmm/Tests.antt =====
-- mm/pmm.c on a machine of 8 MiB whose heap ends at 5 MiB.
use Prim.Native.Nat.{bit_and-bitwise}
use raptor_kernel.Prelude.{◌%◌, ◌^◌, ℕ, ◌≡◌, ◌⊎◌, zero, suc, sym, refl, false, arith}
use raptor_kernel.Mm.Pmm.{
  Pmm, MultibootInfo, is_marked, pmm_alloc_frame, alloc_loop, mark_used, set_word, pmm_free_frame,
  max_frames,
}
use raptor_kernel.Mm.Pmm.Count.{IsCounted, count, mark_used-IsCounted, pmm_free_frame-IsCounted}
use raptor_kernel.Mm.Pmm.Service.{Taken, OutOfMemory, pmm_alloc_frame_lem}

-- The state of the program's static variables before pmm_init.
abbrev pub cold : Pmm
cold = record { bitmap = λ _. 0; total_frames = 0; used_frames = 0 }

abbrev machine : MultibootInfo
machine = record { flags = 1; mem_upper = 7168 }

-- The heap's end as a virtual address.
abbrev heap_end : ℕ
heap_end = 0xC050_0000

cold-unmarked : (f : ℕ) → is_marked cold f ≡ false
unfolding is_marked
cold-unmarked f = ground (arith, bit_and-bitwise 0 (2 ^ (f % 32)))

count-cold : (n : ℕ) → count (is_marked cold) n ≡ 0
unfolding count
count-cold zero = refl
count-cold (suc n) = ground (arith, cold-unmarked n, count-cold n)

pub cold-IsCounted : IsCounted cold
cold-IsCounted = record { bounded = omega arith; counted = sym (count-cold max_frames) }

-- A machine of four frames, the first in use.
abbrev sized : Pmm
sized = record cold { total_frames = 4 }

sized-IsCounted : IsCounted sized
unfolding is_marked
sized-IsCounted = record { bounded = omega arith; counted = cold-IsCounted.counted }

abbrev small : Pmm
small = mark_used sized 0

small-IsCounted : IsCounted small
small-IsCounted = mark_used-IsCounted sized 0 (omega arith) sized-IsCounted

alloc_small : (pmm_alloc_frame small).0 ≡ 4096
unfolding pmm_alloc_frame alloc_loop is_marked mark_used set_word
alloc_small = refl

alloc_again : (pmm_alloc_frame (pmm_alloc_frame small).1).0 ≡ 8192
unfolding pmm_alloc_frame alloc_loop is_marked mark_used set_word
alloc_again = refl

-- Frame 0 can be freed; the next allocation then returns 0, as if memory were exhausted.
freed_zero :
    ((pmm_free_frame small 0).used_frames ≡ 0) × ((pmm_alloc_frame (pmm_free_frame small 0)).0 ≡ 0)
unfolding pmm_alloc_frame alloc_loop is_marked mark_used set_word pmm_free_frame
freed_zero = (refl, refl)

pmm_alloc_frame_lem_example :
    Taken small (pmm_alloc_frame small).0 (pmm_alloc_frame small).1
    ⊎ OutOfMemory small (pmm_alloc_frame small).0 (pmm_alloc_frame small).1
pmm_alloc_frame_lem_example = pmm_alloc_frame_lem small small-IsCounted

pmm_free_frame-IsCounted_example : IsCounted (pmm_free_frame small 5000)
pmm_free_frame-IsCounted_example = pmm_free_frame-IsCounted small 5000 small-IsCounted
