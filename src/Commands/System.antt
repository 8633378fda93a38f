-- ===== src/Commands/System.antt =====
-- The commands of shell/commands.c that report on the machine. The readings of the clock come from the
-- hardware.
use raptor_kernel.Prelude.{ℕ, ◌/◌, ◌%◌, ◌^◌, none, some, List, [], ◌∷◌}
use raptor_kernel.Words.{sub32}
use raptor_kernel.Mm.Allocator.{Allocator}
use raptor_kernel.Mm.Pmm.{pmm_total_kib, pmm_used_kib}
use raptor_kernel.Kprintf.{word}
use raptor_kernel.Drivers.Timer.{timer_uptime_ms}
use raptor_kernel.Drivers.Rtc.{RtcTime, rtc_read}
use raptor_kernel.Commands.World.{
  Action, pure, ◌>>=◌, ◌>>◌, gets, console_write, kprintf, on_console,
}
use raptor_kernel.Console

module _ {A : Allocator} where
  unfoldable pub cmd_clear : List (List ℕ) → Action A ℕ
  cmd_clear argv = do on_console Console.console_clear; pure 0

  unfoldable pub cmd_free : List (List ℕ) → Action A ℕ
  cmd_free argv = do
    heap ← gets (λ w. A.kheap_stats w.heap)
    pmm ← gets (λ w. w.pmm)
    console_write "              total        used        free\n"
    kprintf "Mem:    %8u KiB %8u KiB %8u KiB\n" (
        word (pmm_total_kib pmm)
        ∷ word (pmm_used_kib pmm)
        ∷ word (sub32 (pmm_total_kib pmm) (pmm_used_kib pmm))
        ∷ [])
    kprintf "Heap:   %8u KiB %8u KiB %8u KiB  (largest free block %u KiB)\n" (
        word (heap.total / 1024)
        ∷ word (heap.used / 1024)
        ∷ word (sub32 heap.total heap.used / 1024)
        ∷ word (heap.largest_free / 1024)
        ∷ [])
    pure 0

  unfoldable pub cmd_uptime : List (List ℕ) → Action A ℕ
  cmd_uptime argv = do
    ticks ← gets (λ w. w.ticks)
    let secs = timer_uptime_ms ticks / 1000 % 2 ^ 32
    kprintf "up %u:%02u:%02u (%u ticks at %u Hz)\n" (
        word (secs / 3600)
        ∷ word (secs / 60 % 60)
        ∷ word (secs % 60)
        ∷ word (ticks % 2 ^ 32)
        ∷ word 100
        ∷ [])
    pure 0

  -- rtc_read ends when the readings agree.
  unfoldable pub cmd_date : (status_b : ℕ) → List RtcTime → List (List ℕ) → Action A ℕ
  cmd_date status_b readings argv w = elim (rtc_read status_b readings) [
    | none ↦ none
    | some t ↦
        (do
          kprintf "%u-%02u-%02u %02u:%02u:%02u UTC\n" (
              word t.year
              ∷ word t.month
              ∷ word t.day
              ∷ word t.hour
              ∷ word t.minute
              ∷ word t.second
              ∷ [])
          pure 0)
          w
  ]
