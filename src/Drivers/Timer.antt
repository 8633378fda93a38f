-- ===== src/Drivers/Timer.antt =====
-- drivers/timer.c: the counter of ticks, a 64-bit number, and the programming of channel 0. The
-- ticks that pass while timer_sleep_ms halts come from the hardware.
pub mod Sleep
mod Tests
use Prim.Native.Nat.{bit_and}
use raptor_kernel.Prelude.{
  ℕ, zero, suc, ◌+◌, ◌*◌, ◌/◌, ◌%◌, ◌^◌, List, [], ◌∷◌, Option, none, some, ltb, if◌then◌else◌,
}

abbrev pub timer_hz : ℕ
timer_hz = 100

abbrev pub pit_base_hz : ℕ
pit_base_hz = 1193182

unfoldable pub timer_irq : (ticks : ℕ) → ℕ
timer_irq ticks = (ticks + 1) % 2 ^ 64

-- The bytes that timer_init sends: the command, and the divisor's low and high byte.
unfoldable pub timer_init : List (ℕ × ℕ)
timer_init =
    let divisor = pit_base_hz / timer_hz % 2 ^ 16 in
    (0x43, 0x36) ∷ (0x40, bit_and divisor 0xff) ∷ (0x40, divisor / 2 ^ 8) ∷ []

unfoldable pub timer_uptime_ms : (ticks : ℕ) → ℕ
timer_uptime_ms ticks = ticks * (1000 / timer_hz) % 2 ^ 64

-- The tick that timer_sleep_ms waits for.
unfoldable pub sleep_end : (ticks ms : ℕ) → ℕ
sleep_end ticks ms = (ticks + (ms * timer_hz + 999) % 2 ^ 64 / 1000) % 2 ^ 64

-- `while (ticks < end)`, on the ticks that each interrupt finds: the tick at which the loop ends.
unfoldable pub sleep_loop : (end' : ℕ) → (ticks : ℕ) → List ℕ → Option ℕ
sleep_loop end' ticks [] = if ltb ticks end' then none else some ticks
sleep_loop end' ticks (t ∷ ts) =
    let later = sleep_loop end' t ts in if ltb ticks end' then later else some ticks

unfoldable pub timer_sleep_ms : (ticks ms : ℕ) → List ℕ → Option ℕ
unfolding sleep_loop sleep_end
timer_sleep_ms ticks ms later = sleep_loop (sleep_end ticks ms) ticks later
