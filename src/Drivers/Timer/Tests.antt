-- ===== src/Drivers/Timer/Tests.antt =====
-- drivers/timer.c: a sleep of 25 ms, and the divisor.
use raptor_kernel.Prelude.{ℕ, ◌-◌, ◌*◌, ◌<◌, ◌≤◌, ◌≡◌, refl, some, [], ◌∷◌, arith}
use raptor_kernel.Drivers.Timer.{timer_init, timer_sleep_ms}
use raptor_kernel.Drivers.Timer.Sleep.{ticking, timer_sleep_ms_lem}

-- 11931, a rate of 100.007 Hz.
divisor : timer_init ≡ (0x43, 0x36) ∷ (0x40, 155) ∷ (0x40, 46) ∷ []
unfolding timer_init
divisor = refl

timer_sleep_ms_lem_example :
    (last : ℕ) × (timer_sleep_ms 7 25 (ticking 7 30) ≡ some last)
    × (25 ≤ (last - 7) * 10)
    × ((last - 7) * 10 < 35)
timer_sleep_ms_lem_example = timer_sleep_ms_lem 7 25 30 (omega arith) (omega arith) (omega arith)
