-- ===== src/Drivers/Timer/Sleep.antt =====
-- timer_sleep_ms of drivers/timer.c: how long it waits.
use raptor_kernel.Prelude.{
  ℕ, zero, suc, ◌+◌, ◌-◌, ◌*◌, ◌/◌, ◌%◌, ◌^◌, ◌<◌, ◌≤◌, ◌≡◌, refl, inl, inr, false, List, [], ◌∷◌,
  some, ltb, arith, Bool-cases,
}
use raptor_kernel.Drivers.Timer.{timer_hz, sleep_end, sleep_loop, timer_sleep_ms}

-- One tick after the other, `n` of them after `t`.
unfoldable pub ticking : (t n : ℕ) → List ℕ
ticking t zero = []
ticking t (suc n) = (t + 1) ∷ ticking (t + 1) n

sleep_loop-ticking :
    (last t n : ℕ) → t ≤ last → last ≤ t + n → sleep_loop last t (ticking t n) ≡ some last
unfolding sleep_loop ticking
sleep_loop-ticking last t zero h k =
    let e : t ≡ last = omega arith in
    let over : ltb t last ≡ false = ground (arith, e) in rw (over, e) refl
sleep_loop-ticking last t (suc n) h k = elim (Bool-cases (ltb t last)) [
  | inl waits ↦
      let later : t < last = ground (arith, waits) in
      rw waits (sleep_loop-ticking last (t + 1) n (omega (arith, later)) (omega arith))
  | inr done ↦ let e : t ≡ last = ground (arith, done) in rw (done, e) refl
]

-- When the ticks come one by one and enough of them do, timer_sleep_ms ends at a tick from which on
-- the time asked for has passed, each tick being 10 ms, and not a whole tick later. The time is such
-- that the 64-bit sums do not wrap.
pub timer_sleep_ms_lem :
    (t ms n : ℕ)
    → ms * timer_hz + 999 < 2 ^ 64
    → t + ms < 2 ^ 64
    → ms ≤ n
    → (last : ℕ) × (timer_sleep_ms t ms (ticking t n) ≡ some last)
      × (ms ≤ (last - t) * 10)
      × ((last - t) * 10 < ms + 10)
unfolding timer_sleep_ms sleep_end
timer_sleep_ms_lem t ms n small clock enough =
    let last : ℕ = (t + (ms * timer_hz + 999) % 2 ^ 64 / 1000) % 2 ^ 64 in
    (
      last,
      sleep_loop-ticking last t n (omega (arith, small, clock))
          (omega (arith, small, clock, enough)),
      omega (arith, small, clock),
      omega (arith, small, clock),
    )
