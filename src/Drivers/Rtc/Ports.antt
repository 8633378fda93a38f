-- ===== src/Drivers/Rtc/Ports.antt =====
-- How drivers/rtc.c reads the registers of the clock. What a register reads as at an access comes from
-- the hardware: `cmos t reg` is for access number `t`.
use Prim.Native.Nat.{bit_and}
use raptor_kernel.Prelude.{
  ℕ, zero, suc, ◌+◌, ◌<◌, ◌≡◌, ◌≢◌, ap, ◌∙◌, Bool, true, Option, none, some, ◌!=◌, if◌then◌else◌,
  arith,
}
use raptor_kernel.Drivers.Rtc.{RtcTime}

-- An access: what the register reads as, and the number of the next one.
unfoldable pub cmos_read : (cmos : ℕ → ℕ → ℕ) → (t reg : ℕ) → ℕ × ℕ
cmos_read cmos t reg = (cmos t reg, t + 1)

unfoldable pub update_in_progress : (cmos : ℕ → ℕ → ℕ) → (t : ℕ) → Bool × ℕ
unfolding cmos_read
update_in_progress cmos t = let (v, t') = cmos_read cmos t 0x0a in (bit_and v 0x80 != 0, t')

-- The loop on the update flag: the access after it, `none` when it runs out of fuel.
unfoldable pub wait_update : ℕ → (cmos : ℕ → ℕ → ℕ) → (t : ℕ) → Option ℕ
unfolding update_in_progress
wait_update zero cmos t = none
wait_update (suc fuel) cmos t =
    let (busy, t') = update_in_progress cmos t in
    let later = wait_update fuel cmos t' in if busy then later else some t'

unfoldable pub read_registers : (cmos : ℕ → ℕ → ℕ) → (t : ℕ) → RtcTime × ℕ
unfolding cmos_read
read_registers cmos t =
    let (second, t1) = cmos_read cmos t 0x00 in
    let (minute, t2) = cmos_read cmos t1 0x02 in
    let (hour, t3) = cmos_read cmos t2 0x04 in
    let (day, t4) = cmos_read cmos t3 0x07 in
    let (month, t5) = cmos_read cmos t4 0x08 in
    let (year, t6) = cmos_read cmos t5 0x09 in
    (
      record {
        second = second;
        minute = minute;
        hour = hour;
        day = day;
        month = month;
        year = year;
      },
      t6,
    )

unfoldable pub read_raw : ℕ → (cmos : ℕ → ℕ → ℕ) → (t : ℕ) → Option (RtcTime × ℕ)
unfolding wait_update read_registers
read_raw fuel cmos t = elim (wait_update fuel cmos t) [
  | none ↦ none
  | some t' ↦ some (read_registers cmos t')
]

-- wait_update reads the flag until it is clear, and no register before.
pub wait_update_lem :
    (fuel : ℕ) (cmos : ℕ → ℕ → ℕ) (t n : ℕ)
    → ((i : ℕ) → i < n → bit_and (cmos (t + i) 0x0a) 0x80 ≢ 0)
    → bit_and (cmos (t + n) 0x0a) 0x80 ≡ 0
    → n < fuel
    → wait_update fuel cmos t ≡ some (t + n + 1)
unfolding wait_update update_in_progress cmos_read
wait_update_lem zero cmos t n busy done enough = absurd (omega (arith, enough))
wait_update_lem (suc fuel) cmos t zero busy done enough =
    let e : t + 0 ≡ t = omega arith in
    let now : bit_and (cmos t 0x0a) 0x80 ≡ 0 =
      ap (λ k. bit_and (cmos k 0x0a) 0x80) (omega arith) ∙ done in
    rw now (ap some (omega arith))
wait_update_lem (suc fuel) cmos t (suc n) busy done enough =
    let flag : (bit_and (cmos t 0x0a) 0x80 != 0) ≡ true =
      (let ne = busy 0 (omega arith) in
        ground (arith, ne, ap (λ k. bit_and (cmos k 0x0a) 0x80) (zeroth t))) in
    rw flag (
      wait_update_lem fuel cmos (t + 1) n
        (λ i low z.
          busy (i + 1) (omega (arith, low))
            (ap (λ k. bit_and (cmos k 0x0a) 0x80) (omega arith) ∙ z))
        (ap (λ k. bit_and (cmos k 0x0a) 0x80) (omega arith) ∙ done) (omega (arith, enough))
      ∙ ap some (omega arith))
  where
    zeroth : (t : ℕ) → t + 0 ≡ t
    zeroth t = omega arith
