-- ===== src/Drivers/Rtc.antt =====
-- drivers/rtc.c: what the six CMOS registers mean. The readings of the registers, each taken when no
-- update is in progress, are a list, since the hardware gives them.
pub mod Ports
pub mod Clock
mod Tests
use Prim.Native.Nat.{bit_and, bit_or}
use raptor_kernel.Prelude.{
  ℕ, zero, suc, ◌+◌, ◌-◌, ◌*◌, ◌/◌, ◌%◌, ◌^◌, ◌<◌, ◌≤◌, ◌≡◌, refl, ap, sym, ◌∙◌, Bool, true, false,
  not, ◌&&◌, Option, none, some, List, [], ◌∷◌, ltb, leb, ◌==◌, if◌then◌else◌, arith, ==_iff,
  all_below, all_below_lem, and_parts, Bool-cases,
}
use raptor_kernel.Bits.{bit_and-15}

pub record RtcTime : Type 0 where
  pub second : ℕ
  pub minute : ℕ
  pub hour : ℕ
  pub day : ℕ
  pub month : ℕ
  pub year : ℕ

-- memcmp of two readings.
abbrev pub same_time : RtcTime → RtcTime → Bool
same_time s t =
    (s.second == t.second)
    && (s.minute == t.minute)
    && (s.hour == t.hour)
    && (s.day == t.day)
    && (s.month == t.month)
    && (s.year == t.year)

-- The do-while loop: readings until two in a row agree.
unfoldable pub settle : RtcTime → List RtcTime → Option RtcTime
settle prev [] = none
settle prev (t ∷ ts) = let rest = settle t ts in if same_time prev t then some t else rest

unfoldable pub bcd_to_bin : ℕ → ℕ
bcd_to_bin v = (bit_and v 0x0f + v / 2 ^ 4 * 10) % 2 ^ 8

unfoldable pub from_bcd : RtcTime → RtcTime
unfolding bcd_to_bin
from_bcd t = record {
  second = bcd_to_bin (t.second);
  minute = bcd_to_bin (t.minute);
  hour = bit_or (bcd_to_bin (bit_and (t.hour) 0x7f)) (bit_and (t.hour) 0x80);
  day = bcd_to_bin (t.day);
  month = bcd_to_bin (t.month);
  year = bcd_to_bin (t.year % 2 ^ 8);
}

unfoldable pub from_12_hour : (status_b hour : ℕ) → ℕ
from_12_hour status_b hour =
    if (bit_and status_b 0x02 == 0) && not (bit_and hour 0x80 == 0)
    then (bit_and hour 0x7f + 12) % 24
    else hour

-- rtc_read after the readings agreed.
unfoldable pub normalize : (status_b : ℕ) → RtcTime → RtcTime
unfolding from_bcd from_12_hour
normalize status_b t =
    let u = if bit_and status_b 0x04 == 0 then from_bcd t else t in
    record u { hour = from_12_hour status_b (u.hour); year = u.year + 2000 }

unfoldable pub rtc_read : (status_b : ℕ) → List RtcTime → Option RtcTime
unfolding settle normalize
rtc_read status_b [] = none
rtc_read status_b (t ∷ ts) = elim (settle t ts) [
  | none ↦ none
  | some u ↦ some (normalize status_b u)
]

-- A number below 100 in two decimal digits of four bits.
abbrev pub bcd : ℕ → ℕ
bcd d = d / 10 * 16 + d % 10

-- bcd_to_bin undoes the coding of the clock.
pub bcd_to_bin-bcd : (d : ℕ) → d < 100 → bcd_to_bin (bcd d) ≡ d
unfolding bcd_to_bin
bcd_to_bin-bcd d h = omega (arith, bit_and-15 (bcd d), h)
