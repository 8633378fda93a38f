-- ===== src/Drivers/Rtc/Clock.antt =====
-- rtc_read of drivers/rtc.c on a clock that counts in BCD or in binary, and on 12 or 24 hours.
use Prim.Native.Nat.{bit_and, bit_or}
use raptor_kernel.Prelude.{
  ℕ, ◌+◌, ◌%◌, ◌^◌, ◌<◌, ◌≡◌, refl, ap, ◌∙◌, inl, inr, Bool, true, false, not, ◌&&◌, Option, none,
  some, List, [], ◌∷◌, ltb, ◌==◌, if◌then◌else◌, arith, Bool-cases, ==_iff, all_below,
  all_below_lem,
}
use raptor_kernel.Drivers.Rtc.{
  RtcTime, same_time, settle, bcd, bcd_to_bin, bcd_to_bin-bcd, from_bcd, from_12_hour, normalize,
  rtc_read,
}

-- The clock's status register says whether it counts in BCD, and whether on 12 hours.
abbrev pub in_bcd : (status_b : ℕ) → Bool
in_bcd status_b = bit_and status_b 0x04 == 0

abbrev pub on_12 : (status_b : ℕ) → Bool
on_12 status_b = bit_and status_b 0x02 == 0

-- The register of a number.
abbrev pub coded : (in_bcd : Bool) → ℕ → ℕ
coded true d = bcd d
coded false d = d

-- The register of the hour `h` of the day: on 12 hours the number is from 1 to 12, and bit 7 tells the
-- afternoon.
abbrev pub coded_hour : (in_bcd on_12 : Bool) → (h : ℕ) → ℕ
coded_hour b false h = coded b h
coded_hour b true h = coded b (if h % 12 == 0 then 12 else h % 12) + (if ltb h 12 then 0 else 0x80)

-- The registers at the second, minute and hour of a day of the 21st century.
abbrev pub coded_time : (in_bcd on_12 : Bool) → RtcTime → RtcTime
coded_time b o t = record {
  second = coded b t.second;
  minute = coded b t.minute;
  hour = coded_hour b o t.hour;
  day = coded b t.day;
  month = coded b t.month;
  year = coded b t.year;
}

-- The readings first agree at `t`: until then no two in a row are the same.
pub data Agree (t : RtcTime) : List RtcTime → Type 0 where
  here : (ts : List RtcTime) → Agree t (t ∷ t ∷ ts)
  later :
      (r s : RtcTime) (ts : List RtcTime)
      → same_time r s ≡ false
      → Agree t (s ∷ ts)
      → Agree t (r ∷ s ∷ ts)

same_self : (n : ℕ) → (n == n) ≡ true
same_self n = (==_iff n n).1 refl

settle_lem : (t r : RtcTime) (ts : List RtcTime) → Agree t (r ∷ ts) → settle r ts ≡ some t
unfolding settle
settle_lem t _ _ (here ts) =
    rw
      (
        same_self (t.second),
        same_self (t.minute),
        same_self (t.hour),
        same_self (t.day),
        same_self (t.month),
        same_self (t.year),
      )
      refl
settle_lem t _ _ (later r s ts ne a) = rw ne (settle_lem t s ts a)

-- The hour that rtc_read makes of the register.
abbrev hour_read : (in_bcd on_12 : Bool) → ℕ → ℕ
hour_read b o reg =
    let h = if b then bit_or (bcd_to_bin (bit_and reg 0x7f)) (bit_and reg 0x80) else reg in
    if o && not (bit_and h 0x80 == 0) then (bit_and h 0x7f + 12) % 24 else h

-- The hour that comes out: noon and midnight are swapped on a clock of 12 hours.
abbrev pub hour_out : (on_12 : Bool) → (h : ℕ) → ℕ
hour_out o h = if o && (h == 0) then 12 else if o && (h == 12) then 0 else h

hour_test :
    (b o : Bool) → all_below 24 (λ h. hour_read b o (coded_hour b o h) == hour_out o h) ≡ true
unfolding bcd_to_bin
hour_test true true = refl
hour_test true false = refl
hour_test false true = refl
hour_test false false = refl

hour_read_lem : (b o : Bool) (h : ℕ) → h < 24 → hour_read b o (coded_hour b o h) ≡ hour_out o h
hour_read_lem b o h small = (==_iff _ _).0 (
    all_below_lem 24 (λ h. hour_read b o (coded_hour b o h) == hour_out o h) (hour_test b o) h
      small)

bcd_small : (d : ℕ) → d < 100 → bcd d % 2 ^ 8 ≡ bcd d
bcd_small d h = omega arith

-- Each number of a date is below 100, and the hour below 24.
pub record IsTime (t : RtcTime) : Type 0 where
  pub second : t.second < 100
  pub minute : t.minute < 100
  pub hour : t.hour < 24
  pub day : t.day < 100
  pub month : t.month < 100
  pub year : t.year < 100

normalize_lem :
    (status_b : ℕ) (t : RtcTime)
    → IsTime t
    → normalize status_b (coded_time (in_bcd status_b) (on_12 status_b) t)
      ≡ record t { hour = hour_out (on_12 status_b) t.hour; year = t.year + 2000 }
unfolding normalize from_bcd from_12_hour
normalize_lem status_b t ok =
    let hours = λ (b o : Bool). hour_read_lem b o t.hour ok.hour in
    elim (Bool-cases (in_bcd status_b)) [
      | inl b ↦ elim (Bool-cases (on_12 status_b)) [
        | inl o ↦
            rw
              (
                b,
                o,
                bcd_to_bin-bcd t.second ok.second,
                bcd_to_bin-bcd t.minute ok.minute,
                hours true true,
                bcd_to_bin-bcd t.day ok.day,
                bcd_to_bin-bcd t.month ok.month,
                bcd_small t.year ok.year,
                bcd_to_bin-bcd t.year ok.year,
              )
              refl
        | inr o ↦
            rw
              (
                b,
                o,
                bcd_to_bin-bcd t.second ok.second,
                bcd_to_bin-bcd t.minute ok.minute,
                hours true false,
                bcd_to_bin-bcd t.day ok.day,
                bcd_to_bin-bcd t.month ok.month,
                bcd_small t.year ok.year,
                bcd_to_bin-bcd t.year ok.year,
              )
              refl
      ]
      | inr b ↦ elim (Bool-cases (on_12 status_b)) [
        | inl o ↦ rw (b, o, hours false true) refl
        | inr o ↦ rw (b, o, hours false false) refl
      ]
    ]

no_readings : (t : RtcTime) → Agree t [] → ⊥
no_readings t a = elim a [ ]

-- Whatever the clock's mode, BCD or binary, 12 or 24 hours, and however often it ticks between the
-- readings: once two readings in a row agree on a time of the 21st century, rtc_read returns that time,
-- but for one thing. On a clock of 12 hours noon comes out as the hour 0 and midnight as the hour 12.
pub rtc_read_lem :
    (status_b : ℕ) (t : RtcTime) (readings : List RtcTime)
    → IsTime t
    → Agree (coded_time (in_bcd status_b) (on_12 status_b) t) readings
    → rtc_read status_b readings
      ≡ some (record t { hour = hour_out (on_12 status_b) t.hour; year = t.year + 2000 })
unfolding rtc_read
rtc_read_lem status_b t [] ok a = absurd (no_readings _ a)
rtc_read_lem status_b t (r ∷ rs) ok a =
    let u = coded_time (in_bcd status_b) (on_12 status_b) t in
    ap (λ o. elim o as (λ x. Option RtcTime) [ none ↦ none | some u ↦ some (normalize status_b u) ])
      (settle_lem u r rs a)
    ∙ ap some (normalize_lem status_b t ok)
