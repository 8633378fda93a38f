-- ===== src/Drivers/Rtc/Tests.antt =====
-- drivers/rtc.c on the 31st of December at noon, with a second that passes between two readings.
use raptor_kernel.Prelude.{◌≡◌, refl, true, some, [], ◌∷◌, arith}
use raptor_kernel.Drivers.Rtc.{RtcTime, rtc_read}
use raptor_kernel.Drivers.Rtc.Clock.{coded_time, here, later, rtc_read_lem}

abbrev noon : RtcTime
noon = record { second = 30; minute = 0; hour = 12; day = 31; month = 12; year = 26 }

abbrev before : RtcTime
before = record noon { second = 29 }

rtc_read_lem_example :
    rtc_read 0
      (coded_time true true before ∷ coded_time true true noon ∷ coded_time true true noon ∷ [])
    ≡ some (record noon { hour = 0; year = 2026 })
rtc_read_lem_example =
    rtc_read_lem 0 noon
      (coded_time true true before ∷ coded_time true true noon ∷ coded_time true true noon ∷ [])
      (record {
        second = omega arith;
        minute = omega arith;
        hour = omega arith;
        day = omega arith;
        month = omega arith;
        year = omega arith;
      })
      (later (coded_time true true before) (coded_time true true noon)
        (coded_time true true noon ∷ []) refl (here []))
