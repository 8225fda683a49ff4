-- ===== src/Clock/Tests.antt =====
-- A run of the clock of drv_rtc.c.
use dz_os.Prelude.{◌+◌, ◌≡◌, refl, false, some, [], ◌∷◌, arith}
use dz_os.Clock.Time.{RtcTime, stable_reading, same_time, read_rtc_time}
use dz_os.Clock.Calendar.{to_bcd, bcd_of, days_of_years, days_before, read_rtc_time-calendar_days}

-- 15 January 2024, 12:30:00
abbrev winter : RtcTime
winter = record { seconds = 0; minutes = 30; hours = 12; day_of_month = 15; month = 1; year = 24 }

-- a reading before the last change of the second
abbrev before : RtcTime
before = record (bcd_of winter) { seconds = 89; minutes = 41 }

calendar_example :
    read_rtc_time false before (bcd_of winter ∷ bcd_of winter ∷ []) ≡ some (1705321800 + 86400)
unfolding stable_reading same_time to_bcd days_of_years days_before
calendar_example =
    read_rtc_time-calendar_days false before (bcd_of winter ∷ bcd_of winter ∷ []) winter
      (
        omega arith,
        omega arith,
        omega arith,
        omega arith,
        omega arith,
        omega arith,
        omega arith,
        omega arith,
      )
      refl
