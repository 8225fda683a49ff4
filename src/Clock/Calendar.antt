-- ===== src/Clock/Calendar.antt =====
-- The conversion of drv_rtc.c against a calendar that counts days.
use dz_os.Prelude.{
  ℕ, zero, suc, ◌+◌, ◌-◌, ◌*◌, ◌/◌, ◌%◌, ◌≤◌, ◌<◌, ◌≡◌, refl, ap, Bool, true, false, not, ◌&&◌,
  ◌||◌, some, List, arith, ltb, ◌==◌, if◌then◌else◌, u8,
}
use dz_os.Clock.Time.{
  RtcTime, days_per_month, month_days, leap_years, unix_time, stable_reading, convert_bcd_to_binary,
  from_bcd, read_rtc_time,
}

-- the leap years of the Gregorian calendar
abbrev pub is_leap : ℕ → Bool
is_leap y = y % 4 == 0 && (not (y % 100 == 0) || y % 400 == 0)

abbrev pub one_if : Bool → ℕ
one_if true = 1
one_if false = 0

one_if_bound : (b : Bool) → one_if b ≤ 1
one_if_bound true = omega arith
one_if_bound false = omega arith

-- the days of the first n years from 1970 on
unfoldable pub days_of_years : ℕ → ℕ
days_of_years zero = 0
days_of_years (suc n) = 365 + one_if (is_leap (1970 + n)) + days_of_years n

-- the days of a month, 0 being January, and of the months before one
abbrev pub days_in_month : Bool → ℕ → ℕ
days_in_month leap m =
    if m == 1 then 28 + one_if leap else if m == 3 || m == 5 || m == 8 || m == 10 then 30 else 31

unfoldable pub days_before : Bool → ℕ → ℕ
days_before leap zero = 0
days_before leap (suc m) = days_in_month leap m + days_before leap m

leap_lem : (k : ℕ) → k < 130 → one_if (is_leap (1970 + k)) ≡ (if k % 4 == 2 then 1 else 0)
leap_lem k small = ground arith

years_lem : (k : ℕ) → k ≤ 130 → days_of_years k ≡ 365 * k + (k + 1) / 4
unfolding days_of_years
years_lem zero small = refl
years_lem (suc k) small = rw (leap_lem k (omega arith), years_lem k (omega arith)) (ground arith)

months_lem : (m : ℕ) → m < 12 → month_days m days_per_month ≡ some (days_before false m)
unfolding month_days days_before
months_lem zero small = refl
months_lem (suc zero) small = refl
months_lem (suc (suc zero)) small = refl
months_lem (suc (suc (suc zero))) small = refl
months_lem (suc (suc (suc (suc zero)))) small = refl
months_lem (suc (suc (suc (suc (suc zero))))) small = refl
months_lem (suc (suc (suc (suc (suc (suc zero)))))) small = refl
months_lem (suc (suc (suc (suc (suc (suc (suc zero))))))) small = refl
months_lem (suc (suc (suc (suc (suc (suc (suc (suc zero)))))))) small = refl
months_lem (suc (suc (suc (suc (suc (suc (suc (suc (suc zero))))))))) small = refl
months_lem (suc (suc (suc (suc (suc (suc (suc (suc (suc (suc zero)))))))))) small = refl
months_lem (suc (suc (suc (suc (suc (suc (suc (suc (suc (suc (suc zero))))))))))) small = refl
months_lem (suc (suc (suc (suc (suc (suc (suc (suc (suc (suc (suc (suc m)))))))))))) small =
    ground arith

days_before-true : (m : ℕ) → days_before true m ≡ days_before false m + (if ltb 1 m then 1 else 0)
unfolding days_before
days_before-true zero = refl
days_before-true (suc m) = rw (days_before-true m) (ground arith)

days_before_bound : (m : ℕ) → days_before false m ≤ 31 * m
unfolding days_before
days_before_bound zero = ground arith
days_before_bound (suc m) = let h = days_before_bound m in ground arith

-- the days from the start of 1970 to a date
abbrev pub calendar_days : ℕ → ℕ → ℕ → ℕ
calendar_days y m d = days_of_years (y - 1970) + days_before (is_leap y) (m - 1) + (d - 1)

abbrev pub IsDate : RtcTime → Type 0
IsDate t =
    (t.year < 100)
    × (1 ≤ t.month)
    × (t.month ≤ 12)
    × (1 ≤ t.day_of_month)
    × (t.day_of_month ≤ 31)
    × (t.hours < 24)
    × (t.minutes < 60)
    × (t.seconds < 60)

days_before_lem :
    (leap : Bool) (m : ℕ)
    → 1 ≤ m
    → days_before leap (m - 1) + one_if (leap && ltb m 3) ≡ days_before false (m - 1) + one_if leap
days_before_lem false m h = refl
days_before_lem true m h = rw (days_before-true (m - 1)) (ground arith)

leap_years_lem :
    (y : ℕ) → 1970 ≤ y → y < 2100 → leap_years (y - 1970) ≡ (y - 1970 + 1) / 4 + one_if (is_leap y)
unfolding leap_years
leap_years_lem y low high = ground arith

-- the seconds that the calendar counts, and a day more in the January and the February of a leap year
abbrev pub seconds_ahead : RtcTime → ℕ
seconds_ahead t =
    let y = 2000 + t.year in
    86400 * (calendar_days y t.month t.day_of_month + one_if (is_leap y && ltb t.month 3))
    + 3600 * t.hours
    + 60 * t.minutes
    + t.seconds

unix_time-calendar_days : (t : RtcTime) → IsDate t → unix_time t ≡ some (seconds_ahead t)
unfolding unix_time
unix_time-calendar_days t (y, m0, m1, d0, d1, h, mi, s) =
    let years = years_lem (2000 + t.year - 1970) (omega arith) in
    let leaps = leap_years_lem (2000 + t.year) (omega arith) (omega arith) in
    let days = days_before_lem (is_leap (2000 + t.year)) t.month m0 in
    let bound = days_before_bound (t.month - 1) in
    let months = months_lem (t.month - 1) (omega arith) in
    let leap = one_if_bound (is_leap (2000 + t.year)) in
    rw months (ap some (omega (arith, years, leaps, days, bound, leap)))

-- a number of two digits as the clock holds it
unfoldable pub to_bcd : ℕ → ℕ
to_bcd n = n / 10 * 16 + n % 10

abbrev pub bcd_of : RtcTime → RtcTime
bcd_of t = record {
  seconds = to_bcd t.seconds;
  minutes = to_bcd t.minutes;
  hours = to_bcd t.hours;
  day_of_month = to_bcd t.day_of_month;
  month = to_bcd t.month;
  year = to_bcd t.year;
}

convert_bcd_to_binary-to_bcd : (n : ℕ) → n < 100 → u8 (convert_bcd_to_binary (to_bcd n)) ≡ n
unfolding convert_bcd_to_binary to_bcd
convert_bcd_to_binary-to_bcd n h = omega arith

from_bcd-bcd_of : (t : RtcTime) → IsDate t → from_bcd (bcd_of t) ≡ t
unfolding from_bcd
from_bcd-bcd_of t (y, m0, m1, d0, d1, h, mi, s) =
    rw
      (
        convert_bcd_to_binary-to_bcd t.seconds (omega arith),
        convert_bcd_to_binary-to_bcd t.minutes (omega arith),
        convert_bcd_to_binary-to_bcd t.hours (omega arith),
        convert_bcd_to_binary-to_bcd t.day_of_month (omega arith),
        convert_bcd_to_binary-to_bcd t.month (omega arith),
        convert_bcd_to_binary-to_bcd t.year y,
      )
      refl

-- When the readings stable_reading on a date of the years 2000 to 2099, in binary or in BCD as the status
-- register says, the driver returns the seconds that the calendar counts from the start of 1970, and a
-- day more in the January and the February of a leap year.
pub read_rtc_time-calendar_days :
    (is_binary : Bool) (first : RtcTime) (later : List RtcTime) (t : RtcTime)
    → IsDate t
    → stable_reading first later ≡ some (if is_binary then t else bcd_of t)
    → read_rtc_time is_binary first later ≡ some (seconds_ahead t)
unfolding read_rtc_time
read_rtc_time-calendar_days true first later t date settled =
    rw (settled, unix_time-calendar_days t date) refl
read_rtc_time-calendar_days false first later t date settled =
    rw (settled, from_bcd-bcd_of t date, unix_time-calendar_days t date) refl
