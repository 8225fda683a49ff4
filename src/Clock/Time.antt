-- ===== src/Clock/Time.antt =====
-- The reading of the clock and its conversion to seconds since 1970: kernel/src/drivers/drv_rtc.c.
use dz_os.Prelude.{
  ℕ, zero, suc, ◌+◌, ◌-◌, ◌*◌, ◌/◌, ◌%◌, Bool, ◌&&◌, Option, none, some, List, [], ◌∷◌, ltb, ◌==◌,
  if◌then◌else◌, u8, u64, ◌>>=◌,
}

-- the registers of a reading, each a byte
pub record RtcTime : Type 0 where
  pub seconds : ℕ
  pub minutes : ℕ
  pub hours : ℕ
  pub day_of_month : ℕ
  pub month : ℕ
  pub year : ℕ

unfoldable pub convert_bcd_to_binary : ℕ → ℕ
convert_bcd_to_binary value = value / 16 * 10 + value % 16

-- the six registers converted, each result kept in a byte
unfoldable pub from_bcd : RtcTime → RtcTime
from_bcd t = record {
  seconds = u8 (convert_bcd_to_binary t.seconds);
  minutes = u8 (convert_bcd_to_binary t.minutes);
  hours = u8 (convert_bcd_to_binary t.hours);
  day_of_month = u8 (convert_bcd_to_binary t.day_of_month);
  month = u8 (convert_bcd_to_binary t.month);
  year = u8 (convert_bcd_to_binary t.year);
}

unfoldable pub same_time : RtcTime → RtcTime → Bool
same_time a b =
    a.seconds == b.seconds
    && a.minutes == b.minutes
    && a.hours == b.hours
    && a.year == b.year
    && a.day_of_month == b.day_of_month
    && a.month == b.month

-- The loop that reads until two readings in a row agree, given the later readings: `none` when these
-- readings never do, so that the loop goes on.
unfoldable pub stable_reading : RtcTime → List RtcTime → Option RtcTime
stable_reading last [] = none
stable_reading last (t ∷ ts) =
    let rest = stable_reading t ts in if same_time last t then some t else rest

abbrev pub days_per_month : List ℕ
days_per_month = 31 ∷ 28 ∷ 31 ∷ 30 ∷ 31 ∷ 30 ∷ 31 ∷ 31 ∷ 30 ∷ 31 ∷ 30 ∷ 31 ∷ []

-- the days of the first months; `none` is a read beyond the table
unfoldable pub month_days : ℕ → List ℕ → Option ℕ
month_days zero ds = some 0
month_days (suc n) [] = none
month_days (suc n) (d ∷ ds) = month_days n ds >>= λ k. some (d + k)

unfoldable pub leap_years : ℕ → ℕ
leap_years years = if ltb 1 (years % 4) then suc (years / 4) else years / 4

-- The seconds since 1970. A month of 0 adds no days, as in the source.
unfoldable pub unix_time : RtcTime → Option ℕ
unix_time t = month_days (t.month - 1) days_per_month >>= λ days. some (
    u64 (
      ((2000 + t.year - 1970) * 365 - 1) * 86400
      + leap_years (2000 + t.year - 1970) * 86400
      + (days + t.day_of_month) * 86400
      + (t.hours * 3600 + t.minutes * 60 + t.seconds)))

-- the status register's binary flag, the first reading and the later ones
unfoldable pub read_rtc_time : Bool → RtcTime → List RtcTime → Option ℕ
read_rtc_time is_binary first later =
    stable_reading first later >>= λ t. unix_time (if is_binary then t else from_bcd t)
