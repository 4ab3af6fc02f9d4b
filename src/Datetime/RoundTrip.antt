-- ===== src/Datetime/RoundTrip.antt =====
-- Seconds to a date and back, and back again.
use embedded_template.Prelude.{
  ℕ, ◌+◌, ◌-◌, ◌*◌, ◌/◌, ◌%◌, ◌^◌, ◌≤◌, ◌<◌, ◌≡◌, refl, Bool, true, false, some, get_or, ◌==◌,
  arith,
}
use embedded_template.Datetime.{
  Datetime, seconds_per_day, seconds_per_four_years, seconds_table_4year, month_table, is_leap_year,
  year_index, calc_year, year_to_seconds, calc_month_and_date, month_date_to_seconds, calc_time,
  time_to_seconds, cal_week_day, to_seconds, is_valid_datatime_ignore_weekday, date_of,
  second_to_datetime, datetime_to_second, datetime_is_valid,
}
use embedded_template.Datetime.Split.{
  has_leap_day, year_days, month_days, year_index_lem, month_index_lem,
}

-- The year is that of the span and the place in it.
calc_year_parts :
    (s : ℕ)
    → s < 2 ^ 32
    → let (y, left) = calc_year s in
      let i = year_index (s % seconds_per_four_years) in
      (y ≡ 4 * (s / seconds_per_four_years) + i)
      × (y / 4 ≡ s / seconds_per_four_years)
      × (y % 4 ≡ i)
      × (left + get_or seconds_table_4year i 0 ≡ s % seconds_per_four_years)
      × (left < year_days (i == 0) * seconds_per_day)
unfolding calc_year
calc_year_parts s h = omega (arith, year_index_lem (s % seconds_per_four_years) (omega arith))

year_to_seconds-calc_year :
    (s : ℕ)
    → s < 2 ^ 32
    → let (y, left) = calc_year s in
      (year_to_seconds y + left ≡ s)
      × (left < year_days (is_leap_year y) * seconds_per_day)
      × (y < 140)
unfolding year_to_seconds
year_to_seconds-calc_year s h =
    let (y, by_four, rest, place, inside) = calc_year_parts s h in
    let bound = year_index_lem (s % seconds_per_four_years) (omega arith) in
    rw (by_four, rest) (omega (arith, bound), inside, omega (arith, y, bound))

-- The date of a day of the year: a month of the year and a day of that month.
calc_month_and_date_lem :
    (y day_offset : ℕ)
    → day_offset < year_days (is_leap_year y)
    → let (m, d) = calc_month_and_date y day_offset in
      (1 ≤ m)
      × (m ≤ 12)
      × (1 ≤ d)
      × (d ≤ month_days (is_leap_year y) m)
      × (month_days (is_leap_year y) m ≤ 31)
      × (get_or (month_table (is_leap_year y)) (m - 1) 0 + d ≡ day_offset + 1)
unfolding calc_month_and_date
calc_month_and_date_lem y day_offset h =
    omega (arith, month_index_lem (is_leap_year y) day_offset h)

calc_time_lem :
    (s : ℕ)
    → let (h, m, sec) = calc_time s in
      (h < 24) × (m < 60) × (sec < 60) × (h * 3600 + m * 60 + sec ≡ s % seconds_per_day)
unfolding calc_time
calc_time_lem s = omega arith

-- The fields of a date are those of a day that the calendar of Split has and of a time of that day.
pub record IsDate (d : Datetime) : Type 0 where
  pub month_from : 1 ≤ d.month
  pub month_to : d.month ≤ 12
  pub day_from : 1 ≤ d.day
  pub day_to : d.day ≤ month_days (has_leap_day d.year) d.month
  pub hour_to : d.hour < 24
  pub minute_to : d.minute < 60
  pub second_to : d.second < 60

cal_week_day-lt : (s : ℕ) → cal_week_day s < 7
unfolding cal_week_day
cal_week_day-lt s = ground arith

pub date_of-IsDate : (s : ℕ) → s < 2 ^ 32 → IsDate (date_of s) × ((date_of s).year < 140)
date_of-IsDate s h =
    let (year, small, recent) = year_to_seconds-calc_year s h in
    let (y, left) = calc_year s in
    let date = calc_month_and_date_lem y (left / seconds_per_day) (omega arith) in
    let time = calc_time_lem left in omega arith

pub month_days-le : (leap : Bool) (m : ℕ) → 1 ≤ m → m ≤ 12 → month_days leap m ≤ 31
month_days-le true m h k = ground arith
month_days-le false m h k = ground arith

pub IsDate-valid : (d : Datetime) → IsDate d → is_valid_datatime_ignore_weekday d ≡ true
unfolding is_valid_datatime_ignore_weekday
IsDate-valid d v =
    let short = month_days-le (is_leap_year d.year) d.month v.month_from v.month_to in
    let small : d.day ≤ 31 = omega arith in ground arith

pub to_seconds-date_of : (s : ℕ) → s < 2 ^ 32 → to_seconds (date_of s) ≡ s
unfolding to_seconds month_date_to_seconds time_to_seconds
to_seconds-date_of s h =
    let (year, small, recent) = year_to_seconds-calc_year s h in
    let (y, left) = calc_year s in
    let date = calc_month_and_date_lem y (left / seconds_per_day) (omega arith) in
    let time = calc_time_lem left in omega arith

-- For every uint32_t the date that `second_to_datetime` writes is a day of the calendar with the
-- usual lengths of the months in which every fourth year from 2000 on, 2100 too, is a leap year
-- (the civil calendar up to 28 February 2100), in a year before 2140, with a weekday from 0 to 6;
-- `datetime_is_valid` accepts it, the weekday compared or not; and `datetime_to_second` takes it back
-- to the seconds.
pub datetime_to_second-second_to_datetime :
    (s : ℕ) (need_check_weekday : Bool)
    → s < 2 ^ 32
    → (d : Datetime) × (second_to_datetime true s ≡ some d)
      × IsDate d
      × (d.year < 140)
      × (d.weekday < 7)
      × (datetime_is_valid d need_check_weekday ≡ true)
      × (datetime_to_second true (some d) ≡ some s)
unfolding second_to_datetime datetime_to_second datetime_is_valid
datetime_to_second-second_to_datetime s need h =
    let (date, recent) = date_of-IsDate s h in
    let valid = IsDate-valid (date_of s) date in
    let back = to_seconds-date_of s h in
    (
      date_of s,
      refl,
      date,
      recent,
      cal_week_day-lt s,
      ground (arith, valid, back),
      ground (arith, valid, back),
    )
