-- ===== src/Datetime/Century.antt =====
-- The dates of src/misc/second_datetime.c that two decimal digits of the year can hold, as the clock
-- chips keep them.
use embedded_template.Prelude.{ℕ, ◌*◌, ◌%◌, ◌^◌, ◌<◌, true, ◌≡◌, refl, ap, ◌∙◌, some, arith}
use embedded_template.Datetime.{
  Datetime, date_of, calc_year, datetime_to_second, to_seconds, month_date_to_seconds,
  time_to_seconds, is_valid_datatime_ignore_weekday, is_leap_year, seconds_per_day,
  seconds_per_four_years,
}
use embedded_template.Datetime.Split.{year_index_lem}
use embedded_template.Datetime.RoundTrip.{
  IsDate-valid, date_of-IsDate, to_seconds-date_of, month_days-le,
}

-- 100 years, of which 25 are leap years.
abbrev pub century : ℕ
century = 36525 * seconds_per_day

calc_year-century : (s : ℕ) → s < century → (calc_year s).0 < 100
unfolding calc_year
calc_year-century s less =
    let (four, from, to) = year_index_lem (s % seconds_per_four_years) (omega arith) in omega arith

-- The fields of a date that the clock chips keep as two decimal digits.
pub record HasTwoDigits (d : Datetime) : Type 0 where
  pub year_two : d.year < 100
  pub month_two : d.month < 100
  pub day_two : d.day < 100
  pub hour_day : d.hour < 24
  pub minute_two : d.minute < 100
  pub second_two : d.second < 100

pub date_of-HasTwoDigits : (s : ℕ) → s < century → HasTwoDigits (date_of s)
date_of-HasTwoDigits s less =
    let (date, recent) = date_of-IsDate s (omega arith) in
    let year : (date_of s).year < 100 = calc_year-century s less in
    let short =
      month_days-le (is_leap_year (date_of s).year) (date_of s).month date.month_from
        date.month_to in
    record {
      year_two = year;
      month_two = omega (arith, date.month_to);
      day_two = omega (arith, date.day_to, short);
      hour_day = date.hour_to;
      minute_two = omega (arith, date.minute_to);
      second_two = omega (arith, date.second_to);
    }

to_seconds_ignores :
    (d : Datetime) (weekday : ℕ) → to_seconds (record d { weekday = weekday }) ≡ to_seconds d
unfolding to_seconds month_date_to_seconds time_to_seconds
to_seconds_ignores d weekday = refl

-- The weekday plays no part in the way back.
pub datetime_to_second_ignores :
    (s weekday : ℕ)
    → s < 2 ^ 32
    → datetime_to_second true (some (record (date_of s) { weekday = weekday })) ≡ some s
unfolding datetime_to_second
datetime_to_second_ignores s weekday h =
    let (date, recent) = date_of-IsDate s h in
    let valid : is_valid_datatime_ignore_weekday (record (date_of s) { weekday = weekday }) ≡ true =
      IsDate-valid (record (date_of s) { weekday = weekday })
        (record {
          month_from = date.month_from;
          month_to = date.month_to;
          day_from = date.day_from;
          day_to = date.day_to;
          hour_to = date.hour_to;
          minute_to = date.minute_to;
          second_to = date.second_to;
        }) in
    rw valid (ap some (to_seconds_ignores (date_of s) weekday ∙ to_seconds-date_of s h))
