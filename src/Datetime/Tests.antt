-- ===== src/Datetime/Tests.antt =====
-- Runs of the calendar, and its theorems at concrete dates.
use embedded_template.Prelude.{ℕ, ◌<◌, ◌≡◌, refl, true, some, arith}
use embedded_template.Datetime.{
  Datetime, year_index, calc_year, year_to_seconds, month_index, calc_month_and_date,
  month_date_to_seconds, cal_week_day, calc_time, time_to_seconds, is_valid_datatime_ignore_weekday,
  to_seconds, second_to_datetime, datetime_to_second, datetime_is_valid,
}
use embedded_template.Datetime.RoundTrip.{IsDate, datetime_to_second-second_to_datetime}
use embedded_template.Datetime.Back.{
  next_month, second_to_datetime-datetime_to_second, datetime_to_second_accepts,
}

-- Noon on 29 February 2016, a Monday.
abbrev leap_day : Datetime
leap_day = record { year = 16; month = 2; day = 29; weekday = 0; hour = 12; minute = 0; second = 0 }

-- There is no such day.
abbrev february_31 : Datetime
february_31 = record leap_day { year = 17; day = 31 }

leap_day_run : datetime_to_second true (some leap_day) ≡ some 510_062_400
unfolding datetime_to_second to_seconds year_to_seconds month_date_to_seconds time_to_seconds
    is_valid_datatime_ignore_weekday
leap_day_run = refl

leap_day_back : second_to_datetime true 510_062_400 ≡ some leap_day
unfolding second_to_datetime calc_year year_index calc_month_and_date month_index calc_time
    cal_week_day
leap_day_back = refl

datetime_to_second-second_to_datetime_example :
    (d : Datetime) × (second_to_datetime true 510_062_400 ≡ some d)
    × IsDate d
    × (d.year < 140)
    × (d.weekday < 7)
    × (datetime_is_valid d true ≡ true)
    × (datetime_to_second true (some d) ≡ some 510_062_400)
datetime_to_second-second_to_datetime_example =
    datetime_to_second-second_to_datetime 510_062_400 true (omega arith)

second_to_datetime-datetime_to_second_example :
    (s : ℕ) × (datetime_to_second true (some leap_day) ≡ some s)
    × (second_to_datetime true s ≡ some (record leap_day { weekday = cal_week_day s }))
second_to_datetime-datetime_to_second_example =
    second_to_datetime-datetime_to_second leap_day (omega arith) (omega arith)

datetime_to_second_accepts_example :
    (s : ℕ) × (datetime_to_second true (some february_31) ≡ some s)
    × (second_to_datetime true s
        ≡ some (record (next_month february_31) { weekday = cal_week_day s }))
datetime_to_second_accepts_example =
    datetime_to_second_accepts february_31 (omega arith) (omega arith) (omega arith) (omega arith)
      (omega arith) (omega arith) (omega arith) (omega arith)
