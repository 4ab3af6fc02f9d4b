-- ===== src/Datetime/Back.antt =====
-- A date to its seconds and back: the loops find the year and the month that the date has.
use embedded_template.Prelude.{
  u8, u32, ℕ, ◌+◌, ◌-◌, ◌*◌, ◌/◌, ◌%◌, ◌≤◌, ◌<◌, ◌≡◌, refl, ap, ap₂, ◌∙◌, sym, Bool, true, false,
  some, get_or, ◌==◌, arith,
}
use embedded_template.Datetime.{
  Datetime, seconds_per_day, seconds_per_four_years, seconds_table_4year, month_table, is_leap_year,
  year_index, calc_year, year_to_seconds, month_index, calc_month_and_date, month_date_to_seconds,
  calc_time, time_to_seconds, cal_week_day, to_seconds, date_of, is_valid_datatime_ignore_weekday,
  second_to_datetime, datetime_to_second,
}
use embedded_template.Datetime.Split.{has_leap_day, year_days, month_days}
use embedded_template.Datetime.RoundTrip.{IsDate, IsDate-valid, month_days-le}

year_index_unique :
    (x i : ℕ)
    → i < 4
    → get_or seconds_table_4year i 0 ≤ x
    → x < get_or seconds_table_4year i 0 + year_days (i == 0) * seconds_per_day
    → year_index x ≡ i
unfolding year_index
year_index_unique x i h lo hi = ground arith

month_index_unique :
    (leap : Bool) (x m : ℕ)
    → 1 ≤ m
    → m ≤ 12
    → get_or (month_table leap) (m - 1) 0 ≤ x
    → x < get_or (month_table leap) (m - 1) 0 + month_days leap m
    → month_index leap x ≡ m
unfolding month_index
month_index_unique true x m h k lo hi = ground arith
month_index_unique false x m h k lo hi = ground arith

month_end :
    (leap : Bool) (m : ℕ)
    → 1 ≤ m
    → m ≤ 12
    → get_or (month_table leap) (m - 1) 0 + month_days leap m ≤ year_days leap
month_end true m h k = ground arith
month_end false m h k = ground arith

year_end :
    (i : ℕ)
    → i < 4
    → get_or seconds_table_4year i 0 + year_days (i == 0) * seconds_per_day ≤ seconds_per_four_years
year_end i h = ground arith

abbrev day_offset : Datetime → ℕ
day_offset d = get_or (month_table (is_leap_year d.year)) (d.month - 1) 0 + d.day - 1

abbrev time_of : Datetime → ℕ
time_of d = d.hour * 3600 + d.minute * 60 + d.second

year_days-le : (leap : Bool) → year_days leap ≤ 366
year_days-le true = omega arith
year_days-le false = omega arith

-- No sum wraps before the year 2136.
to_seconds-eq :
    (d : Datetime)
    → IsDate d
    → d.year < 136
    → (to_seconds d
        ≡ d.year / 4 * seconds_per_four_years
          + get_or seconds_table_4year (d.year % 4) 0
          + day_offset d * seconds_per_day
          + time_of d)
      × (day_offset d < year_days (is_leap_year d.year))
      × (time_of d < seconds_per_day)
      × (get_or seconds_table_4year (d.year % 4) 0
            + year_days (is_leap_year d.year) * seconds_per_day
          ≤ seconds_per_four_years)
unfolding to_seconds year_to_seconds month_date_to_seconds time_to_seconds
to_seconds-eq d v h =
    let inside = month_end (is_leap_year d.year) d.month v.month_from v.month_to in
    let span = year_end (d.year % 4) (omega arith) in
    let offset : day_offset d < year_days (is_leap_year d.year) =
      omega (arith, v.day_to, v.day_from) in
    let short = year_days-le (is_leap_year d.year) in
    let time : time_of d < seconds_per_day = omega (arith, v.hour_to, v.minute_to, v.second_to) in
    (omega arith, offset, time, span)

-- What `calc_year` finds in the seconds of a span, a year and a place in it.
calc_year_unique :
    (y left : ℕ)
    → y < 136
    → left < year_days (is_leap_year y) * seconds_per_day
    → get_or seconds_table_4year (y % 4) 0 + left < seconds_per_four_years
    → calc_year (y / 4 * seconds_per_four_years + get_or seconds_table_4year (y % 4) 0 + left)
      ≡ (y, left)
unfolding calc_year
calc_year_unique y left h hl hs =
    let x = get_or seconds_table_4year (y % 4) 0 + left in
    let s = y / 4 * seconds_per_four_years + get_or seconds_table_4year (y % 4) 0 + left in
    let rest : s % seconds_per_four_years ≡ x = omega arith in
    let i : year_index x ≡ y % 4 =
      year_index_unique x (y % 4) (omega arith) (omega arith) (omega arith) in
    rw (rest, i) (ap₂ (λ a b. (a, b)) (omega arith) (omega arith))

calc_month_and_date_unique :
    (d : Datetime) → IsDate d → calc_month_and_date d.year (day_offset d) ≡ (d.month, d.day)
unfolding calc_month_and_date
calc_month_and_date_unique d v =
    let leap = is_leap_year d.year in
    let m : month_index leap (day_offset d) ≡ d.month =
      month_index_unique leap (day_offset d) d.month v.month_from v.month_to
        (omega (arith, v.day_from)) (omega (arith, v.day_from, v.day_to)) in
    let short = month_days-le leap d.month v.month_from v.month_to in
    rw m (ap₂ (λ a b. (a, b)) refl (omega (arith, v.day_from, v.day_to)))

calc_time_unique :
    (d : Datetime) (days : ℕ)
    → IsDate d
    → calc_time (days * seconds_per_day + time_of d) ≡ (d.hour, d.minute, d.second)
unfolding calc_time
calc_time_unique d days v =
    let t = days * seconds_per_day + time_of d in
    let of_day = t % seconds_per_day in
    let h : u8 (of_day / 3600) ≡ d.hour = omega (arith, v.minute_to, v.second_to, v.hour_to) in
    let m : u8 (of_day % 3600 / 60) ≡ d.minute =
      omega (arith, v.minute_to, v.second_to, v.hour_to) in
    let s : u8 (of_day % 3600 % 60) ≡ d.second =
      omega (arith, v.minute_to, v.second_to, v.hour_to) in
    λ i. (h i, m i, s i)

date_of-to_seconds :
    (d : Datetime)
    → IsDate d
    → d.year < 136
    → date_of (to_seconds d) ≡ record d { weekday = cal_week_day (to_seconds d) }
date_of-to_seconds d v h =
    let (sum, inside, time, span) = to_seconds-eq d v h in
    let left = day_offset d * seconds_per_day + time_of d in
    let total : to_seconds d
        ≡ d.year / 4 * seconds_per_four_years + get_or seconds_table_4year (d.year % 4) 0 + left =
      omega (arith, sum) in
    let year = ap calc_year total ∙ calc_year_unique d.year left h (omega arith) (omega arith) in
    let days : left / seconds_per_day ≡ day_offset d = omega arith in
    ground (arith, year, days, calc_month_and_date_unique d v, calc_time_unique d (day_offset d) v)

-- For a day of the calendar with the usual lengths of the months in which every fourth year from
-- 2000 on, 2100 too, is a leap year (the civil calendar up to 28 February 2100), and a time of that
-- day, of a year before 2136, `datetime_to_second` gives the seconds that `second_to_datetime` takes
-- back to the date, with the weekday set.
pub second_to_datetime-datetime_to_second :
    (d : Datetime)
    → IsDate d
    → d.year < 136
    → (s : ℕ) × (datetime_to_second true (some d) ≡ some s)
      × (second_to_datetime true s ≡ some (record d { weekday = cal_week_day s }))
unfolding second_to_datetime datetime_to_second
second_to_datetime-datetime_to_second d v h =
    (to_seconds d, rw (IsDate-valid d v), ap some (date_of-to_seconds d v h))

-- The day of the next month that is as many days behind the end of the month.
abbrev pub next_month : Datetime → Datetime
next_month d = record d {
  month = d.month + 1;
  day = d.day - month_days (has_leap_day d.year) d.month;
}

table-next :
    (leap : Bool) (m : ℕ)
    → 1 ≤ m
    → m < 12
    → get_or (month_table leap) m 0 ≡ get_or (month_table leap) (m - 1) 0 + month_days leap m
table-next true m h k = ground arith
table-next false m h k = ground arith

short_month : (leap : Bool) (m : ℕ) → 1 ≤ m → m < 12 → 28 ≤ month_days leap (m + 1)
short_month true m h k = ground arith
short_month false m h k = ground arith

long_month : (leap : Bool) (m : ℕ) → 1 ≤ m → m < 12 → 28 ≤ month_days leap m
long_month true m h k = ground arith
long_month false m h k = ground arith

accepted :
    (d : Datetime)
    → 1 ≤ d.month
    → d.month < 12
    → 1 ≤ d.day
    → d.day ≤ 31
    → d.hour < 24
    → d.minute < 60
    → d.second < 60
    → is_valid_datatime_ignore_weekday d ≡ true
unfolding is_valid_datatime_ignore_weekday
accepted d m1 m12 d1 d31 h m s = ground arith

shift_days :
    (before after days day : ℕ)
    → after ≡ before + days
    → days < day
    → after + (day - days) - 1 ≡ before + day - 1
shift_days before after days day e h = omega arith

to_seconds-next_month :
    (d : Datetime)
    → 1 ≤ d.month
    → d.month < 12
    → month_days (is_leap_year d.year) d.month < d.day
    → to_seconds d ≡ to_seconds (next_month d)
unfolding to_seconds month_date_to_seconds time_to_seconds
to_seconds-next_month d m1 m12 missing =
    let next = table-next (is_leap_year d.year) d.month m1 m12 in
    let back : d.month + 1 - 1 ≡ d.month = omega arith in
    let table = month_table (is_leap_year d.year) in
    let days = month_days (is_leap_year d.year) d.month in
    let same : day_offset (next_month d) ≡ day_offset d =
      ap (λ k. get_or table k 0 + (d.day - days) - 1) back
      ∙ shift_days _ _ days d.day next missing in
    ap (λ k. u32 (year_to_seconds d.year + u32 (k * seconds_per_day) + time_to_seconds d))
      (sym same)

-- A day up to 31 that a month before December does not have, in the calendar with the usual lengths
-- of the months in which every fourth year from 2000 on, 2100 too, is a leap year (the civil calendar
-- up to 28 February 2100), with a time of the day and a year before 2136, is accepted by
-- `datetime_to_second`, and is silently taken for the day of the next month that is as many days
-- behind the end of the month.
pub datetime_to_second_accepts :
    (d : Datetime)
    → 1 ≤ d.month
    → d.month < 12
    → month_days (has_leap_day d.year) d.month < d.day
    → d.day ≤ 31
    → d.hour < 24
    → d.minute < 60
    → d.second < 60
    → d.year < 136
    → (s : ℕ) × (datetime_to_second true (some d) ≡ some s)
      × (second_to_datetime true s ≡ some (record (next_month d) { weekday = cal_week_day s }))
unfolding datetime_to_second second_to_datetime
datetime_to_second_accepts d m1 m12 missing d31 hr mi se y =
    let leap = is_leap_year d.year in
    let room = short_month leap d.month m1 m12 in
    let here = long_month leap d.month m1 m12 in
    let date : IsDate (next_month d) = omega arith in
    let same = to_seconds-next_month d m1 m12 missing in
    (
      to_seconds d,
      rw (accepted d m1 m12 (omega arith) d31 hr mi se),
      ap some (rw same (date_of-to_seconds (next_month d) date y)),
    )
