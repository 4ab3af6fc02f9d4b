-- ===== src/Datetime.antt =====
-- src/misc/second_datetime.c: seconds since 2000-01-01 and calendar dates of the years 2000 to 2255,
-- of which every fourth is a leap year.
-- A pointer that may be NULL is an `Option`, or a flag where what it points to is only written.
pub mod Split
pub mod RoundTrip
pub mod Back
pub mod Century
mod Tests
use embedded_template.Prelude.{
  u8, u32, ℕ, ◌+◌, ◌-◌, ◌*◌, ◌/◌, ◌%◌, ◌^◌, Bool, true, false, ◌&&◌, not, Option, none, some, List,
  [], ◌∷◌, get_or, drop, ltb, leb, ◌==◌, if◌then◌else◌,
}

-- `struct datetime`, whose fields are uint8_t.
pub record Datetime : Type 0 where
  pub year : ℕ
  pub month : ℕ
  pub day : ℕ
  pub weekday : ℕ
  pub hour : ℕ
  pub minute : ℕ
  pub second : ℕ

abbrev pub seconds_per_minute : ℕ
seconds_per_minute = 60

abbrev pub seconds_per_hour : ℕ
seconds_per_hour = seconds_per_minute * 60

abbrev pub seconds_per_day : ℕ
seconds_per_day = seconds_per_hour * 24

abbrev pub seconds_per_week : ℕ
seconds_per_week = seconds_per_day * 7

abbrev pub seconds_per_com_year : ℕ
seconds_per_com_year = seconds_per_day * 365

abbrev pub seconds_per_leap_year : ℕ
seconds_per_leap_year = seconds_per_day * 366

abbrev pub seconds_per_four_years : ℕ
seconds_per_four_years = seconds_per_leap_year + seconds_per_com_year * 3

abbrev pub is_leap_year : ℕ → Bool
is_leap_year year = year % 4 == 0

abbrev pub seconds_table_4year : List ℕ
seconds_table_4year =
    0
    ∷ seconds_per_leap_year
    ∷ (seconds_per_leap_year + seconds_per_com_year * 1)
    ∷ (seconds_per_leap_year + seconds_per_com_year * 2)
    ∷ []

abbrev pub month_days_acc_table_com_year : List ℕ
month_days_acc_table_com_year =
    0 ∷ 31 ∷ 59 ∷ 90 ∷ 120 ∷ 151 ∷ 181 ∷ 212 ∷ 243 ∷ 273 ∷ 304 ∷ 334 ∷ []

abbrev pub month_days_acc_table_leap_year : List ℕ
month_days_acc_table_leap_year =
    0 ∷ 31 ∷ 60 ∷ 91 ∷ 121 ∷ 152 ∷ 182 ∷ 213 ∷ 244 ∷ 274 ∷ 305 ∷ 335 ∷ []

abbrev pub month_table : Bool → List ℕ
month_table leap = if leap then month_days_acc_table_leap_year else month_days_acc_table_com_year

-- `for (; i < ...; ++i) if (x < table[i]) break;` over the entries that are left of the table.
abbrev pub first_above : ℕ → List ℕ → ℕ → ℕ
first_above x [] i = i
first_above x (t ∷ table) i = if ltb x t then i else first_above x table (i + 1)

-- The index that the loop of `calc_year` leaves in `i`.
pub year_index : ℕ → ℕ
year_index second = first_above second seconds_table_4year 0 - 1

-- The year, and the seconds left of it.
pub calc_year : ℕ → ℕ × ℕ
calc_year second =
    let rest = second % seconds_per_four_years in
    let i = year_index rest in
    (u8 (u8 (second / seconds_per_four_years * 4) + i), rest - get_or seconds_table_4year i 0)

pub year_to_seconds : ℕ → ℕ
year_to_seconds year =
    u32 (year / 4 * seconds_per_four_years + get_or seconds_table_4year (year % 4) 0)

-- The index that the loop of `calc_month_and_date` leaves in `i`.
pub month_index : Bool → ℕ → ℕ
month_index leap day_offset = first_above day_offset (drop 1 (month_table leap)) 1

-- The month, and the day of the month.
pub calc_month_and_date : ℕ → ℕ → ℕ × ℕ
calc_month_and_date year day_offset =
    let leap = is_leap_year year in
    let i = month_index leap day_offset in
    (i, u8 (day_offset - get_or (month_table leap) (i - 1) 0 + 1))

pub month_date_to_seconds : Datetime → ℕ
month_date_to_seconds d =
    u32 ((get_or (month_table (is_leap_year d.year)) (d.month - 1) 0 + d.day - 1) * seconds_per_day)

pub cal_week_day : ℕ → ℕ
cal_week_day second =
    let day = u8 (second % seconds_per_week / seconds_per_day) + 5 in
    if leb 7 day then day - 7 else day

-- The hour, minute and second.
pub calc_time : ℕ → ℕ × ℕ × ℕ
calc_time second =
    let of_day = second % seconds_per_day in
    let of_hour = of_day % seconds_per_hour in
    (
      u8 (of_day / seconds_per_hour),
      u8 (of_hour / seconds_per_minute),
      u8 (of_hour % seconds_per_minute),
    )

pub time_to_seconds : Datetime → ℕ
time_to_seconds d = u32 (d.hour * seconds_per_hour + d.minute * seconds_per_minute + d.second)

pub is_valid_datatime_ignore_weekday : Datetime → Bool
is_valid_datatime_ignore_weekday d =
    ltb 0 d.month
    && leb d.month 12
    && ltb 0 d.day
    && leb d.day 31
    && ltb d.hour 24
    && leb d.minute 59
    && leb d.second 59

pub to_seconds : Datetime → ℕ
to_seconds d = u32 (year_to_seconds d.year + month_date_to_seconds d + time_to_seconds d)

-- What `second_to_datetime` writes through `datetime`.
abbrev pub date_of : ℕ → Datetime
date_of second =
    let (year, of_year) = calc_year second in
    let (month, day) = calc_month_and_date year (of_year / seconds_per_day) in
    let (hour, minute, sec) = calc_time of_year in
    record {
      year = year;
      month = month;
      day = day;
      weekday = cal_week_day second;
      hour = hour;
      minute = minute;
      second = sec;
    }

-- The flag says that `datetime` is not NULL; `none` is the return value 0.
pub second_to_datetime : Bool → ℕ → Option Datetime
second_to_datetime false second = none
second_to_datetime true second = some (date_of second)

-- What is written through `seconds`, if both pointers are not NULL; `none` is the return value 0.
pub datetime_to_second : Bool → Option Datetime → Option ℕ
datetime_to_second false d = none
datetime_to_second true none = none
datetime_to_second true (some d) =
    if not (is_valid_datatime_ignore_weekday d) then none else some (to_seconds d)

pub datetime_is_valid : Datetime → Bool → Bool
datetime_is_valid d need_check_weekday =
    if not (is_valid_datatime_ignore_weekday d)
    then false
    else if not need_check_weekday
    then true
    else cal_week_day (to_seconds d) == d.weekday
