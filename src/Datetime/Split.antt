-- ===== src/Datetime/Split.antt =====
-- What the loops over the tables find: the year of a four-year span and the month of a year.
use embedded_template.Prelude.{
  ℕ, ◌+◌, ◌-◌, ◌*◌, ◌%◌, List, [], ◌∷◌, ◌≤◌, ◌<◌, Bool, true, false, get_or, ◌==◌, if◌then◌else◌,
  arith,
}
use embedded_template.Datetime.{
  seconds_per_day, seconds_per_four_years, seconds_table_4year, month_table, year_index,
  month_index,
}

-- The calendar, apart from the tables of the source: every fourth year from 2000 on has a leap day,
-- as in the civil calendar up to 28 February 2100.
abbrev pub has_leap_day : ℕ → Bool
has_leap_day year = year % 4 == 0

abbrev pub month_lengths : Bool → List ℕ
month_lengths leap =
    31 ∷ (if leap then 29 else 28) ∷ 31 ∷ 30 ∷ 31 ∷ 30 ∷ 31 ∷ 31 ∷ 30 ∷ 31 ∷ 30 ∷ 31 ∷ []

-- The days of a year, and of a month that has number `m`.
abbrev pub year_days : Bool → ℕ
year_days leap = if leap then 366 else 365

abbrev pub month_days : Bool → ℕ → ℕ
month_days leap m = get_or (month_lengths leap) (m - 1) 0

-- `year_index` finds the year of the span that the second lies in.
pub year_index_lem :
    (s : ℕ)
    → s < seconds_per_four_years
    → let i = year_index s in
      (i < 4)
      × (get_or seconds_table_4year i 0 ≤ s)
      × (s < get_or seconds_table_4year i 0 + year_days (i == 0) * seconds_per_day)
unfolding year_index
year_index_lem s h = ground arith

pub month_index_lem :
    (leap : Bool) (d : ℕ)
    → d < year_days leap
    → let m = month_index leap d in
      (1 ≤ m)
      × (m ≤ 12)
      × (get_or (month_table leap) (m - 1) 0 ≤ d)
      × (d < get_or (month_table leap) (m - 1) 0 + month_days leap m)
      × (month_days leap m ≤ 31)
unfolding month_index
month_index_lem true d h = ground arith
month_index_lem false d h = ground arith
