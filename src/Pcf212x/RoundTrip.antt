-- ===== src/Pcf212x/RoundTrip.antt =====
-- Writing the time to the chip of src/drivers/pcf212x/pcf212x.c, and reading it back.
use embedded_template.Prelude.{
  ℕ, ◌<◌, ◌==◌, ==→eq, true, ◌≡◌, refl, ap, ◌∙◌, some, [], ◌∷◌, bit_and, arith,
}
use embedded_template.Prelude.Bits.{holds_to, holds_at}
use embedded_template.Bcd.{to_bcd, from_bcd, from_bcd-to_bcd}
use embedded_template.Datetime.{date_of, datetime_to_second}
use embedded_template.Datetime.Century.{
  century, HasTwoDigits, date_of-HasTwoDigits, datetime_to_second_ignores,
}
use embedded_template.I2c.RegisterChip.{Chip, chip_bus}
use embedded_template.Pcf212x.{Pcf212x, write_regs, read_regs, write_time, read_time, time_of}

hour_table : holds_to (λ h. from_bcd (bit_and (to_bcd h) 0x3f) == h) 24 ≡ true
unfolding holds_to from_bcd to_bcd
hour_table = refl

hour_lem : (h : ℕ) → h < 24 → from_bcd (bit_and (to_bcd h) 0x3f) ≡ h
hour_lem h less =
    ==→eq _ _ (holds_at (λ h. from_bcd (bit_and (to_bcd h) 0x3f) == h) 24 hour_table h less)

-- A date with the fields of two digits goes to the registers and comes back.
time_of-time_registers :
    (second minute hour day weekday month year : ℕ)
    → HasTwoDigits (record {
      year = year;
      month = month;
      day = day;
      weekday = weekday;
      hour = hour;
      minute = minute;
      second = second;
    })
    → time_of (
        to_bcd second
        ∷ to_bcd minute
        ∷ to_bcd hour
        ∷ to_bcd day
        ∷ weekday
        ∷ to_bcd month
        ∷ to_bcd year
        ∷ [])
      ≡ record {
        year = year;
        month = month;
        day = day;
        weekday = weekday;
        hour = hour;
        minute = minute;
        second = second;
      }
time_of-time_registers second minute hour day weekday month year two =
    let e0 = (from_bcd-to_bcd second two.second_two).2 in
    let e1 = (from_bcd-to_bcd minute two.minute_two).2 in
    let e2 = hour_lem hour two.hour_day in
    let e3 = (from_bcd-to_bcd day two.day_two).2 in
    let e5 = (from_bcd-to_bcd month two.month_two).2 in
    let e6 = (from_bcd-to_bcd year two.year_two).2 in rw (e0, e1, e2, e3, e5, e6) refl

-- On a chip that keeps its registers, every time before the year 2100 that is written is the time
-- read back, and both calls succeed.
pub read_time-write_time :
    (addr seconds : ℕ) (dev : Pcf212x Chip)
    → seconds < century
    → ((write_time chip_bus addr seconds dev).0 ≡ 1)
      × ((read_time chip_bus addr true (write_time chip_bus addr seconds dev).1).0 ≡ some seconds)
unfolding write_time read_time write_regs read_regs
read_time-write_time addr seconds dev less = (
  refl,
  ap (λ t. datetime_to_second true (some t))
        (time_of-time_registers _ _ _ _ _ _ _ (date_of-HasTwoDigits seconds less))
      ∙ datetime_to_second_ignores seconds (date_of seconds).weekday (omega arith),
)
