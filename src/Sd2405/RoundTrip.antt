-- ===== src/Sd2405/RoundTrip.antt =====
-- Writing the time to the chip of src/drivers/sd2405al/sd2405al.c, and reading it back.
use embedded_template.Prelude.{
  ℕ, ◌+◌, ◌*◌, ◌/◌, ◌%◌, ◌<◌, ◌==◌, ==→eq, true, ◌≡◌, refl, ap, ◌∙◌, some, bit_and, bit_or, arith,
}
use embedded_template.Prelude.Bits.{holds_to, holds_at}
use embedded_template.Datetime.{datetime_to_second}
use embedded_template.Datetime.Century.{
  century, HasTwoDigits, date_of-HasTwoDigits, datetime_to_second_ignores,
}
use embedded_template.I2c.RegisterChip.{Chip, chip_bus}
use embedded_template.Sd2405.{
  Sd2405, Digits, without, write_regs, read_regs, unlock, lock, write_enable, write_unlocked,
  write_time, read_time, clear_interrupt,
}

-- What the code relies on: the numbers below 100 are packed by their decimal digits, and unpacked.
pub record IsDigits (bcd : Digits) : Type 0 where
  pub packs : (n : ℕ) → n < 100 → bcd.hex_to_bcd n ≡ n / 10 * 16 + n % 10
  pub unpacks : (n : ℕ) → n < 100 → bcd.bcd_to_hex (bcd.hex_to_bcd n) ≡ n

hour_table : holds_to (λ x. bit_and (bit_or x 0x80) 0x3f == x) 64 ≡ true
unfolding holds_to
hour_table = refl

-- The bit of the 24 hours does not disturb the hour.
hour_lem :
    (bcd : Digits)
    → IsDigits bcd
    → (h : ℕ) → h < 24
    → bcd.bcd_to_hex (bit_and (bit_or (bcd.hex_to_bcd h) 0x80) 0x3f) ≡ h
hour_lem bcd digits h less =
    let packed : bcd.hex_to_bcd h < 64 = omega (arith, digits.packs h (omega arith)) in
    ap bcd.bcd_to_hex (
      ==→eq _ _
        (holds_at (λ x. bit_and (bit_or x 0x80) 0x3f == x) 64 hour_table (bcd.hex_to_bcd h) packed))
    ∙ digits.unpacks h (omega arith)

back :
    (bcd : Digits)
    → IsDigits bcd
    → (second minute hour day garbage month year weekday : ℕ)
    → HasTwoDigits (record {
      year = year;
      month = month;
      day = day;
      weekday = weekday;
      hour = hour;
      minute = minute;
      second = second;
    })
    → datetime_to_second true (
        some (record {
          year = bcd.bcd_to_hex (bcd.hex_to_bcd year);
          month = bcd.bcd_to_hex (bcd.hex_to_bcd month);
          day = bcd.bcd_to_hex (bcd.hex_to_bcd day);
          weekday = garbage;
          hour = bcd.bcd_to_hex (bit_and (bit_or (bcd.hex_to_bcd hour) 0x80) 0x3f);
          minute = bcd.bcd_to_hex (bcd.hex_to_bcd minute);
          second = bcd.bcd_to_hex (bcd.hex_to_bcd second);
        }))
      ≡ datetime_to_second true (
          some (record {
            year = year;
            month = month;
            day = day;
            weekday = garbage;
            hour = hour;
            minute = minute;
            second = second;
          }))
back bcd digits second minute hour day garbage month year weekday two =
    let e0 = digits.unpacks second two.second_two in
    let e1 = digits.unpacks minute two.minute_two in
    let e2 = hour_lem bcd digits hour two.hour_day in
    let e3 = digits.unpacks day two.day_two in
    let e5 = digits.unpacks month two.month_two in
    let e6 = digits.unpacks year two.year_two in rw (e0, e1, e2, e3, e5, e6) refl

-- On a chip that keeps its registers, every time before the year 2100 that is written is the time
-- read back, and both calls succeed, when the two conversions pack and unpack decimal digits.
pub read_time-write_time_sd2405 :
    (addr seconds garbage : ℕ) (bcd : Digits) (dev : Sd2405 Chip)
    → IsDigits bcd
    → seconds < century
    → ((write_time chip_bus addr bcd seconds dev).0 ≡ 1)
      × ((read_time chip_bus addr bcd garbage true (write_time chip_bus addr bcd seconds dev).1).0
          ≡ some seconds)
unfolding write_time read_time write_regs read_regs unlock lock write_enable write_unlocked
read_time-write_time_sd2405 addr seconds garbage bcd dev digits less = (
  refl,
  back bcd digits _ _ _ _ garbage _ _ _ (date_of-HasTwoDigits seconds less)
      ∙ datetime_to_second_ignores seconds garbage (omega arith),
)

flags_table :
    holds_to (λ x. bit_and (without (bit_or x 0x84) 0x84) 0x03 == bit_and x 0x03) 256 ≡ true
unfolding holds_to
flags_table = refl

-- Clearing the interrupt succeeds on a chip that keeps its registers, and leaves in the first control
-- register the flag bits (0x03) of the copy that the driver holds: those that were set there are set
-- again when the registers are locked.
pub clear_interrupt_restores :
    (addr : ℕ) (dev : Sd2405 Chip)
    → dev.ctr1 < 256
    → ((clear_interrupt chip_bus addr dev).0 ≡ 1)
      × (bit_and ((clear_interrupt chip_bus addr dev).1.bus.regs 0x0f) 0x03 ≡ bit_and dev.ctr1 0x03)
unfolding clear_interrupt write_regs unlock lock write_enable
clear_interrupt_restores addr dev less = (
  refl,
  ==→eq _ _ (
      holds_at (λ x. bit_and (without (bit_or x 0x84) 0x84) 0x03 == bit_and x 0x03) 256 flags_table
        dev.ctr1 less),
)
