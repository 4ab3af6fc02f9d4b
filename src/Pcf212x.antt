-- ===== src/Pcf212x.antt =====
-- src/drivers/pcf212x/pcf212x.c: a clock chip on the two-wire bus. The bus is an argument.
pub mod RoundTrip
pub mod Refused
mod Tests
use embedded_template.Prelude.{
  ℕ, ◌+◌, ◌-◌, ◌==◌, Bool, true, false, Option, none, some, List, [], ◌∷◌, length, get_or,
  if◌then◌else◌, bit_and,
}
use embedded_template.Bcd.{to_bcd, from_bcd}
use embedded_template.Datetime.{Datetime, date_of, datetime_to_second}
use embedded_template.I2c.{I2cBus}

-- `struct pcf212x` with the state of the bus; its platform is the bus and the chip's address.
pub record Pcf212x (S : Type 0) : Type 0 where
  pub status : ℕ
  pub bus : S

abbrev pub status_not_init : ℕ
status_not_init = 0

abbrev pub status_ok : ℕ
status_ok = 1

abbrev pub status_reset : ℕ
status_reset = 2

abbrev pub time_registers : Datetime → List ℕ
time_registers t =
    0x03
    ∷ to_bcd t.second
    ∷ to_bcd t.minute
    ∷ to_bcd t.hour
    ∷ to_bcd t.day
    ∷ t.weekday
    ∷ to_bcd t.month
    ∷ to_bcd t.year
    ∷ []

abbrev pub time_of : List ℕ → Datetime
time_of treg = record {
  year = from_bcd (get_or treg 6 0);
  month = from_bcd (get_or treg 5 0);
  day = from_bcd (get_or treg 3 0);
  weekday = get_or treg 4 0;
  hour = from_bcd (bit_and (get_or treg 2 0) 0x3f);
  minute = from_bcd (get_or treg 1 0);
  second = from_bcd (get_or treg 0 0);
}

module _ {S : Type 0} (b : I2cBus S) (addr : ℕ) where
  unfoldable pub write_regs : Option (List ℕ) → ℕ → S → ℕ × S
  write_regs reg_and_dat len s =
      let (n, r, s') = b.transmit addr reg_and_dat len 0 s in (if n == len then 1 else 0, s')

  unfoldable pub read_regs : ℕ → ℕ → S → ℕ × List ℕ × S
  read_regs reg len s =
      let (n, r, s') = b.transmit addr (some (reg ∷ [])) 1 0 s in
      let (n', dat, s'') = b.transmit addr none 0 len s' in
      if n == 1 then (if n' == len then (1, dat, s'') else (0, dat, s'')) else (0, [], s')

  -- To clear the bit of `dat[0]`, the source passes NULL for the bytes and `dat[0]` for their number.
  unfoldable pub init : Pcf212x S → ℕ × Pcf212x S
  init dev =
      let (ok, s) = b.init dev.bus in
      let (read, dat, s') = read_regs 0x00 4 s in
      let overrides = bit_and (get_or dat 0 0) 8 in
      let (wrote, s'') = write_regs none (get_or dat 0 0 - overrides) s' in
      let status = if bit_and (get_or dat 3 0) 128 == 0 then status_reset else status_ok in
      if ok == 0
      then (0, record { status = status_not_init; bus = s })
      else if read == 0
      then (0, record { status = status_not_init; bus = s' })
      else if overrides == 0
      then (1, record { status = status; bus = s' })
      else if wrote == 0
      then (0, record { status = status_not_init; bus = s'' })
      else (1, record { status = status; bus = s'' })

  unfoldable pub write_time : ℕ → Pcf212x S → ℕ × Pcf212x S
  write_time seconds dev =
      let (ok, s) = write_regs (some (time_registers (date_of seconds))) 8 dev.bus in
      (ok, record dev { bus = s })

  -- `wants` says that the pointer `seconds` is not NULL; `none` is the return value 0.
  unfoldable pub read_time : Bool → Pcf212x S → Option ℕ × Pcf212x S
  read_time false dev = (none, dev)
  read_time true dev =
      let (ok, treg, s) = read_regs 0x03 7 dev.bus in
      let dev' = record dev { bus = s } in
      if ok == 0 then (none, dev') else (datetime_to_second true (some (time_of treg)), dev')

  pub dump_regs : Pcf212x S → ℕ × List ℕ × Pcf212x S
  dump_regs dev =
      let (ok, dat, s) = read_regs 0x00 0x1c dev.bus in (ok, dat, record dev { bus = s })

  -- Two writes in a row, of which the second is made if the first succeeds.
  abbrev pub write_both : List ℕ → List ℕ → Pcf212x S → ℕ × Pcf212x S
  write_both first second dev =
      let (ok, s) = write_regs (some first) (length first) dev.bus in
      let (ok', s') = write_regs (some second) (length second) s in
      if ok == 0
      then (0, record dev { bus = s })
      else (if ok' == 0 then 0 else 1, record dev { bus = s' })

  unfoldable pub clear_alarm : Pcf212x S → ℕ × Pcf212x S
  clear_alarm dev =
      write_both (0 ∷ 0 ∷ 0 ∷ 0 ∷ []) (0x0a ∷ 0x80 ∷ 0x80 ∷ 0x80 ∷ 0x80 ∷ 0x80 ∷ []) dev

  unfoldable pub set_alarm : ℕ → Pcf212x S → ℕ × Pcf212x S
  set_alarm seconds dev =
      let t = date_of seconds in
      write_both
        (0x0a ∷ to_bcd t.second ∷ to_bcd t.minute ∷ to_bcd t.hour ∷ to_bcd t.day ∷ 0x80 ∷ [])
        (0x01 ∷ 2 ∷ []) dev
