-- ===== src/Sd2405.antt =====
-- src/drivers/sd2405al/sd2405al.c: a clock chip on the two-wire bus, whose registers are written
-- between two writes that unlock and lock them. The bus is an argument, and so are `hex_to_bcd` and
-- `bcd_to_hex`, which no file of the repository defines.
pub mod RoundTrip
mod Tests
use embedded_template.Prelude.{
  ℕ, ◌+◌, ◌-◌, ◌==◌, ltb, Bool, true, false, ◌||◌, Option, none, some, List, [], ◌∷◌, length,
  get_or, if◌then◌else◌, bit_and, bit_or, u8,
}
use embedded_template.Datetime.{Datetime, date_of, datetime_to_second}
use embedded_template.I2c.{I2cBus}

-- `struct sd2405` with the state of the bus; its platform is the bus and the chip's address.
pub record Sd2405 (S : Type 0) : Type 0 where
  pub ctr1 : ℕ
  pub ctr2 : ℕ
  pub bus : S

-- `enum sd2405_interrupt_type`.
pub data InterruptType : Type 0 where
  disable : InterruptType
  alarm : InterruptType
  frequency : InterruptType
  countdown : InterruptType
  other : InterruptType

-- `x & ~mask` on bytes.
abbrev pub without : ℕ → ℕ → ℕ
without x mask = x - bit_and x mask

-- The conversions of the two decimal digits of a byte.
pub record Digits : Type 0 where
  pub hex_to_bcd : ℕ → ℕ
  pub bcd_to_hex : ℕ → ℕ

module _ {S : Type 0} (b : I2cBus S) (addr : ℕ) where
  unfoldable pub write_regs : List ℕ → S → ℕ × S
  write_regs reg_and_dat s =
      let len = length reg_and_dat in
      let (n, r, s') = b.transmit addr (some reg_and_dat) len 0 s in (if n == len then 1 else 0, s')

  unfoldable pub read_regs : ℕ → ℕ → S → ℕ × List ℕ × S
  read_regs reg len s =
      let (n, dat, s') = b.transmit addr (some (reg ∷ [])) 1 len s in
      (if n == len + 1 then 1 else 0, dat, s')

  -- The first half of `write_enable`, which unlocks the registers.
  unfoldable pub unlock : Sd2405 S → ℕ × Sd2405 S
  unlock dev =
      let ctr2' = bit_or dev.ctr2 0x80 in
      let ctr1' = bit_or dev.ctr1 0x84 in
      let (ok, s) = write_regs (0x10 ∷ ctr2' ∷ []) dev.bus in
      let (ok', s') = write_regs (0x0f ∷ ctr1' ∷ []) s in
      if ok == 0
      then (0, record dev { bus = s })
      else if ok' == 0
      then (0, record dev { ctr2 = ctr2'; bus = s' })
      else (1, record { ctr1 = ctr1'; ctr2 = ctr2'; bus = s' })

  -- The second half, which locks them.
  unfoldable pub lock : Sd2405 S → ℕ × Sd2405 S
  lock dev =
      let ctr1' = without dev.ctr1 0x84 in
      let ctr2' = without dev.ctr2 0x80 in
      let (ok, s) = write_regs (0x0f ∷ ctr1' ∷ ctr2' ∷ []) dev.bus in
      if ok == 0
      then (0, record dev { bus = s })
      else (1, record { ctr1 = ctr1'; ctr2 = ctr2'; bus = s })

  unfoldable pub write_enable : Bool → Sd2405 S → ℕ × Sd2405 S
  write_enable true dev = unlock dev
  write_enable false dev = lock dev

  unfoldable pub init : Sd2405 S → ℕ × Sd2405 S
  init dev =
      let (ok, s) = b.init dev.bus in
      let (read, dat, s') = read_regs 0x0f 2 s in
      let ctr2' = get_or dat 1 0 in
      let set : Sd2405 S = record { ctr1 = get_or dat 0 0; ctr2 = ctr2'; bus = s' } in
      let (unlocked, dev') = write_enable true (record set { ctr2 = bit_or ctr2' 8 }) in
      if ok == 0
      then (0, record dev { bus = s })
      else if read == 0
      then (0, record dev { bus = s' })
      else if bit_and ctr2' 8 == 0
      then (if unlocked == 0 then (0, dev') else (1, (write_enable false dev').1))
      else (1, set)

  -- Registers written while they are unlocked. The answer is that of the write, and the registers
  -- are locked again whatever it is.
  unfoldable pub write_unlocked : List ℕ → Sd2405 S → ℕ × Sd2405 S
  write_unlocked reg_and_dat dev =
      let (unlocked, dev') = write_enable true dev in
      let (ok, s) = write_regs reg_and_dat dev'.bus in
      if unlocked == 0 then (0, dev') else (ok, (write_enable false (record dev' { bus = s })).1)

  unfoldable pub write_time : Digits → ℕ → Sd2405 S → ℕ × Sd2405 S
  write_time bcd seconds dev =
      let t = date_of seconds in
      write_unlocked
        (0x00
          ∷ bcd.hex_to_bcd t.second
          ∷ bcd.hex_to_bcd t.minute
          ∷ bit_or (bcd.hex_to_bcd t.hour) 0x80
          ∷ t.weekday
          ∷ bcd.hex_to_bcd t.day
          ∷ bcd.hex_to_bcd t.month
          ∷ bcd.hex_to_bcd t.year
          ∷ [])
        dev

  -- `wants` says that the pointer `seconds` is not NULL, and `garbage` is what the field `weekday`
  -- holds, which is not set; `none` is the return value 0.
  unfoldable pub read_time : Digits → ℕ → Bool → Sd2405 S → Option ℕ × Sd2405 S
  read_time bcd garbage false dev = (none, dev)
  read_time bcd garbage true dev =
      let (ok, treg, s) = read_regs 0x00 7 dev.bus in
      let t : Datetime = record {
        year = bcd.bcd_to_hex (get_or treg 6 0);
        month = bcd.bcd_to_hex (get_or treg 5 0);
        day = bcd.bcd_to_hex (get_or treg 4 0);
        weekday = garbage;
        hour = bcd.bcd_to_hex (bit_and (get_or treg 2 0) 0x3f);
        minute = bcd.bcd_to_hex (get_or treg 1 0);
        second = bcd.bcd_to_hex (get_or treg 0 0);
      } in
      let dev' = record dev { bus = s } in
      if ok == 0 then (none, dev') else (datetime_to_second true (some t), dev')

  -- `dat` is none for a NULL pointer, and else its `len` bytes.
  unfoldable pub store_data : Option (List ℕ) → ℕ → Sd2405 S → ℕ × Sd2405 S
  store_data none offset dev = (0, dev)
  store_data (some dat) offset dev =
      if ltb 12 (offset + length dat) then (0, dev) else write_unlocked ((0x14 + offset) ∷ dat) dev

  unfoldable pub restore_data : Bool → ℕ → ℕ → Sd2405 S → ℕ × List ℕ × Sd2405 S
  restore_data false offset len dev = (0, [], dev)
  restore_data true offset len dev =
      let (ok, dat, s) = read_regs (u8 (0x14 + offset)) len dev.bus in
      if ltb 12 (offset + len) then (0, [], dev) else (ok, dat, record dev { bus = s })

  pub dump_regs : Sd2405 S → ℕ × List ℕ × Sd2405 S
  dump_regs dev = let (ok, dat, s) = read_regs 0 32 dev.bus in (ok, dat, record dev { bus = s })

  -- The bits of the second control register for a type of interrupt; `none` is the default case.
  abbrev pub interrupt_bits : InterruptType → ℕ → Option ℕ
  interrupt_bits disable dat = some (without dat 0x30)
  interrupt_bits alarm dat = some (bit_or dat 0x12)
  interrupt_bits frequency dat = some (bit_or dat 0x21)
  interrupt_bits countdown dat = some (bit_or dat 0x34)
  interrupt_bits other dat = none

  -- `pause` says that `single` is SD2405_INTERRUPT_SINGLE_PAUSE.
  unfoldable pub config_interrupt : InterruptType → Bool → Sd2405 S → ℕ × Sd2405 S
  config_interrupt int_type pause dev =
      let (unlocked, dev') = write_enable true dev in
      let dat = bit_or dev'.ctr2 0x08 in
      if unlocked == 0
      then (0, dev')
      else elim (interrupt_bits int_type (if pause then bit_or dat 0x40 else dat)) [
        | none ↦ (0, (write_enable false dev').1)
        | some ctr2' ↦
            let (ok, s) = write_regs (0x10 ∷ ctr2' ∷ []) dev'.bus in
            let dev2 = record dev' { ctr2 = if ok == 0 then dev'.ctr2 else ctr2'; bus = s } in
            (ok, (write_enable false dev2).1)
      ]

  unfoldable pub clear_interrupt : Sd2405 S → ℕ × Sd2405 S
  clear_interrupt dev =
      let (unlocked, dev') = write_enable true dev in
      let (ok, s) = write_regs (0x0f ∷ without dev'.ctr1 0x03 ∷ []) dev'.bus in
      if unlocked == 0 then (0, dev') else (ok, (write_enable false (record dev' { bus = s })).1)

  unfoldable pub set_alarm : Digits → ℕ → Sd2405 S → ℕ × Sd2405 S
  set_alarm bcd seconds dev =
      let t = date_of seconds in
      write_unlocked
        (0x07
          ∷ 0
          ∷ bcd.hex_to_bcd t.minute
          ∷ bcd.hex_to_bcd t.hour
          ∷ 0
          ∷ bcd.hex_to_bcd t.day
          ∷ bcd.hex_to_bcd t.month
          ∷ bcd.hex_to_bcd t.year
          ∷ 0x76
          ∷ [])
        dev
