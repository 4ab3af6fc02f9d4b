-- ===== src/Dac816x.antt =====
-- src/drivers/dac816x/dac816x.c: a converter with two channels on the SPI bus. Each command is a
-- transfer of three bytes.
pub mod Commands
pub mod Output
mod Tests
use embedded_template.Prelude.{
  ℕ, ◌+◌, ◌*◌, ◌/◌, ◌^◌, ◌≡◌, Bool, true, false, ◌&&◌, not, Option, none, some, List, [], ◌∷◌, leb,
  ◌==◌, if◌then◌else◌, u8, u16, bit_or,
}

-- `struct dac816x_platform`, with what the driver calls of its bus: `spi_init`, `spi_select`, and
-- `spi_transfer` with the bytes to write and no buffer to read to.
pub record Platform (S : Type 0) : Type 0 where
  pub init : ℕ → S → S
  pub select : ℕ → ℕ → S → S
  pub transfer : List ℕ → S → S
  pub cs_index : ℕ
  pub ref_voltage_mv : ℕ

-- `struct dac816x`, and the state of the bus.
pub record Dac816x (S : Type 0) : Type 0 where
  pub channel_a_power_status : ℕ
  pub channel_b_power_status : ℕ
  pub is_channel_a_gain_2 : Bool
  pub is_channel_b_gain_2 : Bool
  pub bus : S

-- The channels of the enumeration; any other number is no channel.
abbrev pub channel_a : ℕ
channel_a = 0

abbrev pub channel_b : ℕ
channel_b = 1

-- The power states of the enumeration.
abbrev pub power_on : ℕ
power_on = 0

abbrev pub power_down_100k : ℕ
power_down_100k = 2

abbrev pub power_down_hiz : ℕ
power_down_hiz = 3

abbrev pub command : ℕ → ℕ → List ℕ
command cmd dat = cmd ∷ u8 (dat / 2 ^ 8) ∷ u8 dat ∷ []

-- The bits of a power state in the command, and those of a channel.
unfoldable pub power_bits : ℕ → Option ℕ
power_bits status =
    if status == 0
    then some 0x00
    else if status == 1
    then some 0x10
    else if status == 2
    then some 0x20
    else if status == 3
    then some 0x30
    else none

unfoldable pub channel_bits : ℕ → Option ℕ
channel_bits channel =
    if channel == channel_a then some 0x01 else if channel == channel_b then some 0x02 else none

unfoldable pub gain_to_command_data : Bool → Bool → ℕ
gain_to_command_data true true = 0x00
gain_to_command_data false true = 0x01
gain_to_command_data true false = 0x02
gain_to_command_data false false = 0x03

-- `==` of two one-bit fields.
abbrev pub same_gain : Bool → Bool → Bool
same_gain true b = b
same_gain false b = not b

module _ {S : Type 0} (p : Platform S) where
  unfoldable pub transmit : ℕ → ℕ → S → S
  transmit cmd dat s =
      p.select p.cs_index 0 (p.transfer (command cmd dat) (p.select p.cs_index 1 s))

  -- The bits of both, once they are known.
  unfoldable pub send_power : Option ℕ → Option ℕ → S → Bool × S
  unfolding transmit
  send_power none channel s = (false, s)
  send_power (some dat) none s = (false, s)
  send_power (some dat) (some bits) s = (true, transmit 0x20 (bit_or dat bits) s)

  unfoldable pub set_channel_power_status : ℕ → ℕ → S → Bool × S
  unfolding send_power power_bits channel_bits
  set_channel_power_status channel status s =
      send_power (power_bits status) (channel_bits channel) s

  unfoldable pub set_gain : Dac816x S → Dac816x S
  unfolding transmit gain_to_command_data
  set_gain dev = record dev {
    bus =
        transmit 0x02 (gain_to_command_data dev.is_channel_a_gain_2 dev.is_channel_b_gain_2)
          dev.bus;
  }

  -- SPI_FLAG_CLK_IDLE_HIGH | SPI_FLAG_CLK_FIRST_EDGE is 3. The source gives the state of channel A
  -- for both.
  unfoldable pub init : Dac816x S → Dac816x S
  unfolding transmit set_channel_power_status set_gain
  init dev =
      let s1 = transmit 0xc0 0x0000 (transmit 0x48 0x0001 (p.init 3 dev.bus)) in
      let s2 = (set_channel_power_status channel_a power_down_100k s1).1 in
      let s3 = (set_channel_power_status channel_b power_down_100k s2).1 in
      set_gain (record {
        channel_a_power_status = power_down_100k;
        channel_b_power_status = power_down_100k;
        is_channel_a_gain_2 = false;
        is_channel_b_gain_2 = false;
        bus = transmit 0x38 (if p.ref_voltage_mv == 0 then 0x01 else 0x00) s3;
      })

  unfoldable pub set_power : ℕ → ℕ → Dac816x S → Bool × Dac816x S
  unfolding set_channel_power_status
  set_power channel status dev =
      let (ok, s) = set_channel_power_status channel status dev.bus in
      if not ok
      then (false, record dev { bus = s })
      else if channel == channel_a
      then (true, record dev { channel_a_power_status = status; bus = s })
      else if channel == channel_b
      then (true, record dev { channel_b_power_status = status; bus = s })
      else (false, record dev { bus = s })

  abbrev pub ref_vol : ℕ
  ref_vol = if p.ref_voltage_mv == 0 then 2500 else p.ref_voltage_mv

  -- The power state that the driver holds for a channel; `none` is no channel.
  abbrev pub power_status : ℕ → Dac816x S → Option ℕ
  power_status channel dev =
      if channel == channel_a
      then some dev.channel_a_power_status
      else if channel == channel_b
      then some dev.channel_b_power_status
      else none

  -- The gain of the channel is changed if it is another one.
  unfoldable pub update_gain : ℕ → Bool → Dac816x S → Dac816x S
  unfolding set_gain
  update_gain channel is_gain_2 dev =
      let a = set_gain (record dev { is_channel_a_gain_2 = is_gain_2 }) in
      let b = set_gain (record dev { is_channel_b_gain_2 = is_gain_2 }) in
      if channel == channel_a
      then (if same_gain dev.is_channel_a_gain_2 is_gain_2 then dev else a)
      else (if same_gain dev.is_channel_b_gain_2 is_gain_2 then dev else b)

  -- The value for a voltage below the reference. The product is an `int` of 32 bits, which holds it
  -- for references below 32768 mV.
  abbrev pub value_for : ℕ → ℕ
  value_for voltage = u16 ((voltage * 65536 + ref_vol / 2) / ref_vol)

  -- What follows the tests.
  unfoldable pub change_output : ℕ → ℕ → Dac816x S → Dac816x S
  unfolding set_channel_power_status update_gain transmit
  change_output channel voltage dev =
      let is_gain_2 = leb ref_vol voltage in
      let low = if is_gain_2 then voltage / 2 else voltage in
      let off = record dev { bus = (set_channel_power_status channel power_down_hiz dev.bus).1 } in
      let dev' = update_gain channel is_gain_2 off in
      let cmd = if channel == channel_a then 0x18 else 0x19 in
      let s = transmit cmd (value_for low) dev'.bus in
      record dev' { bus = (set_channel_power_status channel power_on s).1 }

  unfoldable pub set_output : ℕ → ℕ → Dac816x S → Bool × Dac816x S
  unfolding change_output
  set_output channel voltage dev =
      let done = change_output channel voltage dev in
      if leb (ref_vol * 2) voltage then (false, dev) else elim (power_status channel dev) [
        | none ↦ (false, dev)
        | some status ↦ if status == power_on then (true, done) else (false, dev)
      ]
