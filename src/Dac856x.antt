-- ===== src/Dac856x.antt =====
-- src/drivers/dac856x/dac856x.c: a converter on the SPI bus, which is sent its state in three bytes.
pub mod Latch
mod Tests
use embedded_template.Prelude.{
  ℕ, ◌+◌, ◌*◌, ◌/◌, ◌^◌, ◌==◌, List, [], ◌∷◌, if◌then◌else◌, u8, u16, u32,
}

-- `struct dac856x_platform`, with what the driver calls of its bus: `spi_init`, `spi_select`, and
-- `spi_transfer` with the bytes to write and no buffer to read to.
pub record Platform (S : Type 0) : Type 0 where
  pub init : ℕ → S → S
  pub select : ℕ → ℕ → S → S
  pub transfer : List ℕ → S → S
  pub cs_index : ℕ
  pub ref_voltage_uv : ℕ

-- `struct dac856x`, and the state of the bus.
pub record Dac856x (S : Type 0) : Type 0 where
  pub power_status : ℕ
  pub dac_value : ℕ
  pub ref_vol_dot_1mv : ℕ
  pub bus : S

-- `enum dac856x_power`.
pub data Power : Type 0 where
  on : Power
  down_1k : Power
  down_100k : Power
  down_hiz : Power

abbrev pub power_code : Power → ℕ
power_code on = 0
power_code down_1k = 1
power_code down_100k = 2
power_code down_hiz = 3

abbrev pub frame : {S : Type 0} → Dac856x S → List ℕ
frame dev = dev.power_status ∷ u8 (dev.dac_value / 2 ^ 8) ∷ u8 dev.dac_value ∷ []

unfoldable pub update_to_device : {S : Type 0} → Platform S → Dac856x S → Dac856x S
update_to_device p dev = record dev {
  bus = p.select p.cs_index 0 (p.transfer (frame dev) (p.select p.cs_index 1 dev.bus));
}

-- SPI_FLAG_CLK_IDLE_HIGH | SPI_FLAG_CLK_FIRST_EDGE is 3.
unfoldable pub init : {S : Type 0} → Platform S → Dac856x S → ℕ × Dac856x S
init p dev = (
  1,
  update_to_device p (record {
    power_status = power_code down_100k;
    dac_value = 0;
    ref_vol_dot_1mv = if p.ref_voltage_uv == 0 then 25000 else p.ref_voltage_uv / 100;
    bus = p.init 3 dev.bus;
  }),
)

unfoldable pub set_power : {S : Type 0} → Platform S → Power → Dac856x S → ℕ × Dac856x S
set_power p power_status dev =
    if dev.power_status == power_code power_status
    then (1, dev)
    else (1, update_to_device p (record dev { power_status = power_code power_status }))

unfoldable pub set_regvalue : {S : Type 0} → Platform S → ℕ → Dac856x S → ℕ × Dac856x S
set_regvalue p regval dev =
    if dev.dac_value == regval
    then (1, dev)
    else (1, update_to_device p (record dev { dac_value = regval }))

pub get_regvalue : {S : Type 0} → Dac856x S → ℕ
get_regvalue dev = dev.dac_value

abbrev pub code_of : ℕ → ℕ → ℕ
code_of ref voltage = u32 (u32 (voltage / 100 * 65536) + ref / 2) / ref

-- A reference below 0.1 mV is a division by 0, which the source does not define.
unfoldable pub set_output : {S : Type 0} → Platform S → ℕ → Dac856x S → ℕ × Dac856x S
set_output p voltage dev = set_regvalue p (u16 (code_of dev.ref_vol_dot_1mv voltage)) dev
