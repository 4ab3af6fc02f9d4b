-- ===== src/Hcf4052.antt =====
-- src/drivers/hcf4052: the analog multiplexer, switched by three pins.
pub mod Select
mod Tests
use embedded_template.Prelude.{ℕ, suc, ◌==◌, true, false, if◌then◌else◌, bit_or}
use embedded_template.Gpio.{GpioMode, output_pushpull, GpioOperations}

-- `enum hcf4052_channel`.
pub data Channel : Type 0 where
  channel_0 : Channel
  channel_1 : Channel
  channel_2 : Channel
  channel_3 : Channel
  channel_none : Channel

-- `struct hcf4052_platform`.
pub record Platform (Io S : Type 0) : Type 0 where
  pub ctrl_a : Io
  pub ctrl_b : Io
  pub ctrl_inh : Io
  pub gpio_ops : GpioOperations Io S

pub init : {Io S : Type 0} → Platform Io S → S → S
init platform s =
    let s1 = (platform.gpio_ops.init platform.ctrl_inh output_pushpull s).1 in
    let s2 = (platform.gpio_ops.set_output platform.ctrl_inh 1 s1).1 in
    let s3 = (platform.gpio_ops.init platform.ctrl_a output_pushpull s2).1 in
    (platform.gpio_ops.init platform.ctrl_b output_pushpull s3).1

-- The two writes of a case of the switch, and the one after it.
pub switch_to : {Io S : Type 0} → Platform Io S → ℕ → ℕ → S → S
switch_to platform a b s =
    let s1 = (platform.gpio_ops.set_output platform.ctrl_a a s).1 in
    let s2 = (platform.gpio_ops.set_output platform.ctrl_b b s1).1 in
    (platform.gpio_ops.set_output platform.ctrl_inh 0 s2).1

pub select_channel : {Io S : Type 0} → Platform Io S → Channel → S → S
select_channel platform channel s =
    let s1 = (platform.gpio_ops.set_output platform.ctrl_inh 1 s).1 in
    elim channel [
      | channel_0 ↦ switch_to platform 0 0 s1
      | channel_1 ↦ switch_to platform 1 0 s1
      | channel_2 ↦ switch_to platform 0 1 s1
      | channel_3 ↦ switch_to platform 1 1 s1
      | channel_none ↦ s1
    ]

pub io_to_channel : ℕ → Channel
io_to_channel bits =
    if bits == 0
    then channel_0
    else if bits == 1
    then channel_2
    else if bits == 2
    then channel_1
    else channel_3

-- Both bits are taken from `ctrl_a`, as in the source.
pub get_current_channel : {Io S : Type 0} → Platform Io S → S → Channel × S
get_current_channel platform s =
    let (inhibited, s1) = platform.gpio_ops.output_is_high platform.ctrl_inh s in
    elim (inhibited == 0) [
      | false ↦ (channel_none, s1)
      | true ↦
          let (a, s2) = platform.gpio_ops.output_is_high platform.ctrl_a s1 in
          let bits = if a == 0 then 0 else bit_or 0 1 in
          let (a', s3) = platform.gpio_ops.output_is_high platform.ctrl_a s2 in
          (io_to_channel (if a' == 0 then bits else bit_or bits 2), s3)
    ]
