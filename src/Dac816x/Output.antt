-- ===== src/Dac816x/Output.antt =====
-- What `dac816x_set_output` of src/drivers/dac816x/dac816x.c sends, and how exact the value is.
use native.Mathlib.Nat.{div-mul-le_self, lt-div-mul-add, div-lt_iff_lt-mul}
use embedded_template.Prelude.{
  ℕ, ◌+◌, ◌*◌, ◌/◌, ◌^◌, ◌<◌, ◌≤◌, ◌≡◌, refl, ap, Bool, true, false, some, List, ◌++◌, append_assoc,
  leb, if◌then◌else◌, arith,
}
use embedded_template.Dac816x.{
  Dac816x, power_on, ref_vol, power_status, value_for, change_output, set_output,
}
use embedded_template.Dac816x.Commands.{
  Action, recorder, framed_command, transmit_lem, Channel, a, b, code, bits, value_command,
  with_gain, gain_commands, power_command, gain_lem,
}

-- The gain a voltage needs, and the voltage that is then converted.
abbrev pub needs_gain_2 : ℕ → ℕ → ℕ → Bool
needs_gain_2 cs ref voltage = leb (ref_vol (recorder cs ref)) voltage

abbrev pub converted : ℕ → ℕ → ℕ → ℕ
converted cs ref voltage = if needs_gain_2 cs ref voltage then voltage / 2 else voltage

-- The whole of a change: the output is off, the gain, the value, the output is on.
abbrev pub change_commands : ℕ → ℕ → Channel → ℕ → Dac816x (List Action) → List Action
change_commands cs ref c voltage dev =
    framed_command cs 0x20 (0x30 + bits c)
    ++ gain_commands cs c (needs_gain_2 cs ref voltage) dev
    ++ framed_command cs (value_command c) (value_for (recorder cs ref) (converted cs ref voltage))
    ++ framed_command cs 0x20 (bits c)

-- `change_output` writes the commands of a change, and holds the gain they set.
change_output_lem :
    (cs ref voltage : ℕ) (c : Channel) (dev : Dac816x (List Action))
    → change_output (recorder cs ref) (code c) voltage dev
      ≡ record (with_gain c (needs_gain_2 cs ref voltage) dev) {
        bus = dev.bus ++ change_commands cs ref c voltage dev;
      }
unfolding change_output
change_output_lem cs ref voltage a dev = rw (ap (λ r. r.1) (power_command cs ref a dev.bus).0) (
    rw
      (gain_lem cs ref a (needs_gain_2 cs ref voltage)
        (record dev { bus = dev.bus ++ framed_command cs 0x20 0x31 }))
      (rw
        (transmit_lem cs ref 0x18 (value_for (recorder cs ref) (converted cs ref voltage)) (
          (dev.bus ++ framed_command cs 0x20 0x31)
          ++ gain_commands cs a (needs_gain_2 cs ref voltage) dev))
        (ap (λ s. record dev { is_channel_a_gain_2 = needs_gain_2 cs ref voltage; bus = s })
          (simp append_assoc refl))))
change_output_lem cs ref voltage b dev = rw (ap (λ r. r.1) (power_command cs ref b dev.bus).0) (
    rw
      (gain_lem cs ref b (needs_gain_2 cs ref voltage)
        (record dev { bus = dev.bus ++ framed_command cs 0x20 0x32 }))
      (rw
        (transmit_lem cs ref 0x19 (value_for (recorder cs ref) (converted cs ref voltage)) (
          (dev.bus ++ framed_command cs 0x20 0x32)
          ++ gain_commands cs b (needs_gain_2 cs ref voltage) dev))
        (ap (λ s. record dev { is_channel_b_gain_2 = needs_gain_2 cs ref voltage; bus = s })
          (simp append_assoc refl))))

div_bounds : (n m : ℕ) → 0 < m → (n / m * m ≤ n) × (n < n / m * m + m)
div_bounds n m pos = (div-mul-le_self n m, lt-div-mul-add pos)

-- A number no further than half of the reference from the voltage, in the units of the value.
abbrev pub IsNearest : ℕ → ℕ → ℕ → Type 0
IsNearest ref voltage value =
    (2 * (value * ref) ≤ 2 * (voltage * 65536) + ref)
    × (2 * (voltage * 65536) ≤ 2 * (value * ref) + ref)

rounded-IsNearest :
    (ref voltage : ℕ) → 0 < ref → IsNearest ref voltage ((voltage * 65536 + ref / 2) / ref)
rounded-IsNearest ref voltage pos =
    let (low, high) = div_bounds (voltage * 65536 + ref / 2) ref pos in (omega arith, omega arith)

-- The value of a voltage below the reference is not cut off, and is the nearest to the voltage.
value_for-IsNearest :
    (cs ref voltage : ℕ)
    → voltage < ref_vol (recorder cs ref)
    → ref_vol (recorder cs ref) < 2 ^ 16
    → IsNearest (ref_vol (recorder cs ref)) voltage (value_for (recorder cs ref) voltage)
value_for-IsNearest cs ref voltage below fits =
    let r = ref_vol (recorder cs ref) in
    let pos : 0 < r = omega arith in
    let small : (voltage * 65536 + r / 2) / r < 65536 = (div-lt_iff_lt-mul pos).1 (omega arith) in
    let same : value_for (recorder cs ref) voltage ≡ (voltage * 65536 + r / 2) / r = omega arith in
    rw same (rounded-IsNearest r voltage pos)

converted_below :
    (cs ref voltage : ℕ)
    → voltage < ref_vol (recorder cs ref) * 2
    → converted cs ref voltage < ref_vol (recorder cs ref)
converted_below cs ref voltage in_range = ground arith

-- For a reference below 2 ^ 15 mV, a voltage below twice of it and a channel of the converter that is on,
-- `dac816x_set_output` answers true; it writes, framed by the select line, the command that takes
-- the output off, the command of the gain if the channel held another, the value and the command that
-- takes the output on again, and holds the new gain. The gain is 2 when the voltage reaches the
-- reference. The value is no further than half a step from the voltage, halved at gain 2, in steps of
-- the reference by 2 ^ 16, and is not cut off by its 16 bits.
pub set_output-IsNearest :
    (cs ref voltage : ℕ) (c : Channel) (dev : Dac816x (List Action))
    → voltage < ref_vol (recorder cs ref) * 2
    → ref < 2 ^ 15
    → power_status (recorder cs ref) (code c) dev ≡ some power_on
    → (set_output (recorder cs ref) (code c) voltage dev ≡ (
      true,
      record (with_gain c (needs_gain_2 cs ref voltage) dev) {
        bus = dev.bus ++ change_commands cs ref c voltage dev;
      },
    ))
      × IsNearest
          (ref_vol (recorder cs ref))
          (converted cs ref voltage)
          (value_for (recorder cs ref) (converted cs ref voltage))
unfolding set_output
set_output-IsNearest cs ref voltage c dev in_range fits on =
    let early : leb (ref_vol (recorder cs ref) * 2) voltage ≡ false = ground arith in
    (
      rw (early, on) (ap (λ d. (true, d)) (change_output_lem cs ref voltage c dev)),
      value_for-IsNearest cs ref (converted cs ref voltage)
          (converted_below cs ref voltage in_range) (ground arith),
    )
