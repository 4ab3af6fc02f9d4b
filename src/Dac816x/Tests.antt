-- ===== src/Dac816x/Tests.antt =====
-- Runs of src/drivers/dac816x/dac816x.c on a bus that records its commands.
use embedded_template.Prelude.{◌≡◌, refl, true, false, List, [], ◌++◌, arith}
use embedded_template.Dac816x.{Dac816x, init, set_output, gain_to_command_data}
use embedded_template.Dac816x.Commands.{Action, recorder, framed_command, b}
use embedded_template.Dac816x.Output.{IsNearest, set_output-IsNearest}

-- What the memory of a device that is not set up may hold.
abbrev fresh : Dac816x (List Action)
fresh = record {
  channel_a_power_status = 3;
  channel_b_power_status = 1;
  is_channel_a_gain_2 = true;
  is_channel_b_gain_2 = true;
  bus = [];
}

init_run :
    (init (recorder 4 0) fresh).bus
    ≡ framed_command 4 0x48 1
      ++ framed_command 4 0xc0 0
      ++ framed_command 4 0x20 0x21
      ++ framed_command 4 0x20 0x22
      ++ framed_command 4 0x38 1
      ++ framed_command 4 0x02 3
unfolding init
init_run = refl

-- The channels are off until they are turned on.
off_run : (set_output (recorder 4 0) 0 1000 (init (recorder 4 0) fresh)).0 ≡ false
unfolding init set_output
off_run = refl

-- A device with both channels on at gain 1.
abbrev on : Dac816x (List Action)
on = record {
  channel_a_power_status = 0;
  channel_b_power_status = 0;
  is_channel_a_gain_2 = false;
  is_channel_b_gain_2 = false;
  bus = [];
}

too_large_run : (set_output (recorder 4 0) 0 5000 on).0 ≡ false
unfolding set_output
too_large_run = refl

-- 4000 mV on the second channel need gain 2.
set_output-IsNearest_example :
    (set_output (recorder 4 0) 1 4000 on ≡ (
      true,
      record on {
        is_channel_b_gain_2 = true;
        bus =
            framed_command 4 0x20 0x32
            ++ framed_command 4 0x02 1
            ++ framed_command 4 0x19 52429
            ++ framed_command 4 0x20 0x02;
      },
    ))
    × IsNearest 2500 2000 52429
unfolding gain_to_command_data
set_output-IsNearest_example = set_output-IsNearest 4 0 4000 b on (omega arith) (omega arith) refl
