-- ===== src/Dac856x/Tests.antt =====
-- Runs of the code of src/drivers/dac856x/dac856x.c with the internal reference of 2.5 V.
use embedded_template.Prelude.{◌≡◌, refl, false, [], ◌∷◌}
use embedded_template.Dac856x.{
  Dac856x, on, init, set_power, set_regvalue, set_output, update_to_device,
}
use embedded_template.Dac856x.Latch.{
  Latch, latch, Mirrors, power, output, after_calls, init-Mirrors,
}

abbrev fresh : Dac856x Latch
fresh = record {
  power_status = 7;
  dac_value = 9;
  ref_vol_dot_1mv = 0;
  bus = record { selected = false; shown = [] };
}

-- One volt, 1000000 uV, is 26214 of 65536.
one_volt :
    (after_calls (latch 4 0) (power on ∷ output 1000000 ∷ []) (init (latch 4 0) fresh).1).bus.shown
    ≡ 0 ∷ 102 ∷ 102 ∷ []
unfolding init set_power set_regvalue set_output update_to_device
one_volt = refl

-- The full reference is sent as 0.
full_scale :
    (after_calls (latch 4 0) (power on ∷ output 2500000 ∷ []) (init (latch 4 0) fresh).1).bus.shown
    ≡ 0 ∷ 0 ∷ 0 ∷ []
unfolding init set_power set_regvalue set_output update_to_device
full_scale = refl

init-Mirrors_example :
    Mirrors (after_calls (latch 4 0) (power on ∷ output 1000000 ∷ []) (init (latch 4 0) fresh).1)
init-Mirrors_example = init-Mirrors 4 0 (power on ∷ output 1000000 ∷ []) fresh
