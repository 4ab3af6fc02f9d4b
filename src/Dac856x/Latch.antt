-- ===== src/Dac856x/Latch.antt =====
-- The state of src/drivers/dac856x/dac856x.c against a converter that takes the bytes of a transfer
-- when it is selected, and shows those of the last.
use embedded_template.Prelude.{
  ℕ, ◌/◌, ◌%◌, ◌==◌, eq→==, Bool, true, false, ◌≡◌, refl, List, [], ◌∷◌, if◌then◌else◌, u16,
}
use embedded_template.Dac856x.{
  Platform, Dac856x, Power, power_code, update_to_device, init, set_power, set_regvalue, set_output,
  code_of,
}

-- `shown` is the last transfer to the selected chip.
pub record Latch : Type 0 where
  pub selected : Bool
  pub shown : List ℕ

abbrev pub latch : ℕ → ℕ → Platform Latch
latch cs ref = record {
  init = λ flags s. s;
  select =
      λ which is_select s. if which == cs then record s { selected = not_zero is_select } else s;
  transfer = λ bytes s. if s.selected then record s { shown = bytes } else s;
  cs_index = cs;
  ref_voltage_uv = ref;
}
  where
    not_zero : ℕ → Bool
    not_zero n = if n == 0 then false else true

-- The converter shows the driver's state, and is not selected: the first byte it was sent is the
-- power status, the second the high byte of the value, and the third the low byte.
pub Mirrors : Dac856x Latch → Type 0
Mirrors dev =
    (dev.bus.shown ≡ dev.power_status ∷ dev.dac_value / 256 % 256 ∷ dev.dac_value % 256 ∷ [])
    × (dev.bus.selected ≡ false)

pub data Call : Type 0 where
  power : Power → Call
  regvalue : ℕ → Call
  output : ℕ → Call

abbrev pub after_call : Platform Latch → Call → Dac856x Latch → Dac856x Latch
after_call p (power status) dev = (set_power p status dev).1
after_call p (regvalue v) dev = (set_regvalue p v dev).1
after_call p (output v) dev = (set_output p v dev).1

abbrev pub after_calls : Platform Latch → List Call → Dac856x Latch → Dac856x Latch
after_calls p [] dev = dev
after_calls p (call ∷ calls) dev = after_calls p calls (after_call p call dev)

update_to_device-Mirrors :
    (cs ref : ℕ) (dev : Dac856x Latch) → Mirrors (update_to_device (latch cs ref) dev)
unfolding update_to_device Mirrors
update_to_device-Mirrors cs ref dev = rw (eq→== cs cs refl) (refl, refl)

either-Mirrors :
    (b : Bool) (x y : ℕ × Dac856x Latch)
    → Mirrors x.1
    → Mirrors y.1
    → Mirrors (if b then x else y).1
either-Mirrors true x y p q = p
either-Mirrors false x y p q = q

set_regvalue-Mirrors :
    (cs ref v : ℕ) (dev : Dac856x Latch)
    → Mirrors dev
    → Mirrors (set_regvalue (latch cs ref) v dev).1
unfolding set_regvalue
set_regvalue-Mirrors cs ref v dev m =
    either-Mirrors (dev.dac_value == v) _ _ m
      (update_to_device-Mirrors cs ref (record dev { dac_value = v }))

after_call-Mirrors :
    (cs ref : ℕ) (call : Call) (dev : Dac856x Latch)
    → Mirrors dev
    → Mirrors (after_call (latch cs ref) call dev)
unfolding set_power set_output
after_call-Mirrors cs ref (power status) dev m =
    either-Mirrors (dev.power_status == power_code status) _ _ m
      (update_to_device-Mirrors cs ref (record dev { power_status = power_code status }))
after_call-Mirrors cs ref (regvalue v) dev m = set_regvalue-Mirrors cs ref v dev m
after_call-Mirrors cs ref (output v) dev m =
    set_regvalue-Mirrors cs ref (u16 (code_of dev.ref_vol_dot_1mv v)) dev m

after_calls-Mirrors :
    (cs ref : ℕ) (calls : List Call) (dev : Dac856x Latch)
    → Mirrors dev
    → Mirrors (after_calls (latch cs ref) calls dev)
after_calls-Mirrors cs ref [] dev m = m
after_calls-Mirrors cs ref (call ∷ calls) dev m =
    after_calls-Mirrors cs ref calls (after_call (latch cs ref) call dev)
      (after_call-Mirrors cs ref call dev m)

-- After the converter was set up, and after any calls behind that, the last three bytes it was sent
-- are the power status that the driver holds and the high and the low byte of the value that it
-- holds, although calls that change nothing send nothing; and it is not selected.
pub init-Mirrors :
    (cs ref : ℕ) (calls : List Call) (dev : Dac856x Latch)
    → Mirrors (after_calls (latch cs ref) calls (init (latch cs ref) dev).1)
unfolding init
init-Mirrors cs ref calls dev =
    after_calls-Mirrors cs ref calls _ (update_to_device-Mirrors cs ref _)
