-- ===== src/Dac816x/Commands.antt =====
-- The commands that src/drivers/dac816x/dac816x.c sends, on a bus that records them.
use embedded_template.Prelude.{
  ℕ, ◌+◌, ◌≡◌, refl, sym, ap, ap₂, append-nil, Bool, true, false, inl, inr, Bool-cases, List, [],
  ◌∷◌, ◌++◌, append_assoc, if◌then◌else◌,
}
use embedded_template.Dac816x.{
  Platform, Dac816x, channel_a, channel_b, power_on, power_down_hiz, command, gain_to_command_data,
  transmit, set_channel_power_status, set_gain, same_gain, update_gain,
}

-- What the bus was asked for: a select line, or a transfer.
pub data Action : Type 0 where
  selected : ℕ → ℕ → Action
  written : List ℕ → Action

abbrev pub recorder : ℕ → ℕ → Platform (List Action)
recorder cs ref = record {
  init = λ flags s. s;
  select = λ which is_select s. s ++ selected which is_select ∷ [];
  transfer = λ bytes s. s ++ written bytes ∷ [];
  cs_index = cs;
  ref_voltage_mv = ref;
}

-- A command between the select and the release of the chip.
abbrev pub framed_command : ℕ → ℕ → ℕ → List Action
framed_command cs cmd dat = selected cs 1 ∷ written (command cmd dat) ∷ selected cs 0 ∷ []

pub transmit_lem :
    (cs ref cmd dat : ℕ) (s : List Action)
    → transmit (recorder cs ref) cmd dat s ≡ s ++ framed_command cs cmd dat
unfolding transmit
transmit_lem cs ref cmd dat s = simp append_assoc refl

-- The two channels.
pub data Channel : Type 0 where
  a : Channel
  b : Channel

abbrev pub code : Channel → ℕ
code a = channel_a
code b = channel_b

abbrev pub bits : Channel → ℕ
bits a = 0x01
bits b = 0x02

abbrev pub value_command : Channel → ℕ
value_command a = 0x18
value_command b = 0x19

-- The gain that the driver holds for the channel, and the driver with another.
abbrev pub has_gain_2 : Channel → Dac816x (List Action) → Bool
has_gain_2 a dev = dev.is_channel_a_gain_2
has_gain_2 b dev = dev.is_channel_b_gain_2

abbrev pub with_gain : Channel → Bool → Dac816x (List Action) → Dac816x (List Action)
with_gain a g dev = record dev { is_channel_a_gain_2 = g }
with_gain b g dev = record dev { is_channel_b_gain_2 = g }

-- The gain command, if the gain of the channel changes.
abbrev pub gain_commands : ℕ → Channel → Bool → Dac816x (List Action) → List Action
gain_commands cs c g dev =
    let dev' = with_gain c g dev in
    if same_gain (has_gain_2 c dev) g
    then []
    else framed_command cs 0x02
        (gain_to_command_data dev'.is_channel_a_gain_2 dev'.is_channel_b_gain_2)

pub power_command :
    (cs ref : ℕ) (c : Channel) (s : List Action)
    → (set_channel_power_status (recorder cs ref) (code c) power_down_hiz s
        ≡ (true, s ++ framed_command cs 0x20 (0x30 + bits c)))
      × (set_channel_power_status (recorder cs ref) (code c) power_on s
          ≡ (true, s ++ framed_command cs 0x20 (bits c)))
unfolding set_channel_power_status
power_command cs ref a s = (
  ap (λ t. (true, t)) (transmit_lem cs ref 0x20 0x31 s),
  ap (λ t. (true, t)) (transmit_lem cs ref 0x20 0x01 s),
)
power_command cs ref b s = (
  ap (λ t. (true, t)) (transmit_lem cs ref 0x20 0x32 s),
  ap (λ t. (true, t)) (transmit_lem cs ref 0x20 0x02 s),
)

same_gain-eq : (x y : Bool) → same_gain x y ≡ true → x ≡ y
same_gain-eq true true h = refl
same_gain-eq true false h = cc
same_gain-eq false true h = cc
same_gain-eq false false h = refl

-- The gain of a channel is the one wanted behind the commands.
pub gain_lem :
    (cs ref : ℕ) (c : Channel) (g : Bool) (dev : Dac816x (List Action))
    → update_gain (recorder cs ref) (code c) g dev
      ≡ record (with_gain c g dev) { bus = dev.bus ++ gain_commands cs c g dev }
unfolding update_gain set_gain
gain_lem cs ref a g dev = elim (Bool-cases (same_gain dev.is_channel_a_gain_2 g)) [
  | inl same ↦ rw same (
      ap₂ (λ h s. record dev { is_channel_a_gain_2 = h; bus = s }) (same_gain-eq _ _ same)
        (sym (append-nil dev.bus)))
  | inr other ↦ rw other (
      ap (λ s. record dev { is_channel_a_gain_2 = g; bus = s })
        (transmit_lem cs ref 0x02 (gain_to_command_data g dev.is_channel_b_gain_2) dev.bus))
]
gain_lem cs ref b g dev = elim (Bool-cases (same_gain dev.is_channel_b_gain_2 g)) [
  | inl same ↦ rw same (
      ap₂ (λ h s. record dev { is_channel_b_gain_2 = h; bus = s }) (same_gain-eq _ _ same)
        (sym (append-nil dev.bus)))
  | inr other ↦ rw other (
      ap (λ s. record dev { is_channel_b_gain_2 = g; bus = s })
        (transmit_lem cs ref 0x02 (gain_to_command_data dev.is_channel_a_gain_2 g) dev.bus))
]
