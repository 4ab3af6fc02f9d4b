-- ===== src/Hcf4052/Tests.antt =====
-- The multiplexer's theorems on three pins of the simple bank.
use embedded_template.Prelude.{ℕ, ◌≡◌, arith}
use embedded_template.Gpio.Simple.{LevelsOfPins, simple_ops, simple-IsBank}
use embedded_template.Hcf4052.{channel_1, channel_3, Platform, select_channel, get_current_channel}
use embedded_template.Hcf4052.Select.{IsWired, IsReady, get_current_channel-select_channel}

abbrev simple : Platform ℕ LevelsOfPins
simple = record { ctrl_a = 1; ctrl_b = 2; ctrl_inh = 3; gpio_ops = simple_ops }

simple-IsWired : IsWired simple
simple-IsWired = record { a_b = omega arith; a_inh = omega arith; b_inh = omega arith }

simple-IsReady : (s : LevelsOfPins) → IsReady simple simple-IsBank s
simple-IsReady s = record { a = tt; b = tt; inh = tt }

abbrev all_low : LevelsOfPins
all_low pin = 0

get_current_channel-select_channel_example :
    get_current_channel simple (select_channel simple channel_1 all_low)
    ≡ (channel_3, select_channel simple channel_1 all_low)
get_current_channel-select_channel_example =
    get_current_channel-select_channel simple simple-IsBank simple-IsWired channel_1 all_low
      (simple-IsReady all_low)
