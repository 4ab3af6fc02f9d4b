-- ===== src/Gpio/Simple.antt =====
-- A bank of pins that follows the laws: a function from pins to levels, where every pin is ready.
use embedded_template.Prelude.{ℕ, refl, ◌==◌, if◌then◌else◌, eq→==, ne→==}
use embedded_template.Gpio.{input, GpioOperations, IsBank}

abbrev pub LevelsOfPins : Type 0
LevelsOfPins = ℕ → ℕ

abbrev pub simple_ops : GpioOperations ℕ LevelsOfPins
simple_ops = record {
  init = λ io mode s. (1, s);
  get_mode = λ io s. (input, s);
  input_is_high = λ io s. (s io, s);
  output_is_high = λ io s. (s io, s);
  set_output = λ io v s. (1, λ j. if j == io then v else s j);
}

abbrev pub simple-IsBank : IsBank simple_ops
simple-IsBank = record {
  level = λ s io. s io;
  Ready = λ s io. Unit {0};
  reads = λ io s r. refl;
  drives_low = λ io s r. rw (eq→== io io refl) refl;
  drives_high = λ io s r. rw (eq→== io io refl) refl;
  drives_only = λ io j v s ne. rw (ne→== j io ne) refl;
  drives_ready = λ io j v s r. tt;
  init_ready = λ io s. tt;
  init_keeps = λ io j m s ne r. tt;
  init_only = λ io j m s ne. refl;
}
