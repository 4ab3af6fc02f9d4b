-- ===== src/Gpio.antt =====
-- src/gpio: the table of operations on pins that every driver goes through. The state `S` is that
-- of the platform below the table; the operations of the table are parameters of the drivers.
pub mod Simple
use embedded_template.Prelude.{ℕ, ◌≡◌, ◌≢◌}

-- `enum gpio_mode`.
pub data GpioMode : Type 0 where
  input : GpioMode
  output_pushpull : GpioMode
  output_opendrain : GpioMode

-- `struct gpio_operations`, on pins `Io`.
pub record GpioOperations (Io S : Type 0) : Type 0 where
  pub init : Io → GpioMode → S → ℕ × S
  pub get_mode : Io → S → GpioMode × S
  pub input_is_high : Io → S → ℕ × S
  pub output_is_high : Io → S → ℕ × S
  pub set_output : Io → ℕ → S → ℕ × S

-- What the drivers rely on: a pin that was set up as an output is ready, and stays so; a level
-- written to a ready pin is the one read back, and no other pin changes.
pub record IsBank {Io S : Type 0} (ops : GpioOperations Io S) : Type 1 where
  pub level : S → Io → ℕ
  pub Ready : S → Io → Type 0
  pub reads : (io : Io) (s : S) → Ready s io → ops.output_is_high io s ≡ (level s io, s)
  pub drives_low : (io : Io) (s : S) → Ready s io → level (ops.set_output io 0 s).1 io ≡ 0
  pub drives_high : (io : Io) (s : S) → Ready s io → level (ops.set_output io 1 s).1 io ≡ 1
  pub drives_only :
      (io j : Io) (v : ℕ) (s : S) → j ≢ io → level (ops.set_output io v s).1 j ≡ level s j
  pub drives_ready : (io j : Io) (v : ℕ) (s : S) → Ready s j → Ready (ops.set_output io v s).1 j
  pub init_ready : (io : Io) (s : S) → Ready (ops.init io output_pushpull s).1 io
  pub init_keeps :
      (io j : Io) (m : GpioMode) (s : S) → j ≢ io → Ready s j → Ready (ops.init io m s).1 j
  pub init_only :
      (io j : Io) (m : GpioMode) (s : S) → j ≢ io → level (ops.init io m s).1 j ≡ level s j
