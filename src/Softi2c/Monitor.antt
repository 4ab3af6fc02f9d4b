-- ===== src/Softi2c/Monitor.antt =====
-- The two lines of src/i2c/softi2c.c as a monitor of the bus sees them, with a slave that answers
-- from a list of levels.
use embedded_template.Prelude.{ℕ, ◌==◌, Bool, true, false, List, ◌∷◌, get_or, drop, if◌then◌else◌}
use embedded_template.Gpio.{input, GpioOperations}
use embedded_template.Softi2c.{Platform}

pub data Pin : Type 0 where
  scl : Pin
  sda : Pin

-- A change of SDA while SCL is high starts or stops a transfer. A pulse of SCL without one carries
-- a bit: the level that the master puts on SDA, and the slave's.
pub data Symbol : Type 0 where
  started : Symbol
  stopped : Symbol
  pulse : ℕ → ℕ → Symbol

-- `pending` says that SCL rose and that SDA did not change since. `answers` holds the slave's level
-- at each pulse to come; beyond them it leaves SDA high. `symbols` has the newest first.
pub record Bus : Type 0 where
  pub scl_level : ℕ
  pub sda_level : ℕ
  pub pending : Bool
  pub answers : List ℕ
  pub symbols : List Symbol

abbrev pub as_level : ℕ → ℕ
as_level v = if v == 0 then 0 else 1

abbrev pub rise : Bus → Bus
rise w = if w.scl_level == 0 then record w { scl_level = 1; pending = true } else w

abbrev pub fall : Bus → Bus
fall w =
    if w.scl_level == 0
    then w
    else (if w.pending
        then record {
          scl_level = 0;
          sda_level = w.sda_level;
          pending = false;
          answers = drop 1 w.answers;
          symbols = pulse w.sda_level (get_or w.answers 0 1) ∷ w.symbols;
        }
        else record w { scl_level = 0 })

abbrev pub change_sda : ℕ → Bus → Bus
change_sda v w =
    if w.scl_level == 0
    then record w { sda_level = v }
    else (if v == w.sda_level then w else record w {
      sda_level = v;
      pending = false;
      symbols = (if v == 0 then started else stopped) ∷ w.symbols;
    })

abbrev pub driven : Pin → ℕ → Bus → Bus
driven scl v w = if v == 0 then fall w else rise w
driven sda v w = change_sda (as_level v) w

-- SDA is low when the master or the slave pulls it down.
abbrev pub line : Pin → Bus → ℕ
line scl w = w.scl_level
line sda w = if w.sda_level == 0 then 0 else get_or w.answers 0 1

abbrev pub bus_ops : GpioOperations Pin Bus
bus_ops = record {
  init = λ pin mode w. (1, w);
  get_mode = λ pin w. (input, w);
  input_is_high = λ pin w. (line pin w, w);
  output_is_high = λ pin w. (0, w);
  set_output = λ pin v w. (1, driven pin v w);
}

abbrev pub master : Platform Pin Bus
master = record { scl = scl; sda = sda; gpio_ops = bus_ops }

-- The bus between transfers.
abbrev pub idle : List ℕ → List Symbol → Bus
idle answers symbols = record {
  scl_level = 1;
  sda_level = 1;
  pending = false;
  answers = answers;
  symbols = symbols;
}

-- The bus between the pulses of a transfer.
abbrev pub low : ℕ → List ℕ → List Symbol → Bus
low level answers symbols = record {
  scl_level = 0;
  sda_level = level;
  pending = false;
  answers = answers;
  symbols = symbols;
}
