-- ===== src/Softspi/Listener.antt =====
-- The far end of the bus: a device that takes the level of MOSI at each edge of the clock that its
-- mode calls for, puts the next level of a list on MISO there, and holds it up to the next edge only:
-- whoever reads at another time reads the wrong level.
use embedded_template.Prelude.{
  ℕ, ◌-◌, get_or, drop, ◌/◌, ◌%◌, ◌==◌, Bool, true, false, List, [], ◌∷◌, if◌then◌else◌,
}
use embedded_template.Gpio.{input, GpioOperations}
use embedded_template.Softspi.{Platform}

pub data Pin : Type 0 where
  clk : Pin
  mosi : Pin
  miso : Pin
  cs : Pin

-- `taken` holds the levels taken, the newest first, and `feed` the levels of MISO to come.
pub record Wire : Type 0 where
  pub clk_level : ℕ
  pub mosi_level : ℕ
  pub miso_level : ℕ
  pub taken : List ℕ
  pub feed : List ℕ

-- The edge of the mode: MOSI is taken, and the next level is on MISO.
abbrev pub active : ℕ → Wire → Wire
active v w = record {
  clk_level = v;
  mosi_level = w.mosi_level;
  miso_level = get_or w.feed 0 0;
  taken = w.mosi_level ∷ w.taken;
  feed = drop 1 w.feed;
}

-- The other edge: the level of MISO is over, and the opposite level follows.
abbrev pub inactive : ℕ → Wire → Wire
inactive v w = record {
  clk_level = v;
  mosi_level = w.mosi_level;
  miso_level = 1 - w.miso_level;
  taken = w.taken;
  feed = w.feed;
}

-- The clock goes to `v`; the first edge of a bit is the one away from `idle`.
abbrev pub clocked : Bool → ℕ → ℕ → Wire → Wire
clocked first_edge idle v w =
    if v == w.clk_level
    then w
    else (if v == idle
        then (if first_edge then inactive v w else active v w)
        else (if first_edge then active v w else inactive v w))

abbrev pub driven : Bool → ℕ → Pin → ℕ → Wire → Wire
driven first_edge idle clk v w = clocked first_edge idle v w
driven first_edge idle mosi v w = record w { mosi_level = v }
driven first_edge idle miso v w = w
driven first_edge idle cs v w = w

abbrev pub listener_ops : Bool → ℕ → GpioOperations Pin Wire
listener_ops first_edge idle = record {
  init = λ pin mode w. (1, w);
  get_mode = λ pin w. (input, w);
  input_is_high = λ pin w. (w.miso_level, w);
  output_is_high = λ pin w. (0, w);
  set_output = λ pin v w. (1, driven first_edge idle pin v w);
}

abbrev pub listener : Bool → ℕ → Platform Pin Wire
listener first_edge idle = record {
  gpio_ops = listener_ops first_edge idle;
  clk = clk;
  mosi = mosi;
  miso = miso;
  cs_pins = cs ∷ [];
}

-- The levels of a byte in the order of a mode, in front of others.
abbrev pub levels : Bool → ℕ → List ℕ → List ℕ
levels true byte after =
    byte % 2
    ∷ byte / 2 % 2
    ∷ byte / 4 % 2
    ∷ byte / 8 % 2
    ∷ byte / 16 % 2
    ∷ byte / 32 % 2
    ∷ byte / 64 % 2
    ∷ byte / 128 % 2
    ∷ after
levels false byte after =
    byte / 128 % 2
    ∷ byte / 64 % 2
    ∷ byte / 32 % 2
    ∷ byte / 16 % 2
    ∷ byte / 8 % 2
    ∷ byte / 4 % 2
    ∷ byte / 2 % 2
    ∷ byte % 2
    ∷ after
