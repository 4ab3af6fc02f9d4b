-- ===== src/Softspi.antt =====
-- src/spi/softspi.c: a bus whose clock and data lines are driven pin by pin.
pub mod Listener
pub mod Exchange
pub mod Stream
pub mod Lines
mod Tests
use embedded_template.Prelude.{
  ℕ, zero, suc, ◌+◌, ◌*◌, ◌/◌, ◌==◌, Bool, true, false, Option, none, some, List, [], ◌∷◌,
  if◌then◌else◌, bit_and, bit_or, u8,
}
use embedded_template.Gpio.{GpioMode, input, output_pushpull, GpioOperations}
use embedded_template.Spi.{transfer_use_transmit_onebyte}

-- `struct softspi_platform`; `cs_num` is the length of `cs_pins`.
pub record Platform (Io S : Type 0) : Type 0 where
  pub gpio_ops : GpioOperations Io S
  pub clk : Io
  pub mosi : Io
  pub miso : Io
  pub cs_pins : List Io

-- `struct softspi` is its flags and its platform.
abbrev pub flag_clk_idle_high : ℕ
flag_clk_idle_high = 1

abbrev pub flag_clk_first_edge : ℕ
flag_clk_first_edge = 2

abbrev pub flag_lsb_first : ℕ
flag_lsb_first = 4

abbrev pub is_zero : ℕ → ℕ
is_zero n = if n == 0 then 1 else 0

abbrev pub is_nonzero : ℕ → ℕ
is_nonzero n = if n == 0 then 0 else 1

pub init_cs_pins : {Io S : Type 0} → GpioOperations Io S → List Io → S → S
init_cs_pins ops [] s = s
init_cs_pins ops (pin ∷ pins) s =
    let s1 = (ops.init pin output_pushpull s).1 in init_cs_pins ops pins (ops.set_output pin 1 s1).1

-- The flags that are kept, the answer and the state of the pins.
pub init : {Io S : Type 0} → Platform Io S → ℕ → S → ℕ × ℕ × S
init plat flags s =
    let s1 = init_cs_pins plat.gpio_ops plat.cs_pins s in
    let s2 = (plat.gpio_ops.init plat.clk output_pushpull s1).1 in
    let s3 = (plat.gpio_ops.set_output plat.clk (bit_and flags flag_clk_idle_high) s2).1 in
    let s4 = (plat.gpio_ops.init plat.mosi output_pushpull s3).1 in
    (flags, 1, (plat.gpio_ops.init plat.miso input s4).1)

-- The pin `cs_pins[which]`, unless `which >= cs_num`.
pub cs_pin : {Io : Type 0} → List Io → ℕ → Option Io
cs_pin [] which = none
cs_pin (pin ∷ pins) zero = some pin
cs_pin (pin ∷ pins) (suc which) = cs_pin pins which

pub select : {Io S : Type 0} → Platform Io S → ℕ → ℕ → S → ℕ × S
select plat which is_select s = elim (cs_pin plat.cs_pins which) [
  | none ↦ (0, s)
  | some pin ↦ (1, (plat.gpio_ops.set_output pin (is_zero is_select) s).1)
]

-- A round of the loops that read at the first edge: the byte so far, and the pins.
unfoldable pub first_edge_round : {Io S : Type 0} → Platform Io S → ℕ → ℕ → ℕ → ℕ → ℕ × S → ℕ × S
first_edge_round plat clk_idle_high idle_level dat b (r, s) =
    let s1 = (plat.gpio_ops.set_output plat.mosi (is_nonzero (bit_and b dat)) s).1 in
    let s2 = (plat.gpio_ops.set_output plat.clk (is_zero clk_idle_high) s1).1 in
    let (high, s3) = plat.gpio_ops.input_is_high plat.miso s2 in
    let r' = if high == 0 then r else bit_or r b in
    (r', (plat.gpio_ops.set_output plat.clk idle_level s3).1)

unfoldable pub second_edge_round : {Io S : Type 0} → Platform Io S → ℕ → ℕ → ℕ → ℕ × S → ℕ × S
second_edge_round plat clk_idle_high dat b (r, s) =
    let s1 = (plat.gpio_ops.set_output plat.clk (is_zero clk_idle_high) s).1 in
    let s2 = (plat.gpio_ops.set_output plat.mosi (is_nonzero (bit_and b dat)) s1).1 in
    let s3 = (plat.gpio_ops.set_output plat.clk (is_nonzero clk_idle_high) s2).1 in
    let (high, s4) = plat.gpio_ops.input_is_high plat.miso s3 in
    (if high == 0 then r else bit_or r b, s4)

-- `for (b = ...; b != 0; b = shift b)`: eight shifts take every mask of one bit to 0, so with nine
-- rounds of fuel the loop ends by its test.
unfoldable pub mask_loop : {S : Type 0} → (ℕ → ℕ × S → ℕ × S) → (ℕ → ℕ) → ℕ → ℕ → ℕ × S → ℕ × S
mask_loop round shift zero b acc = acc
mask_loop round shift (suc fuel) b acc = elim (b == 0) [
  | true ↦ acc
  | false ↦ mask_loop round shift fuel (shift b) (round b acc)
]

abbrev pub mask_down : ℕ → ℕ
mask_down b = b / 2

abbrev pub mask_up : ℕ → ℕ
mask_up b = u8 (b * 2)

unfoldable pub transmit_1st_edge_msb_first : {Io S : Type 0} → Platform Io S → ℕ → ℕ → S → ℕ × S
transmit_1st_edge_msb_first plat dat clk_idle_high s =
    mask_loop (first_edge_round plat clk_idle_high (is_nonzero clk_idle_high) dat) mask_down 9 0x80
      (0, s)

unfoldable pub transmit_2st_edge_msb_first : {Io S : Type 0} → Platform Io S → ℕ → ℕ → S → ℕ × S
transmit_2st_edge_msb_first plat dat clk_idle_high s =
    mask_loop (second_edge_round plat clk_idle_high dat) mask_down 9 0x80 (0, s)

-- The clock goes back to `clk_idle_high` itself.
unfoldable pub transmit_1st_edge_lsb_first : {Io S : Type 0} → Platform Io S → ℕ → ℕ → S → ℕ × S
transmit_1st_edge_lsb_first plat dat clk_idle_high s =
    mask_loop (first_edge_round plat clk_idle_high clk_idle_high dat) mask_up 9 0x01 (0, s)

unfoldable pub transmit_2st_edge_lsb_first : {Io S : Type 0} → Platform Io S → ℕ → ℕ → S → ℕ × S
transmit_2st_edge_lsb_first plat dat clk_idle_high s =
    mask_loop (second_edge_round plat clk_idle_high dat) mask_up 9 0x01 (0, s)

-- The answer, which is always 1, the byte that came in, and the pins.
unfoldable pub transmit_byte : {Io S : Type 0} → Platform Io S → ℕ → ℕ → S → ℕ × ℕ × S
transmit_byte plat flags dat s =
    let idle = bit_and flags flag_clk_idle_high in
    let (r, s') =
      if bit_and flags flag_lsb_first == 0
      then (if bit_and flags flag_clk_first_edge == 0
          then transmit_2st_edge_msb_first plat dat idle s
          else transmit_1st_edge_msb_first plat dat idle s)
      else (if bit_and flags flag_clk_first_edge == 0
          then transmit_2st_edge_lsb_first plat dat idle s
          else transmit_1st_edge_lsb_first plat dat idle s) in
    (1, r, s')

pub transfer :
    {Io S : Type 0} → Platform Io S → ℕ → ℕ → Bool → Option (List ℕ) → ℕ → S → ℕ × List ℕ × S
transfer plat flags garbage wants w len s =
    transfer_use_transmit_onebyte (transmit_byte plat flags) garbage wants w len s
