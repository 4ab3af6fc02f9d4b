-- ===== src/Ad5259.antt =====
-- src/drivers/ad5259/ad5259.c: a potentiometer of 256 steps on the two-wire bus. The bus is an
-- argument.
pub mod Wiper
mod Tests
use embedded_template.Prelude.{
  ℕ, ◌+◌, ◌-◌, ◌*◌, ◌/◌, ◌^◌, ◌==◌, Bool, true, false, Option, none, some, List, [], ◌∷◌, get_or,
  if◌then◌else◌, leb, ltb, u8, u16, u32, bit_and,
}
use embedded_template.I2c.{I2cBus}

-- `struct ad5259_platform` less its bus, and the state of the bus in `struct ad5259`.
pub record Platform : Type 0 where
  pub nominal_resistance : ℕ
  pub addr : ℕ

pub record Ad5259 (S : Type 0) : Type 0 where
  pub resistance_ab : ℕ
  pub bus : S

-- The tolerance, in 256ths of a percent, that the first byte's top bit takes off or adds.
unfoldable pub tolerance_of : ℕ → ℕ → ℕ
tolerance_of high low =
    let tolerance = u16 (bit_and high 0x7f * 2 ^ 8 + low) in
    if bit_and high 0x80 == 0 then u16 (25600 + tolerance) else u16 (2 ^ 16 + 25600 - tolerance)

-- The position of the wiper for a resistance. RESISTANCE_W is 0, and its terms are left out.
abbrev pub position : ℕ → ℕ → ℕ
position ab rwb =
    let within = if leb rwb 0 then 0 else if ltb ab rwb then ab else rwb in
    u32 (within * 256 + ab / 2) / ab

module _ {S : Type 0} (bus : I2cBus S) (p : Platform) where
  unfoldable pub init_get_resistance_ab : Ad5259 S → Bool × Ad5259 S
  unfolding tolerance_of
  init_get_resistance_ab dev =
      let (sent, unread, s1) = bus.transmit p.addr (some (0x3e ∷ [])) 1 0 dev.bus in
      let (received, buf, s2) = bus.transmit p.addr none 0 2 s1 in
      let tolerance = tolerance_of (get_or buf 0 0x3e) (get_or buf 1 0) in
      if not_equal sent 1
      then (false, record dev { bus = s1 })
      else if not_equal received 2
      then (false, record dev { bus = s2 })
      else (
        true,
        record { resistance_ab = u32 (tolerance * p.nominal_resistance + 12800) / 25600; bus = s2 },
      )
    where
      not_equal : ℕ → ℕ → Bool
      not_equal a b = if a == b then false else true

  unfoldable pub init : Ad5259 S → Bool × Ad5259 S
  unfolding init_get_resistance_ab
  init dev =
      let (ok, s) = bus.init dev.bus in
      if ok == 0
      then (false, record dev { bus = s })
      else init_get_resistance_ab (record dev { bus = s })

  abbrev pub get_resistance_ab : Ad5259 S → ℕ
  get_resistance_ab dev = dev.resistance_ab

  unfoldable pub set_resistance_wb : ℕ → Ad5259 S → Bool × Ad5259 S
  set_resistance_wb rwb dev =
      let pos = position dev.resistance_ab rwb in
      let (sent, unread, s) = bus.transmit p.addr (some (0x00 ∷ u8 pos ∷ [])) 2 0 dev.bus in
      (if sent == 2 then true else false, record dev { bus = s })

  -- `none` where the source answers 0 and leaves the result as it was.
  unfoldable pub get_resistance_wb : Ad5259 S → Option ℕ × Ad5259 S
  get_resistance_wb dev =
      let (sent, unread, s1) = bus.transmit p.addr (some (0x00 ∷ [])) 1 0 dev.bus in
      let (received, buf, s2) = bus.transmit p.addr none 0 1 s1 in
      if sent == 1
      then if received == 1
        then (some (u32 (dev.resistance_ab * get_or buf 0 0 + 128) / 256), record dev { bus = s2 })
        else (none, record dev { bus = s2 })
      else (none, record dev { bus = s1 })
