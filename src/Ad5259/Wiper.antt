-- ===== src/Ad5259/Wiper.antt =====
-- The resistance of src/drivers/ad5259/ad5259.c as it is set and read back.
use native.Mathlib.Nat.{
  div-mul-le_self, lt-div-mul-add, div-lt_iff_lt-mul, le-div_iff_mul-le, mul_comm,
}
use embedded_template.Prelude.{
  ℕ, ◌+◌, ◌*◌, ◌/◌, ◌^◌, ◌<◌, ◌≤◌, ◌≡◌, refl, some, ltb, if◌then◌else◌, u8, u32, arith, ◌⊎◌, inl,
  inr, Bool-cases, ltb→lt, ltb→le,
}
use embedded_template.I2c.RegisterChip.{Chip, chip_bus}
use embedded_template.Ad5259.{Platform, Ad5259, position, set_resistance_wb, get_resistance_wb}

-- What the driver reads from a wiper at a position.
abbrev pub resistance_at : ℕ → ℕ → ℕ
resistance_at ab pos = u32 (ab * pos + 128) / 256

-- On a chip that keeps its registers, what is read is the resistance at the position that was set.
read_lem :
    (p : Platform) (rwb : ℕ) (dev : Ad5259 Chip)
    → (get_resistance_wb chip_bus p (set_resistance_wb chip_bus p rwb dev).1).0
      ≡ some (resistance_at dev.resistance_ab (u8 (position dev.resistance_ab rwb)))
unfolding get_resistance_wb set_resistance_wb
read_lem p rwb dev = refl

-- Reading a position back, where the position is the quotient of `x`.
read_back :
    (ab q x rwb : ℕ)
    → ab * 257 < 2 ^ 32
    → q * ab ≤ x
    → x < q * ab + ab
    → (x ≡ rwb * 256 + ab / 2) × (x < 257 * ab)
    → (512 * resistance_at ab q ≤ 512 * rwb + ab + 256)
      × (512 * rwb ≤ 512 * resistance_at ab q + ab + 256)
read_back ab q x rwb fits low high (same, top) =
    let turn : ab * q ≡ q * ab = mul_comm ab q in
    let whole : u32 (ab * q + 128) ≡ ab * q + 128 = omega arith in
    rw whole (omega arith, omega arith)

-- A resistance that is not within half a step of the whole one, or above it, and a whole one for
-- which no product wraps, is read back with an error of half a step, and half a unit.
resistance_at-position :
    (ab rwb : ℕ)
    → 0 < ab
    → ab * 257 < 2 ^ 32
    → 512 * rwb + ab < 512 * ab
    → let got = resistance_at ab (u8 (position ab rwb)) in
      (512 * got ≤ 512 * rwb + ab + 256) × (512 * rwb ≤ 512 * got + ab + 256)
resistance_at-position ab rwb pos fits below =
    let x = rwb * 256 + ab / 2 in
    let q = x / ab in
    let wanted : position ab rwb ≡ q = ground arith in
    let low : q * ab ≤ x = div-mul-le_self x ab in
    let high : x < q * ab + ab = lt-div-mul-add pos in
    let small : q < 256 = (div-lt_iff_lt-mul pos).1 (omega arith) in
    let step : u8 (position ab rwb) ≡ q = rw wanted (omega arith) in
    rw step (read_back ab q x rwb fits low high (refl, omega arith))

-- Within half a step of the whole resistance, or above it, the position is 256, of which the chip
-- gets the low byte, so that the resistance is the least.
position_wraps :
    (ab rwb : ℕ) → 0 < ab → ab * 257 < 2 ^ 32 → 512 * ab ≤ 512 * rwb + ab → u8 (position ab rwb) ≡ 0
position_wraps ab rwb pos fits above =
    let w = if ltb ab rwb then ab else rwb in
    let x = w * 256 + ab / 2 in
    let from : 256 * ab ≤ x = ground arith in
    let to : x < 257 * ab = ground arith in
    let high : x / ab < 257 = (div-lt_iff_lt-mul pos).1 to in
    let low : 256 ≤ x / ab = (le-div_iff_mul-le pos).1 from in
    let same : position ab rwb ≡ x / ab = ground arith in rw same (omega arith)

-- On a chip that keeps its registers, and for a whole resistance above 0 and small enough that
-- no product wraps: after `ad5259_set_resistance_wb`, `ad5259_get_resistance_wb` succeeds. For a
-- resistance further than half a step below the whole one it gives that resistance with an error of
-- half a step, a 512th of the whole, and half a unit; for any other, the whole one included, it
-- gives 0, since the position 256 does not fit its byte.
pub get_resistance_wb-set_resistance_wb :
    (p : Platform) (rwb : ℕ) (dev : Ad5259 Chip)
    → 0 < dev.resistance_ab
    → dev.resistance_ab * 257 < 2 ^ 32
    → (got : ℕ) × ((get_resistance_wb chip_bus p (set_resistance_wb chip_bus p rwb dev).1).0
        ≡ some got)
      × (((512 * rwb + dev.resistance_ab < 512 * dev.resistance_ab)
            × (512 * got ≤ 512 * rwb + dev.resistance_ab + 256)
            × (512 * rwb ≤ 512 * got + dev.resistance_ab + 256))
          ⊎ ((512 * dev.resistance_ab ≤ 512 * rwb + dev.resistance_ab) × (got ≡ 0)))
get_resistance_wb-set_resistance_wb p rwb dev pos fits =
    let ab = dev.resistance_ab in
    (
      resistance_at ab (u8 (position ab rwb)),
      read_lem p rwb dev,
      elim (Bool-cases (ltb (512 * rwb + ab) (512 * ab))) [
        | inl less ↦
            let below = ltb→lt (512 * rwb + ab) (512 * ab) less in
            let (low, high) = resistance_at-position ab rwb pos fits below in inl (below, low, high)
        | inr not_less ↦
            let above = ltb→le (512 * rwb + ab) (512 * ab) not_less in
            inr (above, rw (position_wraps ab rwb pos fits above) (omega arith))
      ],
    )
