-- ===== src/I2c/RegisterChip.antt =====
-- A chip on the two-wire bus that holds registers of one byte: the first byte that is written sets
-- the register that the next byte goes to or comes from, and each byte moves on to the next.
use embedded_template.Prelude.{
  ℕ, zero, suc, ◌+◌, ◌==◌, Option, none, some, List, [], ◌∷◌, length, if◌then◌else◌,
}
use embedded_template.I2c.{I2cBus}

pub record Chip : Type 0 where
  pub regs : ℕ → ℕ
  pub pointer : ℕ

abbrev pub store_bytes : List ℕ → Chip → Chip
store_bytes [] c = c
store_bytes (b ∷ dat) c =
    store_bytes dat
      (record { regs = λ x. if x == c.pointer then b else c.regs x; pointer = c.pointer + 1 })

abbrev pub fetch : ℕ → Chip → List ℕ
fetch zero c = []
fetch (suc n) c = c.regs c.pointer ∷ fetch n (record c { pointer = c.pointer + 1 })

abbrev pub accept : Option (List ℕ) → Chip → Chip
accept none c = c
accept (some []) c = c
accept (some (reg ∷ dat)) c = store_bytes dat (record c { pointer = reg })

abbrev pub chip_transmit : ℕ → Option (List ℕ) → ℕ → ℕ → Chip → ℕ × List ℕ × Chip
chip_transmit addr none wlen rlen c = (rlen, fetch rlen c, record c { pointer = c.pointer + rlen })
chip_transmit addr (some w) wlen rlen c =
    let c' = accept (some w) c in
    (length w + rlen, fetch rlen c', record c' { pointer = c'.pointer + rlen })

abbrev pub chip_bus : I2cBus Chip
chip_bus = record { init = λ c. (1, c); deinit = λ c. c; transmit = chip_transmit }
