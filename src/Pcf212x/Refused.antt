-- ===== src/Pcf212x/Refused.antt =====
-- src/drivers/pcf212x/pcf212x.c: setting up a chip whose power-on reset override is set.
use embedded_template.Prelude.{ℕ, ◌-◌, ne→==, ◌≡◌, ◌≢◌, refl, sym, bit_and}
use embedded_template.I2c.RegisterChip.{Chip, chip_bus}
use embedded_template.Pcf212x.{Pcf212x, write_regs, read_regs, init, status_not_init}

-- When bit 3 of register 0 is set, of a chip that keeps its registers, and another bit with it,
-- setting up the chip fails: the status says that it is not set up, and no register has changed, so
-- the bit is still set.
pub init_refused :
    (addr : ℕ) (dev : Pcf212x Chip)
    → bit_and (dev.bus.regs 0) 8 ≢ 0
    → dev.bus.regs 0 - bit_and (dev.bus.regs 0) 8 ≢ 0
    → ((init chip_bus addr dev).0 ≡ 0)
      × ((init chip_bus addr dev).1.status ≡ status_not_init)
      × ((init chip_bus addr dev).1.bus.regs ≡ dev.bus.regs)
unfolding init write_regs read_regs
init_refused addr dev set more =
    let x : ℕ = bit_and (dev.bus.regs 0) 8 in
    rw (ne→== x 0 set) (rw (ne→== 0 (dev.bus.regs 0 - x) (λ e. more (sym e))) (refl, refl, refl))
