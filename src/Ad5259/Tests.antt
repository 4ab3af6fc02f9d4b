-- ===== src/Ad5259/Tests.antt =====
-- Runs of src/drivers/ad5259/ad5259.c on a chip that keeps its registers.
use embedded_template.Prelude.{
  ℕ, ◌+◌, ◌*◌, ◌<◌, ◌≤◌, ◌≡◌, refl, some, ◌==◌, if◌then◌else◌, ◌⊎◌, arith,
}
use embedded_template.I2c.RegisterChip.{Chip, chip_bus}
use embedded_template.Ad5259.{
  Platform, Ad5259, init, get_resistance_ab, set_resistance_wb, get_resistance_wb,
}
use embedded_template.Ad5259.Wiper.{get_resistance_wb-set_resistance_wb}

abbrev ten_kiloohm : Platform
ten_kiloohm = record { nominal_resistance = 10000; addr = 0x18 }

-- The tolerance registers hold 1 percent below the nominal value.
abbrev fresh : Ad5259 Chip
fresh = record {
  resistance_ab = 0;
  bus = record { regs = λ x. if x == 0x3e then 0x81 else 0; pointer = 0 };
}

init_run : get_resistance_ab chip_bus ten_kiloohm (init chip_bus ten_kiloohm fresh).1 ≡ 9900
unfolding init
init_run = refl

abbrev ready : Ad5259 Chip
ready = record { resistance_ab = 10000; bus = record { regs = λ x. 0; pointer = 0 } }

half_run :
    (get_resistance_wb chip_bus ten_kiloohm (set_resistance_wb chip_bus ten_kiloohm 5000 ready).1).0
    ≡ some 5000
unfolding get_resistance_wb set_resistance_wb
half_run = refl

-- The whole resistance is read back as none.
get_resistance_wb-set_resistance_wb_example :
    (got : ℕ) × ((get_resistance_wb chip_bus ten_kiloohm
        (set_resistance_wb chip_bus ten_kiloohm 10000 ready).1).0
      ≡ some got)
    × (((512 * 10000 + 10000 < 512 * 10000)
          × (512 * got ≤ 512 * 10000 + 10000 + 256)
          × (512 * 10000 ≤ 512 * got + 10000 + 256))
        ⊎ ((512 * 10000 ≤ 512 * 10000 + 10000) × (got ≡ 0)))
get_resistance_wb-set_resistance_wb_example =
    get_resistance_wb-set_resistance_wb ten_kiloohm 10000 ready (omega arith) (omega arith)
