-- ===== src/Pcf212x/Tests.antt =====
-- Runs of the code of src/drivers/pcf212x/pcf212x.c on chips that keep their registers.
use embedded_template.Prelude.{◌≡◌, true, some, arith}
use embedded_template.I2c.RegisterChip.{Chip, chip_bus}
use embedded_template.Pcf212x.{Pcf212x, write_time, read_time}
use embedded_template.Pcf212x.RoundTrip.{read_time-write_time}

abbrev fresh : Pcf212x Chip
fresh = record { status = 0; bus = record { regs = λ x. 0; pointer = 0 } }

read_time-write_time_example :
    ((write_time chip_bus 0x51 123456789 fresh).0 ≡ 1)
    × ((read_time chip_bus 0x51 true (write_time chip_bus 0x51 123456789 fresh).1).0
        ≡ some 123456789)
read_time-write_time_example = read_time-write_time 0x51 123456789 fresh (omega arith)
