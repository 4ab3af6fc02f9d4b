-- ===== src/Sd2405/Tests.antt =====
-- Runs of the code of src/drivers/sd2405al/sd2405al.c on a chip whose registers are all 0.
use embedded_template.Prelude.{◌≡◌, true, some, bit_and, arith}
use embedded_template.Bcd.{to_bcd, from_bcd, from_bcd-to_bcd}
use embedded_template.I2c.RegisterChip.{Chip, chip_bus}
use embedded_template.Sd2405.{Sd2405, Digits, write_time, read_time, clear_interrupt}
use embedded_template.Sd2405.RoundTrip.{
  IsDigits, read_time-write_time_sd2405, clear_interrupt_restores,
}

-- The conversions of src/misc/bcd_code.c.
abbrev bcd_code : Digits
bcd_code = record { hex_to_bcd = to_bcd; bcd_to_hex = from_bcd }

bcd_code-IsDigits : IsDigits bcd_code
bcd_code-IsDigits = record {
  packs = λ n less. (let (tens, units, back) = from_bcd-to_bcd n less in omega arith);
  unpacks = λ n less. (from_bcd-to_bcd n less).2;
}

abbrev fresh : Sd2405 Chip
fresh = record { ctr1 = 3; ctr2 = 0; bus = record { regs = λ x. 0; pointer = 0 } }

read_time-write_time_sd2405_example :
    ((write_time chip_bus 0x32 bcd_code 123456789 fresh).0 ≡ 1)
    × ((read_time chip_bus 0x32 bcd_code 255 true
          (write_time chip_bus 0x32 bcd_code 123456789 fresh).1).0
        ≡ some 123456789)
read_time-write_time_sd2405_example =
    read_time-write_time_sd2405 0x32 123456789 255 bcd_code fresh bcd_code-IsDigits (omega arith)

clear_interrupt_restores_example :
    ((clear_interrupt chip_bus 0x32 fresh).0 ≡ 1)
    × (bit_and ((clear_interrupt chip_bus 0x32 fresh).1.bus.regs 0x0f) 0x03 ≡ 3)
clear_interrupt_restores_example = clear_interrupt_restores 0x32 fresh (omega arith)
