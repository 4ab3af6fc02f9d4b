-- ===== src/Ltc6804/Tests.antt =====
-- Runs of the code of src/drivers/ltc/ltc6804.c on concrete frames.
use embedded_template.Prelude.{some, true, ◌≡◌, refl, [], ◌∷◌, ◌++◌, arith}
use embedded_template.Ltc6804.{calc_crc16, calc_crc16_loop, recv_data_daisychain}
use embedded_template.Ltc6804.Crc.{pec, shift_byte, calc_crc16-pec}
use embedded_template.Ltc6804.Frames.{wire, byte, selected, opening, recv_data_daisychain-wire}

-- The commands of the comment at the end of the source, and their check words.
set_sample : calc_crc16 (0x03 ∷ 0x70 ∷ []) ≡ 0xaf42
unfolding calc_crc16 calc_crc16_loop
set_sample = refl

get_voltage_frame : calc_crc16 (0x00 ∷ 0x04 ∷ []) ≡ 0x07c2
unfolding calc_crc16 calc_crc16_loop
get_voltage_frame = refl

calc_crc16-pec_example : calc_crc16 (0x00 ∷ 0x04 ∷ []) ≡ pec (0x00 ∷ 0x04 ∷ [])
calc_crc16-pec_example = calc_crc16-pec (0x00 ∷ 0x04 ∷ []) (omega arith, (omega arith, tt))

-- One byte, 0x81, and a word that is not its PEC: the result is 0.
recv_data_daisychain-wire_example :
    (recv_data_daisychain
      (wire 7)
      1
      0x002
      true
      1
      (record { answers = 0 ∷ 0 ∷ 0 ∷ 0 ∷ 0x81 ∷ 0 ∷ 0 ∷ []; signals = [] }))
    ≡ some (
      0,
      0x81 ∷ [],
      record {
        answers = [];
        signals = opening 7 0x002 ++ (byte 0xff ∷ byte 0xff ∷ byte 0xff ∷ selected 7 0 ∷ []);
      },
    )
unfolding shift_byte
recv_data_daisychain-wire_example =
    recv_data_daisychain-wire 7 1 0x002 0 0 0 0 (0x81 ∷ []) 0 0 [] (omega arith) (omega arith)
      (omega arith, tt) (omega arith) (omega arith)
