-- ===== src/Ltc6804.antt =====
-- src/drivers/ltc/ltc6804.c: the check word of the battery monitor's frames, and the frames.
use embedded_template.Prelude.{
  ℕ, zero, suc, ◌+◌, ◌*◌, ◌/◌, ◌%◌, ◌^◌, ◌==◌, ltb, Bool, true, false, ◌&&◌, Option, none, some,
  List, [], ◌∷◌, ◌++◌, bit_and, bit_xor, u8, u16, min, length, get_or, replicate, if◌then◌else◌,
}
pub mod Crc
pub mod Registers
pub mod Frames
pub mod Groups
pub mod Tests

abbrev pub pec16_table : List ℕ
pec16_table =
    0x0000 ∷ 0xC599 ∷ 0xCEAB ∷ 0x0B32 ∷ 0xD8CF ∷ 0x1D56 ∷ 0x1664 ∷ 0xD3FD ∷ 0xF407 ∷ 0x319E ∷ 0x3AAC
    ∷ 0xFF35 ∷ 0x2CC8 ∷ 0xE951 ∷ 0xE263 ∷ 0x27FA ∷ 0xAD97 ∷ 0x680E ∷ 0x633C ∷ 0xA6A5 ∷ 0x7558
    ∷ 0xB0C1 ∷ 0xBBF3 ∷ 0x7E6A ∷ 0x5990 ∷ 0x9C09 ∷ 0x973B ∷ 0x52A2 ∷ 0x815F ∷ 0x44C6 ∷ 0x4FF4
    ∷ 0x8A6D ∷ 0x5B2E ∷ 0x9EB7 ∷ 0x9585 ∷ 0x501C ∷ 0x83E1 ∷ 0x4678 ∷ 0x4D4A ∷ 0x88D3 ∷ 0xAF29
    ∷ 0x6AB0 ∷ 0x6182 ∷ 0xA41B ∷ 0x77E6 ∷ 0xB27F ∷ 0xB94D ∷ 0x7CD4 ∷ 0xF6B9 ∷ 0x3320 ∷ 0x3812
    ∷ 0xFD8B ∷ 0x2E76 ∷ 0xEBEF ∷ 0xE0DD ∷ 0x2544 ∷ 0x02BE ∷ 0xC727 ∷ 0xCC15 ∷ 0x098C ∷ 0xDA71
    ∷ 0x1FE8 ∷ 0x14DA ∷ 0xD143 ∷ 0xF3C5 ∷ 0x365C ∷ 0x3D6E ∷ 0xF8F7 ∷ 0x2B0A ∷ 0xEE93 ∷ 0xE5A1
    ∷ 0x2038 ∷ 0x07C2 ∷ 0xC25B ∷ 0xC969 ∷ 0x0CF0 ∷ 0xDF0D ∷ 0x1A94 ∷ 0x11A6 ∷ 0xD43F ∷ 0x5E52
    ∷ 0x9BCB ∷ 0x90F9 ∷ 0x5560 ∷ 0x869D ∷ 0x4304 ∷ 0x4836 ∷ 0x8DAF ∷ 0xAA55 ∷ 0x6FCC ∷ 0x64FE
    ∷ 0xA167 ∷ 0x729A ∷ 0xB703 ∷ 0xBC31 ∷ 0x79A8 ∷ 0xA8EB ∷ 0x6D72 ∷ 0x6640 ∷ 0xA3D9 ∷ 0x7024
    ∷ 0xB5BD ∷ 0xBE8F ∷ 0x7B16 ∷ 0x5CEC ∷ 0x9975 ∷ 0x9247 ∷ 0x57DE ∷ 0x8423 ∷ 0x41BA ∷ 0x4A88
    ∷ 0x8F11 ∷ 0x057C ∷ 0xC0E5 ∷ 0xCBD7 ∷ 0x0E4E ∷ 0xDDB3 ∷ 0x182A ∷ 0x1318 ∷ 0xD681 ∷ 0xF17B
    ∷ 0x34E2 ∷ 0x3FD0 ∷ 0xFA49 ∷ 0x29B4 ∷ 0xEC2D ∷ 0xE71F ∷ 0x2286 ∷ 0xA213 ∷ 0x678A ∷ 0x6CB8
    ∷ 0xA921 ∷ 0x7ADC ∷ 0xBF45 ∷ 0xB477 ∷ 0x71EE ∷ 0x5614 ∷ 0x938D ∷ 0x98BF ∷ 0x5D26 ∷ 0x8EDB
    ∷ 0x4B42 ∷ 0x4070 ∷ 0x85E9 ∷ 0x0F84 ∷ 0xCA1D ∷ 0xC12F ∷ 0x04B6 ∷ 0xD74B ∷ 0x12D2 ∷ 0x19E0
    ∷ 0xDC79 ∷ 0xFB83 ∷ 0x3E1A ∷ 0x3528 ∷ 0xF0B1 ∷ 0x234C ∷ 0xE6D5 ∷ 0xEDE7 ∷ 0x287E ∷ 0xF93D
    ∷ 0x3CA4 ∷ 0x3796 ∷ 0xF20F ∷ 0x21F2 ∷ 0xE46B ∷ 0xEF59 ∷ 0x2AC0 ∷ 0x0D3A ∷ 0xC8A3 ∷ 0xC391
    ∷ 0x0608 ∷ 0xD5F5 ∷ 0x106C ∷ 0x1B5E ∷ 0xDEC7 ∷ 0x54AA ∷ 0x9133 ∷ 0x9A01 ∷ 0x5F98 ∷ 0x8C65
    ∷ 0x49FC ∷ 0x42CE ∷ 0x8757 ∷ 0xA0AD ∷ 0x6534 ∷ 0x6E06 ∷ 0xAB9F ∷ 0x7862 ∷ 0xBDFB ∷ 0xB6C9
    ∷ 0x7350 ∷ 0x51D6 ∷ 0x944F ∷ 0x9F7D ∷ 0x5AE4 ∷ 0x8919 ∷ 0x4C80 ∷ 0x47B2 ∷ 0x822B ∷ 0xA5D1
    ∷ 0x6048 ∷ 0x6B7A ∷ 0xAEE3 ∷ 0x7D1E ∷ 0xB887 ∷ 0xB3B5 ∷ 0x762C ∷ 0xFC41 ∷ 0x39D8 ∷ 0x32EA
    ∷ 0xF773 ∷ 0x248E ∷ 0xE117 ∷ 0xEA25 ∷ 0x2FBC ∷ 0x0846 ∷ 0xCDDF ∷ 0xC6ED ∷ 0x0374 ∷ 0xD089
    ∷ 0x1510 ∷ 0x1E22 ∷ 0xDBBB ∷ 0x0AF8 ∷ 0xCF61 ∷ 0xC453 ∷ 0x01CA ∷ 0xD237 ∷ 0x17AE ∷ 0x1C9C
    ∷ 0xD905 ∷ 0xFEFF ∷ 0x3B66 ∷ 0x3054 ∷ 0xF5CD ∷ 0x2630 ∷ 0xE3A9 ∷ 0xE89B ∷ 0x2D02 ∷ 0xA76F
    ∷ 0x62F6 ∷ 0x69C4 ∷ 0xAC5D ∷ 0x7FA0 ∷ 0xBA39 ∷ 0xB10B ∷ 0x7492 ∷ 0x5368 ∷ 0x96F1 ∷ 0x9DC3
    ∷ 0x585A ∷ 0x8BA7 ∷ 0x4E3E ∷ 0x450C ∷ 0x8095 ∷ []

unfoldable pub calc_crc16_loop : List ℕ → ℕ → ℕ
calc_crc16_loop [] remainder = remainder
calc_crc16_loop (d ∷ dat) remainder =
    let address = bit_and (bit_xor (remainder / 2 ^ 7) d) 0xff in
    calc_crc16_loop dat (u16 (bit_xor (remainder * 2 ^ 8) (get_or pec16_table address 0)))

unfoldable pub calc_crc16 : List ℕ → ℕ
calc_crc16 dat = u16 (calc_crc16_loop dat 16 * 2)

-- The bus, and the index of the chip's select line on it: `spi_init`, `spi_select` and
-- `spi_transmit_byte`, which answers the byte that comes in for the one that goes out.
pub record Platform (S : Type 0) : Type 0 where
  init : ℕ → S → S
  select : ℕ → ℕ → S → S
  transmit_byte : ℕ → S → ℕ × S
  cs_index : ℕ

-- The loop that counts to 90 between the two calls only takes time.
unfoldable pub wake_up : {S : Type 0} → Platform S → S → S
wake_up p s = p.select p.cs_index 0 (p.select p.cs_index 1 s)

unfoldable pub send_bytes : {S : Type 0} → Platform S → List ℕ → S → S
send_bytes p [] s = s
send_bytes p (b ∷ dat) s = let (answer, s') = p.transmit_byte b s in send_bytes p dat s'

unfoldable pub send_short_and_crc : {S : Type 0} → Platform S → ℕ → S → S
send_short_and_crc p dat s =
    let crc = calc_crc16 (u8 (dat / 2 ^ 8) ∷ u8 dat ∷ []) in
    send_bytes p (u8 (dat / 2 ^ 8) ∷ u8 dat ∷ u8 (crc / 2 ^ 8) ∷ u8 crc ∷ []) s

unfoldable pub send_data_daisychain : {S : Type 0} → Platform S → ℕ → ℕ → Option (List ℕ) → S → S
send_data_daisychain p count cmd none s =
    p.select p.cs_index 0 (send_short_and_crc p cmd (p.select p.cs_index 1 (wake_up p s)))
send_data_daisychain p count cmd (some dat) s =
    let s' = send_short_and_crc p cmd (p.select p.cs_index 1 (wake_up p s)) in
    let crc = calc_crc16 dat in
    let s'' =
      if ltb 0 count
      then send_bytes p (u8 (crc / 2 ^ 8) ∷ u8 crc ∷ []) (send_bytes p dat s')
      else s' in
    p.select p.cs_index 0 s''

-- The bytes of the buffer go out, and those that come in take their places.
unfoldable pub exchange_bytes : {S : Type 0} → Platform S → List ℕ → S → List ℕ × S
exchange_bytes p [] s = ([], s)
exchange_bytes p (b ∷ buf) s =
    let (answer, s') = p.transmit_byte b s in
    let (rest, s'') = exchange_bytes p buf s' in (answer ∷ rest, s'')

unfoldable pub matches : List ℕ → List ℕ → ℕ
matches crc_recv buf =
    let crc = calc_crc16 buf in
    if (get_or crc_recv 0 0 == crc / 2 ^ 8) && (get_or crc_recv 1 0 == bit_and crc 0xff)
    then 1
    else 0

-- The body, for a size that the counter can reach: the result, the buffer's bytes and the bus.
unfoldable pub recv_bytes : {S : Type 0} → Platform S → ℕ → ℕ → S → ℕ × List ℕ × S
recv_bytes p cmd size s =
    let s' = send_short_and_crc p cmd (p.select p.cs_index 1 (wake_up p s)) in
    let (buf, s'') = exchange_bytes p (replicate size 0xff) s' in
    if ltb 0 size
    then (let (crc_recv, s3) = exchange_bytes p (0xff ∷ 0xff ∷ []) s'' in
        (matches crc_recv buf, buf, p.select p.cs_index 0 s3))
    else (1, buf, p.select p.cs_index 0 s'')

-- `wants` says that the pointer `buf` is not NULL. The loop counts with a uint8_t, so that it never
-- ends for a size above 255, which is `none`.
unfoldable pub recv_data_daisychain :
    {S : Type 0} → Platform S → ℕ → ℕ → Bool → ℕ → S → Option (ℕ × List ℕ × S)
unfolding recv_bytes
recv_data_daisychain p count cmd false size s = some (0, [], s)
recv_data_daisychain p count cmd true size s =
    if ltb 255 size then none else some (recv_bytes p cmd size s)
