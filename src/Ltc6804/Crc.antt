-- ===== src/Ltc6804/Crc.antt =====
-- The check word of src/drivers/ltc/ltc6804.c (`calc_crc16`) against its description, bit by bit.
use embedded_template.Prelude.{
  ℕ, ◌+◌, ◌*◌, ◌/◌, ◌%◌, ◌^◌, ◌<◌, ◌==◌, ==→eq, leb, Bool, true, ◌≡◌, refl, sym, ap, ap₂, ◌∙◌, List,
  [], ◌∷◌, bit_and, bit_xor, u16, get_or, All, if◌then◌else◌, arith,
}
use embedded_template.Prelude.Bits.{holds_to, holds_at, low_byte}
use embedded_template.Prelude.Xor.{bit_xor_cut, bit_xor_lt}
use embedded_template.Ltc6804.{pec16_table, calc_crc16_loop, calc_crc16}

-- The chip's register of 15 bits: a bit that leaves at the top adds the polynomial.
abbrev pub shift_bit : ℕ → ℕ
shift_bit r = if leb 0x4000 r then bit_xor (r * 2 % 2 ^ 15) 0x4599 else r * 2

unfoldable pub shift_byte : ℕ → ℕ
shift_byte r =
    shift_bit (shift_bit (shift_bit (shift_bit (shift_bit (shift_bit (shift_bit (shift_bit r)))))))

-- A byte enters at the top of the register, and its eight bits are shifted out.
abbrev pub register_after : List ℕ → ℕ → ℕ
register_after [] r = r
register_after (b ∷ bytes) r = register_after bytes (shift_byte (bit_xor r (b * 2 ^ 7)))

-- The register starts at 16, and the word that is sent ends with a zero bit.
abbrev pub pec : List ℕ → ℕ
pec bytes = register_after bytes 16 * 2

abbrev column : ℕ → ℕ → Bool
column h l = shift_byte (h * 2 ^ 7 + l) == bit_xor (l * 2 ^ 8) (get_or pec16_table h 0 % 2 ^ 15)

table_checks : holds_to (λ h. holds_to (column h) 128) 256 ≡ true
unfolding holds_to shift_byte
table_checks = refl

shift_byte-column :
    (h l : ℕ)
    → h < 256
    → l < 128
    → shift_byte (h * 2 ^ 7 + l) ≡ bit_xor (l * 2 ^ 8) (get_or pec16_table h 0 % 2 ^ 15)
shift_byte-column h l high low =
    let columns : holds_to (column h) 128 ≡ true =
      holds_at (λ h. holds_to (column h) 128) 256 table_checks h high in
    ==→eq _ _ (holds_at (column h) 128 columns l low)

xor_zero_checks : holds_to (λ x. bit_xor x 0 == x) 128 ≡ true
unfolding holds_to
xor_zero_checks = refl

xor_zero : (x : ℕ) → x < 128 → bit_xor x 0 ≡ x
xor_zero x h = ==→eq _ _ (holds_at _ 128 xor_zero_checks x h)

address_lem :
    (rem b : ℕ)
    → rem < 2 ^ 16
    → b < 2 ^ 8
    → bit_and (bit_xor (rem / 2 ^ 7) b) 0xff ≡ bit_xor (rem % 2 ^ 15 / 2 ^ 7) b
address_lem rem b h g =
    low_byte _ (omega (arith, bit_xor_lt 9 (rem / 2 ^ 7) b (omega arith) (omega arith)))
    ∙ omega (
      arith,
      bit_xor_cut 8 (rem / 2 ^ 15) 0 (rem % 2 ^ 15 / 2 ^ 7) b (rem / 2 ^ 7) b (omega arith)
          (omega arith) (omega arith) g,
      bit_xor_lt 8 (rem % 2 ^ 15 / 2 ^ 7) b (omega arith) g,
    )

-- The byte goes to the top eight bits of the register.
enter_lem :
    (r b : ℕ)
    → r < 2 ^ 15
    → b < 2 ^ 8
    → bit_xor r (b * 2 ^ 7) ≡ bit_xor (r / 2 ^ 7) b * 2 ^ 7 + r % 2 ^ 7
enter_lem r b h g = omega (
  arith,
  bit_xor_cut 7 (r / 2 ^ 7) b (r % 2 ^ 7) 0 r (b * 2 ^ 7) (omega arith) (omega arith) (omega arith)
      (omega arith),
  xor_zero (r % 2 ^ 7) (omega arith),
)

low_word : (x y : ℕ) → bit_xor x y % 2 ^ 15 ≡ bit_xor (x % 2 ^ 15) (y % 2 ^ 15)
low_word x y = omega (
  arith,
  bit_xor_cut 15 (x / 2 ^ 15) (y / 2 ^ 15) (x % 2 ^ 15) (y % 2 ^ 15) x y (omega arith) (omega arith)
      (omega arith) (omega arith),
  bit_xor_lt 15 (x % 2 ^ 15) (y % 2 ^ 15) (omega arith) (omega arith),
)

-- One turn of the loop does to the low fifteen bits what the register does with the byte.
turn_lem :
    (rem b : ℕ)
    → rem < 2 ^ 16
    → b < 2 ^ 8
    → u16 (bit_xor (rem * 2 ^ 8) (get_or pec16_table (bit_and (bit_xor (rem / 2 ^ 7) b) 0xff) 0))
        % 2 ^ 15
      ≡ shift_byte (bit_xor (rem % 2 ^ 15) (b * 2 ^ 7))
turn_lem rem b h g =
    let r : ℕ = rem % 2 ^ 15 in
    let address : ℕ = bit_xor (r / 2 ^ 7) b in
    let small : address < 256 = bit_xor_lt 8 (r / 2 ^ 7) b (omega arith) g in
    let same : shift_byte (bit_xor r (b * 2 ^ 7))
        ≡ bit_xor (r % 2 ^ 7 * 2 ^ 8) (get_or pec16_table address 0 % 2 ^ 15) =
      ap shift_byte (enter_lem r b (omega arith) g)
      ∙ shift_byte-column address (r % 2 ^ 7) small (omega arith) in
    let fifteen : (x : ℕ) → u16 x % 2 ^ 15 ≡ x % 2 ^ 15 = λ x. omega arith in
    fifteen _
    ∙ low_word _ _
    ∙ ap₂ bit_xor (omega arith) (ap (λ a. get_or pec16_table a 0 % 2 ^ 15) (address_lem rem b h g))
    ∙ sym same

calc_crc16_loop-register_after :
    (bytes : List ℕ) (rem : ℕ)
    → rem < 2 ^ 16
    → All (λ b. b < 256) bytes
    → calc_crc16_loop bytes rem % 2 ^ 15 ≡ register_after bytes (rem % 2 ^ 15)
unfolding calc_crc16_loop
calc_crc16_loop-register_after [] rem h all = refl
calc_crc16_loop-register_after (b ∷ bytes) rem h (g, all) =
    calc_crc16_loop-register_after bytes _ (omega arith) all
    ∙ ap (register_after bytes) (turn_lem rem b h g)

-- The check word that the code computes with its table is the PEC of the chip's description, bit by
-- bit, for every sequence of bytes.
pub calc_crc16-pec : (bytes : List ℕ) → All (λ b. b < 256) bytes → calc_crc16 bytes ≡ pec bytes
unfolding calc_crc16
calc_crc16-pec bytes all = omega (arith, calc_crc16_loop-register_after bytes 16 (omega arith) all)

pub pec_lt : (bytes : List ℕ) → All (λ b. b < 256) bytes → pec bytes < 65536
unfolding calc_crc16
pec_lt bytes all = omega (arith, calc_crc16-pec bytes all)
