-- ===== src/Bcd.antt =====
-- src/misc/bcd_code.c: two decimal digits packed in a byte.
use embedded_template.Prelude.{
  ℕ, ◌+◌, ◌*◌, ◌/◌, ◌%◌, ◌<◌, ◌≤◌, ◌≡◌, refl, ltb, leb, ◌==◌, ==→eq, ◌⊎◌, inl, inr, Bool-cases,
  if◌then◌else◌, bit_and, bit_or, u8, true, ap, ◌∙◌, arith,
}
use embedded_template.Prelude.Bits.{holds_to, holds_at}

-- `bcd >> 4` is the division by 16.
unfoldable pub from_bcd : ℕ → ℕ
from_bcd bcd =
    let h = bcd / 16 in
    if ltb 9 h then 0 else let l = bit_and bcd 0x0f in if ltb 9 l then 0 else u8 (h * 10 + l)

unfoldable pub to_bcd : ℕ → ℕ
to_bcd hex = let h = hex / 10 in if ltb 9 h then 0 else u8 (bit_or (h * 16) (hex % 10))

to_bcd_table : holds_to (λ n. to_bcd n == n / 10 * 16 + n % 10) 100 ≡ true
unfolding holds_to to_bcd
to_bcd_table = refl

from_bcd_table :
    holds_to
      (λ b.
        from_bcd b
        == (if leb (b / 16) 9 then (if leb (b % 16) 9 then b / 16 * 10 + b % 16 else 0) else 0))
      256
    ≡ true
unfolding holds_to from_bcd
from_bcd_table = refl

to_bcd_digits : (n : ℕ) → n < 100 → to_bcd n ≡ n / 10 * 16 + n % 10
to_bcd_digits n h = ==→eq _ _ (holds_at _ 100 to_bcd_table n h)

from_bcd_digits :
    (b : ℕ)
    → b < 256
    → from_bcd b
      ≡ (if leb (b / 16) 9 then (if leb (b % 16) 9 then b / 16 * 10 + b % 16 else 0) else 0)
from_bcd_digits b h = ==→eq _ _ (holds_at _ 256 from_bcd_table b h)

-- A number below 100 is packed with its tens in the high half of the byte and its units in the low
-- half, and unpacking gives the number back.
pub from_bcd-to_bcd :
    (n : ℕ)
    → n < 100
    → (to_bcd n / 16 ≡ n / 10) × (to_bcd n % 16 ≡ n % 10) × (from_bcd (to_bcd n) ≡ n)
from_bcd-to_bcd n h =
    let packed = to_bcd_digits n h in
    let back = from_bcd_digits (n / 10 * 16 + n % 10) (omega arith) in
    (
      ap (λ k. k / 16) packed ∙ omega arith,
      ap (λ k. k % 16) packed ∙ omega arith,
      ap from_bcd packed ∙ back ∙ ground arith,
    )

-- A byte of two decimal digits is unpacked to their number, which packs to the byte again; a byte
-- with a half above 9 is taken for 0.
pub to_bcd-from_bcd :
    (b : ℕ)
    → b < 256
    → ((b / 16 ≤ 9)
        × (b % 16 ≤ 9)
        × (from_bcd b ≡ b / 16 * 10 + b % 16)
        × (to_bcd (from_bcd b) ≡ b))
      ⊎ (((9 < b / 16) ⊎ (9 < b % 16)) × (from_bcd b ≡ 0))
to_bcd-from_bcd b h =
    let value = from_bcd_digits b h in
    elim (Bool-cases (leb (b / 16) 9)) [
      | inl tens ↦ elim (Bool-cases (leb (b % 16) 9)) [
        | inl units ↦
            let small : b / 16 ≤ 9 = ground arith in
            let small' : b % 16 ≤ 9 = ground arith in
            let number : from_bcd b ≡ b / 16 * 10 + b % 16 = value ∙ rw (tens, units) refl in
            inl (
              small,
              small',
              number,
              ap to_bcd number ∙ to_bcd_digits (b / 16 * 10 + b % 16) (omega arith) ∙ omega arith,
            )
        | inr units ↦ inr (inr (ground arith), value ∙ rw (tens, units) refl)
      ]
      | inr tens ↦ inr (inl (ground arith), value ∙ rw tens refl)
    ]
