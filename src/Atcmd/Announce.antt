-- ===== src/Atcmd/Announce.antt =====
-- The announcement `IPD<length>:` and the data behind it, as one run of bytes.
use embedded_template.Prelude.{ℕ, ◌+◌, ◌-◌, ◌*◌, ◌<◌, ◌≤◌, ◌≡◌, List, [], ◌∷◌, length}
use embedded_template.RingBuffer.{RingBuffer}
use embedded_template.Atcmd.{Atcmd, serial_recv_serial_default}

-- A line begins: none of its bytes was taken yet.
abbrev pub AtLineStart : Atcmd → Type 0
AtLineStart a =
    (a.serial_recv ≡ serial_recv_serial_default)
    × (a.auto_prefix_index ≡ 0)
    × (length a.auto_prefix ≡ 10)

-- The digits, and that each comes before the time `t`.
abbrev pub DigitsBefore : ℕ → List (ℕ × ℕ) → Type 0
DigitsBefore t [] = Unit {0}
DigitsBefore t ((now, b) ∷ ds) = (48 ≤ b) × (b ≤ 57) × (now < t) × DigitsBefore t ds

-- The number that the digits spell behind the number `v`.
abbrev pub decimal : ℕ → List (ℕ × ℕ) → ℕ
decimal v [] = v
decimal v ((now, b) ∷ ds) = decimal (v * 10 + (b - 48)) ds
