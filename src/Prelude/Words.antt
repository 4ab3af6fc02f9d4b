-- ===== src/Prelude/Words.antt =====
-- Values stored in unsigned words of C: `uint8_t`, `uint16_t` and `uint32_t`.
use Prim.Native.Nat.{ℕ, ◌%◌}

abbrev pub u8 : ℕ → ℕ
u8 x = x % 256

abbrev pub u16 : ℕ → ℕ
u16 x = x % 65536

abbrev pub u32 : ℕ → ℕ
u32 x = x % 4294967296
