-- ===== src/Prelude/Bits.antt =====
-- Facts about masks on small words, each checked on its whole range by evaluation.
use Prim.Native.Nat.{ℕ, zero, suc, ◌+◌, ◌*◌, ◌/◌, ◌%◌, ◌<◌, bit_and}
use mathlib.Core.Path.{◌≡◌, refl, ap, ◌∙◌}
use mathlib.Core.Bool.{Bool, true, false}
use native.Mathlib.Omega.{arith}
use embedded_template.Prelude.Tests.{◌==◌, ==→eq}

-- The test holds of every number that is smaller than the bound.
unfoldable pub holds_to : (ℕ → Bool) → ℕ → Bool
holds_to test zero = true
holds_to test (suc bound) = elim (test bound) [ false ↦ false | true ↦ holds_to test bound ]

pub holds_at :
    (test : ℕ → Bool) (bound : ℕ)
    → holds_to test bound ≡ true
    → (byte : ℕ) → byte < bound
    → test byte ≡ true
unfolding holds_to
holds_at test zero all byte less = absurd (omega arith)
holds_at test (suc bound) all byte less =
    ground (arith, λ (rest : holds_to test bound ≡ true). holds_at test bound rest byte)

nibble_table : holds_to (λ x. bit_and x 0x0f == x % 16) 256 ≡ true
unfolding holds_to
nibble_table = refl

pub low_nibble : (x : ℕ) → x < 256 → bit_and x 0x0f ≡ x % 16
low_nibble x h = ==→eq _ _ (holds_at _ 256 nibble_table x h)

byte_table : holds_to (λ h. holds_to (λ l. bit_and (h * 256 + l) 0xff == l) 256) 256 ≡ true
unfolding holds_to
byte_table = refl

pub low_byte : (x : ℕ) → x < 65536 → bit_and x 0xff ≡ x % 256
low_byte x h =
    let column : ℕ → Bool = λ h. holds_to (λ l. bit_and (h * 256 + l) 0xff == l) 256 in
    let row : ℕ → Bool = λ l. bit_and (x / 256 * 256 + l) 0xff == l in
    let rows : holds_to row 256 ≡ true = holds_at column 256 byte_table (x / 256) (omega arith) in
    ap (λ y. bit_and y 0xff) (omega arith)
    ∙ ==→eq _ _ (holds_at row 256 rows (x % 256) (omega arith))
