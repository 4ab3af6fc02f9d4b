-- ===== src/Prelude/Xor.antt =====
-- `^` on words cut in two fields: the operation goes field by field.
use Prim.Native.Nat.{
  ℕ, zero, suc, ◌+◌, ◌*◌, ◌/◌, ◌%◌, ◌^◌, ◌≤◌, ◌<◌, digits, differ, bit_xor, bit_xor-bitwise,
}
use mathlib.Core.Path.{◌≡◌, refl, ap, ap₂, ◌∙◌}
use native.Mathlib.Nat.{le_refl, pow-suc}
use native.Mathlib.Omega.{arith}

-- The fuel of the recursion on digits is enough when it is at least the first number.
digits_enough :
    (n m a b : ℕ) → a ≤ n → a ≤ m → digits (λ y. y) differ n a b ≡ digits (λ y. y) differ m a b
digits_enough zero zero a b p q = refl
digits_enough zero (suc m) zero b p q = refl
digits_enough zero (suc m) (suc a) b p q = absurd (omega arith)
digits_enough (suc n) zero zero b p q = refl
digits_enough (suc n) zero (suc a) b p q = absurd (omega arith)
digits_enough (suc n) (suc m) zero b p q = refl
digits_enough (suc n) (suc m) (suc a) b p q =
    rw (digits_enough n m (suc a / 2) (b / 2) (omega arith) (omega arith))

differ-zero : (y : ℕ) → differ 0 y ≡ y
differ-zero y = refl

pub bit_xor_step : (a b : ℕ) → bit_xor a b ≡ bit_xor (a / 2) (b / 2) * 2 + differ (a % 2) (b % 2)
bit_xor_step zero b = simp bit_xor-bitwise (omega arith)
bit_xor_step (suc a) b =
    simp bit_xor-bitwise
      (omega (arith, digits_enough a (suc a / 2) (suc a / 2) (b / 2) (omega arith) (le_refl _)))

double_pow : (q k : ℕ) → q * 2 ^ suc k ≡ 2 * (q * 2 ^ k)
double_pow q k = omega (arith, ap (λ (t : ℕ). q * t) (pow-suc 2 k))

pub differ_bit : (x y : ℕ) → x < 2 → y < 2 → differ x y < 2
differ_bit zero y p q = q
differ_bit (suc zero) zero p q = p
differ_bit (suc zero) (suc zero) p q = omega arith
differ_bit (suc zero) (suc (suc y)) p q = absurd (omega arith)
differ_bit (suc (suc x)) y p q = absurd (omega arith)

pub bit_xor_lt : (k a b : ℕ) → a < 2 ^ k → b < 2 ^ k → bit_xor a b < 2 ^ k
bit_xor_lt zero zero zero p q = omega arith
bit_xor_lt zero zero (suc b) p q = absurd (omega arith)
bit_xor_lt zero (suc a) b p q = absurd (omega arith)
bit_xor_lt (suc k) a b p q = omega (
  arith,
  bit_xor_step a b,
  pow-suc 2 k,
  differ_bit (a % 2) (b % 2) (omega arith) (omega arith),
  bit_xor_lt k (a / 2) (b / 2) (omega (arith, pow-suc 2 k)) (omega (arith, pow-suc 2 k)),
)

bit_xor_fields :
    (k p q r s : ℕ)
    → r < 2 ^ k
    → s < 2 ^ k
    → bit_xor (p * 2 ^ k + r) (q * 2 ^ k + s) ≡ bit_xor p q * 2 ^ k + bit_xor r s
bit_xor_fields zero p q zero zero f g = ground (arith, bit_xor_step 0 0)
bit_xor_fields zero p q zero (suc s) f g = absurd (omega arith)
bit_xor_fields zero p q (suc r) s f g = absurd (omega arith)
bit_xor_fields (suc k) p q r s f g = ground (
  arith,
  bit_xor_step (p * 2 ^ suc k + r) (q * 2 ^ suc k + s),
  bit_xor_step r s,
  double_pow p k,
  double_pow q k,
  double_pow (bit_xor p q) k,
  pow-suc 2 k,
  bit_xor_fields k p q (r / 2) (s / 2) (omega (arith, pow-suc 2 k)) (omega (arith, pow-suc 2 k)),
)

pub bit_xor_cut :
    (k p q r s x y : ℕ)
    → x ≡ p * 2 ^ k + r
    → y ≡ q * 2 ^ k + s
    → r < 2 ^ k
    → s < 2 ^ k
    → bit_xor x y ≡ bit_xor p q * 2 ^ k + bit_xor r s
bit_xor_cut k p q r s x y e f less_r less_s =
    ap₂ bit_xor e f ∙ bit_xor_fields k p q r s less_r less_s
