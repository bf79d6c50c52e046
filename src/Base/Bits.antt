-- ===== src/Base/Bits.antt =====
-- `|` of disjoint fields as a sum, and `&` with one bit as a digit, at every width.
use Prim.Native.Nat.{
  ℕ, zero, suc, ◌+◌, ◌*◌, ◌/◌, ◌%◌, ◌^◌, ◌≤◌, ◌<◌, min, max, bit_and, bit_or, digits,
  bit_and-bitwise, bit_or-bitwise,
}
use mathlib.Core.Path.{◌≡◌, refl, ap}
use mathlib.Core.Logic.{◌⊎◌}
use native.Mathlib.Nat.{pow-suc}
use native.Mathlib.Omega.{arith}

-- The digit recursion with its fuel: fuel beyond the first operand changes nothing.
module _ (base : ℕ → ℕ) (op : ℕ → ℕ → ℕ) where
  spare_fuel : (b a n m : ℕ) → a ≤ n → n ≤ m → digits base op m a b ≡ digits base op n a b
  spare_fuel b zero zero zero h k = refl
  spare_fuel b zero zero (suc m) h k = refl
  spare_fuel b zero (suc n) (suc m) h k = refl
  spare_fuel b a (suc n) zero h k = absurd (omega arith)
  spare_fuel b (suc a) zero m h k = absurd (omega arith)
  spare_fuel b (suc a) (suc n) (suc m) h k =
      omega (arith, spare_fuel (b / 2) (suc a / 2) n m (omega arith) (omega arith))

zero-bit_or : (b : ℕ) → bit_or 0 b ≡ b
zero-bit_or b = bit_or-bitwise 0 b

zero-bit_and : (b : ℕ) → bit_and 0 b ≡ 0
zero-bit_and b = bit_and-bitwise 0 b

bit_or_digit : (a b : ℕ) → bit_or a b ≡ bit_or (a / 2) (b / 2) * 2 + max (a % 2) (b % 2)
bit_or_digit zero b = omega (arith, zero-bit_or b, zero-bit_or (b / 2))
bit_or_digit (suc a) b = omega (
  arith,
  bit_or-bitwise (suc a) b,
  bit_or-bitwise (suc a / 2) (b / 2),
  spare_fuel (λ x. x) max (b / 2) (suc a / 2) (suc a / 2) a (omega arith) (omega arith),
)

bit_and_digit : (a b : ℕ) → bit_and a b ≡ bit_and (a / 2) (b / 2) * 2 + min (a % 2) (b % 2)
bit_and_digit zero b = omega (arith, zero-bit_and b, zero-bit_and (b / 2))
bit_and_digit (suc a) b = omega (
  arith,
  bit_and-bitwise (suc a) b,
  bit_and-bitwise (suc a / 2) (b / 2),
  spare_fuel (λ x. 0) min (b / 2) (suc a / 2) (suc a / 2) a (omega arith) (omega arith),
)

-- Nothing on the right leaves the left operand under `|`, and nothing under `&`.
with_nothing : (n a : ℕ) → a ≤ n → (bit_or a 0 ≡ a) × (bit_and a 0 ≡ 0)
with_nothing n zero h = (refl, refl)
with_nothing zero (suc a) h = absurd (omega arith)
with_nothing (suc n) (suc a) h =
    let (kept, dropped) = with_nothing n (suc a / 2) (omega arith) in
    (omega (arith, bit_or_digit (suc a) 0, kept), omega (arith, bit_and_digit (suc a) 0, dropped))

double_pow : (q k : ℕ) → q * 2 ^ suc k ≡ 2 * (q * 2 ^ k)
double_pow q k = omega (arith, ap (λ (t : ℕ). q * t) (pow-suc 2 k))

-- `r | q << k` is a sum when `r` fits `k` bits.
pub bit_or_disjoint : (k q r : ℕ) → r < 2 ^ k → bit_or r (q * 2 ^ k) ≡ q * 2 ^ k + r
bit_or_disjoint zero q r h = ground (arith, zero-bit_or q)
bit_or_disjoint (suc k) q r h = ground (
  arith,
  bit_or_digit r (q * 2 ^ suc k),
  double_pow q k,
  pow-suc 2 k,
  bit_or_disjoint k q (r / 2) (omega (arith, pow-suc 2 k)),
)

-- `x & (1 << k)` is bit `k` of `x`, in its place.
pub bit_and_pow : (k x : ℕ) → (bit_and x (2 ^ k) ≡ 0) ⊎ (bit_and x (2 ^ k) ≡ 2 ^ k)
bit_and_pow zero x =
    omega (arith, bit_and_digit x 1, (with_nothing (x / 2) (x / 2) (omega arith)).1)
bit_and_pow (suc k) x =
    let half : 2 ^ suc k / 2 ≡ 2 ^ k = omega (arith, pow-suc 2 k) in
    ground (arith, half, bit_and_pow k (x / 2), bit_and_digit x (2 ^ suc k), pow-suc 2 k)
