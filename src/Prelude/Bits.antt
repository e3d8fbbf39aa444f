-- ===== src/Prelude/Bits.antt =====
-- `|` of disjoint fields as a sum, at every width, from the digits that the operation stands for.
use Prim.Native.Nat.{
  ℕ, zero, suc, ◌+◌, ◌*◌, ◌/◌, ◌%◌, ◌^◌, ◌≤◌, ◌<◌, max, bit_or, digits, bit_or-bitwise,
}
use mathlib.Core.Path.{◌≡◌, refl, ap}
use native.Mathlib.Nat.{pow-suc}
use native.Mathlib.Omega.{arith}

abbrev or_digits : ℕ → ℕ → ℕ → ℕ
or_digits n a b = digits (λ b. b) max n a b

-- Any fuel at or above the first operand gives the same digits.
or_digits-fuel : (n m a b : ℕ) → a ≤ n → a ≤ m → or_digits n a b ≡ or_digits m a b
or_digits-fuel zero zero a b p q = refl
or_digits-fuel zero (suc m) zero b p q = refl
or_digits-fuel zero (suc m) (suc a) b p q = absurd (omega arith)
or_digits-fuel (suc n) zero zero b p q = refl
or_digits-fuel (suc n) zero (suc a) b p q = absurd (omega arith)
or_digits-fuel (suc n) (suc m) zero b p q = refl
or_digits-fuel (suc n) (suc m) (suc a) b p q =
    omega (arith, or_digits-fuel n m (suc a / 2) (b / 2) (omega arith) (omega arith))

zero-bit_or : (b : ℕ) → bit_or 0 b ≡ b
zero-bit_or b = bit_or-bitwise 0 b

pub bit_or-digit : (a b : ℕ) → bit_or a b ≡ bit_or (a / 2) (b / 2) * 2 + max (a % 2) (b % 2)
bit_or-digit zero b = omega (arith, zero-bit_or b, zero-bit_or (b / 2))
bit_or-digit (suc a) b = omega (
  arith,
  bit_or-bitwise (suc a) b,
  bit_or-bitwise (suc a / 2) (b / 2),
  or_digits-fuel a (suc a / 2) (suc a / 2) (b / 2) (omega arith) (omega arith),
)

or-zero_below : (k a : ℕ) → a < k → bit_or a 0 ≡ a
or-zero_below zero a h = elim h [ ]
or-zero_below (suc k) zero h = zero-bit_or 0
or-zero_below (suc k) (suc a) h =
    omega (arith, bit_or-digit (suc a) 0, or-zero_below k (suc a / 2) (omega arith))

pub bit_or-zero : (a : ℕ) → bit_or a 0 ≡ a
bit_or-zero a = or-zero_below (suc a) a (omega arith)

double : (q k : ℕ) → q * 2 ^ suc k ≡ 2 * (q * 2 ^ k)
double q k = omega (arith, ap (λ (t : ℕ). q * t) (pow-suc 2 k))

-- `(q << k) | r` for an `r` of k bits.
pub bit_or-shifted : (k q r : ℕ) → r < 2 ^ k → bit_or (q * 2 ^ k) r ≡ q * 2 ^ k + r
bit_or-shifted zero q r h = ground (arith, bit_or-zero q)
bit_or-shifted (suc k) q r h =
    ground
      (arith, bit_or-digit (q * 2 ^ suc k) r, double q k, bit_or-shifted k q (r / 2) (omega arith))

-- `r | (q << k)`, the operands the other way round.
pub bit_or-over : (k q r : ℕ) → r < 2 ^ k → bit_or r (q * 2 ^ k) ≡ q * 2 ^ k + r
bit_or-over zero q r h = ground (arith, zero-bit_or q)
bit_or-over (suc k) q r h =
    ground
      (arith, bit_or-digit r (q * 2 ^ suc k), double q k, bit_or-over k q (r / 2) (omega arith))

bit_or-ge_below : (k a b : ℕ) → b < k → b ≤ bit_or a b
bit_or-ge_below zero a b h = elim h [ ]
bit_or-ge_below (suc k) a zero h = omega arith
bit_or-ge_below (suc k) a (suc b) h =
    omega (arith, bit_or-digit a (suc b), bit_or-ge_below k (a / 2) (suc b / 2) (omega arith))

-- `|` keeps the second operand's bits.
pub le-bit_or : (a b : ℕ) → b ≤ bit_or a b
le-bit_or a b = bit_or-ge_below (suc b) a b (omega arith)
