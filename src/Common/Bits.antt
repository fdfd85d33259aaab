-- ===== src/Common/Bits.antt =====
-- `&` with a low mask or with a single bit, and `|` of fields that do not overlap, as arithmetic.
use Prim.Native.Nat.{
  ℕ, zero, suc, ◌+◌, ◌-◌, ◌*◌, ◌/◌, ◌%◌, ◌^◌, ◌≤◌, ◌<◌, min, max, bit_and, bit_or, digits,
  bit_and-bitwise, bit_or-bitwise,
}
use mathlib.Core.Path.{◌≡◌, refl, ap}
use native.Mathlib.Nat.{pow-suc, one-le-pow}
use native.Mathlib.Omega.{arith}

-- The digit recursion does not depend on its fuel.
module _ (z : ℕ → ℕ) (f : ℕ → ℕ → ℕ) where
  digits_enough : (n m a b : ℕ) → a ≤ n → a ≤ m → digits z f n a b ≡ digits z f m a b
  digits_enough zero zero a b h k = refl
  digits_enough zero (suc m) zero b h k = refl
  digits_enough zero (suc m) (suc a) b h k = absurd (omega arith)
  digits_enough (suc n) zero zero b h k = refl
  digits_enough (suc n) zero (suc a) b h k = absurd (omega arith)
  digits_enough (suc n) (suc m) zero b h k = refl
  digits_enough (suc n) (suc m) (suc a) b h k =
      ap (λ t. t * 2 + f (suc a % 2) (b % 2))
        (digits_enough n m (suc a / 2) (b / 2) (omega arith) (omega arith))

-- The lowest digit of each operation.
and_lowest : (a b : ℕ) → bit_and a b ≡ bit_and (a / 2) (b / 2) * 2 + min (a % 2) (b % 2)
and_lowest zero b = omega (arith, bit_and-bitwise 0 b, bit_and-bitwise 0 (b / 2))
and_lowest (suc a) b = omega (
  arith,
  bit_and-bitwise (suc a) b,
  bit_and-bitwise (suc a / 2) (b / 2),
  digits_enough (λ y. 0) min a (suc a / 2) (suc a / 2) (b / 2) (omega arith) (omega arith),
)

or_lowest : (a b : ℕ) → bit_or a b ≡ bit_or (a / 2) (b / 2) * 2 + max (a % 2) (b % 2)
or_lowest zero b = omega (arith, bit_or-bitwise 0 b, bit_or-bitwise 0 (b / 2))
or_lowest (suc a) b = omega (
  arith,
  bit_or-bitwise (suc a) b,
  bit_or-bitwise (suc a / 2) (b / 2),
  digits_enough (λ y. y) max a (suc a / 2) (suc a / 2) (b / 2) (omega arith) (omega arith),
)

and_nothing : (n a : ℕ) → a ≤ n → bit_and a 0 ≡ 0
and_nothing n zero h = refl
and_nothing zero (suc a) h = absurd (omega arith)
and_nothing (suc n) (suc a) h =
    omega (arith, and_lowest (suc a) 0, and_nothing n (suc a / 2) (omega arith))

or_nothing : (n a : ℕ) → a ≤ n → bit_or a 0 ≡ a
or_nothing n zero h = refl
or_nothing zero (suc a) h = absurd (omega arith)
or_nothing (suc n) (suc a) h =
    omega (arith, or_lowest (suc a) 0, or_nothing n (suc a / 2) (omega arith))

-- Bit `k` of a number, counted from the lowest.
abbrev pub bit_of : ℕ → ℕ → ℕ
bit_of zero n = n % 2
bit_of (suc k) n = bit_of k (n / 2)

-- A number that is a mask's own part has no bit that the mask has not.
pub bit_of-masked : (k m n : ℕ) → bit_and m n ≡ n → bit_of k n ≤ bit_of k m
bit_of-masked zero m n e = omega (arith, e, and_lowest m n)
bit_of-masked (suc k) m n e = bit_of-masked k (m / 2) (n / 2) (omega (arith, e, and_lowest m n))

pub bit_and-zero : (a : ℕ) → bit_and a 0 ≡ 0
bit_and-zero a = and_nothing a a (omega arith)

pub bit_or-zero : (a : ℕ) → bit_or a 0 ≡ a
bit_or-zero a = or_nothing a a (omega arith)

double_pow : (q k : ℕ) → q * 2 ^ suc k ≡ 2 * (q * 2 ^ k)
double_pow q k = omega (arith, ap (λ (t : ℕ). q * t) (pow-suc 2 k))

and_low_fields : (k q r : ℕ) → r < 2 ^ k → bit_and (q * 2 ^ k + r) (2 ^ k - 1) ≡ r
and_low_fields zero q r h = omega (arith, bit_and-zero (q * 1 + r))
and_low_fields (suc k) q r h = ground (
  arith,
  and_lowest (q * 2 ^ suc k + r) (2 ^ suc k - 1),
  double_pow q k,
  pow-suc 2 k,
  one-le-pow k 2,
  and_low_fields k q (r / 2) (omega (arith, pow-suc 2 k)),
)

and_bit_fields : (k q r : ℕ) → r < 2 ^ k → bit_and (q * 2 ^ k + r) (2 ^ k) ≡ q % 2 * 2 ^ k
and_bit_fields zero q r h = omega (arith, and_lowest (q * 1 + r) 1, bit_and-zero ((q * 1 + r) / 2))
and_bit_fields (suc k) q r h = ground (
  arith,
  and_lowest (q * 2 ^ suc k + r) (2 ^ suc k),
  double_pow q k,
  double_pow (q % 2) k,
  pow-suc 2 k,
  one-le-pow k 2,
  and_bit_fields k q (r / 2) (omega (arith, pow-suc 2 k)),
)

-- The `k` low bits.
pub bit_and_low : (k a : ℕ) → bit_and a (2 ^ k - 1) ≡ a % 2 ^ k
bit_and_low k a = ground (arith, one-le-pow k 2, and_low_fields k (a / 2 ^ k) (a % 2 ^ k))

-- The bit `k`.
pub bit_and_bit : (k a : ℕ) → bit_and a (2 ^ k) ≡ a / 2 ^ k % 2 * 2 ^ k
bit_and_bit k a = ground (arith, one-le-pow k 2, and_bit_fields k (a / 2 ^ k) (a % 2 ^ k))

-- A field of `k` bits below another.
pub bit_or_below : (k q r : ℕ) → r < 2 ^ k → bit_or (q * 2 ^ k) r ≡ q * 2 ^ k + r
bit_or_below zero q r h = ground (arith, bit_or-zero q)
bit_or_below (suc k) q r h = ground (
  arith,
  or_lowest (q * 2 ^ suc k) r,
  pow-suc 2 k,
  ap (λ (t : ℕ). q * t) (pow-suc 2 k),
  bit_or_below k q (r / 2) (omega (arith, pow-suc 2 k)),
)

pub bit_or-lt : (k r s : ℕ) → r < 2 ^ k → s < 2 ^ k → bit_or r s < 2 ^ k
bit_or-lt zero zero zero h h' = omega arith
bit_or-lt zero zero (suc s) h h' = absurd (omega arith)
bit_or-lt zero (suc r) s h h' = absurd (omega arith)
bit_or-lt (suc k) r s h h' = ground (
  arith,
  or_lowest r s,
  pow-suc 2 k,
  bit_or-lt k (r / 2) (s / 2) (omega (arith, pow-suc 2 k)) (omega (arith, pow-suc 2 k)),
)

-- The fields above `k` bits are not touched by an operand of `k` bits.
pub bit_or_fields :
    (k q r s : ℕ) → r < 2 ^ k → s < 2 ^ k → bit_or (q * 2 ^ k + r) s ≡ q * 2 ^ k + bit_or r s
bit_or_fields zero q zero zero h h' = omega (arith, bit_or-zero (q * 1 + 0))
bit_or_fields zero q zero (suc s) h h' = absurd (omega arith)
bit_or_fields zero q (suc r) s h h' = absurd (omega arith)
bit_or_fields (suc k) q r s h h' = ground (
  arith,
  or_lowest (q * 2 ^ suc k + r) s,
  or_lowest r s,
  double_pow q k,
  bit_or_fields k q (r / 2) (s / 2) (omega (arith, pow-suc 2 k)) (omega (arith, pow-suc 2 k)),
)

pub bit_or-odd : (s : ℕ) → bit_or 1 s % 2 ≡ 1
bit_or-odd s = omega (arith, or_lowest 1 s)

-- An operand of `k` bits sees the `k` low bits only.
pub bit_and_fields : (k q r m : ℕ) → r < 2 ^ k → m < 2 ^ k → bit_and (q * 2 ^ k + r) m ≡ bit_and r m
bit_and_fields zero q zero zero h h' = omega (arith, bit_and-zero (q * 1 + 0))
bit_and_fields zero q zero (suc m) h h' = absurd (omega arith)
bit_and_fields zero q (suc r) m h h' = absurd (omega arith)
bit_and_fields (suc k) q r m h h' = ground (
  arith,
  and_lowest (q * 2 ^ suc k + r) m,
  and_lowest r m,
  double_pow q k,
  bit_and_fields k q (r / 2) (m / 2) (omega (arith, pow-suc 2 k)) (omega (arith, pow-suc 2 k)),
)

pub odd-bit_or : (s : ℕ) → bit_or s 1 % 2 ≡ 1
odd-bit_or s = omega (arith, or_lowest s 1)
