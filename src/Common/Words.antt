-- ===== src/Common/Words.antt =====
-- Unsigned integers of a fixed width, as bytes in little-endian and in network order.
use Prim.Native.Nat.{ℕ, zero, suc, ◌+◌, ◌*◌, ◌/◌, ◌%◌, ◌^◌, ◌<◌}
use mathlib.Core.Path.{◌≡◌, refl, ap}
use mathlib.Core.List.{List, [], ◌∷◌}
use native.Mathlib.Nat.{pow-suc}
use native.Mathlib.Omega.{arith}
use openv.Common.Lists.{length}

-- The low `n` bytes of `x`, as `to_le_bytes` of a type of `n` bytes gives them.
unfoldable pub to_le_bytes : ℕ → ℕ → List ℕ
to_le_bytes zero x = []
to_le_bytes (suc n) x = x % 256 ∷ to_le_bytes n (x / 256)

-- `from_le_bytes`.
unfoldable pub from_le_bytes : List ℕ → ℕ
from_le_bytes [] = 0
from_le_bytes (b ∷ bs) = b + 256 * from_le_bytes bs

pub length-to_le_bytes : (n x : ℕ) → length (to_le_bytes n x) ≡ n
unfolding to_le_bytes
length-to_le_bytes zero x = refl
length-to_le_bytes (suc n) x = ap suc (length-to_le_bytes n (x / 256))

div-lt-pow : (n x : ℕ) → x < 256 ^ suc n → x / 256 < 256 ^ n
div-lt-pow n x h = omega (arith, pow-suc 256 n)

pub from_le_bytes-to_le_bytes : (n x : ℕ) → x < 256 ^ n → from_le_bytes (to_le_bytes n x) ≡ x
unfolding to_le_bytes from_le_bytes
from_le_bytes-to_le_bytes zero x h = omega arith
from_le_bytes-to_le_bytes (suc n) x h =
    omega (arith, from_le_bytes-to_le_bytes n (x / 256) (div-lt-pow n x h))

-- `u16::to_be_bytes` and `u16::from_be_bytes`.
unfoldable pub to_be_bytes16 : ℕ → List ℕ
to_be_bytes16 x = x / 256 % 256 ∷ x % 256 ∷ []

unfoldable pub from_be_bytes16 : ℕ → ℕ → ℕ
from_be_bytes16 hi lo = hi * 256 + lo

pub from_be_bytes16-to_be_bytes16 :
    (x : ℕ) → x < 65536 → from_be_bytes16 (x / 256 % 256) (x % 256) ≡ x
unfolding from_be_bytes16
from_be_bytes16-to_be_bytes16 x h = omega arith
