-- ===== src/Prelude/Int.antt =====
-- Go's signed integers: `negsuc n` is -(n + 1).
use Prim.Native.Nat.{ℕ, zero, suc, ◌-◌, ◌*◌, ◌%◌}
use mathlib.Core.Bool.{Bool, false}
use chain_pulse.Prelude.Tests.{ltb, leb, if◌then◌else◌}

pub data ℤ : Type 0 where
  pos : ℕ → ℤ
  negsuc : ℕ → ℤ

abbrev pub pos_part : ℤ → ℕ
pos_part (pos n) = n
pos_part (negsuc n) = 0

abbrev pub neg_part : ℤ → ℕ
neg_part (pos n) = 0
neg_part (negsuc n) = suc n

-- n < z
abbrev pub below : ℕ → ℤ → Bool
below n (pos k) = ltb n k
below n (negsuc k) = false

-- -n
abbrev pub neg : ℕ → ℤ
neg zero = pos 0
neg (suc n) = negsuc n

-- k z
abbrev pub scale : ℕ → ℤ → ℤ
scale k (pos n) = pos (k * n)
scale k (negsuc n) = neg (k * suc n)

abbrev pub two_pow_63 : ℕ
two_pow_63 = 9223372036854775808

abbrev pub two_pow_64 : ℕ
two_pow_64 = 18446744073709551616

-- The value of a 64-bit integer that a computation leaves, in two's complement.
unfoldable pub wrap64 : ℤ → ℤ
wrap64 (pos n) = let m = n % two_pow_64 in if ltb m two_pow_63 then pos m else neg (two_pow_64 - m)
wrap64 (negsuc n) =
    let m = suc n % two_pow_64 in if leb m two_pow_63 then neg m else pos (two_pow_64 - m)
