-- ===== src/Base/Ints.antt =====
-- Signed integers over the native numbers, as far as the program computes with them.
use Prim.Native.Nat.{ℕ, suc, ◌+◌, ◌-◌, ◌*◌}
use mathlib.Core.Path.{◌≡◌}
use mathlib.Core.Option.{Option, none, some}
use native.Mathlib.Omega.{arith}
use obby_client.Base.Tests.{leb, if◌then◌else◌}

-- `negsuc n` is -(n + 1).
pub data ℤ : Type 0 where
  pos : ℕ → ℤ
  negsuc : ℕ → ℤ

-- a - b, as an integer.
abbrev pub sub_ℕ : ℕ → ℕ → ℤ
sub_ℕ a b = if leb b a then pos (a - b) else negsuc (b - a - 1)

-- The product with a number that is not negative.
abbrev pub scale : ℤ → ℕ → ℤ
scale (pos n) k = pos (n * k)
scale (negsuc n) k = sub_ℕ 0 (suc n * k)

-- The sum with a number that is not negative.
abbrev pub shift : ℤ → ℕ → ℤ
shift (pos n) k = pos (n + k)
shift (negsuc n) k = sub_ℕ k (suc n)

-- `u64::try_from(z).ok()`, for values below 2^64.
abbrev pub to_unsigned : ℤ → Option ℕ
to_unsigned (pos n) = some n
to_unsigned (negsuc n) = none

pub sub_ℕ-le : (a b : ℕ) → sub_ℕ (a + b) b ≡ pos a
sub_ℕ-le a b = ground arith
