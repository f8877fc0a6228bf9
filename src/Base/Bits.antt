-- ===== src/Base/Bits.antt =====
-- Facts about the bitwise operations on bytes: `^` and `|`.
use Prim.Native.Nat.{
  ℕ, zero, suc, ◌+◌, ◌*◌, ◌/◌, ◌%◌, ◌≤◌, ◌<◌, max, bit_or, bit_xor, digits, differ, bit_or-bitwise,
  bit_xor-bitwise,
}
use mathlib.Core.Path.{◌≡◌, refl, sym}
use native.Mathlib.Omega.{arith}

abbrev xor_digits : ℕ → ℕ → ℕ → ℕ
xor_digits n a b = digits (λ b. b) differ n a b

abbrev or_digits : ℕ → ℕ → ℕ → ℕ
or_digits n a b = digits (λ b. b) max n a b

-- The count of digits to go may be any that is large enough.
xor_digits_fuel : (n m a b : ℕ) → a ≤ n → a ≤ m → xor_digits n a b ≡ xor_digits m a b
xor_digits_fuel zero zero a b p q = refl
xor_digits_fuel zero (suc m) zero b p q = refl
xor_digits_fuel zero (suc m) (suc a) b p q = absurd (omega arith)
xor_digits_fuel (suc n) zero zero b p q = refl
xor_digits_fuel (suc n) zero (suc a) b p q = absurd (omega arith)
xor_digits_fuel (suc n) (suc m) zero b p q = refl
xor_digits_fuel (suc n) (suc m) (suc a) b p q =
    omega (arith, xor_digits_fuel n m (suc a / 2) (b / 2) (omega arith) (omega arith))

or_digits_fuel : (n m a b : ℕ) → a ≤ n → a ≤ m → or_digits n a b ≡ or_digits m a b
or_digits_fuel zero zero a b p q = refl
or_digits_fuel zero (suc m) zero b p q = refl
or_digits_fuel zero (suc m) (suc a) b p q = absurd (omega arith)
or_digits_fuel (suc n) zero zero b p q = refl
or_digits_fuel (suc n) zero (suc a) b p q = absurd (omega arith)
or_digits_fuel (suc n) (suc m) zero b p q = refl
or_digits_fuel (suc n) (suc m) (suc a) b p q =
    omega (arith, or_digits_fuel n m (suc a / 2) (b / 2) (omega arith) (omega arith))

differ_zero_left : (d : ℕ) → differ 0 d ≡ d
differ_zero_left d = refl

-- The laws for the lowest digit.
pub bit_xor_step : (a b : ℕ) → bit_xor a b ≡ bit_xor (a / 2) (b / 2) * 2 + differ (a % 2) (b % 2)
bit_xor_step zero b = omega (arith, bit_xor-bitwise 0 b, bit_xor-bitwise 0 (b / 2))
bit_xor_step (suc a) b = omega (
  arith,
  bit_xor-bitwise (suc a) b,
  bit_xor-bitwise (suc a / 2) (b / 2),
  xor_digits_fuel a (suc a / 2) (suc a / 2) (b / 2) (omega arith) (omega arith),
)

pub bit_or_step : (a b : ℕ) → bit_or a b ≡ bit_or (a / 2) (b / 2) * 2 + max (a % 2) (b % 2)
bit_or_step zero b = omega (arith, bit_or-bitwise 0 b, bit_or-bitwise 0 (b / 2))
bit_or_step (suc a) b = omega (
  arith,
  bit_or-bitwise (suc a) b,
  bit_or-bitwise (suc a / 2) (b / 2),
  or_digits_fuel a (suc a / 2) (suc a / 2) (b / 2) (omega arith) (omega arith),
)

differ-zero : (a b : ℕ) → differ a b ≡ 0 → a ≡ b
differ-zero zero b h = omega arith
differ-zero (suc a) zero h = omega arith
differ-zero (suc a) (suc b) h = omega (arith, differ-zero a b h)

differ_self : (a : ℕ) → differ a a ≡ 0
differ_self zero = refl
differ_self (suc a) = differ_self a

-- On single digits, to differ twice from the same digit changes nothing.
differ-differ : (a b : ℕ) → a < 2 → b < 2 → differ (differ a b) b ≡ a
differ-differ zero zero h k = refl
differ-differ zero (suc zero) h k = refl
differ-differ (suc zero) zero h k = refl
differ-differ (suc zero) (suc zero) h k = refl
differ-differ (suc (suc a)) b h k = absurd (omega arith)
differ-differ a (suc (suc b)) h k = absurd (omega arith)

differ-lt : (a b : ℕ) → a < 2 → b < 2 → differ a b < 2
differ-lt zero b h k = k
differ-lt (suc zero) zero h k = omega arith
differ-lt (suc zero) (suc b) h k = omega arith
differ-lt (suc (suc a)) b h k = absurd (omega arith)

bit_xor-zero_fuel : (n a b : ℕ) → a ≤ n → bit_xor a b ≡ 0 → a ≡ b
bit_xor-zero_fuel n zero b h e = omega (arith, bit_xor-bitwise 0 b)
bit_xor-zero_fuel zero (suc a) b h e = absurd (omega arith)
bit_xor-zero_fuel (suc n) (suc a) b h e =
    let s = bit_xor_step (suc a) b in
    let high = bit_xor-zero_fuel n (suc a / 2) (b / 2) (omega arith) (omega arith) in
    let low = differ-zero (suc a % 2) (b % 2) (omega arith) in omega arith

pub bit_xor-zero : (a b : ℕ) → bit_xor a b ≡ 0 → a ≡ b
bit_xor-zero a b = bit_xor-zero_fuel a a b (omega arith)

bit_xor_self_fuel : (n a : ℕ) → a ≤ n → bit_xor a a ≡ 0
bit_xor_self_fuel n zero h = bit_xor-bitwise 0 0
bit_xor_self_fuel zero (suc a) h = absurd (omega arith)
bit_xor_self_fuel (suc n) (suc a) h = omega (
  arith,
  bit_xor_step (suc a) (suc a),
  bit_xor_self_fuel n (suc a / 2) (omega arith),
  differ_self (suc a % 2),
)

pub bit_xor_self : (a : ℕ) → bit_xor a a ≡ 0
bit_xor_self a = bit_xor_self_fuel a a (omega arith)

bit_xor-half :
    (a b : ℕ)
    → (bit_xor a b / 2 ≡ bit_xor (a / 2) (b / 2)) × (bit_xor a b % 2 ≡ differ (a % 2) (b % 2))
bit_xor-half a b =
    let s = bit_xor_step a b in
    let d = differ-lt (a % 2) (b % 2) (omega arith) (omega arith) in (omega arith, omega arith)

xor_twice_step :
    (a b : ℕ) → bit_xor (bit_xor (a / 2) (b / 2)) (b / 2) ≡ a / 2 → bit_xor (bit_xor a b) b ≡ a
xor_twice_step a b ih =
    let h = bit_xor-half a b in
    let d = differ-differ (a % 2) (b % 2) (omega arith) (omega arith) in
    let s : bit_xor (bit_xor a b) b
        ≡ bit_xor (bit_xor (a / 2) (b / 2)) (b / 2) * 2 + differ (differ (a % 2) (b % 2)) (b % 2) =
      rw (sym h.0, sym h.1) (bit_xor_step (bit_xor a b) b) in
    omega arith

bit_xor-bit_xor_fuel : (n a b : ℕ) → a + b ≤ n → bit_xor (bit_xor a b) b ≡ a
bit_xor-bit_xor_fuel n zero zero h = refl
bit_xor-bit_xor_fuel zero a b h = absurd (omega arith)
bit_xor-bit_xor_fuel (suc n) a b h =
    xor_twice_step a b (bit_xor-bit_xor_fuel n (a / 2) (b / 2) (omega arith))

pub bit_xor-bit_xor : (a b : ℕ) → bit_xor (bit_xor a b) b ≡ a
bit_xor-bit_xor a b = bit_xor-bit_xor_fuel (a + b) a b (omega arith)

bit_or-zero_fuel : (n a b : ℕ) → a ≤ n → bit_or a b ≡ 0 → (a ≡ 0) × (b ≡ 0)
bit_or-zero_fuel n zero b h e = (refl, omega (arith, bit_or-bitwise 0 b))
bit_or-zero_fuel zero (suc a) b h e = absurd (omega arith)
bit_or-zero_fuel (suc n) (suc a) b h e =
    let s = bit_or_step (suc a) b in
    let high = bit_or-zero_fuel n (suc a / 2) (b / 2) (omega arith) (omega arith) in
    (omega arith, omega arith)

pub bit_or-zero : (a b : ℕ) → bit_or a b ≡ 0 → (a ≡ 0) × (b ≡ 0)
bit_or-zero a b = bit_or-zero_fuel a a b (omega arith)

xor_doubled :
    (m : ℕ)
    → ((a b : ℕ) → a < m → b < m → bit_xor a b < m)
    → (a b : ℕ) → a < m * 2
    → b < m * 2
    → bit_xor a b < m * 2
xor_doubled m ih a b h k =
    let s = bit_xor_step a b in
    let d = differ-lt (a % 2) (b % 2) (omega arith) (omega arith) in
    let r = ih (a / 2) (b / 2) (omega arith) (omega arith) in omega arith

xor_one : (a b : ℕ) → a < 1 → b < 1 → bit_xor a b < 1
xor_one zero zero h k = omega (arith, bit_xor_self 0)
xor_one (suc a) b h k = absurd (omega arith)
xor_one a (suc b) h k = absurd (omega arith)

-- Bytes stay bytes.
pub bit_xor-lt : (a b : ℕ) → a < 256 → b < 256 → bit_xor a b < 256
bit_xor-lt = xor_doubled 128 (
    xor_doubled 64 (
      xor_doubled 32
        (xor_doubled 16 (xor_doubled 8 (xor_doubled 4 (xor_doubled 2 (xor_doubled 1 xor_one)))))))
