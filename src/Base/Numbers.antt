-- ===== src/Base/Numbers.antt =====
-- `str::parse` of the unsigned integer types, and hexadecimal digits.
use Prim.Native.Nat.{ℕ, ◌+◌, ◌-◌, ◌*◌, ◌<◌}
use mathlib.Core.Path.{◌≡◌}
use mathlib.Core.Bool.{Bool, ◌&&◌}
use mathlib.Core.List.{[], ◌∷◌}
use mathlib.Core.Option.{Option, none, some}
use native.Mathlib.Omega.{arith}
use obby_client.Base.Tests.{ltb, leb, ◌==◌, if◌then◌else◌}
use obby_client.Base.Texts.{Text}

abbrev pub is_digit : ℕ → Bool
is_digit c = leb b'0' c && leb c b'9'

-- The digits, with a test against the limit of the type at each step.
unfoldable pub parse_digits : ℕ → ℕ → Text → Option ℕ
parse_digits limit n [] = some n
parse_digits limit n (c ∷ s) =
    let next = n * 10 + (c - b'0') in
    let rest = parse_digits limit next s in
    if is_digit c then (if ltb next limit then rest else none) else none

unfoldable pub digits_nonempty : ℕ → Text → Option ℕ
digits_nonempty limit [] = none
digits_nonempty limit (c ∷ s) = parse_digits limit 0 (c ∷ s)

-- `str::parse` of an unsigned type whose values are below `limit`: one `+` may stand in front,
-- and at least one digit follows.
unfoldable pub parse_unsigned : ℕ → Text → Option ℕ
unfolding digits_nonempty parse_digits
parse_unsigned limit [] = none
parse_unsigned limit (c ∷ s) =
    if c == b'+' then digits_nonempty limit s else digits_nonempty limit (c ∷ s)

abbrev pub u16_limit : ℕ
u16_limit = 65536

abbrev pub u32_limit : ℕ
u32_limit = 4294967296

abbrev pub u64_limit : ℕ
u64_limit = 18446744073709551616

-- `char::to_digit(16)`.
unfoldable pub hex_digit : ℕ → Option ℕ
hex_digit c =
    if is_digit c
    then some (c - b'0')
    else if leb b'a' c && leb c b'f'
    then some (c - b'a' + 10)
    else if leb b'A' c && leb c b'F'
    then some (c - b'A' + 10)
    else none

-- What is parsed is a value of the type.
pub parse_digits-lt :
    (limit n : ℕ) (s : Text) {v : ℕ} → n < limit → parse_digits limit n s ≡ some v → v < limit
unfolding parse_digits
parse_digits-lt limit n [] h e = ground arith
parse_digits-lt limit n (c ∷ s) {v} h e =
    ground (arith, parse_digits-lt limit (n * 10 + (c - b'0')) s {v = v})
