-- ===== src/Proto/ServerTime.antt =====
-- The `server-time` tag: crates/obby-proto/src/servertime.rs. The `checked_` operations never
-- overflow, since the year is at most 9999 where they are reached (`ServerTime.Range`).
pub mod Civil
pub mod Print
pub mod RoundTrip
pub mod Range
use obby_client.Base.{
  ℕ, zero, suc, ◌+◌, ◌-◌, ◌*◌, ◌/◌, ◌%◌, ◌^◌, ◌≡◌, Bool, true, false, not, ◌&&◌, ◌||◌, Option, none,
  some, List, [], ◌∷◌, ◌++◌, Text, text, split_once, split, length, take, bind, ◌>>=◌,
  if◌then◌else◌, ◌==◌, ltb, leb, is_digit, any, parse_unsigned, u16_limit, u32_limit, u64_limit, ℤ,
  scale, shift, to_unsigned, unwrap_or,
}
use obby_client.Base.{strip_suffix}
use Civil.{days_from_civil, civil_from_days}

-- The range of `i64`, for a year with no minus sign: the date was split at each of these.
abbrev pub i64_limit : ℕ
i64_limit = 9223372036854775808

pub within : ℕ → ℕ → ℕ → Bool
within lo hi n = leb lo n && leb n hi

pub guard : Bool → Option (Unit {0})
guard true = some tt
guard false = none

-- The three numbers of a date or of a clock, each read in its own type, with nothing behind them.
pub three :
    (Text → Option ℕ) → (Text → Option ℕ) → (Text → Option ℕ) → List Text → Option (ℕ × ℕ × ℕ)
three f g h (a ∷ b ∷ c ∷ []) = do x ← f a; y ← g b; z ← h c; some (x, y, z)
three f g h _ = none

unfoldable pub parse_date : Text → Option (ℕ × ℕ × ℕ)
unfolding three within guard
parse_date date = do
  d ←
      three (parse_unsigned i64_limit) (parse_unsigned u32_limit) (parse_unsigned u32_limit)
        (split b'-' date)
  _ ← guard (within 1 9999 d.0 && within 1 12 d.1 && within 1 31 d.2)
  some d

unfoldable pub parse_clock : Text → Option (ℕ × ℕ × ℕ)
unfolding three guard
parse_clock clock = do
  c ←
      three (parse_unsigned u64_limit) (parse_unsigned u64_limit) (parse_unsigned u64_limit)
        (split b':' clock)
  _ ← guard (leb c.0 23 && leb c.1 59 && leb c.2 60)
  some c

-- The value of up to three digits, in milliseconds.
scale_fraction : ℕ → ℕ → ℕ
scale_fraction digits value =
    if digits == 0
    then 0
    else if digits == 1
    then value * 100
    else if digits == 2
    then value * 10
    else value

unfoldable pub millis_from_fraction : Text → Option ℕ
unfolding scale_fraction
millis_from_fraction fraction =
    let digits = take 3 fraction in
    if any (λ b. not (is_digit b)) fraction
    then none
    else bind (parse_unsigned u16_limit digits)
        (λ value. some (scale_fraction (length digits) value))

-- The instant in milliseconds since the epoch, none before it.
unfoldable pub instant : ℕ × ℕ × ℕ → ℕ × ℕ × ℕ → ℕ → Option ℕ
instant d c millis =
    let seconds = shift (scale (days_from_civil d.0 d.1 d.2) 86400) (c.0 * 3600 + c.1 * 60 + c.2) in
    to_unsigned (shift (scale seconds 1000) millis)

-- `servertime::parse`.
unfoldable pub parse : Text → Option ℕ
unfolding parse_date parse_clock millis_from_fraction instant
parse value = do
  halves ← split_once b'T' value
  time ← strip_suffix b'Z' halves.1
  d ← parse_date halves.0
  let parts = unwrap_or (split_once b'.' time) (time, text "0")
  c ← parse_clock parts.0
  millis ← millis_from_fraction parts.1
  instant d c millis

-- The decimal digits of a number, the last `width` of them.
unfoldable pub fixed : ℕ → ℕ → Text
fixed zero n = []
fixed (suc width) n = fixed width (n / 10) ++ (n % 10 + b'0') ∷ []

-- The digits of a number with no width, on fuel: a number has fewer digits than its value, but 0.
decimal_fuel : ℕ → ℕ → Text
decimal_fuel zero n = []
decimal_fuel (suc fuel) n =
    let more = decimal_fuel fuel (n / 10) in (if ltb n 10 then [] else more) ++ (n % 10 + b'0') ∷ []

-- `{n}`, as `to_string` prints it.
unfoldable pub decimal : ℕ → Text
unfolding decimal_fuel
decimal n = decimal_fuel (n + 1) n

-- `{n:0width}`: padded with zeros, and never cut.
unfoldable pub padded : ℕ → ℕ → Text
unfolding fixed decimal
padded width n = if ltb n (10 ^ width) then fixed width n else decimal n

-- `servertime::format`.
unfoldable pub format : ℕ → Text
format unix_ms =
    let seconds = unix_ms / 1000 in
    let millis = unix_ms % 1000 in
    let second_of_day = seconds % 86400 in
    let (year, month, day) = civil_from_days (seconds / 86400) in
    padded 4 year
    ++ (b'-'
        ∷ (padded 2 month
            ++ (b'-'
                ∷ (padded 2 day
                    ++ (b'T'
                        ∷ (padded 2 (second_of_day / 3600)
                            ++ (b':'
                                ∷ (padded 2 (second_of_day / 60 % 60)
                                    ++ (b':'
                                        ∷ (padded 2 (second_of_day % 60)
                                            ++ (b'.' ∷ (padded 3 millis ++ (b'Z' ∷ [])))))))))))))
