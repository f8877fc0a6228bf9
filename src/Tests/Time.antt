-- ===== src/Tests/Time.antt =====
-- Times on concrete inputs: crates/obby-proto/src/servertime.rs.
use native.Mathlib.Omega.{arith}
use obby_client.Base.{◌≡◌, ◌<◌, some, pos}
use obby_client.Proto.ServerTime
use obby_client.Proto.ServerTime.Civil.{
  days_from_civil, civil_from_days, days_from_civil-civil_from_days,
}
use obby_client.Proto.ServerTime.RoundTrip.{parse-format}
use obby_client.Proto.ServerTime.Range.{parse-lt}

parse-format_example : ServerTime.parse (ServerTime.format 1700000000123) ≡ some 1700000000123
parse-format_example = parse-format 1700000000123 (omega arith)

days_from_civil-civil_from_days_example :
    (let c = civil_from_days 19782 in days_from_civil c.0 c.1 c.2) ≡ pos 19782
days_from_civil-civil_from_days_example = days_from_civil-civil_from_days 19782

read_back : ServerTime.parse (ServerTime.format 5) ≡ some 5
read_back = parse-format 5 (omega arith)

parse-lt_example : 5 < 253402300801000
parse-lt_example = parse-lt (ServerTime.format 5) read_back
