-- ===== src/Proto/ServerTime/Range.antt =====
-- Which instants `parse` returns: the checked sums stay far below the limits of `i64` and `u64`.
use obby_client.Base.{
  ℕ, suc, ◌+◌, ◌*◌, ◌≤◌, ◌<◌, ◌≡◌, ◌⊎◌, some, [], ◌∷◌, Text, ◌==◌, parse_digits, parse_unsigned,
  u16_limit, take, length, length-take, >>=-some, arith, ℤ, pos, negsuc, split_once, Option-cases,
  inl, inr, unwrap_or, text, if◌then◌else◌,
}
use obby_client.Base.{strip_suffix}
use obby_client.Proto.ServerTime.{parse_date, parse_clock, millis_from_fraction, instant, parse}
use obby_client.Proto.ServerTime.Civil.{
  days_from_civil, days_before_epoch_shift, shift_year, shift_month,
}

abbrev AtMost : ℕ → ℤ → Type 0
AtMost n (pos m) = m ≤ n
AtMost n (negsuc m) = Unit

days_before_epoch_shift_le :
    (y m d : ℕ)
    → y ≤ 9999
    → (m ≤ 9) ⊎ ((m ≤ 11) × (y ≤ 9998))
    → d ≤ 31
    → days_before_epoch_shift y m d ≤ 3652364
unfolding days_before_epoch_shift
days_before_epoch_shift_le y m d h k l = omega arith

shift_le :
    (y m : ℕ)
    → y ≤ 9999
    → m ≤ 12
    → (shift_year y m ≤ 9999)
      × ((shift_month m ≤ 9) ⊎ ((shift_month m ≤ 11) × (shift_year y m ≤ 9998)))
unfolding shift_year shift_month
shift_le y m h k = ground arith

days_from_civil-AtMost :
    (y m d : ℕ) → y ≤ 9999 → m ≤ 12 → d ≤ 31 → AtMost 2932896 (days_from_civil y m d)
unfolding days_from_civil
days_from_civil-AtMost y m d h k l =
    let s = shift_le y m h k in
    ground (arith, days_before_epoch_shift_le (shift_year y m) (shift_month m) d s.0 s.1 l)

instant-lt :
    (d c : ℕ × ℕ × ℕ) (f : ℕ) {ms : ℕ}
    → AtMost 2932896 (days_from_civil d.0 d.1 d.2)
    → c.0 ≤ 23
    → c.1 ≤ 59
    → c.2 ≤ 60
    → f < 1000
    → instant d c f ≡ some ms
    → ms < 253402300801000
unfolding instant
instant-lt d c f h p q r l e = ground arith

parse_date-range :
    (t : Text) {d : ℕ × ℕ × ℕ} → parse_date t ≡ some d → (d.0 ≤ 9999) × (d.1 ≤ 12) × (d.2 ≤ 31)
unfolding parse_date
parse_date-range t h = ground arith

parse_clock-range :
    (t : Text) {c : ℕ × ℕ × ℕ} → parse_clock t ≡ some c → (c.0 ≤ 23) × (c.1 ≤ 59) × (c.2 ≤ 60)
unfolding parse_clock
parse_clock-range t h = ground arith

-- 10 to the power of a number up to three.
power_of_ten : ℕ → ℕ
power_of_ten n = if n == 0 then 1 else if n == 1 then 10 else if n == 2 then 100 else 1000

power_le : (n : ℕ) → power_of_ten (suc n) ≤ power_of_ten (suc (suc n))
unfolding power_of_ten
power_le n = ground arith

power_cases :
    (n : ℕ)
    → n ≤ 3
    → ((n ≡ 0) × (power_of_ten n ≡ 1))
      ⊎ ((n ≡ 1) × (power_of_ten n ≡ 10))
      ⊎ ((n ≡ 2) × (power_of_ten n ≡ 100))
      ⊎ ((n ≡ 3) × (power_of_ten n ≡ 1000))
unfolding power_of_ten
power_cases n h = ground arith

-- Digits behind an accumulator.
digits-lt :
    (limit acc : ℕ) (s : Text) {v : ℕ}
    → parse_digits limit acc s ≡ some v
    → length s ≤ 3
    → v < (acc + 1) * power_of_ten (length s)
unfolding parse_digits power_of_ten
digits-lt limit acc [] h l = ground arith
digits-lt limit acc (a ∷ []) h l = ground arith
digits-lt limit acc (a ∷ b ∷ []) h l = ground arith
digits-lt limit acc (a ∷ b ∷ c ∷ []) h l = ground arith
digits-lt limit acc (a ∷ b ∷ c ∷ d ∷ s) h l = absurd (omega arith)

unsigned-lt :
    (limit : ℕ) (s : Text) {v : ℕ}
    → parse_unsigned limit s ≡ some v
    → length s ≤ 3
    → v < power_of_ten (length s)
unfolding parse_unsigned
unsigned-lt limit [] h l = cc
unsigned-lt limit (c ∷ []) {v} h l =
    ground (arith, digits-lt limit 0 (c ∷ []) {v = v}, power_cases 1 (omega arith))
unsigned-lt limit (c ∷ d ∷ s) {v} h l = ground (
  arith,
  digits-lt limit 0 (c ∷ d ∷ s) {v = v},
  digits-lt limit 0 (d ∷ s) {v = v},
  power_le (length s),
)

millis-lt : (t : Text) {f : ℕ} → millis_from_fraction t ≡ some f → f < 1000
unfolding millis_from_fraction
millis-lt t {f} h = elim (Option-cases (parse_unsigned u16_limit (take 3 t))) [
  | inl e ↦ ground arith
  | inr (v, e) ↦
      let l : length (take 3 t) ≤ 3 = omega (arith, length-take 3 t) in
      ground
        (arith, unsigned-lt u16_limit (take 3 t) {v = v} e l, power_cases (length (take 3 t)) l)
]

-- Every instant that is read lies before the year 10000, or is the leap second that ends 9999.
pub parse-lt : (value : Text) {ms : ℕ} → parse value ≡ some ms → ms < 253402300801000
unfolding parse
parse-lt value {ms} h =
    let (halves, _, h1) = >>=-some (split_once b'T' value) _ h in
    let (time, _, h2) = >>=-some (strip_suffix b'Z' halves.1) _ h1 in
    let (d, dated, h3) = >>=-some (parse_date halves.0) _ h2 in
    let parts = unwrap_or (split_once b'.' time) (time, text "0") in
    let (c, timed, h4) = >>=-some (parse_clock parts.0) _ h3 in
    let (f, fraction, h5) = >>=-some (millis_from_fraction parts.1) _ h4 in
    let r = parse_date-range halves.0 {d = d} dated in
    let k = parse_clock-range parts.0 {c = c} timed in
    instant-lt d c f (days_from_civil-AtMost d.0 d.1 d.2 r.0 r.1 r.2) k.0 k.1 k.2
      (millis-lt parts.1 {f = f} fraction) h5
