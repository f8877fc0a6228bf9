-- ===== src/Proto/ServerTime/RoundTrip.antt =====
-- `parse` reads back what `format` writes.
use obby_client.Base.{
  ℕ, ◌+◌, ◌*◌, ◌/◌, ◌%◌, ◌≤◌, ◌<◌, ◌≡◌, refl, ap, ◌∙◌, Option, some, [], ◌∷◌, ◌++◌, Text, Lacks,
  split, split-append, split-Lacks, split_once, split_once-append, bind, arith, take, u16_limit,
  u32_limit, u64_limit, unwrap_or, text, pos,
}
use obby_client.Base.{strip_suffix}
use obby_client.Proto.ServerTime.{
  i64_limit, parse_date, parse_clock, millis_from_fraction, instant, parse, fixed, format,
}
use obby_client.Proto.ServerTime.Civil.{
  days_from_civil, civil_from_days, days_from_civil-civil_from_days, civil_from_days-IsCivil,
  civil_from_days-year,
}
use obby_client.Proto.ServerTime.Print.{
  parse-fixed_two, parse-fixed_three, parse-fixed_four, padded-fixed, Digits-two, Digits-three,
  Digits-four, Lacks-Digits, no_other,
}

date_text : ℕ → ℕ → ℕ → Text
date_text y m d = fixed 4 y ++ (b'-' ∷ (fixed 2 m ++ (b'-' ∷ fixed 2 d)))

clock_text : ℕ → ℕ → ℕ → Text
clock_text h m s = fixed 2 h ++ (b':' ∷ (fixed 2 m ++ (b':' ∷ fixed 2 s)))

time_text : ℕ → ℕ → ℕ → ℕ → Text
time_text h m s f = clock_text h m s ++ (b'.' ∷ fixed 3 f)

split_three :
    (c : ℕ) (x y z : Text)
    → Lacks c x
    → Lacks c y
    → Lacks c z
    → split c (x ++ (c ∷ (y ++ (c ∷ z)))) ≡ x ∷ y ∷ z ∷ []
split_three c x y z h k l =
    split-append c x _ h
    ∙ ap (λ ps. x ∷ ps) (split-append c y z k ∙ ap (λ ps. y ∷ ps) (split-Lacks c z l))

parse_date-date_text :
    (y m d : ℕ)
    → (1 ≤ y) × (y ≤ 9999)
    → (1 ≤ m) × (m ≤ 12)
    → (1 ≤ d) × (d ≤ 31)
    → parse_date (date_text y m d) ≡ some (y, m, d)
unfolding parse_date date_text
parse_date-date_text y m d h k l =
    rw
      (split_three b'-' (fixed 4 y) (fixed 2 m) (fixed 2 d)
        (Lacks-Digits b'-' _ refl (Digits-four y)) (Lacks-Digits b'-' _ refl (Digits-two m))
        (Lacks-Digits b'-' _ refl (Digits-two d)))
      (rw
        (
          parse-fixed_four i64_limit y (omega arith) (omega arith),
          parse-fixed_two u32_limit m (omega arith) (omega arith),
          parse-fixed_two u32_limit d (omega arith) (omega arith),
        )
        (ground arith))

parse_clock-clock_text :
    (h m s : ℕ) → h ≤ 23 → m ≤ 59 → s ≤ 60 → parse_clock (clock_text h m s) ≡ some (h, m, s)
unfolding parse_clock clock_text
parse_clock-clock_text h m s p q r =
    rw
      (split_three b':' (fixed 2 h) (fixed 2 m) (fixed 2 s)
        (Lacks-Digits b':' _ refl (Digits-two h)) (Lacks-Digits b':' _ refl (Digits-two m))
        (Lacks-Digits b':' _ refl (Digits-two s)))
      (rw
        (
          parse-fixed_two u64_limit h (omega arith) (omega arith),
          parse-fixed_two u64_limit m (omega arith) (omega arith),
          parse-fixed_two u64_limit s (omega arith) (omega arith),
        )
        (ground arith))

take_three : (n : ℕ) → take 3 (fixed 3 n) ≡ fixed 3 n
unfolding fixed
take_three n = refl

millis-fixed : (f : ℕ) → f < 1000 → millis_from_fraction (fixed 3 f) ≡ some f
unfolding millis_from_fraction
millis-fixed f h =
    rw (no_other (fixed 3 f) (Digits-three f), take_three f)
      (rw (parse-fixed_three u16_limit f (omega arith) h) (unfold fixed in refl))

strip_suffix-append : (c : ℕ) (s : Text) → strip_suffix c (s ++ c ∷ []) ≡ some s
unfolding strip_suffix
strip_suffix-append c [] = ground arith
strip_suffix-append c (x ∷ []) = ground arith
strip_suffix-append c (x ∷ y ∷ s) = rw (strip_suffix-append c (y ∷ s))

Lacks-date : (y m d : ℕ) → Lacks b'T' (date_text y m d)
unfolding date_text fixed
Lacks-date y m d = omega arith

Lacks-clock : (h m s : ℕ) → Lacks b'.' (clock_text h m s)
unfolding clock_text fixed
Lacks-clock h m s = omega arith

instant-epoch :
    (days h m s f : ℕ) (d : ℕ × ℕ × ℕ)
    → days_from_civil d.0 d.1 d.2 ≡ pos days
    → instant d (h, m, s) f ≡ some ((days * 86400 + (h * 3600 + m * 60 + s)) * 1000 + f)
unfolding instant
instant-epoch days h m s f d e = rw e

-- What `parse` does behind the date.
parse_time : Text → ℕ × ℕ × ℕ → Option ℕ
parse_time time d =
    let parts = unwrap_or (split_once b'.' time) (time, text "0") in
    bind (parse_clock parts.0) (λ c. bind (millis_from_fraction parts.1) (instant d c))

parse_time-time_text :
    (h m s f days : ℕ) (d : ℕ × ℕ × ℕ)
    → h ≤ 23
    → m ≤ 59
    → s ≤ 60
    → f < 1000
    → days_from_civil d.0 d.1 d.2 ≡ pos days
    → parse_time (time_text h m s f) d ≡ some ((days * 86400 + (h * 3600 + m * 60 + s)) * 1000 + f)
unfolding parse_time time_text
parse_time-time_text h m s f days d p q r t e =
    rw
      (
        split_once-append b'.' (clock_text h m s) (fixed 3 f) (Lacks-clock h m s),
        parse_clock-clock_text h m s p q r,
        millis-fixed f t,
      )
      (instant-epoch days h m s f d e)

-- The text of an instant, before the year 10000.
format-text :
    (ms : ℕ)
    → ms < 253402300800000
    → format ms ≡ (
        let t = ms / 1000 % 86400 in
        let c = civil_from_days (ms / 1000 / 86400) in
        date_text c.0 c.1 c.2
        ++ (b'T' ∷ (time_text (t / 3600) (t / 60 % 60) (t % 60) (ms % 1000) ++ (b'Z' ∷ []))))
unfolding format date_text clock_text time_text fixed
format-text ms h =
    let days = ms / 1000 / 86400 in
    let t = ms / 1000 % 86400 in
    let c = civil_from_days days in
    let w = civil_from_days-IsCivil days in
    let y = civil_from_days-year days (omega arith) in
    let l = w.month_le in
    let e = w.day_le in
    rw (
      padded-fixed 4 c.0 (omega arith),
      padded-fixed 2 c.1 (omega arith),
      padded-fixed 2 c.2 (omega arith),
      padded-fixed 2 (t / 3600) (omega arith),
      padded-fixed 2 (t / 60 % 60) (omega arith),
      padded-fixed 2 (t % 60) (omega arith),
      padded-fixed 3 (ms % 1000) (omega arith),
    )

-- Reading back the text of an instant gives the instant, to the millisecond, up to the last one
-- of the year 9999.
pub parse-format : (ms : ℕ) → ms < 253402300800000 → parse (format ms) ≡ some ms
unfolding parse parse_time
parse-format ms h =
    let days = ms / 1000 / 86400 in
    let t = ms / 1000 % 86400 in
    let c = civil_from_days days in
    let w = civil_from_days-IsCivil days in
    let y = civil_from_days-year days (omega arith) in
    let time = time_text (t / 3600) (t / 60 % 60) (t % 60) (ms % 1000) in
    rw
      (
        format-text ms h,
        split_once-append b'T' (date_text c.0 c.1 c.2) (time ++ (b'Z' ∷ []))
            (Lacks-date c.0 c.1 c.2),
        strip_suffix-append b'Z' time,
        parse_date-date_text c.0 c.1 c.2 y (w.month_pos, w.month_le) (w.day_pos, w.day_le),
      )
      (parse_time-time_text (t / 3600) (t / 60 % 60) (t % 60) (ms % 1000) days c (omega arith)
          (omega arith) (omega arith) (omega arith) (days_from_civil-civil_from_days days)
        ∙ ap some (omega arith))
