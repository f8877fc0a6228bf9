-- ===== src/Proto/ServerTime/Print.antt =====
-- Numbers printed with a width are read back, and hold digits only.
use obby_client.Base.{
  ℕ, ◌+◌, ◌-◌, ◌*◌, ◌/◌, ◌%◌, ◌^◌, ◌≤◌, ◌<◌, ◌≡◌, refl, ap, ◌∙◌, false, not, some, [], ◌∷◌, Text,
  Lacks, All, any, arith, zero, suc, ◌++◌, sym, append_assoc, append-nil, All-append, if-holds,
  if◌then◌else◌, length, length-append, ltb, ◌==◌, Bool-cases, inl, inr, digits_nonempty, is_digit,
  parse_digits, parse_unsigned,
}
use obby_client.Proto.ServerTime.{fixed, padded, decimal_fuel, decimal}

-- A digit, read behind the digits before it.
parse_digits-digit :
    (limit acc d : ℕ) (s : Text)
    → d < 10
    → acc * 10 + d < limit
    → parse_digits limit acc ((d + b'0') ∷ s) ≡ parse_digits limit (acc * 10 + d) s
unfolding parse_digits
parse_digits-digit limit acc d s h k =
    let e : d + b'0' - b'0' ≡ d = omega arith in rw e (ground arith)

parse_digits-nil : (limit n m : ℕ) → n ≡ m → parse_digits limit n [] ≡ some m
unfolding parse_digits
parse_digits-nil limit n m h = ap some h

parse_unsigned-digit :
    (limit d : ℕ) (s : Text)
    → d < 10
    → parse_unsigned limit ((d + b'0') ∷ s) ≡ parse_digits limit 0 ((d + b'0') ∷ s)
unfolding parse_unsigned
parse_unsigned-digit limit d s h = ground arith

module _ (limit n : ℕ) (room : 10000 ≤ limit) where
  pub parse-fixed_two : n < 100 → parse_unsigned limit (fixed 2 n) ≡ some n
  unfolding fixed
  parse-fixed_two h =
      parse_unsigned-digit limit (n / 10 % 10) _ (omega arith)
      ∙ parse_digits-digit limit 0 (n / 10 % 10) _ (omega arith) (omega arith)
      ∙ parse_digits-digit limit _ (n % 10) [] (omega arith) (omega arith)
      ∙ parse_digits-nil limit _ n (omega arith)

  pub parse-fixed_three : n < 1000 → parse_unsigned limit (fixed 3 n) ≡ some n
  unfolding fixed
  parse-fixed_three h =
      parse_unsigned-digit limit (n / 10 / 10 % 10) _ (omega arith)
      ∙ parse_digits-digit limit 0 (n / 10 / 10 % 10) _ (omega arith) (omega arith)
      ∙ parse_digits-digit limit _ (n / 10 % 10) _ (omega arith) (omega arith)
      ∙ parse_digits-digit limit _ (n % 10) [] (omega arith) (omega arith)
      ∙ parse_digits-nil limit _ n (omega arith)

  pub parse-fixed_four : n < 10000 → parse_unsigned limit (fixed 4 n) ≡ some n
  unfolding fixed
  parse-fixed_four h =
      parse_unsigned-digit limit (n / 10 / 10 / 10 % 10) _ (omega arith)
      ∙ parse_digits-digit limit 0 (n / 10 / 10 / 10 % 10) _ (omega arith) (omega arith)
      ∙ parse_digits-digit limit _ (n / 10 / 10 % 10) _ (omega arith) (omega arith)
      ∙ parse_digits-digit limit _ (n / 10 % 10) _ (omega arith) (omega arith)
      ∙ parse_digits-digit limit _ (n % 10) [] (omega arith) (omega arith)
      ∙ parse_digits-nil limit _ n (omega arith)

abbrev pub Digits : Text → Type 0
Digits s = All (λ c. (b'0' ≤ c) × (c ≤ b'9')) s

-- The digits of a number in front of others, read from nothing.
parse_digits-decimal :
    (limit fuel n : ℕ) (s : Text)
    → n < fuel
    → n < limit
    → parse_digits limit 0 (decimal_fuel fuel n ++ s) ≡ parse_digits limit n s
unfolding decimal_fuel
parse_digits-decimal limit zero n s h k = absurd (omega arith)
parse_digits-decimal limit (suc fuel) n s h k = elim (Bool-cases (ltb n 10)) [
  | inl e ↦
      let d : n % 10 ≡ n = ground arith in
      let start : 0 * 10 + n ≡ n = omega arith in
      rw (e, d)
        (parse_digits-digit limit 0 n s (ground arith) (omega arith)
          ∙ ap (λ x. parse_digits limit x s) start)
  | inr e ↦
      let back : n / 10 * 10 + n % 10 ≡ n = omega arith in
      rw e (
        ap (parse_digits limit 0) (append_assoc (decimal_fuel fuel (n / 10)) _ s)
        ∙ parse_digits-decimal limit fuel (n / 10) _ (ground arith) (ground arith)
        ∙ parse_digits-digit limit (n / 10) (n % 10) s (omega arith) (omega arith)
        ∙ ap (λ x. parse_digits limit x s) back)
]

decimal_fuel-Digits : (fuel n : ℕ) → Digits (decimal_fuel fuel n)
unfolding decimal_fuel
decimal_fuel-Digits zero n = tt
decimal_fuel-Digits (suc fuel) n =
    All-append _ (if ltb n 10 then [] else decimal_fuel fuel (n / 10)) ((n % 10 + b'0') ∷ [])
      (if-holds Digits (ltb n 10) tt (decimal_fuel-Digits fuel (n / 10))) (omega arith)

decimal_fuel-some : (n : ℕ) → 1 ≤ length (decimal_fuel (n + 1) n)
unfolding decimal_fuel
decimal_fuel-some n = some_digit (n + 1) (omega arith)
  where
    some_digit : (fuel : ℕ) → 1 ≤ fuel → 1 ≤ length (decimal_fuel fuel n)
    some_digit zero h = absurd (omega arith)
    some_digit (suc fuel) h = omega (
      arith,
      length-append (if ltb n 10 then [] else decimal_fuel fuel (n / 10)) ((n % 10 + b'0') ∷ []),
    )

parse_unsigned-Digits :
    (limit : ℕ) (s : Text)
    → Digits s
    → 1 ≤ length s
    → parse_unsigned limit s ≡ parse_digits limit 0 s
unfolding parse_unsigned digits_nonempty
parse_unsigned-Digits limit [] d h = absurd (omega arith)
parse_unsigned-Digits limit (c ∷ s) d h =
    let n : (c == b'+') ≡ false = ground (arith, d.0) in rw n refl

-- A number below the limit of its type is read back from its digits.
pub parse-decimal : (limit n : ℕ) → n < limit → parse_unsigned limit (decimal n) ≡ some n
unfolding decimal
parse-decimal limit n h =
    parse_unsigned-Digits limit (decimal_fuel (n + 1) n) (decimal_fuel-Digits (n + 1) n)
      (decimal_fuel-some n)
    ∙ ap (parse_digits limit 0) (sym (append-nil (decimal_fuel (n + 1) n)))
    ∙ parse_digits-decimal limit (n + 1) n [] (omega arith) h
    ∙ parse_digits-nil limit n n refl

-- Where the number fits its width it is printed with exactly that many digits.
pub padded-fixed : (width n : ℕ) → n < 10 ^ width → padded width n ≡ fixed width n
unfolding padded
padded-fixed width n h = ground arith

pub Digits-two : (n : ℕ) → Digits (fixed 2 n)
unfolding fixed
Digits-two n = omega arith

pub Digits-three : (n : ℕ) → Digits (fixed 3 n)
unfolding fixed
Digits-three n = omega arith

pub Digits-four : (n : ℕ) → Digits (fixed 4 n)
unfolding fixed
Digits-four n = omega arith

pub Lacks-Digits : (c : ℕ) (s : Text) → is_digit c ≡ false → Digits s → Lacks c s
Lacks-Digits c [] h d = tt
Lacks-Digits c (x ∷ s) h d = (ground arith, Lacks-Digits c s h d.1)

pub no_other : (s : Text) → Digits s → any (λ b. not (is_digit b)) s ≡ false
unfolding any
no_other [] d = refl
no_other (x ∷ s) d = ground (arith, no_other s d.1)
