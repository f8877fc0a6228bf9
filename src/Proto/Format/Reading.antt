-- ===== src/Proto/Format/Reading.antt =====
-- The readers of colours take characters from the front: crates/obby-proto/src/format.rs.
use obby_client.Base.{
  ℕ, zero, suc, ◌≤◌, ◌+◌, ◌*◌, ◌-◌, Bool-cases, inl, inr, Option, none, some, [], ◌∷◌, Text, length,
  strip_prefix, bind, is_digit, hex_digit, ◌==◌, arith, if-holds,
}
use obby_client.Proto.Format.{
  Colour, numbered, Style, Read, more_digits, take_digits, take_comma_digits, hex_byte,
  take_hex_triple, hex_of, take_comma_hex_triple, with_background, number_background,
  parse_numbered_colour, parse_hex_colour, Action, push, restyle, action, coloured, emphasised,
  toggled, reset_code, colour_code, hex_colour_code,
}

-- What is left after reading is a tail of what was there.
pub data Tail : Text → Text → Type 0 where
  all : (s : Text) → Tail s s
  later : {r s : Text} (c : ℕ) → Tail r s → Tail r (c ∷ s)

pub Tail-trans : {q r s : Text} → Tail q r → Tail r s → Tail q s
Tail-trans t (all _) = t
Tail-trans t (later c u) = later c (Tail-trans t u)

pub length-Tail : {r s : Text} → Tail r s → length r ≤ length s
length-Tail (all s) = omega arith
length-Tail (later c t) = omega (arith, length-Tail t)

-- Where something was read, the rest is a tail.
abbrev pub LeavesTail : {A : Type 0} → Text → Read A → Type 0
LeavesTail s none = Unit
LeavesTail s (some (a, r)) = Tail r s

bind-LeavesTail :
    {A B : Type 0} (s : Text) (m : Read A) (f : A × Text → Read B)
    → LeavesTail s m
    → ((p : A × Text) → Tail p.1 s → LeavesTail s (f p))
    → LeavesTail s (bind m f)
bind-LeavesTail s none f h k = tt
bind-LeavesTail s (some p) f h k = k p h

weaken : {A : Type 0} {r s : Text} (m : Read A) → Tail r s → LeavesTail r m → LeavesTail s m
weaken none t h = tt
weaken (some p) t h = Tail-trans h t

more_digits-Tail : (n value : ℕ) (s : Text) → Tail (more_digits n value s).1 s
unfolding more_digits
more_digits-Tail zero value s = all s
more_digits-Tail (suc n) value [] = all []
more_digits-Tail (suc n) value (c ∷ s) = elim (Bool-cases (is_digit c)) [
  | inl e ↦ rw e (later c (more_digits-Tail n (value * 10 + (c - b'0')) s))
  | inr e ↦ rw e (all (c ∷ s))
]

take_digits-Tail : (max : ℕ) (s : Text) → LeavesTail s (take_digits max s)
unfolding take_digits
take_digits-Tail max [] = tt
take_digits-Tail max (c ∷ s) = elim (Bool-cases (is_digit c)) [
  | inl e ↦ rw e (more_digits-Tail max 0 (c ∷ s))
  | inr e ↦ rw e tt
]

abbrev Strips : Text → Option Text → Type 0
Strips s none = Unit
Strips s (some r) = Tail r s

strip_prefix-Strips : (c : ℕ) (s : Text) → Strips s (strip_prefix c s)
unfolding strip_prefix
strip_prefix-Strips c [] = tt
strip_prefix-Strips c (x ∷ s) = elim (Bool-cases (x == c)) [
  | inl e ↦ rw e (later x (all s))
  | inr e ↦ rw e tt
]

after_comma :
    {A : Type 0} (s : Text) (o : Option Text) (f : Text → Read A)
    → Strips s o
    → ((r : Text) → LeavesTail r (f r))
    → LeavesTail s (bind o f)
after_comma s none f h k = tt
after_comma s (some r) f h k = weaken (f r) h (k r)

take_comma_digits-Tail : (s : Text) → LeavesTail s (take_comma_digits s)
unfolding take_comma_digits
take_comma_digits-Tail s =
    after_comma s _ (take_digits 2) (strip_prefix-Strips b',' s) (take_digits-Tail 2)

hex_byte-Tail : (s : Text) → LeavesTail s (hex_byte s)
unfolding hex_byte
hex_byte-Tail [] = tt
hex_byte-Tail (h ∷ []) = tt
hex_byte-Tail (h ∷ l ∷ s) = two (hex_digit h) (hex_digit l)
  where
    two :
        (a b : Option ℕ)
        → LeavesTail (h ∷ l ∷ s) (bind a (λ hi. bind b (λ lo. some (hi * 16 + lo, s))))
    two none b = tt
    two (some x) none = tt
    two (some x) (some y) = later h (later l (all s))

take_hex_triple-Tail : (s : Text) → LeavesTail s (take_hex_triple s)
unfolding take_hex_triple
take_hex_triple-Tail s = bind-LeavesTail s (hex_byte s) _ (hex_byte-Tail s) (λ r t.
    bind-LeavesTail s (hex_byte r.1) _ (weaken (hex_byte r.1) t (hex_byte-Tail r.1)) (λ g u.
      bind-LeavesTail s (hex_byte g.1) _ (weaken (hex_byte g.1) u (hex_byte-Tail g.1)) (λ b v. v)))

take_comma_hex_triple-Tail : (s : Text) → LeavesTail s (take_comma_hex_triple s)
unfolding take_comma_hex_triple
take_comma_hex_triple-Tail s =
    after_comma s _ (λ r. bind (take_hex_triple r) (λ t. some (hex_of t.0, t.1)))
      (strip_prefix-Strips b',' s)
      (λ r. bind-LeavesTail r (take_hex_triple r) _ (take_hex_triple-Tail r) (λ t u. u))

with_background-Tail :
    (f : Colour) (s : Text) (m : Read Colour) → LeavesTail s m → Tail (with_background f s m).1 s
unfolding with_background
with_background-Tail f s none h = all s
with_background-Tail f s (some p) h = h

number_background-Tail :
    (s : Text) (m : Read ℕ) → LeavesTail s m → LeavesTail s (number_background m)
unfolding number_background
number_background-Tail s none h = tt
number_background-Tail s (some p) h = h

pub parse_numbered_colour-Tail : (s : Text) → LeavesTail s (parse_numbered_colour s)
unfolding parse_numbered_colour
parse_numbered_colour-Tail s = bind-LeavesTail s (take_digits 2 s) _ (take_digits-Tail 2 s) (λ f t.
    Tail-trans
      (with_background-Tail (numbered f.0) f.1 _
        (number_background-Tail f.1 (take_comma_digits f.1) (take_comma_digits-Tail f.1)))
      t)

pub parse_hex_colour-Tail : (s : Text) → LeavesTail s (parse_hex_colour s)
unfolding parse_hex_colour
parse_hex_colour-Tail s = bind-LeavesTail s (take_hex_triple s) _ (take_hex_triple-Tail s) (λ f t.
    Tail-trans
      (with_background-Tail (hex_of f.0) f.1 (take_comma_hex_triple f.1)
        (take_comma_hex_triple-Tail f.1))
      t)

-- An action that changes the style leaves a tail.
abbrev pub KeepsTail : Text → Action → Type 0
KeepsTail s push = Unit
KeepsTail s (restyle style rest) = Tail rest s

coloured-KeepsTail :
    (style : Style) (s : Text) (m : Read (Colour × Option Colour))
    → LeavesTail s m
    → KeepsTail s (coloured style s m)
unfolding coloured
coloured-KeepsTail style s none h = all s
coloured-KeepsTail style s (some p) h = h

emphasised-KeepsTail :
    (style : Style) (s : Text) (o : Option _) → KeepsTail s (emphasised style s o)
unfolding emphasised
emphasised-KeepsTail style s none = tt
emphasised-KeepsTail style s (some e) = all s

pub action-KeepsTail : (c : ℕ) (style : Style) (s : Text) → KeepsTail s (action c style s)
unfolding action
action-KeepsTail c style s = if-holds (KeepsTail s) (c == reset_code) (all s) (
    if-holds (KeepsTail s) (c == colour_code)
      (coloured-KeepsTail style s _ (parse_numbered_colour-Tail s))
      (if-holds (KeepsTail s) (c == hex_colour_code)
        (coloured-KeepsTail style s _ (parse_hex_colour-Tail s))
        (emphasised-KeepsTail style s (toggled c style.emphasis))))
