-- ===== src/Base/Utf8.antt =====
-- UTF-8, as Rust's `str` converts from and to bytes: `as_bytes` and `core::str::from_utf8`.
use Prim.Native.Nat.{ℕ, zero, suc, ◌+◌, ◌-◌, ◌*◌, ◌/◌, ◌%◌, ◌≤◌, ◌<◌}
use mathlib.Core.Path.{◌≡◌, refl, ap, sym, ◌∙◌, subst}
use mathlib.Core.Logic.{◌⊎◌, inl, inr}
use mathlib.Core.Bool.{Bool, true, false, ◌&&◌, ◌||◌}
use mathlib.Core.Option.{Option, none, some}
use mathlib.Core.List.{List, [], ◌∷◌, ◌++◌, append_assoc}
use native.Mathlib.Omega.{arith}
use mathlib.Core.Option
use obby_client.Base.Tests.{ltb, leb, if◌then◌else◌, bind}
use obby_client.Base.Lists.{length, All, length-append, All-append}
use obby_client.Base.Texts.{Text}

abbrev pub Bytes : Type 0
Bytes = List ℕ

-- The code points that a string can hold: up to 0x10FFFF, the surrogates left out.
abbrev pub IsScalar : ℕ → Type 0
IsScalar c = (c < 55296) ⊎ ((57344 ≤ c) × (c < 1114112))

abbrev pub IsByte : ℕ → Type 0
IsByte b = b < 256

unfoldable pub encode_char : ℕ → Bytes
encode_char c =
    if ltb c 128
    then c ∷ []
    else if ltb c 2048
    then (192 + c / 64) ∷ (128 + c % 64) ∷ []
    else if ltb c 65536
    then (224 + c / 4096) ∷ (128 + c / 64 % 64) ∷ (128 + c % 64) ∷ []
    else (240 + c / 262144) ∷ (128 + c / 4096 % 64) ∷ (128 + c / 64 % 64) ∷ (128 + c % 64) ∷ []

-- `str::as_bytes`.
unfoldable pub as_bytes : Text → Bytes
unfolding encode_char
as_bytes [] = []
as_bytes (c ∷ s) = encode_char c ++ as_bytes s

abbrev pub is_tail : ℕ → Bool
is_tail b = leb 128 b && ltb b 192

-- The value of a sequence of two, three or four bytes, where it is well-formed.
two_bytes : ℕ → Bytes → Option (ℕ × Bytes)
two_bytes a (b ∷ s) = if is_tail b then some ((a - 192) * 64 + (b - 128), s) else none
two_bytes a _ = none

three_bytes : ℕ → Bytes → Option (ℕ × Bytes)
three_bytes a (b ∷ c ∷ s) =
    let value = (a - 224) * 4096 + (b - 128) * 64 + (c - 128) in
    if is_tail b && is_tail c && leb 2048 value && (ltb value 55296 || leb 57344 value)
    then some (value, s)
    else none
three_bytes a _ = none

four_bytes : ℕ → Bytes → Option (ℕ × Bytes)
four_bytes a (b ∷ c ∷ d ∷ s) =
    let value = (a - 240) * 262144 + (b - 128) * 4096 + (c - 128) * 64 + (d - 128) in
    if is_tail b && is_tail c && is_tail d && leb 65536 value && ltb value 1114112
    then some (value, s)
    else none
four_bytes a _ = none

unfoldable pub decode_char : ℕ → Bytes → Option (ℕ × Bytes)
unfolding two_bytes three_bytes four_bytes
decode_char a s =
    if ltb a 128
    then some (a, s)
    else if ltb a 194
    then none
    else if ltb a 224
    then two_bytes a s
    else if ltb a 240
    then three_bytes a s
    else if ltb a 245
    then four_bytes a s
    else none

-- Each round takes a byte, so the number of bytes is fuel enough.
unfoldable pub decode_loop : ℕ → Bytes → Option Text
decode_loop n [] = some []
decode_loop zero (a ∷ s) = none
decode_loop (suc n) (a ∷ s) =
    bind (decode_char a s) (λ r. Option.map (λ t. r.0 ∷ t) (decode_loop n r.1))

-- `core::str::from_utf8`.
unfoldable pub from_utf8 : Bytes → Option Text
unfolding decode_loop
from_utf8 s = decode_loop (length s) s

decode_char-one : (c : ℕ) (s : Bytes) → c < 128 → decode_char c s ≡ some (c, s)
unfolding decode_char
decode_char-one c s h = ground arith

decode_char-two :
    (c : ℕ) (s : Bytes)
    → 128 ≤ c
    → c < 2048
    → decode_char (192 + c / 64) ((128 + c % 64) ∷ s) ≡ some (c, s)
unfolding decode_char two_bytes
decode_char-two c s h k = ground arith

decode_char-three :
    (c : ℕ) (s : Bytes)
    → 2048 ≤ c
    → c < 65536
    → IsScalar c
    → decode_char (224 + c / 4096) ((128 + c / 64 % 64) ∷ (128 + c % 64) ∷ s) ≡ some (c, s)
unfolding decode_char three_bytes
decode_char-three c s h k v = ground arith

decode_char-four :
    (c : ℕ) (s : Bytes)
    → 65536 ≤ c
    → c < 1114112
    → decode_char
        (240 + c / 262144)
        ((128 + c / 4096 % 64) ∷ (128 + c / 64 % 64) ∷ (128 + c % 64) ∷ s)
      ≡ some (c, s)
unfolding decode_char four_bytes
decode_char-four c s h k = ground arith

ltb-true : (a b : ℕ) → a < b → ltb a b ≡ true
ltb-true a b h = ground arith

ltb-false : (a b : ℕ) → b ≤ a → ltb a b ≡ false
ltb-false a b h = ground arith

-- How many bytes a character takes.
size_of :
    (c : ℕ) → ((c < 128) ⊎ ((128 ≤ c) × (c < 2048))) ⊎ (((2048 ≤ c) × (c < 65536)) ⊎ (65536 ≤ c))
size_of c = ground arith

scalar_max : (c : ℕ) → IsScalar c → c < 1114112
scalar_max c (inl h) = omega arith
scalar_max c (inr h) = h.1

decode_loop-step :
    (n a c : ℕ) (r s : Bytes)
    → decode_char a r ≡ some (c, s)
    → decode_loop (suc n) (a ∷ r) ≡ Option.map (λ t. c ∷ t) (decode_loop n s)
unfolding decode_loop
decode_loop-step n a c r s h = rw h refl

decode_loop-char :
    (n c : ℕ) (s : Bytes)
    → IsScalar c
    → decode_loop (suc n) (encode_char c ++ s) ≡ Option.map (λ t. c ∷ t) (decode_loop n s)
unfolding encode_char
decode_loop-char n c s h = elim (size_of c) [
  | inl (inl k) ↦ rw (ltb-true c 128 k) (decode_loop-step n c c s s (decode_char-one c s k))
  | inl (inr (k, l)) ↦
      rw (ltb-false c 128 k, ltb-true c 2048 l)
        (decode_loop-step n (192 + c / 64) c ((128 + c % 64) ∷ s) s (decode_char-two c s k l))
  | inr (inl (k, l)) ↦
      rw (ltb-false c 128 (omega arith), ltb-false c 2048 k, ltb-true c 65536 l)
        (decode_loop-step n (224 + c / 4096) c ((128 + c / 64 % 64) ∷ (128 + c % 64) ∷ s) s
          (decode_char-three c s k l h))
  | inr (inr k) ↦
      rw (ltb-false c 128 (omega arith), ltb-false c 2048 (omega arith), ltb-false c 65536 k)
        (decode_loop-step n (240 + c / 262144) c
          ((128 + c / 4096 % 64) ∷ (128 + c / 64 % 64) ∷ (128 + c % 64) ∷ s) s
          (decode_char-four c s k (scalar_max c h)))
]

length-encode_char : (c : ℕ) → 1 ≤ length (encode_char c)
unfolding encode_char
length-encode_char c = ground arith

length-as_bytes : (s : Text) → length s ≤ length (as_bytes s)
unfolding as_bytes
length-as_bytes [] = omega arith
length-as_bytes (c ∷ s) =
    omega
      (arith, length-append (encode_char c) (as_bytes s), length-encode_char c, length-as_bytes s)

decode_loop-as_bytes :
    (n : ℕ) (s : Text) → length s ≤ n → All IsScalar s → decode_loop n (as_bytes s) ≡ some s
unfolding as_bytes
decode_loop-as_bytes zero [] l h = unfold decode_loop in refl
decode_loop-as_bytes (suc n) [] l h = unfold decode_loop in refl
decode_loop-as_bytes zero (c ∷ s) l h = absurd (omega arith)
decode_loop-as_bytes (suc n) (c ∷ s) l h =
    decode_loop-char n c (as_bytes s) h.0
    ∙ ap (Option.map (λ t. c ∷ t)) (decode_loop-as_bytes n s (omega arith) h.1)

-- Bytes made from a string give the string back.
pub from_utf8-as_bytes : (s : Text) → All IsScalar s → from_utf8 (as_bytes s) ≡ some s
unfolding from_utf8
from_utf8-as_bytes s h = decode_loop-as_bytes (length (as_bytes s)) s (length-as_bytes s) h

pub as_bytes-append : (s t : Text) → as_bytes (s ++ t) ≡ as_bytes s ++ as_bytes t
unfolding as_bytes
as_bytes-append [] t = refl
as_bytes-append (c ∷ s) t =
    rw (as_bytes-append s t) (sym (append_assoc (encode_char c) (as_bytes s) (as_bytes t)))

encode_char-IsByte : (c : ℕ) → c < 1114112 → All IsByte (encode_char c)
unfolding encode_char
encode_char-IsByte c h = ground arith

-- All that `as_bytes` gives are bytes.
pub as_bytes-IsByte : (s : Text) → All IsScalar s → All IsByte (as_bytes s)
unfolding as_bytes
as_bytes-IsByte [] h = tt
as_bytes-IsByte (c ∷ s) h =
    All-append IsByte (encode_char c) (as_bytes s) (encode_char-IsByte c (scalar_max c h.0))
      (as_bytes-IsByte s h.1)

-- What was read, if anything, is a code point of a string.
abbrev Yields : Option (ℕ × Bytes) → Type 0
Yields none = Unit
Yields (some r) = IsScalar r.0

two_bytes-Yields : (a : ℕ) (s : Bytes) → a < 224 → Yields (two_bytes a s)
unfolding two_bytes
two_bytes-Yields a [] h = tt
two_bytes-Yields a (b ∷ s) h = ground arith

three_bytes-Yields : (a : ℕ) (s : Bytes) → a < 240 → Yields (three_bytes a s)
unfolding three_bytes
three_bytes-Yields a [] h = tt
three_bytes-Yields a (b ∷ []) h = tt
three_bytes-Yields a (b ∷ c ∷ s) h = ground arith

four_bytes-Yields : (a : ℕ) (s : Bytes) → Yields (four_bytes a s)
unfolding four_bytes
four_bytes-Yields a [] = tt
four_bytes-Yields a (b ∷ []) = tt
four_bytes-Yields a (b ∷ c ∷ []) = tt
four_bytes-Yields a (b ∷ c ∷ d ∷ s) = ground arith

decode_char-Yields : (a : ℕ) (s : Bytes) → Yields (decode_char a s)
unfolding decode_char
decode_char-Yields a s =
    ground (arith, two_bytes-Yields a s, three_bytes-Yields a s, four_bytes-Yields a s)

abbrev YieldsAll : Option Text → Type 0
YieldsAll none = Unit
YieldsAll (some t) = All IsScalar t

cons-YieldsAll :
    (c : ℕ) (o : Option Text) → IsScalar c → YieldsAll o → YieldsAll (Option.map (λ t. c ∷ t) o)
cons-YieldsAll c none h k = tt
cons-YieldsAll c (some t) h k = (h, k)

bind-YieldsAll :
    (o : Option (ℕ × Bytes)) (f : Bytes → Option Text)
    → Yields o
    → ((s : Bytes) → YieldsAll (f s))
    → YieldsAll (bind o (λ r. Option.map (λ t. r.0 ∷ t) (f r.1)))
bind-YieldsAll none f h k = tt
bind-YieldsAll (some r) f h k = cons-YieldsAll r.0 (f r.1) h (k r.1)

decode_loop-YieldsAll : (n : ℕ) (s : Bytes) → YieldsAll (decode_loop n s)
unfolding decode_loop
decode_loop-YieldsAll zero [] = tt
decode_loop-YieldsAll (suc n) [] = tt
decode_loop-YieldsAll zero (a ∷ s) = tt
decode_loop-YieldsAll (suc n) (a ∷ s) =
    bind-YieldsAll (decode_char a s) (decode_loop n) (decode_char-Yields a s)
      (decode_loop-YieldsAll n)

-- What is read is a string.
pub from_utf8-IsScalar : (s : Bytes) {t : Text} → from_utf8 s ≡ some t → All IsScalar t
unfolding from_utf8
from_utf8-IsScalar s h = subst YieldsAll h (decode_loop-YieldsAll (length s) s)
