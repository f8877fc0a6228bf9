-- ===== src/Tests/Codec.antt =====
-- Base64 as RFC 4648 defines it, and codes of 32 bytes, to stand for the crates that
-- crates/obby-client/src/sasl.rs and scram.rs use.
use obby_client.Base.{
  ℕ, zero, suc, ◌≡◌, ◌+◌, ◌-◌, ◌*◌, ◌/◌, ◌%◌, ◌<◌, ◌<◌, refl, ap, ap₂, true, false, Option, none,
  some, [], ◌∷◌, Text, All, length, ltb, leb, ◌==◌, if◌then◌else◌, arith, Bytes, IsByte,
}
use mathlib.Core.Option
use obby_client.Client.Base64.{Base64, is_base64}
use obby_client.Client.Base64
use obby_client.Client.Scram.{Crypto}
use obby_client.Client.Scram.Enrol

abbrev sextet : ℕ → ℕ
sextet n =
    if ltb n 26
    then n + b'A'
    else if ltb n 52
    then n - 26 + b'a'
    else if ltb n 62
    then n - 52 + b'0'
    else if n == 62
    then b'+'
    else b'/'

abbrev value : ℕ → ℕ
value c =
    if c == b'+'
    then 62
    else if c == b'/'
    then 63
    else if leb b'a' c
    then c - b'a' + 26
    else if leb b'A' c
    then c - b'A'
    else c - b'0' + 52

unfoldable pub encode : Bytes → Text
encode [] = []
encode (a ∷ []) = sextet (a / 4) ∷ sextet (a % 4 * 16) ∷ b'=' ∷ b'=' ∷ []
encode (a ∷ b ∷ []) =
    sextet (a / 4) ∷ sextet (a % 4 * 16 + b / 16) ∷ sextet (b % 16 * 4) ∷ b'=' ∷ []
encode (a ∷ b ∷ c ∷ s) =
    sextet (a / 4)
    ∷ sextet (a % 4 * 16 + b / 16)
    ∷ sextet (b % 16 * 4 + c / 64)
    ∷ sextet (c % 64)
    ∷ encode s

abbrev first_byte : ℕ → ℕ → ℕ
first_byte p q = p * 4 + q / 16

abbrev second_byte : ℕ → ℕ → ℕ
second_byte q r = q % 16 * 16 + r / 4

abbrev third_byte : ℕ → ℕ → ℕ
third_byte r t = r % 4 * 64 + t

unfoldable pub decode : Text → Option Bytes
decode [] = some []
decode (p ∷ q ∷ r ∷ t ∷ s) =
    let rest = decode s in
    if r == b'='
    then some (first_byte (value p) (value q) ∷ [])
    else if t == b'='
    then some (first_byte (value p) (value q) ∷ second_byte (value q) (value r) ∷ [])
    else Option.map
        (λ u.
          first_byte (value p) (value q)
          ∷ second_byte (value q) (value r)
          ∷ third_byte (value r) (value t)
          ∷ u)
        rest
decode _ = none

value-sextet : (n : ℕ) → n < 64 → value (sextet n) ≡ n
value-sextet n h = ground arith

sextet-pad : (n : ℕ) → (sextet n == b'=') ≡ false
sextet-pad n = ground arith

sextet-base64 : (n : ℕ) → n < 64 → is_base64 (sextet n) ≡ true
sextet-base64 n h = ground arith

decode-encode : (payload : Bytes) → All IsByte payload → decode (encode payload) ≡ some payload
unfolding decode encode
decode-encode [] h = refl
decode-encode (a ∷ []) h =
    rw (value-sextet (a / 4) (omega arith), value-sextet (a % 4 * 16) (omega arith))
      (ap some (ap (λ x. x ∷ []) (omega arith)))
decode-encode (a ∷ b ∷ []) h =
    rw
      (
        value-sextet (a / 4) (omega arith),
        value-sextet (a % 4 * 16 + b / 16) (omega arith),
        sextet-pad (b % 16 * 4),
        value-sextet (b % 16 * 4) (omega arith),
      )
      (ap some (ap₂ (λ x y. x ∷ y ∷ []) (omega arith) (omega arith)))
decode-encode (a ∷ b ∷ c ∷ s) h =
    rw
      (
        value-sextet (a / 4) (omega arith),
        value-sextet (a % 4 * 16 + b / 16) (omega arith),
        sextet-pad (b % 16 * 4 + c / 64),
        value-sextet (b % 16 * 4 + c / 64) (omega arith),
        sextet-pad (c % 64),
        value-sextet (c % 64) (omega arith),
        decode-encode s h.1.1.1,
      )
      (ap some (
        ap₂ (λ x (y : Bytes). x ∷ y) (omega arith)
          (ap₂ (λ x (y : Bytes). x ∷ y) (omega arith) (ap (λ x. x ∷ s) (omega arith)))))

length-encode : (payload : Bytes) → length (encode payload) ≡ (length payload + 2) / 3 * 4
unfolding encode
length-encode [] = refl
length-encode (a ∷ []) = refl
length-encode (a ∷ b ∷ []) = refl
length-encode (a ∷ b ∷ c ∷ s) = omega (arith, length-encode s)

encode-alphabet :
    (payload : Bytes) → All IsByte payload → All (λ c. is_base64 c ≡ true) (encode payload)
unfolding encode
encode-alphabet [] h = tt
encode-alphabet (a ∷ []) h = (
  sextet-base64 (a / 4) (omega arith),
  (sextet-base64 (a % 4 * 16) (omega arith), (refl, (refl, tt))),
)
encode-alphabet (a ∷ b ∷ []) h = (
  sextet-base64 (a / 4) (omega arith),
  (
    sextet-base64 (a % 4 * 16 + b / 16) (omega arith),
    (sextet-base64 (b % 16 * 4) (omega arith), (refl, tt)),
  ),
)
encode-alphabet (a ∷ b ∷ c ∷ s) h = (
  sextet-base64 (a / 4) (omega arith),
  (
    sextet-base64 (a % 4 * 16 + b / 16) (omega arith),
    (
      sextet-base64 (b % 16 * 4 + c / 64) (omega arith),
      (sextet-base64 (c % 64) (omega arith), encode-alphabet s h.1.1.1),
    ),
  ),
)

abbrev pub standard : Base64
standard = record { encode = encode; decode = decode }

pub standard-IsLawful : Base64.IsLawful standard
standard-IsLawful = record {
  decode-encode = decode-encode;
  length-encode = length-encode;
  alphabet = encode-alphabet;
}

unfoldable pub total : Bytes → ℕ
total [] = 0
total (b ∷ s) = b + total s

unfoldable pub copies : ℕ → ℕ → Bytes
copies zero b = []
copies (suc n) b = b ∷ copies n b

-- A code that every byte of the key and the message changes.
abbrev code : Bytes → Bytes → Bytes
code key message = copies 32 ((total key * 7 + total message) % 256)

copies-IsByte : (n b : ℕ) → IsByte b → All IsByte (copies n b)
unfolding copies
copies-IsByte zero b h = tt
copies-IsByte (suc n) b h = (h, copies-IsByte n b h)

length-copies : (n b : ℕ) → length (copies n b) ≡ n
unfolding copies
length-copies zero b = refl
length-copies (suc n) b = omega (arith, length-copies n b)

abbrev pub sums : Crypto
sums = record {
  mac = λ key message. some (code key message);
  sha256 = λ s. code [] s;
  base64 = standard;
}

pub sums-IsLawful : Enrol.IsLawful sums
sums-IsLawful = record {
  mac-some =
      λ key message. (code key message, refl, length-copies 32 _, copies-IsByte 32 _ (omega arith));
  base64 = standard-IsLawful;
}
