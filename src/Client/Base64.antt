-- ===== src/Client/Base64.antt =====
-- The base64 crate, as crates/obby-client/src/sasl.rs and scram.rs use its STANDARD engine. The
-- crate is not part of the repository: its two functions are parameters, with what its
-- documentation promises as laws.
use obby_client.Base.{
  ℕ, ◌≡◌, ◌+◌, ◌*◌, ◌/◌, Bool, ◌||◌, ◌&&◌, true, Option, some, ◌==◌, leb, is_digit, Text, length,
  All, Bytes, IsByte,
}

pub record Base64 : Type 0 where
  pub encode : Bytes → Text
  pub decode : Text → Option Bytes

-- The characters of the encoding, the padding included.
abbrev pub is_base64 : ℕ → Bool
is_base64 c =
    is_digit c
    || (leb b'A' c && leb c b'Z')
    || (leb b'a' c && leb c b'z')
    || c == b'+'
    || c == b'/'
    || c == b'='

pub record IsLawful (b : Base64) : Type 0 where
  -- What was encoded is decoded.
  pub decode-encode :
      (payload : Bytes) → All IsByte payload → b.decode (b.encode payload) ≡ some payload
  -- Each group of three bytes, also one that is not full, takes four characters.
  pub length-encode : (payload : Bytes) → length (b.encode payload) ≡ (length payload + 2) / 3 * 4
  pub alphabet :
      (payload : Bytes) → All IsByte payload → All (λ c. is_base64 c ≡ true) (b.encode payload)
