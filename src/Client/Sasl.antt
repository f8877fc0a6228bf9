-- ===== src/Client/Sasl.antt =====
-- SASL authentication: crates/obby-client/src/sasl.rs.
pub mod Lines
use obby_client.Base.{
  ℕ, zero, suc, ◌≡◌, ◌%◌, ◌++◌, Bool, true, false, Option, none, some, List, [], ◌∷◌, Text, text,
  same, any, split, eq_ignore_ascii_case, length, ◌==◌, if◌then◌else◌, Bytes, as_bytes, chunks,
}
use obby_client.Client.Base64.{Base64}

-- `CHUNK`.
abbrev pub chunk : ℕ
chunk = 400

pub data Credentials : Type 0 where
  plain : (username password : Text) → Credentials
  external : Credentials
  scram : (username password nonce : Text) → Credentials

unfoldable pub mechanism : Credentials → Text
mechanism (plain username password) = text "PLAIN"
mechanism external = text "EXTERNAL"
mechanism (scram username password nonce) = text "SCRAM-SHA-256"

unfoldable pub response : Credentials → Bytes
response (plain username password) = 0 ∷ as_bytes username ++ 0 ∷ as_bytes password
response external = []
response (scram username password nonce) = []

unfoldable pub is_challenge_response : Credentials → Bool
is_challenge_response (scram username password nonce) = true
is_challenge_response _ = false

-- The line that is nothing but a `+`.
abbrev pub plus : Text
plus = b'+' ∷ []

-- What follows an encoding of so many characters.
unfoldable pub closing : ℕ → List Text
closing n = if n % chunk == 0 then plus ∷ [] else []

module _ (base64 : Base64) where
  unfoldable pub encode_response : Bytes → List Text
  unfolding chunks closing
  encode_response [] = plus ∷ []
  encode_response (b ∷ payload) =
      let encoded = base64.encode (b ∷ payload) in chunks chunk encoded ++ closing (length encoded)

  unfoldable pub decode_challenge : Text → Option Bytes
  decode_challenge payload = if same payload plus then some [] else base64.decode payload

unfoldable pub offers : Option Text → Text → Bool
offers none wanted = true
offers (some []) wanted = true
offers (some (c ∷ list)) wanted = any (λ m. eq_ignore_ascii_case m wanted) (split b',' (c ∷ list))

pub data SaslFailure : Type 0 where
  rejected : SaslFailure
  too_long : SaslFailure
  aborted : SaslFailure
  already_authenticated : SaslFailure
  no_shared_mechanism : SaslFailure
  server_not_verified : SaslFailure

pub data SaslState : Type 0 where
  idle : SaslState
  offered : SaslState
  responded : SaslState
  scram_challenged : SaslState
  scram_proved : SaslState
  settled : SaslState

unfoldable pub in_flight : SaslState → Bool
in_flight offered = true
in_flight responded = true
in_flight scram_challenged = true
in_flight scram_proved = true
in_flight _ = false
