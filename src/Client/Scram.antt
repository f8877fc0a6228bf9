-- ===== src/Client/Scram.antt =====
-- SCRAM-SHA-256: crates/obby-client/src/scram.rs.
pub mod Equality
pub mod Fields
pub mod Answers
pub mod Enrol
pub mod Server
use obby_client.Base.{
  ℕ, zero, suc, ◌≡◌, ◌-◌, ◌++◌, Bool, true, false, not, ◌&&◌, ◌||◌, Option, none, some, List, [],
  ◌∷◌, Text, text, same, split, strip_prefix, length, ◌==◌, leb, ltb, if◌then◌else◌, Bytes,
  as_bytes, from_utf8, take, retain, is_digit, is_nil, parse_unsigned, u32_limit, bind, bit_xor,
  bit_or, or_else,
}
use obby_client.Client.Base64.{Base64}

-- `NONCE_LEN`.
abbrev pub nonce_len : ℕ
nonce_len = 24

abbrev pub max_iterations : ℕ
max_iterations = 1000000

pub data ScramError : Type 0 where
  malformed : ScramError
  nonce_mismatch : ScramError
  too_many_iterations : ScramError
  bad_salt : ScramError
  server_proof_invalid : ScramError

-- `Result<T, ScramError>`.
pub data Result (A : Type 0) : Type 0 where
  ok : A → Result A
  err : ScramError → Result A

-- The crates that compute digests, with base64.
pub record Crypto : Type 0 where
  -- `None` where the length of the key is rejected.
  pub mac : Bytes → Bytes → Option Bytes
  pub sha256 : Bytes → Bytes
  pub base64 : Base64

pub record Scram : Type 0 where
  pub client_first_bare : Text
  pub client_nonce : Text
  pub password : Text
  pub server_key : Option Bytes
  pub auth_message : Option Text

abbrev is_alphanumeric : ℕ → Bool
is_alphanumeric c = is_digit c || (leb b'A' c && leb c b'Z') || (leb b'a' c && leb c b'z')

unfoldable pub or_zero : Text → Text
or_zero [] = text "0"
or_zero (c ∷ s) = c ∷ s

unfoldable pub sanitise_nonce : Text → Text
unfolding or_zero
sanitise_nonce nonce = or_zero (take nonce_len (retain is_alphanumeric nonce))

-- `str::replace` of a character.
unfoldable pub replace : ℕ → Text → Text → Text
replace c by [] = []
replace c by (x ∷ s) = (if x == c then by else x ∷ []) ++ replace c by s

unfoldable pub saslprep : Text → Text
unfolding replace
saslprep username = replace b',' (text "=2C") (replace b'=' (text "=3D") username)

-- The key and its `=` taken off the front of a part.
unfoldable pub strip_key : ℕ → Text → Option Text
strip_key key part = bind (strip_prefix key part) (strip_prefix b'=')

-- `Iterator::find_map` over the parts.
unfoldable pub find_field : ℕ → List Text → Option Text
find_field key [] = none
find_field key (p ∷ ps) = or_else (strip_key key p) (find_field key ps)

unfoldable pub field : Text → ℕ → Option Text
unfolding find_field
field message key = find_field key (split b',' message)

-- The fold of the differences of two lists, up to the end of the shorter.
unfoldable pub difference : ℕ → Bytes → Bytes → ℕ
difference d (x ∷ a) (y ∷ b) = difference (bit_or d (bit_xor x y)) a b
difference d _ _ = d

unfoldable pub constant_time_eq : Bytes → Bytes → Bool
unfolding difference
constant_time_eq a b = if length a == length b then difference 0 a b == 0 else false

-- `zip` and `^`, which ends with the shorter list.
unfoldable pub xor_zip : Bytes → Bytes → Bytes
xor_zip (x ∷ a) (y ∷ b) = bit_xor x y ∷ xor_zip a b
xor_zip _ _ = []

-- The loop with `iter_mut`, which leaves what is beyond the shorter list.
unfoldable pub xor_into : Bytes → Bytes → Bytes
xor_into (x ∷ a) (y ∷ b) = bit_xor x y ∷ xor_into a b
xor_into a _ = a

unfoldable pub starts_with : Text → Text → Bool
starts_with s [] = true
starts_with [] (c ∷ p) = false
starts_with (x ∷ s) (c ∷ p) = x == c && starts_with s p

-- `Result::and_then`, which is also the `?` operator.
abbrev pub and_then : {A B : Type 0} → Result A → (A → Result B) → Result B
and_then (err reason) next = err reason
and_then (ok value) next = next value

infixl 5 ◌>>=◌
abbrev pub ◌>>=◌ : {A B : Type 0} → Result A → (A → Result B) → Result B
◌>>=◌ = and_then

abbrev pub ok_or : {A : Type 0} → Option A → ScramError → Result A
ok_or none e = err e
ok_or (some a) e = ok a

-- An early return where the test holds.
abbrev pub reject_if : Bool → ScramError → Result (Unit {0})
reject_if true e = err e
reject_if false e = ok tt

unfoldable pub new : Text → Text → Text → Scram
new username password nonce =
    let client_nonce = sanitise_nonce nonce in
    record {
      client_first_bare = text "n=" ++ saslprep username ++ text ",r=" ++ client_nonce;
      client_nonce = client_nonce;
      password = password;
      server_key = none;
      auth_message = none;
    }

unfoldable pub client_first : Scram → Bytes
client_first s = as_bytes (text "n,," ++ s.client_first_bare)

-- The message of the server, once its fields have passed the checks.
pub record ServerFirst : Type 0 where
  pub message : Text
  pub nonce : Text
  pub salt : Bytes
  pub iterations : ℕ

pub record Keys : Type 0 where
  pub client_key : Bytes
  pub stored_key : Bytes
  pub server_key : Bytes

unfoldable pub extends_nonce : Text → Text → Bool
unfolding starts_with same
extends_nonce nonce client_nonce = starts_with nonce client_nonce && not (same nonce client_nonce)

unfoldable pub is_countable : ℕ → Bool
is_countable iterations = not (iterations == 0 || ltb max_iterations iterations)

unfoldable pub final_bare : ServerFirst → Text
final_bare first = text "c=biws,r=" ++ first.nonce

unfoldable pub auth_message_of : Scram → ServerFirst → Text
unfolding final_bare
auth_message_of s first = s.client_first_bare ++ b',' ∷ first.message ++ b',' ∷ final_bare first

-- The keys of a message that passed.
pub record Derived : Type 0 where
  pub first : ServerFirst
  pub keys : Keys

module _ (crypto : Crypto) where
  -- The rounds after the first; the count of rounds left falls.
  unfoldable pub hi_loop : ℕ → Bytes → Bytes → Bytes → Option Bytes
  hi_loop zero password previous result = some result
  hi_loop (suc n) password previous result =
      bind (crypto.mac password previous)
        (λ round. hi_loop n password round (xor_into result round))

  unfoldable pub hi : Bytes → Bytes → ℕ → Option Bytes
  unfolding hi_loop
  hi password salt iterations =
      bind (crypto.mac password (salt ++ 0 ∷ 0 ∷ 0 ∷ 1 ∷ []))
        (λ first. hi_loop (iterations - 1) password first first)

  -- `client_final`, up to the decoding of the salt.
  unfoldable pub read_server_first : Text → Bytes → Result ServerFirst
  read_server_first client_nonce server_first = do
    message ← ok_or (from_utf8 server_first) malformed
    nonce ← ok_or (field message b'r') malformed
    salt ← ok_or (field message b's') malformed
    count ← ok_or (field message b'i') malformed
    iterations ← ok_or (parse_unsigned u32_limit count) malformed
    _ ← reject_if (not (extends_nonce nonce client_nonce)) nonce_mismatch
    _ ← reject_if (not (is_countable iterations)) too_many_iterations
    decoded ← ok_or (crypto.base64.decode salt) bad_salt
    ok (record { message = message; nonce = nonce; salt = decoded; iterations = iterations })

  unfoldable pub derive : Text → ServerFirst → Result Keys
  unfolding hi
  derive password first = do
    salted ← ok_or (hi (as_bytes password) first.salt first.iterations) malformed
    client_key ← ok_or (crypto.mac salted (as_bytes (text "Client Key"))) malformed
    server_key ← ok_or (crypto.mac salted (as_bytes (text "Server Key"))) malformed
    ok (record {
      client_key = client_key;
      stored_key = crypto.sha256 client_key;
      server_key = server_key;
    })

  unfoldable pub signed : Scram → ServerFirst → Keys → Option Bytes → Scram × Result Bytes
  unfolding final_bare auth_message_of xor_zip
  signed s first keys none = (s, err malformed)
  signed s first keys (some signature) = (
    record s { auth_message = some (auth_message_of s first) },
    ok (
        as_bytes (
          final_bare first
          ++ text ",p="
          ++ crypto.base64.encode (xor_zip keys.client_key signature))),
  )

  -- The server's key is kept before the signature is computed, also where that then fails.
  unfoldable pub sign : Scram → ServerFirst → Keys → Scram × Result Bytes
  unfolding signed
  sign s first keys =
      signed (record s { server_key = some keys.server_key }) first keys
        (crypto.mac keys.stored_key (as_bytes (auth_message_of s first)))

  unfoldable pub prepare : Scram → Bytes → Result Derived
  prepare s server_first = do
    first ← read_server_first s.client_nonce server_first
    keys ← derive s.password first
    ok (record { first = first; keys = keys })

  unfoldable pub finish : Scram → Result Derived → Scram × Result Bytes
  unfolding sign
  finish s (err e) = (s, err e)
  finish s (ok d) = sign s d.first d.keys

  unfoldable pub client_final : Scram → Bytes → Scram × Result Bytes
  unfolding prepare finish
  client_final s server_first = finish s (prepare s server_first)

  unfoldable pub verify : Scram → Bytes → Result (Unit {0})
  verify s server_final = do
    message ← ok_or (from_utf8 server_final) malformed
    signature ← ok_or (field message b'v') malformed
    server_key ← ok_or s.server_key malformed
    auth_message ← ok_or s.auth_message malformed
    expected ← ok_or (crypto.mac server_key (as_bytes auth_message)) malformed
    given ← ok_or (crypto.base64.decode signature) malformed
    reject_if (not (constant_time_eq expected given)) server_proof_invalid
