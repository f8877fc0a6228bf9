-- ===== src/Tests/Login.antt =====
-- Authentication on concrete inputs: crates/obby-client/src/sasl.rs and scram.rs.
use obby_client.Base.{
  ◌≡◌, ◌≤◌, ◌↔◌, refl, none, some, [], ◌∷◌, Text, text, All, same, length, arith, Bytes, as_bytes,
  from_utf8-as_bytes, strip_prefix, split, parse_unsigned, digits_nonempty, parse_digits,
}
use mathlib.Core.Option
use obby_client.Client.Sasl.{encode_response, chunk}
use obby_client.Client.Sasl.Lines.{received, encode_response-received}
use obby_client.Client.Scram.{
  Scram, new, ok, client_final, verify, constant_time_eq, field, find_field, strip_key,
}
use obby_client.Client.Scram.Equality.{constant_time_eq-same}
use obby_client.Client.Scram.Fields.{read_name, IsNonce, new-fields}
use obby_client.Client.Scram.Answers.{IsAnswerable, IsTotal, IsProved, client_final_iff, verify_iff}
use obby_client.Client.Scram.Enrol.{Account, enrol}
use obby_client.Client.Scram.Server.{server_final, client_final-verify}
use obby_client.Tests.Codec.{decode, standard, standard-IsLawful, sums, sums-IsLawful}

abbrev hello : Bytes
hello = 0 ∷ b'u' ∷ 0 ∷ b'p' ∷ []

encode_response-received_example :
    (received standard (encode_response standard hello) ≡ some hello)
    × All (λ l. (1 ≤ length l) × (length l ≤ chunk)) (encode_response standard hello)
encode_response-received_example =
    encode_response-received standard standard-IsLawful hello (ground arith)

constant_time_eq-same_example : constant_time_eq hello (0 ∷ []) ≡ same hello (0 ∷ [])
constant_time_eq-same_example = constant_time_eq-same hello (0 ∷ [])

new-fields_example :
    let s = new (text "a,n=b") (text "pw") (text "x,y") in
    (Option.map read_name (field s.client_first_bare b'n') ≡ some (text "a,n=b"))
    × (field s.client_first_bare b'r' ≡ some s.client_nonce)
    × IsNonce s.client_nonce
new-fields_example = new-fields (text "a,n=b") (text "pw") (text "x,y")

abbrev ann : Scram
ann = record {
  client_first_bare = text "n=ann,r=x";
  client_nonce = text "x";
  password = text "pw";
  server_key = none;
  auth_message = none;
}

abbrev opening : Text
opening = text "r=xy,s=AAAA,i=2"

opening-IsAnswerable : IsAnswerable sums (text "x") (as_bytes opening)
unfolding field find_field split strip_key strip_prefix parse_unsigned digits_nonempty parse_digits
    decode
opening-IsAnswerable = record {
  first = record { message = opening; nonce = text "xy"; salt = 0 ∷ 0 ∷ 0 ∷ []; iterations = 2 };
  salt = text "AAAA";
  count = text "2";
  is_text = from_utf8-as_bytes opening (ground arith);
  has_nonce = refl;
  has_salt = refl;
  has_count = refl;
  is_count = refl;
  extends = (text "y", refl, λ e. cc);
  within = (omega arith, omega arith);
  is_salt = refl;
}

sums-IsTotal : IsTotal sums
sums-IsTotal key message = (_, refl)

client_final_iff_example :
    ((b : Bytes) × ((client_final sums ann (as_bytes opening)).1 ≡ ok b))
    ↔ IsAnswerable sums (text "x") (as_bytes opening)
client_final_iff_example = client_final_iff sums sums-IsTotal ann (as_bytes opening)

client_final-verify_example :
    (account : Account) × (enrol sums
        (text "pw")
        opening-IsAnswerable.first.salt
        opening-IsAnswerable.first.iterations
      ≡ some account)
    × ((sent answer : Bytes) × ((client_final sums ann (as_bytes opening)).1 ≡ ok sent)
        × (server_final sums ann.client_first_bare opening-IsAnswerable.first account sent
            ≡ some answer)
        × (verify sums (client_final sums ann (as_bytes opening)).0 answer ≡ ok tt))
client_final-verify_example =
    client_final-verify sums sums-IsLawful ann (as_bytes opening) opening-IsAnswerable

verify_iff_example :
    (verify sums ann (as_bytes (text "v=AAAA")) ≡ ok tt)
    ↔ IsProved sums ann (as_bytes (text "v=AAAA"))
verify_iff_example = verify_iff sums ann (as_bytes (text "v=AAAA"))
