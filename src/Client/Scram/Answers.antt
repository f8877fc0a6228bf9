-- ===== src/Client/Scram/Answers.antt =====
-- Which messages of the server are answered, and which closing messages are believed:
-- `client_final` and `verify` of crates/obby-client/src/scram.rs.
use obby_client.Base.{
  ℕ, zero, suc, ◌≡◌, ◌≢◌, ◌≤◌, ◌-◌, refl, ap, sym, ◌∙◌, ◌↔◌, Bool, true, false, not, Option, none,
  some, [], ◌∷◌, ◌++◌, append-nil, Text, same_iff, length, length-append, arith, Bytes, as_bytes,
  from_utf8, parse_unsigned, u32_limit, text,
}
use obby_client.Client.Scram.{
  Scram, Crypto, ScramError, Result, ok, err, ok_or, reject_if, and_then, malformed, nonce_mismatch,
  too_many_iterations, bad_salt, server_proof_invalid, max_iterations, field, starts_with,
  extends_nonce, is_countable, ServerFirst, Derived, hi_loop, hi, xor_into, read_server_first,
  derive, signed, sign, prepare, finish, client_final, verify, auth_message_of,
}
use obby_client.Client.Scram.Equality.{constant_time_eq_iff, constant_time_eq_refl}

-- Where a chain succeeds, so does its first step, and the rest from what that gave.
pub and_then-ok :
    {A B : Type 0} (step : Result A) (next : A → Result B) {b : B}
    → and_then step next ≡ ok b
    → (a : A) × (step ≡ ok a) × (next a ≡ ok b)
and_then-ok (err reason) next h = cc
and_then-ok (ok value) next h = (value, refl, h)

pub ok_or-ok : {A : Type 0} (o : Option A) (e : ScramError) {a : A} → ok_or o e ≡ ok a → o ≡ some a
ok_or-ok none e h = cc
ok_or-ok (some a) e h = cc

reject_if-ok : (b : Bool) (e : ScramError) {u : Unit {0}} → reject_if b e ≡ ok u → b ≡ false
reject_if-ok true e h = cc
reject_if-ok false e h = refl

negated : (b : Bool) → not b ≡ false → b ≡ true
negated b h = ground arith

starts_with-append : (p t : Text) → starts_with (p ++ t) p ≡ true
unfolding starts_with
starts_with-append [] t = refl
starts_with-append (c ∷ p) t = ground (arith, starts_with-append p t)

starts_with-split : (s p : Text) → starts_with s p ≡ true → (t : Text) × (s ≡ p ++ t)
unfolding starts_with
starts_with-split s [] h = (s, refl)
starts_with-split [] (c ∷ p) h = cc
starts_with-split (x ∷ s) (c ∷ p) h =
    let (t, e) = starts_with-split s p (ground arith) in
    let f : x ≡ c = ground arith in (t, rw (e, f) refl)

longer : (p t : Text) → t ≢ [] → p ++ t ≢ p
longer p [] h e = h refl
longer p (c ∷ t) h e =
    let l : length (p ++ (c ∷ t)) ≡ length p = ap length e in omega (arith, length-append p (c ∷ t))

-- The nonce is the client's with something after it.
pub extends_nonce_iff :
    (nonce p : Text) → (extends_nonce nonce p ≡ true) ↔ ((t : Text) × (nonce ≡ p ++ t) × (t ≢ []))
unfolding extends_nonce
extends_nonce_iff nonce p = (
  λ h.
      let (t, e) = starts_with-split nonce p (ground arith) in
      (t, e, λ z. ground (arith, same_iff nonce p, e ∙ (ap (λ u. p ++ u) z ∙ append-nil p))),
  λ (t, e, z). rw (e, starts_with-append p t) (ground (arith, same_iff (p ++ t) p, longer p t z)),
)

is_countable_iff : (n : ℕ) → (is_countable n ≡ true) ↔ ((1 ≤ n) × (n ≤ max_iterations))
unfolding is_countable
is_countable_iff n = ground arith

-- A message that a client should answer: the fields are there, the nonce is the client's with
-- something after it, the count of rounds is within bounds, and the salt is base64.
pub record IsAnswerable (crypto : Crypto) (client_nonce : Text) (m : Bytes) : Type 0 where
  pub first : ServerFirst
  pub salt : Text
  pub count : Text
  pub is_text : from_utf8 m ≡ some first.message
  pub has_nonce : field first.message b'r' ≡ some first.nonce
  pub has_salt : field first.message b's' ≡ some salt
  pub has_count : field first.message b'i' ≡ some count
  pub is_count : parse_unsigned u32_limit count ≡ some first.iterations
  pub extends : (t : Text) × (first.nonce ≡ client_nonce ++ t) × (t ≢ [])
  pub within : (1 ≤ first.iterations) × (first.iterations ≤ max_iterations)
  pub is_salt : crypto.base64.decode salt ≡ some first.salt

module _ (crypto : Crypto) where
  pub read_server_first-IsAnswerable :
      (p : Text) (m : Bytes) {first : ServerFirst}
      → read_server_first crypto p m ≡ ok first
      → (a : IsAnswerable crypto p m) × (a.first ≡ first)
  unfolding read_server_first
  read_server_first-IsAnswerable p m h =
      let (message, e1, h1) = and_then-ok (ok_or (from_utf8 m) malformed) _ h in
      let (nonce, e2, h2) = and_then-ok (ok_or (field message b'r') malformed) _ h1 in
      let (salt, e3, h3) = and_then-ok (ok_or (field message b's') malformed) _ h2 in
      let (count, e4, h4) = and_then-ok (ok_or (field message b'i') malformed) _ h3 in
      let (n, e5, h5) = and_then-ok (ok_or (parse_unsigned u32_limit count) malformed) _ h4 in
      let (_, e6, h6) = and_then-ok (reject_if (not (extends_nonce nonce p)) nonce_mismatch) _ h5 in
      let (_, e7, h7) = and_then-ok (reject_if (not (is_countable n)) too_many_iterations) _ h6 in
      let (decoded, e8, h8) = and_then-ok (ok_or (crypto.base64.decode salt) bad_salt) _ h7 in
      (
        record {
          first = record { message = message; nonce = nonce; salt = decoded; iterations = n };
          salt = salt;
          count = count;
          is_text = ok_or-ok _ malformed e1;
          has_nonce = ok_or-ok _ malformed e2;
          has_salt = ok_or-ok _ malformed e3;
          has_count = ok_or-ok _ malformed e4;
          is_count = ok_or-ok _ malformed e5;
          extends = (extends_nonce_iff nonce p).0 (negated _ (reject_if-ok _ nonce_mismatch e6));
          within = (is_countable_iff n).0 (negated _ (reject_if-ok _ too_many_iterations e7));
          is_salt = ok_or-ok _ bad_salt e8;
        },
        cc,
      )

  pub read_server_first-ok :
      (p : Text) (m : Bytes) (a : IsAnswerable crypto p m)
      → read_server_first crypto p m ≡ ok a.first
  unfolding read_server_first
  read_server_first-ok p m a =
      rw
        (
          a.is_text,
          a.has_nonce,
          a.has_salt,
          a.has_count,
          a.is_count,
          (extends_nonce_iff a.first.nonce p).1 a.extends,
          (is_countable_iff a.first.iterations).1 a.within,
          a.is_salt,
        )
        refl

-- HMAC takes a key of any length.
abbrev pub IsTotal : Crypto → Type 0
IsTotal crypto = (key message : Bytes) → (t : Bytes) × (crypto.mac key message ≡ some t)

module _ (crypto : Crypto) (total : IsTotal crypto) where
  hi_loop-total :
      (n : ℕ) (password previous result : Bytes)
      → (t : Bytes) × (hi_loop crypto n password previous result ≡ some t)
  unfolding hi_loop
  hi_loop-total zero password previous result = (result, refl)
  hi_loop-total (suc n) password previous result =
      let (round, e) = total password previous in
      let (t, f) = hi_loop-total n password round (xor_into result round) in (t, rw (e, f) refl)

  hi-total : (password salt : Bytes) (n : ℕ) → (t : Bytes) × (hi crypto password salt n ≡ some t)
  unfolding hi
  hi-total password salt n =
      let (first, e) = total password (salt ++ 0 ∷ 0 ∷ 0 ∷ 1 ∷ []) in
      let (t, f) = hi_loop-total (n - 1) password first first in (t, rw (e, f) refl)

  pub derive-ok :
      (password : Text) (first : ServerFirst)
      → (salted client_key server_key : Bytes) × (hi crypto
            (as_bytes password)
            first.salt
            first.iterations
          ≡ some salted)
        × (crypto.mac salted (as_bytes (text "Client Key")) ≡ some client_key)
        × (crypto.mac salted (as_bytes (text "Server Key")) ≡ some server_key)
        × (derive crypto password first
            ≡ ok (record {
              client_key = client_key;
              stored_key = crypto.sha256 client_key;
              server_key = server_key;
            }))
  unfolding derive
  derive-ok password first =
      let (salted, e) = hi-total (as_bytes password) first.salt first.iterations in
      let (client_key, f) = total salted (as_bytes (text "Client Key")) in
      let (server_key, g) = total salted (as_bytes (text "Server Key")) in
      (salted, client_key, server_key, e, f, g, rw (e, f, g) refl)

  sign-ok : (s : Scram) (d : Derived) → (b : Bytes) × ((finish crypto s (ok d)).1 ≡ ok b)
  unfolding finish sign signed
  sign-ok s d =
      let (signature, e) = total d.keys.stored_key (as_bytes (auth_message_of s d.first)) in
      rw e (_, refl)

  prepare-ok :
      (s : Scram) (m : Bytes)
      → IsAnswerable crypto s.client_nonce m
      → (d : Derived) × (prepare crypto s m ≡ ok d)
  unfolding prepare
  prepare-ok s m a =
      let (_, _, _, _, _, _, e) = derive-ok s.password a.first in
      rw (read_server_first-ok crypto s.client_nonce m a, e) (_, refl)

  finish-ok :
      (s : Scram) (r : Result Derived) {b : Bytes}
      → (finish crypto s r).1 ≡ ok b
      → (d : Derived) × (r ≡ ok d)
  unfolding finish
  finish-ok s (ok d) h = (d, refl)
  finish-ok s (err e) h = cc

  answered :
      (s : Scram) (m : Bytes) {b : Bytes}
      → (client_final crypto s m).1 ≡ ok b
      → IsAnswerable crypto s.client_nonce m
  unfolding client_final prepare
  answered s m h =
      let (d, e) = finish-ok s (prepare crypto s m) h in
      let (first, f, _) = and_then-ok (read_server_first crypto s.client_nonce m) _ e in
      (read_server_first-IsAnswerable crypto s.client_nonce m f).0

  -- Where HMAC takes keys of any length: the server's first message is answered with a proof exactly
  -- where it is UTF-8 text with a nonce that goes on after the client's, a salt in base64 and a count of rounds from 1 to a million:
  -- any other message is refused with an error, whatever else it holds.
  pub client_final_iff :
      (s : Scram) (m : Bytes)
      → ((b : Bytes) × ((client_final crypto s m).1 ≡ ok b)) ↔ IsAnswerable crypto s.client_nonce m
  unfolding client_final
  client_final_iff s m =
      (λ h. answered s m h.1, λ a. let (d, e) = prepare-ok s m a in rw e (sign-ok s d))

-- The server has proved itself: it signed what the client sent, with the server's key.
pub record IsProved (crypto : Crypto) (s : Scram) (m : Bytes) : Type 0 where
  pub message : Text
  pub signature : Text
  pub key : Bytes
  pub signed_text : Text
  pub expected : Bytes
  pub is_text : from_utf8 m ≡ some message
  pub has_signature : field message b'v' ≡ some signature
  pub has_key : s.server_key ≡ some key
  pub has_text : s.auth_message ≡ some signed_text
  pub is_mac : crypto.mac key (as_bytes signed_text) ≡ some expected
  pub decodes : crypto.base64.decode signature ≡ some expected

module _ (crypto : Crypto) (s : Scram) (m : Bytes) where
  believed : verify crypto s m ≡ ok tt → IsProved crypto s m
  unfolding verify
  believed h =
      let (message, e1, h1) = and_then-ok (ok_or (from_utf8 m) malformed) _ h in
      let (signature, e2, h2) = and_then-ok (ok_or (field message b'v') malformed) _ h1 in
      let (key, e3, h3) = and_then-ok (ok_or s.server_key malformed) _ h2 in
      let (signed_text, e4, h4) = and_then-ok (ok_or s.auth_message malformed) _ h3 in
      let (expected, e5, h5) =
        and_then-ok (ok_or (crypto.mac key (as_bytes signed_text)) malformed) _ h4 in
      let (given, e6, h6) = and_then-ok (ok_or (crypto.base64.decode signature) malformed) _ h5 in
      let same_bytes =
        (constant_time_eq_iff expected given).0
          (negated _ (reject_if-ok _ server_proof_invalid h6)) in
      record {
        message = message;
        signature = signature;
        key = key;
        signed_text = signed_text;
        expected = expected;
        is_text = ok_or-ok _ malformed e1;
        has_signature = ok_or-ok _ malformed e2;
        has_key = ok_or-ok _ malformed e3;
        has_text = ok_or-ok _ malformed e4;
        is_mac = ok_or-ok _ malformed e5;
        decodes = ok_or-ok _ malformed e6 ∙ ap some (sym same_bytes);
      }

  -- A closing message is believed exactly where its signature is the code of the exchange under the
  -- server's key, both as `client_final` kept them: no other bytes are believed.
  pub verify_iff : (verify crypto s m ≡ ok tt) ↔ IsProved crypto s m
  unfolding verify
  verify_iff = (
    believed,
    λ p.
        rw
          (
            p.is_text,
            p.has_signature,
            p.has_key,
            p.has_text,
            p.is_mac,
            p.decodes,
            constant_time_eq_refl p.expected,
          )
          refl,
  )
