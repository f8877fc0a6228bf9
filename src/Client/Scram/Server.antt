-- ===== src/Client/Scram/Server.antt =====
-- The whole exchange with a server of RFC 5802 that knows the keys of the password:
-- crates/obby-client/src/scram.rs.
use obby_client.Base.{
  ℕ, ◌≡◌, ◌≢◌, refl, ap, sym, ◌∙◌, true, Option, none, some, List, [], ◌∷◌, ◌++◌, append_assoc,
  Text, text, same, same_refl, Lacks, All, All-append, split, strip_prefix, ◌&&◌, split-append,
  split-Lacks, length, arith, if◌then◌else◌, bind, ◌>>=◌, Bytes, IsByte, IsScalar, as_bytes,
  from_utf8, from_utf8-as_bytes, from_utf8-IsScalar, HeldAll, held, or_else-HeldAll, bind-HeldAll,
  strip_prefix-HeldAll, split-All, bit_xor-bit_xor, bit_xor-lt,
}
use obby_client.Client.Base64.{is_base64}
use obby_client.Client.Scram.{
  Scram, Crypto, ok, field, find_field, strip_key, xor_zip, ServerFirst, Keys, derive, final_bare,
  auth_message_of, signed, sign, finish, prepare, client_final, verify,
}
use obby_client.Client.Scram.Enrol.{IsLawful, Account, xor, enrol, kept, derive-enrol}
use obby_client.Client.Scram.Answers.{IsAnswerable, IsProved, read_server_first-ok, verify_iff}

-- The text that both sides sign, as the server puts it together.
unfoldable pub reckoned : Text → ServerFirst → Text → Text
reckoned bare first nonce = bare ++ (b',' ∷ first.message) ++ (b',' ∷ text "c=biws,r=" ++ nonce)

module _ (crypto : Crypto) where
  -- The key that a proof shows, under the server's own reckoning of the exchange.
  unfoldable pub shown_key : Account → Text → Bytes → Option Bytes
  unfolding xor
  shown_key account auth proof =
      bind (crypto.mac account.stored_key (as_bytes auth)) (λ signature. some (xor proof signature))

  -- The server's answer to the client's last message: it reads the nonce and the proof, and where
  -- the key shown is the one it stored, it signs the exchange with its own key.
  unfoldable pub server_final : Text → ServerFirst → Account → Bytes → Option Bytes
  unfolding shown_key
  server_final bare first account m = do
    message ← from_utf8 m
    nonce ← field message b'r'
    proof ← field message b'p'
    given ← crypto.base64.decode proof
    let auth = reckoned bare first nonce
    key ← shown_key account auth given
    signature ← crypto.mac account.server_key (as_bytes auth)
    if same nonce first.nonce && same (crypto.sha256 key) account.stored_key
        then some (as_bytes (text "v=" ++ crypto.base64.encode signature))
        else none

find_field-HeldAll :
    (P : ℕ → Type 0) (key : ℕ) (ps : List Text) → All (All P) ps → HeldAll P (find_field key ps)
unfolding find_field strip_key
find_field-HeldAll P key [] h = tt
find_field-HeldAll P key (p ∷ ps) h =
    or_else-HeldAll P (strip_key key p) (find_field key ps)
      (bind-HeldAll P (strip_prefix key p) (strip_prefix b'=') (strip_prefix-HeldAll P key p h.0)
        (strip_prefix-HeldAll P b'='))
      (find_field-HeldAll P key ps h.1)

-- The value of a field has no comma, and of other characters only those of the message.
field-All :
    (P : ℕ → Type 0) (message : Text) (key : ℕ) {t : Text}
    → All P message
    → field message key ≡ some t
    → All (λ x. P x × (x ≢ b',')) t
unfolding field
field-All P message key h e = held _ e (
    find_field-HeldAll (λ x. P x × (x ≢ b',')) key (split b',' message)
      (split-All _ b',' message (both message h)))
  where
    both : (s : Text) → All P s → All (λ x. x ≢ b',' → P x × (x ≢ b',')) s
    both [] h = tt
    both (x ∷ s) h = ((λ n. (h.0, n)), both s h.1)

-- A text of the two characters `k=` and a value.
abbrev keyed : ℕ → Text → Text
keyed k v = k ∷ b'=' ∷ v

final-split :
    (nonce proof : Text)
    → Lacks b',' nonce
    → Lacks b',' proof
    → split b',' (text "c=biws,r=" ++ nonce ++ text ",p=" ++ proof)
      ≡ text "c=biws" ∷ keyed b'r' nonce ∷ keyed b'p' proof ∷ []
final-split nonce proof h k =
    ap (split b',') (
      append_assoc (text "c=biws,r=" ++ nonce) (text ",p=") proof
      ∙ append_assoc (text "c=biws,r=") nonce (b',' ∷ keyed b'p' proof))
    ∙ (split-append b',' (text "c=biws") (keyed b'r' nonce ++ (b',' ∷ keyed b'p' proof))
          (ground arith)
        ∙ ap (λ l. text "c=biws" ∷ l)
            (split-append b',' (keyed b'r' nonce) (keyed b'p' proof)
                (ground arith, (ground arith, h))
              ∙ ap (λ l. keyed b'r' nonce ∷ l)
                  (split-Lacks b',' (keyed b'p' proof) (ground arith, (ground arith, k)))))

final-fields :
    (nonce proof : Text)
    → Lacks b',' nonce
    → Lacks b',' proof
    → (field (text "c=biws,r=" ++ nonce ++ text ",p=" ++ proof) b'r' ≡ some nonce)
      × (field (text "c=biws,r=" ++ nonce ++ text ",p=" ++ proof) b'p' ≡ some proof)
unfolding field find_field strip_key strip_prefix
final-fields nonce proof h k =
    (rw (final-split nonce proof h k) refl, rw (final-split nonce proof h k) refl)

signature-field :
    (signature : Text) → Lacks b',' signature → field (text "v=" ++ signature) b'v' ≡ some signature
unfolding field find_field strip_key strip_prefix
signature-field signature h =
    rw (split-Lacks b',' (text "v=" ++ signature) (ground arith, (ground arith, h))) refl

xor_twice : (a b : Bytes) → length a ≡ length b → xor (xor_zip a b) b ≡ a
unfolding xor xor_zip
xor_twice [] [] h = refl
xor_twice [] (y ∷ b) h = absurd (omega arith)
xor_twice (x ∷ a) [] h = absurd (omega arith)
xor_twice (x ∷ a) (y ∷ b) h = rw (bit_xor-bit_xor x y, xor_twice a b (omega arith)) refl

xor_zip-IsByte : (a b : Bytes) → All IsByte a → All IsByte b → All IsByte (xor_zip a b)
unfolding xor_zip
xor_zip-IsByte [] b h k = tt
xor_zip-IsByte (x ∷ a) [] h k = tt
xor_zip-IsByte (x ∷ a) (y ∷ b) h k = (bit_xor-lt x y h.0 k.0, xor_zip-IsByte a b h.1 k.1)

base64-IsScalar : (s : Text) → All (λ c. is_base64 c ≡ true) s → All IsScalar s
base64-IsScalar [] h = tt
base64-IsScalar (c ∷ s) h = (ground arith, base64-IsScalar s h.1)

base64-Lacks : (s : Text) → All (λ c. is_base64 c ≡ true) s → Lacks b',' s
base64-Lacks [] h = tt
base64-Lacks (c ∷ s) h = (ground arith, base64-Lacks s h.1)

both_of : (P Q : ℕ → Type 0) (s : Text) → All (λ x. P x × Q x) s → All P s × All Q s
both_of P Q [] h = (tt, tt)
both_of P Q (x ∷ s) h = let (p, q) = both_of P Q s h.1 in ((h.0.0, p), (h.0.1, q))

module _ (crypto : Crypto) (laws : IsLawful crypto) where
  module _ (s : Scram) (first : ServerFirst) (keys : Keys) where
    abbrev auth : Text
    auth = auth_message_of s first

    abbrev after : Scram
    after = record s { server_key = some keys.server_key; auth_message = some auth }

    abbrev signature : Bytes
    signature = (laws.mac-some keys.stored_key (as_bytes auth)).0

    abbrev proof : Text
    proof = crypto.base64.encode (xor_zip keys.client_key signature)

    abbrev final : Text
    final = final_bare first ++ text ",p=" ++ proof

    abbrev server_signature : Bytes
    server_signature = (laws.mac-some keys.server_key (as_bytes auth)).0

    abbrev reply : Text
    reply = text "v=" ++ crypto.base64.encode server_signature

    sign-final : sign crypto s first keys ≡ (after, ok (as_bytes final))
    unfolding sign signed
    sign-final = rw (laws.mac-some keys.stored_key (as_bytes auth)).1 refl

  module _ (s : Scram) (m : Bytes) (a : IsAnswerable crypto s.client_nonce m) (keys : Keys) where
    signed_final :
        derive crypto s.password a.first ≡ ok keys
        → client_final crypto s m ≡ (after s a.first keys, ok (as_bytes (final s a.first keys)))
    unfolding client_final prepare finish
    signed_final h =
        rw (read_server_first-ok crypto s.client_nonce m a, h) (sign-final s a.first keys)

    nonce_chars : All IsScalar a.first.nonce × Lacks b',' a.first.nonce
    nonce_chars =
        both_of IsScalar (λ x. x ≢ b',') a.first.nonce
          (field-All IsScalar a.first.message b'r' (from_utf8-IsScalar m a.is_text) a.has_nonce)

    proof_bytes :
        All IsByte keys.client_key → All IsByte (xor_zip keys.client_key (signature s a.first keys))
    proof_bytes b =
        xor_zip-IsByte keys.client_key _ b
          (laws.mac-some keys.stored_key (as_bytes (auth s a.first keys))).3

    proof_chars : All IsByte keys.client_key → All (λ c. is_base64 c ≡ true) (proof s a.first keys)
    proof_chars b = laws.base64.alphabet _ (proof_bytes b)

    final-IsScalar : All IsByte keys.client_key → All IsScalar (final s a.first keys)
    unfolding final_bare
    final-IsScalar b =
        All-append IsScalar (text "c=biws,r=" ++ a.first.nonce ++ text ",p=") (proof s a.first keys)
          (All-append IsScalar (text "c=biws,r=" ++ a.first.nonce) (text ",p=")
            (All-append IsScalar (text "c=biws,r=") a.first.nonce (ground arith) nonce_chars.0)
            (ground arith))
          (base64-IsScalar _ (proof_chars b))

    reckoned-auth : reckoned s.client_first_bare a.first a.first.nonce ≡ auth s a.first keys
    unfolding reckoned auth_message_of final_bare
    reckoned-auth = refl

    shown :
        length keys.client_key ≡ 32
        → shown_key crypto
            (kept keys)
            (auth s a.first keys)
            (xor_zip keys.client_key (signature s a.first keys))
          ≡ some keys.client_key
    unfolding shown_key
    shown l =
        let sig = laws.mac-some keys.stored_key (as_bytes (auth s a.first keys)) in
        rw sig.1 (ap some (xor_twice keys.client_key sig.0 (omega (arith, sig.2))))

    decoded :
        All IsByte keys.client_key
        → crypto.base64.decode (proof s a.first keys)
          ≡ some (xor_zip keys.client_key (signature s a.first keys))
    decoded b = laws.base64.decode-encode _ (proof_bytes b)

    replied :
        keys.stored_key ≡ crypto.sha256 keys.client_key
        → length keys.client_key ≡ 32
        → All IsByte keys.client_key
        → server_final crypto s.client_first_bare a.first
            (kept keys)
            (as_bytes (final s a.first keys))
          ≡ some (as_bytes (reply s a.first keys))
    unfolding server_final final_bare
    replied e l b =
        let fields =
          final-fields a.first.nonce (proof s a.first keys) nonce_chars.1
            (base64-Lacks _ (proof_chars b)) in
        rw
          (
            from_utf8-as_bytes (final s a.first keys) (final-IsScalar b),
            fields.0,
            fields.1,
            decoded b,
            reckoned-auth,
            shown l,
            (laws.mac-some keys.server_key (as_bytes (auth s a.first keys))).1,
            same_refl a.first.nonce,
            sym e,
            same_refl keys.stored_key,
          )
          refl

    signature_chars :
        All (λ c. is_base64 c ≡ true) (crypto.base64.encode (server_signature s a.first keys))
    signature_chars =
        laws.base64.alphabet _ (laws.mac-some keys.server_key (as_bytes (auth s a.first keys))).3

    reply-IsProved : IsProved crypto (after s a.first keys) (as_bytes (reply s a.first keys))
    reply-IsProved = record {
      message = reply s a.first keys;
      signature = crypto.base64.encode (server_signature s a.first keys);
      key = keys.server_key;
      signed_text = auth s a.first keys;
      expected = server_signature s a.first keys;
      is_text =
          from_utf8-as_bytes (reply s a.first keys)
            (ground arith, (ground arith, base64-IsScalar _ signature_chars));
      has_signature = signature-field _ (base64-Lacks _ signature_chars);
      has_key = refl;
      has_text = refl;
      is_mac = (laws.mac-some keys.server_key (as_bytes (auth s a.first keys))).1;
      decodes =
          laws.base64.decode-encode _
            (laws.mac-some keys.server_key (as_bytes (auth s a.first keys))).3;
    }

  module _ (s : Scram) (m : Bytes) (a : IsAnswerable crypto s.client_nonce m) where
    -- Where the crates keep their laws and the server's first message can be answered: the exchange
    -- succeeds with a server of RFC 5802 at which the same password was enrolled with the salt and
    -- the count of its message, by the RFC's definition of `Hi`, `StoredKey` and `ServerKey`. The
    -- client answers the first message, the server takes the proof, because the key it shows has
    -- the stored digest, and the client believes the server's signature.
    pub client_final-verify :
        (account : Account) × (enrol crypto s.password a.first.salt a.first.iterations
          ≡ some account)
        × ((sent answer : Bytes) × ((client_final crypto s m).1 ≡ ok sent)
            × (server_final crypto s.client_first_bare a.first account sent ≡ some answer)
            × (verify crypto (client_final crypto s m).0 answer ≡ ok tt))
    client_final-verify =
        let (keys, h, enrolled, e, l, b) = derive-enrol crypto laws s.password a.first a.within.0 in
        let sent = signed_final s m a keys h in
        (
          kept keys,
          enrolled,
          (
            as_bytes (final s a.first keys),
            as_bytes (reply s a.first keys),
            ap (λ r. r.1) sent,
            replied s m a keys e l b,
            ap (λ r. verify crypto r.0 (as_bytes (reply s a.first keys))) sent
                ∙ (verify_iff crypto (after s a.first keys) _).1 (reply-IsProved s m a keys),
          ),
        )
