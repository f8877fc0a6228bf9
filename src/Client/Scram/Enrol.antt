-- ===== src/Client/Scram/Enrol.antt =====
-- What a server of RFC 5802 stores of a password, worked out as the RFC defines it, and that
-- `hi` and the keys of crates/obby-client/src/scram.rs are the same.
use obby_client.Base.{
  ℕ, zero, suc, ◌≡◌, ◌≤◌, ◌+◌, ◌-◌, refl, ap, Option, none, some, [], ◌∷◌, ◌++◌, Text, text, All,
  length, arith, bind, ◌>>=◌, Bytes, IsByte, as_bytes, bit_xor,
}
use obby_client.Client.Base64.{Base64}
use obby_client.Client.Base64
use obby_client.Client.Scram.{Crypto, ServerFirst, Keys, ok, xor_into, hi_loop, hi, derive}

-- What the documentation of the crates promises: a code is 32 bytes, for any key.
pub record IsLawful (crypto : Crypto) : Type 0 where
  pub mac-some :
      (key message : Bytes)
      → (t : Bytes) × (crypto.mac key message ≡ some t) × (length t ≡ 32) × All IsByte t
  pub base64 : Base64.IsLawful crypto.base64

-- What the server keeps: neither the password nor the client's key.
pub record Account : Type 0 where
  pub stored_key : Bytes
  pub server_key : Bytes

-- The exclusive or of two strings of the same length.
unfoldable pub xor : Bytes → Bytes → Bytes
xor [] _ = []
xor _ [] = []
xor (x ∷ a) (y ∷ b) = bit_xor x y ∷ xor a b

module _ (crypto : Crypto) where
  -- `U` of the RFC, counted from nothing: the code of the salt and of INT(1), and from then on the
  -- code of the one before.
  unfoldable pub iterate : Bytes → Bytes → ℕ → Option Bytes
  iterate key salt zero = crypto.mac key (salt ++ 0 ∷ 0 ∷ 0 ∷ 1 ∷ [])
  iterate key salt (suc n) = bind (iterate key salt n) (crypto.mac key)

  -- The exclusive or of the first of them, up to the one with this number.
  unfoldable pub combined : Bytes → Bytes → ℕ → Option Bytes
  unfolding iterate xor
  combined key salt zero = iterate key salt zero
  combined key salt (suc n) = do
    before ← combined key salt n
    last ← iterate key salt (suc n)
    some (xor before last)

  -- `Hi` of the RFC.
  unfoldable pub salted_password : Bytes → Bytes → ℕ → Option Bytes
  unfolding combined
  salted_password key salt zero = none
  salted_password key salt (suc n) = combined key salt n

  -- What the server stores when the user chooses a password.
  unfoldable pub enrol : Text → Bytes → ℕ → Option Account
  unfolding salted_password
  enrol password salt iterations = do
    salted ← salted_password (as_bytes password) salt iterations
    client_key ← crypto.mac salted (as_bytes (text "Client Key"))
    server_key ← crypto.mac salted (as_bytes (text "Server Key"))
    some (record { stored_key = crypto.sha256 client_key; server_key = server_key })

xor_into-xor : (a b : Bytes) → length a ≡ length b → xor_into a b ≡ xor a b
unfolding xor_into xor
xor_into-xor [] [] h = refl
xor_into-xor [] (y ∷ b) h = refl
xor_into-xor (x ∷ a) [] h = absurd (omega arith)
xor_into-xor (x ∷ a) (y ∷ b) h = ap (λ r. bit_xor x y ∷ r) (xor_into-xor a b (omega arith))

length-xor : (a b : Bytes) → length a ≡ length b → length (xor a b) ≡ length a
unfolding xor
length-xor [] b h = refl
length-xor (x ∷ a) [] h = absurd (omega arith)
length-xor (x ∷ a) (y ∷ b) h = omega (arith, length-xor a b (omega arith))

-- What the server keeps of the keys.
abbrev pub kept : Keys → Account
kept keys = record { stored_key = keys.stored_key; server_key = keys.server_key }

module _ (crypto : Crypto) (laws : IsLawful crypto) (key salt : Bytes) where
  -- The loop of the client, entered with one of the server's numbers, ends with a later one.
  hi_loop-combined :
      (n i k : ℕ) (u t : Bytes)
      → k ≡ n + i
      → iterate crypto key salt i ≡ some u
      → combined crypto key salt i ≡ some t
      → length t ≡ 32
      → (r : Bytes) × (hi_loop crypto n key u t ≡ some r) × (combined crypto key salt k ≡ some r)
  unfolding hi_loop iterate combined
  hi_loop-combined zero i k u t h e f l = let j : k ≡ i = omega arith in (t, refl, rw (j, f) refl)
  hi_loop-combined (suc n) i k u t h e f l =
      let (v, g, b, _) = laws.mac-some key u in
      let same_length : length t ≡ length v = omega arith in
      let next : iterate crypto key salt (suc i) ≡ some v = rw (e, g) refl in
      let sum : combined crypto key salt (suc i) ≡ some (xor t v) = rw (f, e, g) refl in
      let (r, p, q) =
        hi_loop-combined n (suc i) k v (xor t v) (omega arith) next sum
          (omega (arith, length-xor t v same_length)) in
      (r, rw (g, xor_into-xor t v same_length, p) refl, q)

  hi-salted_password :
      (iterations : ℕ)
      → 1 ≤ iterations
      → (r : Bytes) × (hi crypto key salt iterations ≡ some r)
        × (salted_password crypto key salt iterations ≡ some r)
  unfolding hi salted_password
  hi-salted_password zero h = absurd (omega arith)
  hi-salted_password (suc n) h =
      let (u, e, l, _) = laws.mac-some key (salt ++ 0 ∷ 0 ∷ 0 ∷ 1 ∷ []) in
      let (r, p, q) =
        hi_loop-combined n 0 n u u (omega arith) (unfold iterate in e)
          (unfold combined iterate in e) l in
      let rounds : suc n - 1 ≡ n = omega arith in (r, rw (e, rounds, p) refl, q)

module _ (crypto : Crypto) (laws : IsLawful crypto) where
  -- The keys of the client, and what the server stored of the same password: the client's key is
  -- 32 bytes, and the stored key its digest.
  pub derive-enrol :
      (password : Text) (first : ServerFirst)
      → 1 ≤ first.iterations
      → (keys : Keys) × (derive crypto password first ≡ ok keys)
        × (enrol crypto password first.salt first.iterations ≡ some (kept keys))
        × (keys.stored_key ≡ crypto.sha256 keys.client_key)
        × (length keys.client_key ≡ 32)
        × All IsByte keys.client_key
  unfolding derive enrol
  derive-enrol password first h =
      let (salted, e, f) =
        hi-salted_password crypto laws (as_bytes password) first.salt first.iterations h in
      let (client_key, g, l, b) = laws.mac-some salted (as_bytes (text "Client Key")) in
      let (server_key, k, _, _) = laws.mac-some salted (as_bytes (text "Server Key")) in
      (
        record {
          client_key = client_key;
          stored_key = crypto.sha256 client_key;
          server_key = server_key;
        },
        rw (e, g, k) refl,
        rw (f, g, k) refl,
        refl,
        l,
        b,
      )
