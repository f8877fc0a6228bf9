-- ===== src/Client/Scram/Fields.antt =====
-- The fields of the first message: `Scram::new` and `field` of crates/obby-client/src/scram.rs.
use obby_client.Base.{
  ℕ, zero, suc, ◌≡◌, ◌≢◌, ◌≤◌, refl, ap, sym, ◌∙◌, Bool, true, some, [], ◌∷◌, ◌++◌, append_assoc,
  Text, text, same, Lacks, All, All-append, split, split-append, split-Lacks, length, length-take,
  take, retain, strip_prefix, arith, ◌==◌, if◌then◌else◌, Bool-cases, is_digit, leb, ◌&&◌, ◌||◌,
  inl, inr, ◌⊎◌,
}
use mathlib.Core.Option
use obby_client.Client.Scram.{
  new, or_zero, sanitise_nonce, saslprep, replace, field, find_field, strip_key, nonce_len,
}

-- A server's reading of a user name: `=2C` is a comma and `=3D` an equals sign.
unfoldable pub read_name : Text → Text
read_name (a ∷ b ∷ c ∷ s) =
    let escaped = read_name s in
    let plain = a ∷ read_name (b ∷ c ∷ s) in
    if same (a ∷ b ∷ c ∷ []) (text "=2C")
    then b',' ∷ escaped
    else if same (a ∷ b ∷ c ∷ []) (text "=3D")
    then b'=' ∷ escaped
    else plain
read_name s = s

-- One character of a user name, as it is written.
abbrev prep_char : ℕ → Text
prep_char x = if x == b'=' then text "=3D" else if x == b',' then text "=2C" else x ∷ []

prep_char-plain : (x : ℕ) → x ≢ b'=' → x ≢ b',' → prep_char x ≡ x ∷ []
prep_char-plain x e f = ground arith

replace-append : (c : ℕ) (by s t : Text) → replace c by (s ++ t) ≡ replace c by s ++ replace c by t
unfolding replace
replace-append c by [] t = refl
replace-append c by (x ∷ s) t =
    rw (replace-append c by s t) (sym (append_assoc _ (replace c by s) (replace c by t)))

saslprep-nil : saslprep [] ≡ []
unfolding saslprep replace
saslprep-nil = refl

char_cases : (x : ℕ) → (x ≡ b'=') ⊎ ((x ≡ b',') ⊎ ((x ≢ b'=') × (x ≢ b',')))
char_cases x = ground arith

saslprep-char :
    (x : ℕ) → replace b',' (text "=2C") (if x == b'=' then text "=3D" else x ∷ []) ≡ prep_char x
unfolding replace
saslprep-char x = elim (char_cases x) [
  | inl e ↦ rw e refl
  | inr (inl e) ↦ rw e refl
  | inr (inr (e, f)) ↦ ground arith
]

saslprep-cons : (x : ℕ) (s : Text) → saslprep (x ∷ s) ≡ prep_char x ++ saslprep s
unfolding saslprep replace
saslprep-cons x s =
    replace-append b',' (text "=2C") (if x == b'=' then text "=3D" else x ∷ [])
      (replace b'=' (text "=3D") s)
    ∙ ap (λ p. p ++ replace b',' (text "=2C") (replace b'=' (text "=3D") s)) (saslprep-char x)

read_name-plain : (x : ℕ) (s : Text) → x ≢ b'=' → read_name (x ∷ s) ≡ x ∷ read_name s
unfolding read_name same
read_name-plain x [] h = refl
read_name-plain x (a ∷ []) h = refl
read_name-plain x (a ∷ b ∷ s) h = ground arith

read_name-char : (x : ℕ) (s : Text) → read_name (prep_char x ++ s) ≡ x ∷ read_name s
unfolding read_name same
read_name-char x s = elim (char_cases x) [
  | inl e ↦ rw e refl
  | inr (inl e) ↦ rw e refl
  | inr (inr (e, f)) ↦ rw (prep_char-plain x e f) (read_name-plain x s e)
]

read_name-saslprep : (s : Text) → read_name (saslprep s) ≡ s
read_name-saslprep [] = rw saslprep-nil (unfold read_name in refl)
read_name-saslprep (x ∷ s) =
    rw (saslprep-cons x s) (read_name-char x (saslprep s) ∙ ap (λ t. x ∷ t) (read_name-saslprep s))

prep_char-Lacks : (x : ℕ) → Lacks b',' (prep_char x)
prep_char-Lacks x = ground arith

saslprep-Lacks : (s : Text) → Lacks b',' (saslprep s)
saslprep-Lacks [] = rw saslprep-nil tt
saslprep-Lacks (x ∷ s) =
    rw (saslprep-cons x s)
      (All-append _ (prep_char x) (saslprep s) (prep_char-Lacks x) (saslprep-Lacks s))

-- The characters of a nonce: ASCII letters and digits.
abbrev pub is_nonce_char : ℕ → Bool
is_nonce_char c = is_digit c || (leb b'A' c && leb c b'Z') || (leb b'a' c && leb c b'z')

abbrev pub IsNonce : Text → Type 0
IsNonce s = (1 ≤ length s) × (length s ≤ nonce_len) × All (λ c. is_nonce_char c ≡ true) s

retain-All : (p : ℕ → Bool) (s : Text) → All (λ c. p c ≡ true) (retain p s)
unfolding retain
retain-All p [] = tt
retain-All p (x ∷ s) = elim (Bool-cases (p x)) [
  | inl e ↦ rw e (e, retain-All p s)
  | inr e ↦ rw e (retain-All p s)
]

take-All {κ} : (P : ℕ → Type κ) (n : ℕ) (s : Text) → All P s → All P (take n s)
take-All P zero s h = tt
take-All P (suc n) [] h = tt
take-All P (suc n) (x ∷ s) h = (h.0, take-All P n s h.1)

or_zero-IsNonce :
    (s : Text) → length s ≤ nonce_len → All (λ c. is_nonce_char c ≡ true) s → IsNonce (or_zero s)
unfolding or_zero
or_zero-IsNonce [] l h = (omega arith, omega arith, (refl, tt))
or_zero-IsNonce (c ∷ s) l h = (omega arith, l, h)

sanitise_nonce-IsNonce : (nonce : Text) → IsNonce (sanitise_nonce nonce)
unfolding sanitise_nonce
sanitise_nonce-IsNonce nonce =
    let kept = retain is_nonce_char nonce in
    or_zero-IsNonce (take nonce_len kept) (omega (arith, length-take nonce_len kept))
      (take-All _ nonce_len kept (retain-All is_nonce_char nonce))

nonce-Lacks : (s : Text) → All (λ c. is_nonce_char c ≡ true) s → Lacks b',' s
nonce-Lacks [] h = tt
nonce-Lacks (c ∷ s) h = (ground arith, nonce-Lacks s h.1)

first_bare-split :
    (name nonce : Text)
    → Lacks b',' name
    → Lacks b',' nonce
    → split b',' (text "n=" ++ name ++ text ",r=" ++ nonce)
      ≡ (text "n=" ++ name) ∷ (text "r=" ++ nonce) ∷ []
first_bare-split name nonce h k =
    ap (split b',') (append_assoc (text "n=" ++ name) (text ",r=") nonce)
    ∙ split-append b',' (text "n=" ++ name) (text "r=" ++ nonce) (ground arith, (ground arith, h))
    ∙ ap (λ l. (text "n=" ++ name) ∷ l)
        (split-Lacks b',' (text "r=" ++ nonce) (ground arith, (ground arith, k)))

-- Whatever the user name and the nonce that the host supplies, the first message holds the fields
-- `n` and `r`: a server that reads the field `n` and undoes the escapes gets
-- the user name, and the field `r` is the client's nonce, of 1 to 24 ASCII letters and digits.
pub new-fields :
    (username password nonce : Text)
    → let s = new username password nonce in
      (Option.map read_name (field s.client_first_bare b'n') ≡ some username)
      × (field s.client_first_bare b'r' ≡ some s.client_nonce)
      × IsNonce s.client_nonce
unfolding new field find_field strip_key strip_prefix
new-fields username password nonce =
    let k = sanitise_nonce-IsNonce nonce in
    let e =
      first_bare-split (saslprep username) (sanitise_nonce nonce) (saslprep-Lacks username)
        (nonce-Lacks _ k.2) in
    (rw (e, read_name-saslprep username) refl, rw e refl, k)
