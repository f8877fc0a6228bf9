-- ===== src/Client/Sasl/Lines.antt =====
-- The lines of a response and a server that puts them together again: `encode_response` of
-- crates/obby-client/src/sasl.rs.
use obby_client.Base.{
  ℕ, zero, suc, ◌≡◌, ◌≢◌, ◌≤◌, ◌<◌, ◌%◌, ◌-◌, refl, ap, sym, ◌∙◌, false, Option, none, some, List,
  [], ◌∷◌, ◌++◌, Text, All, bind, same, same_iff, take, drop, is_nil, length, length-take,
  length-drop, take-append-drop, All-append, arith, ◌==◌, if◌then◌else◌, Bytes, IsByte, chunks,
  chunks_fuel, Bool-cases, ◌⊎◌, inl, inr,
}
use mathlib.Core.Option
use obby_client.Client.Base64.{Base64, IsLawful}
use obby_client.Client.Sasl.{encode_response, closing, plus, chunk}

-- The last line of a server's reading: `+` stands for nothing.
unfoldable pub last_part : Text → Text
last_part l = if same l plus then [] else l

-- A server's reading: a full line is continued, and the first line that is not full is the last.
unfoldable pub receive : List Text → Option Text
unfolding last_part
receive [] = none
receive (l ∷ ls) =
    let rest = receive ls in
    if length l == chunk
    then Option.map (λ t. l ++ t) rest
    else if is_nil ls
    then some (last_part l)
    else none

-- The bytes of a reading.
unfoldable pub received : Base64 → List Text → Option Bytes
unfolding receive
received base64 ls = bind (receive ls) (λ t. if is_nil t then some [] else base64.decode t)

-- Not empty, and no longer than the limit.
abbrev pub IsPart : Text → Type 0
IsPart l = (1 ≤ length l) × (length l ≤ chunk)

closing-IsPart : (n : ℕ) → All IsPart (closing n)
unfolding closing
closing-IsPart n = ground arith

chunks_fuel-IsPart : (n : ℕ) (t : Text) → All IsPart (chunks_fuel n chunk t)
unfolding chunks_fuel
chunks_fuel-IsPart zero t = tt
chunks_fuel-IsPart (suc n) [] = tt
chunks_fuel-IsPart (suc n) (c ∷ t) =
    ((omega arith, omega (arith, length-take 399 t)), chunks_fuel-IsPart n (drop 399 t))

closing_full : (n : ℕ) → chunk ≤ n → closing n ≡ closing (n - chunk)
unfolding closing
closing_full n h = ground arith

closing_short : (n : ℕ) → 1 ≤ n → n < chunk → closing n ≡ []
unfolding closing
closing_short n h k = ground arith

receive-full :
    (l : Text) (ls : List Text)
    → length l ≡ chunk
    → receive (l ∷ ls) ≡ Option.map (λ t. l ++ t) (receive ls)
unfolding receive
receive-full l ls h = ground arith

receive-short : (l : Text) → length l < chunk → l ≢ plus → receive (l ∷ []) ≡ some l
unfolding receive last_part
receive-short l h k = elim (Bool-cases (same l plus)) [
  | inl e ↦ absurd (k ((same_iff l plus).0 e))
  | inr e ↦ ground arith
]

receive-plus : receive (plus ∷ []) ≡ some []
unfolding receive last_part same
receive-plus = refl

chunks_fuel-step :
    (n k : ℕ) (t : Text)
    → 1 ≤ length t
    → chunks_fuel (suc n) k t ≡ take k t ∷ chunks_fuel n k (drop k t)
unfolding chunks_fuel
chunks_fuel-step n k [] h = absurd (omega arith)
chunks_fuel-step n k (c ∷ t) h = refl

chunks_fuel-nil : (n k : ℕ) → chunks_fuel {A = ℕ} n k [] ≡ []
unfolding chunks_fuel
chunks_fuel-nil zero k = refl
chunks_fuel-nil (suc n) k = refl

take-all : (k : ℕ) (t : Text) → length t ≤ k → take k t ≡ t
take-all zero [] h = refl
take-all zero (c ∷ t) h = absurd (omega arith)
take-all (suc k) [] h = refl
take-all (suc k) (c ∷ t) h = ap (λ u. c ∷ u) (take-all k t (omega arith))

drop-all : (k : ℕ) (t : Text) → length t ≤ k → drop k t ≡ []
drop-all zero [] h = refl
drop-all zero (c ∷ t) h = absurd (omega arith)
drop-all (suc k) [] h = refl
drop-all (suc k) (c ∷ t) h = drop-all k t (omega arith)

by_length : (t : Text) → (length t < chunk) ⊎ (chunk ≤ length t)
by_length t = ground arith

nonempty : (t : Text) → 1 ≤ length t → is_nil t ≡ false
nonempty [] h = absurd (omega arith)
nonempty (c ∷ t) h = refl

-- A text whose length is a multiple of four is no single `+`.
fours : (t : Text) → length t % 4 ≡ 0 → t ≢ plus
fours t h e = let l : length t ≡ 1 = ap length e in omega arith

receive-chunks :
    (n : ℕ) (t : Text)
    → length t ≤ n
    → length t % 4 ≡ 0
    → receive (chunks_fuel n chunk t ++ closing (length t)) ≡ some t
receive-chunks n [] l h = rw (chunks_fuel-nil n chunk) (unfold closing in receive-plus)
receive-chunks zero (c ∷ t) l h = absurd (omega arith)
receive-chunks (suc n) (c ∷ t) l h =
    let s = c ∷ t in
    let d = length-drop chunk s in
    rw (chunks_fuel-step n chunk s (omega arith)) (elim (by_length s) [
      | inl e ↦
          rw
            (
              take-all chunk s (omega arith),
              drop-all chunk s (omega arith),
              chunks_fuel-nil n chunk,
              closing_short (length s) (omega arith) e,
            )
            (receive-short s e (fours s h))
      | inr e ↦
          receive-full (take chunk s) _ (omega (arith, length-take chunk s))
          ∙ ap (Option.map (λ u. take chunk s ++ u)) (
              ap (λ ls. receive (chunks_fuel n chunk (drop chunk s) ++ ls))
                (closing_full (length s) e ∙ ap closing (sym d))
              ∙ receive-chunks n (drop chunk s) (omega arith) (omega arith))
          ∙ ap some (take-append-drop chunk s)
    ])

module _ (base64 : Base64) (laws : IsLawful base64) where
  encode-IsPart : (payload : Bytes) → All IsPart (encode_response base64 payload)
  unfolding encode_response chunks
  encode-IsPart [] = ((omega arith, omega arith), tt)
  encode-IsPart (b ∷ payload) =
      let encoded = base64.encode (b ∷ payload) in
      All-append IsPart _ _ (chunks_fuel-IsPart (length encoded) encoded)
        (closing-IsPart (length encoded))

  encode-received :
      (payload : Bytes)
      → All IsByte payload
      → received base64 (encode_response base64 payload) ≡ some payload
  unfolding received encode_response chunks same
  encode-received [] h = refl
  encode-received (b ∷ payload) h =
      let size = laws.length-encode (b ∷ payload) in
      let encoded = base64.encode (b ∷ payload) in
      rw
        (
          receive-chunks (length encoded) encoded (omega arith) (omega arith),
          nonempty encoded (omega arith),
        )
        (laws.decode-encode (b ∷ payload) h)

  -- Where base64 keeps its laws: of any response, every line is one character at least and 400 at
  -- most, and a server that reads on until a line is not full, and takes a `+` for nothing, gets back the bytes of the response:
  -- also where the encoding is as long as a number of full lines.
  pub encode_response-received :
      (payload : Bytes)
      → All IsByte payload
      → (received base64 (encode_response base64 payload) ≡ some payload)
        × All (λ l. (1 ≤ length l) × (length l ≤ chunk)) (encode_response base64 payload)
  encode_response-received payload h = (encode-received payload h, encode-IsPart payload)
