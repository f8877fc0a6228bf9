-- ===== src/Proto/Casemap.antt =====
-- Server casemapping: crates/obby-proto/src/casemap.rs. `CaseFolded` wraps a string, and
-- `already_folded` wraps any string, so it is a text here.
use obby_client.Base.{
  ℕ, ◌≡◌, ◌↔◌, refl, ap₂, ◌∙◌, Bool, true, false, not, ◌&&◌, ◌||◌, [], ◌∷◌, map, Text, text, same,
  leb, ◌==◌, if◌then◌else◌, arith, to_ascii_lowercase, eq_ignore_ascii_case,
}

pub data Casemapping : Type 0 where
  ascii rfc1459 rfc1459_strict : Casemapping

-- `Casemapping::parse`.
unfoldable pub parse : Text → Casemapping
unfolding same
parse token =
    if same token (text "ascii")
    then ascii
    else if same token (text "rfc1459-strict")
    then rfc1459_strict
    else rfc1459

abbrev is_ascii : Casemapping → Bool
is_ascii ascii = true
is_ascii _ = false

abbrev is_rfc1459 : Casemapping → Bool
is_rfc1459 rfc1459 = true
is_rfc1459 _ = false

unfoldable pub fold_char : Casemapping → ℕ → ℕ
unfolding to_ascii_lowercase
fold_char m c =
    if leb b'A' c && leb c b'Z'
    then to_ascii_lowercase c
    else if (c == b'[' || c == b']' || c == b'\\') && not (is_ascii m)
    then (if c == b'[' then b'{' else if c == b']' then b'}' else b'|')
    else if c == b'~' && is_rfc1459 m
    then b'^'
    else c

abbrev pub CaseFolded : Type 0
CaseFolded = Text

unfoldable pub fold : Casemapping → Text → CaseFolded
fold m name = map (fold_char m) name

-- `Casemapping::eq`: the loop over both strings at once.
unfoldable pub eq : Casemapping → Text → Text → Bool
eq m [] [] = true
eq m (x ∷ a) (y ∷ b) = let rest = eq m a b in if fold_char m x == fold_char m y then rest else false
eq m _ _ = false

fold_char_idem : (m : Casemapping) (c : ℕ) → fold_char m (fold_char m c) ≡ fold_char m c
unfolding fold_char
fold_char_idem ascii c = ground arith
fold_char_idem rfc1459 c = ground arith
fold_char_idem rfc1459_strict c = ground arith

-- A key that is folded again stays as it is.
pub fold_idem : (m : Casemapping) (s : Text) → fold m (fold m s) ≡ fold m s
unfolding fold
fold_idem m [] = refl
fold_idem m (c ∷ s) = ap₂ (λ x l. x ∷ l) (fold_char_idem m c) (fold_idem m s)

-- The comparison without allocation says that two names are the same exactly when their keys are.
pub eq_iff_fold : (m : Casemapping) (a b : Text) → (eq m a b ≡ true) ↔ (fold m a ≡ fold m b)
unfolding eq fold
eq_iff_fold m (x ∷ a) (y ∷ b) = ground (arith, eq_iff_fold m a b)
eq_iff_fold m _ _ = ground arith

fold_char-ascii : (m : Casemapping) (c : ℕ) → fold_char m (fold_char ascii c) ≡ fold_char m c
unfolding fold_char
fold_char-ascii ascii c = ground arith
fold_char-ascii rfc1459 c = ground arith
fold_char-ascii rfc1459_strict c = ground arith

fold-ascii : (m : Casemapping) (s : Text) → fold m (fold ascii s) ≡ fold m s
unfolding fold
fold-ascii m [] = refl
fold-ascii m (c ∷ s) = ap₂ (λ x l. x ∷ l) (fold_char-ascii m c) (fold-ascii m s)

fold_char-strict : (c : ℕ) → fold_char rfc1459 (fold_char rfc1459_strict c) ≡ fold_char rfc1459 c
unfolding fold_char
fold_char-strict c = ground arith

fold-strict : (s : Text) → fold rfc1459 (fold rfc1459_strict s) ≡ fold rfc1459 s
unfolding fold
fold-strict [] = refl
fold-strict (c ∷ s) = ap₂ (λ x l. x ∷ l) (fold_char-strict c) (fold-strict s)

-- The mappings grow coarser: names that are the same under `ascii` are the same under
-- `rfc1459-strict`, and those are the same under `rfc1459`.
pub eq_coarser :
    (a b : Text)
    → (eq ascii a b ≡ true → eq rfc1459_strict a b ≡ true)
      × (eq rfc1459_strict a b ≡ true → eq rfc1459 a b ≡ true)
eq_coarser a b = (from_ascii, from_strict)
  where
    from_ascii : eq ascii a b ≡ true → eq rfc1459_strict a b ≡ true
    from_ascii h =
        (eq_iff_fold rfc1459_strict a b).1 (
          cc
            (fold-ascii rfc1459_strict a, fold-ascii rfc1459_strict b, (eq_iff_fold ascii a b).0 h))

    from_strict : eq rfc1459_strict a b ≡ true → eq rfc1459 a b ≡ true
    from_strict h =
        (eq_iff_fold rfc1459 a b).1
          (cc (fold-strict a, fold-strict b, (eq_iff_fold rfc1459_strict a b).0 h))

and_if : (p q : Bool) → (if p then q else false) ≡ (p && q)
and_if p q = ground arith

fold_char-lowercase : (c : ℕ) → fold_char ascii c ≡ to_ascii_lowercase c
unfolding fold_char to_ascii_lowercase
fold_char-lowercase c = ground arith

eq-same : (m : Casemapping) (a b : Text) → eq m a b ≡ same (fold m a) (fold m b)
unfolding eq fold same
eq-same m [] [] = refl
eq-same m (x ∷ a) (y ∷ b) = rw (eq-same m a b) (and_if (fold_char m x == fold_char m y) _)
eq-same m [] (y ∷ b) = refl
eq-same m (x ∷ a) [] = refl

fold-lowercase : (s : Text) → fold ascii s ≡ map to_ascii_lowercase s
unfolding fold
fold-lowercase [] = refl
fold-lowercase (c ∷ s) = ap₂ (λ x l. x ∷ l) (fold_char-lowercase c) (fold-lowercase s)

-- Under `ascii` two names are the same exactly when they are equal but for the case of letters.
pub eq-ascii : (a b : Text) → eq ascii a b ≡ eq_ignore_ascii_case a b
unfolding eq_ignore_ascii_case
eq-ascii a b = eq-same ascii a b ∙ ap₂ same (fold-lowercase a) (fold-lowercase b)
