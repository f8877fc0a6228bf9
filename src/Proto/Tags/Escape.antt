-- ===== src/Proto/Tags/Escape.antt =====
-- Escaping a tag value and undoing it.
use obby_client.Base.{
  ℕ, ◌≡◌, ◌≢◌, refl, ap, ◌∙◌, false, [], ◌∷◌, ◌++◌, Text, has_char, any, arith, All, All-append,
}
use obby_client.Proto.Tags.{unescape_loop, unescape, escape_char, escape}

-- A character that may occur in an escaped value.
abbrev pub IsWireSafe : ℕ → Type 0
IsWireSafe c = (c ≢ b';') × (c ≢ b' ') × (c ≢ b'\r') × (c ≢ b'\n')

unescape_loop-cons : (c : ℕ) (s : Text) → c ≢ b'\\' → unescape_loop (c ∷ s) ≡ c ∷ unescape_loop s
unfolding unescape_loop
unescape_loop-cons c [] h = ground arith
unescape_loop-cons c (d ∷ s) h = ground arith

unescape_loop-escape_char :
    (c : ℕ) (s : Text) → unescape_loop (escape_char c ++ s) ≡ c ∷ unescape_loop s
unfolding escape_char unescape_loop
unescape_loop-escape_char c s = ground (arith, unescape_loop-cons c s)

pub unescape_loop-escape : (v : Text) → unescape_loop (escape v) ≡ v
unfolding escape
unescape_loop-escape [] = unfold unescape_loop in refl
unescape_loop-escape (c ∷ v) =
    unescape_loop-escape_char c (escape v) ∙ ap (λ s. c ∷ s) (unescape_loop-escape v)

-- With no backslash the loop copies, so the early return changes nothing.
unescape_loop-plain : (s : Text) → has_char s b'\\' ≡ false → unescape_loop s ≡ s
unfolding has_char any
unescape_loop-plain [] h = unfold unescape_loop in refl
unescape_loop-plain (c ∷ s) h =
    unescape_loop-cons c s (ground arith) ∙ ap (λ t. c ∷ t) (unescape_loop-plain s (ground arith))

pub unescape-eq-loop : (s : Text) → unescape s ≡ unescape_loop s
unfolding unescape
unescape-eq-loop s = ground (arith, unescape_loop-plain s)

-- Every value, whatever characters it holds, comes back from the wire as it was.
pub unescape-escape : (v : Text) → unescape (escape v) ≡ v
unescape-escape v = unescape-eq-loop (escape v) ∙ unescape_loop-escape v

escape_char-IsWireSafe : (c : ℕ) → All IsWireSafe (escape_char c)
unfolding escape_char
escape_char-IsWireSafe c = ground arith

-- An escaped value holds no semicolon, space, CR or LF, so it ends neither its tag nor its line.
pub escape-IsWireSafe : (v : Text) → All IsWireSafe (escape v)
unfolding escape
escape-IsWireSafe [] = tt
escape-IsWireSafe (c ∷ v) =
    All-append IsWireSafe (escape_char c) (escape v) (escape_char-IsWireSafe c)
      (escape-IsWireSafe v)
