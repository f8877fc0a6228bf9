-- ===== src/Base/Texts.antt =====
-- Rust strings. A `str` is the list of its Unicode scalar values: everything here is cut at
-- whole characters, so the UTF-8 bytes behind them are not modelled.
use Prim.Native.Nat.{ℕ, ◌≤◌, ◌+◌, ◌-◌}
use Prim.Native.Char.{code}
use Prim.Native.String.{String}
use mathlib.Core.Path.{◌≡◌, refl, ap, ◌∙◌}
use mathlib.Core.Logic.{◌↔◌, ◌≢◌, inl, inr}
use mathlib.Core.Bool.{Bool, true, false, ◌&&◌}
use mathlib.Core.List.{List, [], ◌∷◌, ◌++◌, map}
use mathlib.Core.Option.{Option, none, some}
use native.Mathlib.Omega.{arith}
use obby_client.Base.Tests.{◌==◌, if◌then◌else◌, leb, Bool-cases, bind}
use obby_client.Base.Lists.{length, any, All}

abbrev pub Text : Type 0
Text = List ℕ

-- A literal, as its code points.
abbrev pub text : String → Text
text String.[] = []
text (String.◌∷◌ c s) = code c ∷ text s

-- `==` on strings.
unfoldable pub same : Text → Text → Bool
same [] [] = true
same (x ∷ xs) (y ∷ ys) = x == y && same xs ys
same _ _ = false

pub same_iff : (a b : Text) → (same a b ≡ true) ↔ (a ≡ b)
unfolding same
same_iff (x ∷ a) (y ∷ b) = ground (arith, same_iff a b)
same_iff _ _ = ground arith

pub same_refl : (a : Text) → same a a ≡ true
same_refl a = (same_iff a a).1 refl

-- `str::contains` of a character.
unfoldable pub has_char : Text → ℕ → Bool
unfolding any
has_char s c = any (λ x. x == c) s

cons_left : ℕ → Option (Text × Text) → Option (Text × Text)
cons_left x none = none
cons_left x (some (a, b)) = some (x ∷ a, b)

-- `str::split_once` at a character.
unfoldable pub split_once : ℕ → Text → Option (Text × Text)
unfolding cons_left
split_once c [] = none
split_once c (x ∷ s) = if x == c then some ([], s) else cons_left x (split_once c s)

-- `str::strip_prefix` of a character.
unfoldable pub strip_prefix : ℕ → Text → Option Text
strip_prefix c [] = none
strip_prefix c (x ∷ s) = if x == c then some s else none

-- `str::strip_suffix` of a character.
unfoldable pub strip_suffix : ℕ → Text → Option Text
strip_suffix c [] = none
strip_suffix c (x ∷ []) = if x == c then some [] else none
strip_suffix c (x ∷ y ∷ s) = bind (strip_suffix c (y ∷ s)) (λ t. some (x ∷ t))

-- `str::trim_start_matches` of a character.
unfoldable pub trim_start : ℕ → Text → Text
trim_start c [] = []
trim_start c (x ∷ s) = if x == c then trim_start c s else x ∷ s

keep_unless : Bool → ℕ → Text → Text
keep_unless p x [] = if p then [] else x ∷ []
keep_unless p x (y ∷ s) = x ∷ y ∷ s

-- `str::trim_end_matches` of a class of characters.
unfoldable pub trim_end : (ℕ → Bool) → Text → Text
unfolding keep_unless
trim_end p [] = []
trim_end p (x ∷ s) = keep_unless (p x) x (trim_end p s)

unfoldable pub cons_head : ℕ → List Text → List Text
cons_head x [] = (x ∷ []) ∷ []
cons_head x (p ∷ ps) = (x ∷ p) ∷ ps

-- `str::split` at a character; the empty string has one empty part.
unfoldable pub split : ℕ → Text → List Text
unfolding cons_head
split c [] = [] ∷ []
split c (x ∷ s) = if x == c then [] ∷ split c s else cons_head x (split c s)

-- `slice::join` with a one-character separator.
unfoldable pub join : ℕ → List Text → Text
join c [] = []
join c (p ∷ []) = p
join c (p ∷ q ∷ ps) = p ++ (c ∷ join c (q ∷ ps))

unfoldable pub to_ascii_lowercase : ℕ → ℕ
to_ascii_lowercase c = if leb b'A' c && leb c b'Z' then c + 32 else c

unfoldable pub to_ascii_uppercase : ℕ → ℕ
to_ascii_uppercase c = if leb b'a' c && leb c b'z' then c - 32 else c

-- `str::eq_ignore_ascii_case`.
unfoldable pub eq_ignore_ascii_case : Text → Text → Bool
unfolding same to_ascii_lowercase
eq_ignore_ascii_case a b = same (map to_ascii_lowercase a) (map to_ascii_lowercase b)

-- The character does not occur.
abbrev pub Lacks : ℕ → Text → Type 0
Lacks c s = All (λ x. x ≢ c) s

pub split_once-append : (c : ℕ) (s t : Text) → Lacks c s → split_once c (s ++ (c ∷ t)) ≡ some (s, t)
unfolding split_once
split_once-append c [] t h = ground arith
split_once-append c (x ∷ s) t h = ground (arith, split_once-append c s t h.1)

pub split_once-Lacks : (c : ℕ) (s : Text) → Lacks c s → split_once c s ≡ none
unfolding split_once
split_once-Lacks c [] h = refl
split_once-Lacks c (x ∷ s) h = ground (arith, split_once-Lacks c s h.1)

-- What `split_once` returns: the parts around the first occurrence, or that there is none.
abbrev pub SplitsAt : ℕ → Text → Option (Text × Text) → Type 0
SplitsAt c s none = Lacks c s
SplitsAt c s (some (a, b)) = (s ≡ a ++ (c ∷ b)) × Lacks c a

cons_left-SplitsAt :
    (c x : ℕ) (s : Text) (r : Option (Text × Text))
    → x ≢ c
    → SplitsAt c s r
    → SplitsAt c (x ∷ s) (cons_left x r)
unfolding cons_left
cons_left-SplitsAt c x s none n h = (n, h)
cons_left-SplitsAt c x s (some (a, b)) n h = (ap (λ t. x ∷ t) h.0, (n, h.1))

pub split_once-SplitsAt : (c : ℕ) (s : Text) → SplitsAt c s (split_once c s)
unfolding split_once
split_once-SplitsAt c [] = tt
split_once-SplitsAt c (x ∷ s) = elim (Bool-cases (x == c)) [
  | inl e ↦ rw e (ground arith)
  | inr e ↦ rw e (cons_left-SplitsAt c x s _ (ground arith) (split_once-SplitsAt c s))
]

-- The lemma about one character class: nothing is trimmed where no character is in the class.
pub trim_end-id : (p : ℕ → Bool) (s : Text) → All (λ x. p x ≡ false) s → trim_end p s ≡ s
unfolding trim_end
trim_end-id p [] h = refl
trim_end-id p (x ∷ []) h = rw h.0
trim_end-id p (x ∷ y ∷ s) h = rw (trim_end-id p (y ∷ s) h.1) refl

pub trim_start-Lacks : (c : ℕ) (s : Text) → Lacks c s → trim_start c s ≡ s
unfolding trim_start
trim_start-Lacks c [] h = refl
trim_start-Lacks c (x ∷ s) h = ground arith

pub length-trim_start : (c : ℕ) (s : Text) → length (trim_start c s) ≤ length s
unfolding trim_start
length-trim_start c [] = omega arith
length-trim_start c (x ∷ s) = ground (arith, length-trim_start c s)

-- Splitting a joined list gives the parts back.
pub split-Lacks : (c : ℕ) (s : Text) → Lacks c s → split c s ≡ s ∷ []
unfolding split
split-Lacks c [] h = refl
split-Lacks c (x ∷ s) h = ground (arith, split-Lacks c s h.1)

pub split-append : (c : ℕ) (s t : Text) → Lacks c s → split c (s ++ (c ∷ t)) ≡ s ∷ split c t
unfolding split
split-append c [] t h = ground arith
split-append c (x ∷ s) t h = ground (arith, split-append c s t h.1)

pub split-join :
    (c : ℕ) (p : Text) (ps : List Text)
    → All (Lacks c) (p ∷ ps)
    → split c (join c (p ∷ ps)) ≡ p ∷ ps
unfolding join
split-join c p [] h = split-Lacks c p h.0
split-join c p (q ∷ ps) h =
    split-append c p (join c (q ∷ ps)) h.0 ∙ ap (λ l. p ∷ l) (split-join c q ps h.1)
