-- ===== src/Base/Parts.antt =====
-- What holds of every character of a string holds of its parts.
use Prim.Native.Nat.{ℕ}
use mathlib.Core.Path.{◌≡◌, subst}
use mathlib.Core.Logic.{◌≢◌, inl, inr}
use mathlib.Core.Option.{Option, none, some}
use mathlib.Core.List.{List, [], ◌∷◌}
use native.Mathlib.Omega.{arith}
use obby_client.Base.Tests.{◌==◌, if◌then◌else◌, if-holds, bind, or_else, Bool-cases}
use obby_client.Base.Lists.{All}
use obby_client.Base.Texts.{Text, cons_head, split, strip_prefix}

-- It holds of all characters of the string, if there is one.
abbrev pub HeldAll : (ℕ → Type 0) → Option Text → Type 0
HeldAll P none = Unit
HeldAll P (some t) = All P t

pub held : (P : ℕ → Type 0) {o : Option Text} {t : Text} → o ≡ some t → HeldAll P o → All P t
held P e h = subst (HeldAll P) e h

pub or_else-HeldAll :
    (P : ℕ → Type 0) (o r : Option Text) → HeldAll P o → HeldAll P r → HeldAll P (or_else o r)
or_else-HeldAll P none r h k = k
or_else-HeldAll P (some t) r h k = h

pub bind-HeldAll :
    (P : ℕ → Type 0) (o : Option Text) (f : Text → Option Text)
    → HeldAll P o
    → ((t : Text) → All P t → HeldAll P (f t))
    → HeldAll P (bind o f)
bind-HeldAll P none f h k = tt
bind-HeldAll P (some t) f h k = k t h

pub strip_prefix-HeldAll :
    (P : ℕ → Type 0) (c : ℕ) (s : Text) → All P s → HeldAll P (strip_prefix c s)
unfolding strip_prefix
strip_prefix-HeldAll P c [] h = tt
strip_prefix-HeldAll P c (x ∷ s) h = if-holds (HeldAll P) (x == c) h.1 tt

cons_head-All :
    (P : ℕ → Type 0) (x : ℕ) (ps : List Text) → P x → All (All P) ps → All (All P) (cons_head x ps)
unfolding cons_head
cons_head-All P x [] h k = ((h, tt), tt)
cons_head-All P x (p ∷ ps) h k = ((h, k.0), k.1)

split-step :
    (P : ℕ → Type 0) (c x : ℕ) (ps : List Text)
    → (x ≢ c → P x)
    → All (All P) ps
    → All (All P) (if x == c then [] ∷ ps else cons_head x ps)
split-step P c x ps h k = elim (Bool-cases (x == c)) [
  | inl e ↦ rw e (tt, k)
  | inr e ↦ rw e (cons_head-All P x ps (h (ground arith)) k)
]

-- The parts between separators do not hold the separator itself.
pub split-All :
    (P : ℕ → Type 0) (c : ℕ) (s : Text) → All (λ x. x ≢ c → P x) s → All (All P) (split c s)
unfolding split
split-All P c [] h = (tt, tt)
split-All P c (x ∷ s) h = split-step P c x (split c s) h.0 (split-All P c s h.1)
