-- ===== src/Base/Order.antt =====
-- Keys of ordered maps: equality and a strict total order as Boolean tests with their laws, and
-- the instances for numbers and for strings.
use Prim.Native.Nat.{ℕ}
use mathlib.Core.Path.{◌≡◌, refl}
use mathlib.Core.Logic.{◌↔◌}
use mathlib.Core.Bool.{Bool, true, false, ◌&&◌, ◌||◌}
use mathlib.Core.List.{[], ◌∷◌}
use native.Mathlib.Omega.{arith}
use obby_client.Base.Tests.{ltb, ◌==◌, ==_iff}
use obby_client.Base.Texts.{Text, same, same_iff}

pub record Ord {ℓ} (K : Type ℓ) : Type ℓ where
  pub beq : K → K → Bool
  pub below : K → K → Bool
  pub beq_iff : (a b : K) → (beq a b ≡ true) ↔ (a ≡ b)
  pub below_irrefl : (a : K) → below a a ≡ false
  pub below_trans : (a b c : K) → below a b ≡ true → below b c ≡ true → below a c ≡ true
  pub below_total : (a b : K) → below a b ≡ false → beq a b ≡ false → below b a ≡ true

abbrev nat_beq : ℕ → ℕ → Bool
nat_beq a b = a == b

pub ltb_irrefl : (a : ℕ) → ltb a a ≡ false
ltb_irrefl a = ground arith

pub ltb_trans : (a b c : ℕ) → ltb a b ≡ true → ltb b c ≡ true → ltb a c ≡ true
ltb_trans a b c h k = ground arith

pub ltb_total : (a b : ℕ) → ltb a b ≡ false → nat_beq a b ≡ false → ltb b a ≡ true
ltb_total a b h k = ground arith

instance abbrev pub nat_ord : Ord ℕ
nat_ord = record {
  beq = nat_beq;
  below = ltb;
  beq_iff = ==_iff;
  below_irrefl = ltb_irrefl;
  below_trans = ltb_trans;
  below_total = ltb_total;
}

-- The order of strings: UTF-8 keeps the order of code points, so it is lexicographic in these.
unfoldable pub text_below : Text → Text → Bool
text_below [] [] = false
text_below [] (y ∷ ys) = true
text_below (x ∷ xs) [] = false
text_below (x ∷ xs) (y ∷ ys) = ltb x y || (x == y && text_below xs ys)

pub text_below_irrefl : (a : Text) → text_below a a ≡ false
unfolding text_below
text_below_irrefl [] = refl
text_below_irrefl (x ∷ a) = ground (arith, text_below_irrefl a)

pub text_below_trans :
    (a b c : Text) → text_below a b ≡ true → text_below b c ≡ true → text_below a c ≡ true
unfolding text_below
text_below_trans (x ∷ a) (y ∷ b) (z ∷ c) h k = ground (arith, text_below_trans a b c)
text_below_trans _ _ _ h k = ground arith

pub text_below_total :
    (a b : Text) → text_below a b ≡ false → same a b ≡ false → text_below b a ≡ true
unfolding text_below same
text_below_total (x ∷ a) (y ∷ b) h k = ground (arith, text_below_total a b)
text_below_total _ _ h k = ground arith

instance abbrev pub text_ord : Ord Text
text_ord = record {
  beq = same;
  below = text_below;
  beq_iff = same_iff;
  below_irrefl = text_below_irrefl;
  below_trans = text_below_trans;
  below_total = text_below_total;
}
