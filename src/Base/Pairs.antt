-- ===== src/Base/Pairs.antt =====
-- Ordered keys with several fields: the derived lexicographic order, and an order carried over
-- from the fields of a record or an enum.
use mathlib.Core.Path.{◌≡◌, refl, sym, ap, ap₂, ◌∙◌}
use mathlib.Core.Logic.{◌↔◌}
use mathlib.Core.Bool.{Bool, true, false, ◌&&◌, ◌||◌}
use native.Mathlib.Omega.{arith}
use obby_client.Base.Order.{Ord}

module _ {ℓ κ} {A : Type ℓ} {B : Type κ} (o : Ord A) (p : Ord B) where
  abbrev beq_pair : A × B → A × B → Bool
  beq_pair x y = o.beq x.0 y.0 && p.beq x.1 y.1

  abbrev below_pair : A × B → A × B → Bool
  below_pair x y = o.below x.0 y.0 || (o.beq x.0 y.0 && p.below x.1 y.1)

  pub beq_pair_iff : (x y : A × B) → (beq_pair x y ≡ true) ↔ (x ≡ y)
  beq_pair_iff (a, b) (c, d) = (to, from)
    where
      to : beq_pair (a, b) (c, d) ≡ true → ◌≡◌ {A = A × B} (a, b) (c, d)
      to h =
          ap₂ (λ x y. (x, y)) ((o.beq_iff a c).0 (ground arith)) ((p.beq_iff b d).0 (ground arith))

      from : ◌≡◌ {A = A × B} (a, b) (c, d) → beq_pair (a, b) (c, d) ≡ true
      from e =
          let l = (o.beq_iff a c).1 (ap (λ x. x.0) e) in
          let r = (p.beq_iff b d).1 (ap (λ x. x.1) e) in rw (l, r) refl

  pub below_pair_irrefl : (x : A × B) → below_pair x x ≡ false
  below_pair_irrefl (a, b) = ground (arith, o.below_irrefl a, p.below_irrefl b)

  pub below_pair_trans :
      (x y z : A × B) → below_pair x y ≡ true → below_pair y z ≡ true → below_pair x z ≡ true
  below_pair_trans (a, b) (c, d) (e, f) h k =
      ground (
        arith,
        o.below_trans a c e,
        p.below_trans b d f,
        o.beq_iff a c,
        o.beq_iff c e,
        o.beq_iff a e,
      )

  pub below_pair_total :
      (x y : A × B) → below_pair x y ≡ false → beq_pair x y ≡ false → below_pair y x ≡ true
  below_pair_total (a, b) (c, d) h k =
      ground (arith, o.below_total a c, p.below_total b d, o.beq_iff a c, o.beq_iff c a)

  abbrev pub pair_ord : Ord (A × B)
  pair_ord = record {
    beq = beq_pair;
    below = below_pair;
    beq_iff = beq_pair_iff;
    below_irrefl = below_pair_irrefl;
    below_trans = below_pair_trans;
    below_total = below_pair_total;
  }

-- The order of `A` by the fields that `f` lists and `g` puts together again.
abbrev pub ord_by {ℓ κ} :
    {A : Type ℓ} {B : Type κ} (f : A → B) (g : B → A) → ((a : A) → g (f a) ≡ a) → Ord B → Ord A
ord_by f g e o = record {
  beq = λ a b. o.beq (f a) (f b);
  below = λ a b. o.below (f a) (f b);
  beq_iff = λ a b. (
    λ h. sym (e a) ∙ (ap g ((o.beq_iff (f a) (f b)).0 h) ∙ e b),
    λ h. (o.beq_iff (f a) (f b)).1 (ap f h),
  );
  below_irrefl = λ a. o.below_irrefl (f a);
  below_trans = λ a b c. o.below_trans (f a) (f b) (f c);
  below_total = λ a b. o.below_total (f a) (f b);
}
