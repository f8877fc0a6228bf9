-- ===== src/Base/OrdMap.antt =====
-- `BTreeMap` as a list of bindings in the order of the keys, with the operations that the client
-- uses and their laws. `BTreeSet K` is the map to `Unit`.
pub mod Sorted
use Prim.Native.Nat.{ℕ, suc, ◌+◌, ◌≤◌}
use mathlib.Core.Path.{◌≡◌, refl}
use mathlib.Core.Bool.{Bool, true, false, not}
use mathlib.Core.List.{List, [], ◌∷◌}
use mathlib.Core.Option.{Option, none, some}
use native.Mathlib.Omega.{arith}
use obby_client.Base.Tests.{if◌then◌else◌, is_some}
use obby_client.Base.Lists.{length}
use obby_client.Base.Order.{Ord}

abbrev pub Map {ℓ κ} : Type ℓ → Type κ → Type (ℓ ⊔ κ)
Map K V = List (K × V)

module _ {ℓ κ} {K : Type ℓ} {V : Type κ} ⦃o : Ord K⦄ where
  unfoldable pub get : K → Map K V → Option V
  get k [] = none
  get k ((j, v) ∷ m) = if o.beq k j then some v else get k m

  unfoldable pub insert : K → V → Map K V → Map K V
  insert k v [] = (k, v) ∷ []
  insert k v ((j, w) ∷ m) =
      if o.beq k j
      then (k, v) ∷ m
      else if o.below k j
      then (k, v) ∷ (j, w) ∷ m
      else (j, w) ∷ insert k v m

  unfoldable pub remove : K → Map K V → Map K V
  remove k [] = []
  remove k ((j, v) ∷ m) = if o.beq k j then remove k m else (j, v) ∷ remove k m

  unfoldable pub contains_key : K → Map K V → Bool
  contains_key k [] = false
  contains_key k ((j, v) ∷ m) = if o.beq k j then true else contains_key k m

  pub get-insert :
      (k j : K) (v : V) (m : Map K V)
      → get j (insert k v m) ≡ (if o.beq k j then some v else get j m)
  unfolding get insert
  get-insert k j v [] = ground (arith, o.beq_iff k j, o.beq_iff j k)
  get-insert k j v ((i, w) ∷ m) =
      ground (arith, get-insert k j v m, o.beq_iff k j, o.beq_iff j k, o.beq_iff k i, o.beq_iff j i)

  pub get-remove :
      (k j : K) (m : Map K V) → get j (remove k m) ≡ (if o.beq k j then none else get j m)
  unfolding get remove
  get-remove k j [] = ground arith
  get-remove k j ((i, w) ∷ m) =
      ground (arith, get-remove k j m, o.beq_iff k j, o.beq_iff j i, o.beq_iff k i)

  pub contains_key-get : (k : K) (m : Map K V) → contains_key k m ≡ is_some (get k m)
  unfolding contains_key get
  contains_key-get k [] = refl
  contains_key-get k ((j, v) ∷ m) = ground (arith, contains_key-get k m)
