-- ===== src/Base/OrdMap/Sorted.antt =====
-- The bindings stay in the order of their keys, so that each key is bound once and the first
-- binding has the least key.
use Prim.Native.Nat.{◌+◌, ◌≤◌, ◌<◌}
use mathlib.Core.Path.{◌≡◌, refl}
use mathlib.Core.Bool.{true}
use mathlib.Core.List.{[], ◌∷◌}
use mathlib.Core.Option.{none, some}
use native.Mathlib.Omega.{arith}
use obby_client.Base.Lists.{length}
use obby_client.Base.Order.{Ord}
use obby_client.Base.OrdMap.{Map, get, insert, remove}

module _ {ℓ κ} {K : Type ℓ} {V : Type κ} ⦃o : Ord K⦄ where
  -- Every key of the map is above `k`.
  abbrev pub Above : K → Map K V → Type 0
  Above k [] = Unit
  Above k ((j, v) ∷ m) = (o.below k j ≡ true) × Above k m

  abbrev pub IsSorted : Map K V → Type 0
  IsSorted [] = Unit
  IsSorted ((k, v) ∷ m) = Above k m × IsSorted m

  pub Above-trans : (j k : K) (m : Map K V) → o.below j k ≡ true → Above k m → Above j m
  Above-trans j k [] h a = tt
  Above-trans j k ((i, v) ∷ m) h a = (o.below_trans j k i h a.0, Above-trans j k m h a.1)

  insert-Above :
      (j k : K) (v : V) (m : Map K V) → o.below j k ≡ true → Above j m → Above j (insert k v m)
  unfolding insert
  insert-Above j k v [] h a = (h, tt)
  insert-Above j k v ((i, w) ∷ m) h a = ground (arith, insert-Above j k v m h a.1)

  remove-Above : (j k : K) (m : Map K V) → Above j m → Above j (remove k m)
  unfolding remove
  remove-Above j k [] a = tt
  remove-Above j k ((i, w) ∷ m) a = ground (arith, remove-Above j k m a.1)

  pub insert-IsSorted : (k : K) (v : V) (m : Map K V) → IsSorted m → IsSorted (insert k v m)
  unfolding insert
  insert-IsSorted k v [] s = (tt, tt)
  insert-IsSorted k v ((j, w) ∷ m) s = ground (
    arith,
    o.beq_iff k j,
    o.below_total k j,
    insert-IsSorted k v m s.1,
    insert-Above j k v m,
    Above-trans k j m,
  )

  pub remove-IsSorted : (k : K) (m : Map K V) → IsSorted m → IsSorted (remove k m)
  unfolding remove
  remove-IsSorted k [] s = tt
  remove-IsSorted k ((j, w) ∷ m) s = ground (arith, remove-IsSorted k m s.1, remove-Above j k m s.0)

  pub length-insert : (k : K) (v : V) (m : Map K V) → length (insert k v m) ≤ length m + 1
  unfolding insert
  length-insert k v [] = omega arith
  length-insert k v ((j, w) ∷ m) = ground (arith, length-insert k v m)

  pub length-remove : (k : K) (m : Map K V) → length (remove k m) ≤ length m
  unfolding remove
  length-remove k [] = omega arith
  length-remove k ((j, w) ∷ m) = ground (arith, length-remove k m)

  pub get-Above : (k j : K) (m : Map K V) → Above k m → o.below j k ≡ true → get j m ≡ none
  unfolding get
  get-Above k j [] a h = refl
  get-Above k j ((i, w) ∷ m) a h =
      ground (arith, get-Above k j m a.1 h, o.beq_iff j i, o.below_irrefl i, o.below_trans j k i)

  pub get-Above_self : (k : K) (m : Map K V) → Above k m → get k m ≡ none
  unfolding get
  get-Above_self k [] a = refl
  get-Above_self k ((i, w) ∷ m) a =
      ground (arith, get-Above_self k m a.1, o.beq_iff k i, o.below_irrefl i)

  -- A missing key has nothing to remove.
  pub remove-id : (k : K) (m : Map K V) → get k m ≡ none → remove k m ≡ m
  unfolding get remove
  remove-id k [] h = refl
  remove-id k ((j, w) ∷ m) h = ground (arith, remove-id k m)

  -- A key that is bound is one binding less.
  pub length-remove-some :
      (k : K) (m : Map K V) {v : V} → get k m ≡ some v → length (remove k m) < length m
  unfolding get remove
  length-remove-some k [] h = cc
  length-remove-some k ((j, w) ∷ m) {v} h =
      ground (arith, length-remove k m, length-remove-some k m {v = v})

  below_none : (k j : K) (m : Map K V) → Above j m → o.below k j ≡ true → get k m ≡ none
  below_none k j m a h = get-Above_self k m (Above-trans k j m h a)

  -- A write to a key that is bound, in a sorted map, adds no binding.
  pub length-insert-some :
      (k : K) (v : V) (m : Map K V) {w : V}
      → IsSorted m
      → get k m ≡ some w
      → length (insert k v m) ≡ length m
  unfolding get insert
  length-insert-some k v [] s h = cc
  length-insert-some k v ((j, u) ∷ m) {w} s h =
      ground (arith, length-insert-some k v m {w = w} s.1, below_none k j m s.0)
