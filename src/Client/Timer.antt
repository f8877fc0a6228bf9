-- ===== src/Client/Timer.antt =====
-- Deadline scheduling: crates/obby-client/src/timer.rs.
pub mod Backoff
pub mod Drain
pub mod Deadlines
pub mod Expiry
use obby_client.Base.{
  ℕ, ◌≡◌, Bool, true, false, Option, none, some, List, [], ◌∷◌, map, leb, ltb, if◌then◌else◌, min,
  Ord,
}
use obby_client.Base.OrdMap
use obby_client.Base.OrdMap.{Map}

pub record Now : Type 0 where
  pub monotonic_ms : ℕ
  pub unix_ms : ℕ

module _ {ℓ} {K : Type ℓ} where
  -- `sort_by_key` is stable: an entry stays in front of those with the same deadline.
  unfoldable pub insert_due : ℕ × K → List (ℕ × K) → List (ℕ × K)
  insert_due e [] = e ∷ []
  insert_due e (f ∷ fs) = if leb e.0 f.0 then e ∷ f ∷ fs else f ∷ insert_due e fs

  unfoldable pub sort_due : List (ℕ × K) → List (ℕ × K)
  sort_due [] = []
  sort_due (e ∷ es) = insert_due e (sort_due es)

module _ {ℓ κ} {K : Type ℓ} {V : Type κ} where
  -- The entries that are due, each as its deadline and its key.
  unfoldable pub due : (V → ℕ) → ℕ → Map K V → List (ℕ × K)
  due deadline_of now [] = []
  due deadline_of now ((k, v) ∷ m) =
      if leb (deadline_of v) now
      then (deadline_of v, k) ∷ due deadline_of now m
      else due deadline_of now m

  abbrev pub keep_found : K → Option V → List (K × V) → List (K × V)
  keep_found k none rest = rest
  keep_found k (some v) rest = (k, v) ∷ rest

module _ {ℓ κ} {K : Type ℓ} {V : Type κ} ⦃o : Ord K⦄ where
  -- The `filter_map` that takes each entry out of the map.
  unfoldable pub take_each : List (ℕ × K) → Map K V → List (K × V) × Map K V
  take_each [] m = ([], m)
  take_each ((at, k) ∷ es) m =
      let (taken, left) = take_each es (OrdMap.remove k m) in
      (keep_found k (OrdMap.get k m) taken, left)

  -- `drain_due`: the entries taken, and the map without them.
  unfoldable pub drain_due : (V → ℕ) → ℕ → Map K V → List (K × V) × Map K V
  unfolding take_each due sort_due insert_due
  drain_due deadline_of now m = take_each (sort_due (due deadline_of now m)) m

-- `values().min()`.
unfoldable pub least {ℓ} : {K : Type ℓ} → Map K ℕ → Option ℕ
least [] = none
least ((k, v) ∷ m) = elim (least m) [ none ↦ some v | some w ↦ some (min v w) ]
