-- ===== src/Client/Monitor/Requests.antt =====
-- Requests that stay inside the server's limit: `batched` of crates/obby-client/src/monitor.rs.
use obby_client.Base.{
  ℕ, zero, suc, ◌≡◌, ◌≢◌, ◌≤◌, ◌-◌, refl, ap, ◌∙◌, not, List, [], ◌∷◌, ◌++◌, map, Text, Lacks, All,
  join, retain, is_nil, take, drop, max, length, length-take, take-append-drop, split-join, arith,
  chunks, chunks_fuel, length-drop,
}
use obby_client.Client.Monitor.{batched, split_targets}

-- The targets of all requests, in order.
unfoldable pub all_targets : List Text → List Text
all_targets [] = []
all_targets (r ∷ rs) = split_targets r ++ all_targets rs

-- A target that a comma-separated list can hold.
abbrev pub IsTarget : Text → Type 0
IsTarget t = (t ≢ []) × Lacks b',' t

retain-targets : (ts : List Text) → All IsTarget ts → retain (λ t. not (is_nil t)) ts ≡ ts
unfolding retain
retain-targets [] h = refl
retain-targets ([] ∷ ts) h = absurd (h.0.0 refl)
retain-targets ((c ∷ t) ∷ ts) h = ap (λ l. (c ∷ t) ∷ l) (retain-targets ts h.1)

targets-Lacks : (ts : List Text) → All IsTarget ts → All (Lacks b',') ts
targets-Lacks [] h = tt
targets-Lacks (t ∷ ts) h = (h.0.1, targets-Lacks ts h.1)

All-take : (n : ℕ) (ts : List Text) → All IsTarget ts → All IsTarget (take n ts)
All-take zero ts h = tt
All-take (suc n) [] h = tt
All-take (suc n) (t ∷ ts) h = (h.0, All-take n ts h.1)

All-drop : (n : ℕ) (ts : List Text) → All IsTarget ts → All IsTarget (drop n ts)
All-drop zero ts h = h
All-drop (suc n) [] h = tt
All-drop (suc n) (t ∷ ts) h = All-drop n ts h.1

split_targets-join :
    (t : Text) (ts : List Text)
    → All IsTarget (t ∷ ts)
    → split_targets (join b',' (t ∷ ts)) ≡ t ∷ ts
unfolding split_targets
split_targets-join t ts h =
    ap (retain (λ u. not (is_nil u))) (split-join b',' t ts (targets-Lacks (t ∷ ts) h))
    ∙ retain-targets (t ∷ ts) h

-- A request of at most so many targets, and at least one.
abbrev pub Within : ℕ → Text → Type 0
Within size r = (1 ≤ length (split_targets r)) × (length (split_targets r) ≤ size)

chunks_fuel-targets :
    (fuel n : ℕ) (ts : List Text)
    → length ts ≤ fuel
    → All IsTarget ts
    → (all_targets (map (join b',') (chunks_fuel fuel (suc n) ts)) ≡ ts)
      × All (Within (suc n)) (map (join b',') (chunks_fuel fuel (suc n) ts))
unfolding chunks_fuel all_targets
chunks_fuel-targets zero n [] l h = (refl, tt)
chunks_fuel-targets zero n (t ∷ ts) l h = absurd (omega arith)
chunks_fuel-targets (suc fuel) n [] l h = (refl, tt)
chunks_fuel-targets (suc fuel) n (t ∷ ts) l h =
    let rest =
      chunks_fuel-targets fuel n (drop n ts) (omega (arith, length-drop n ts))
        (All-drop n ts h.1) in
    let e = split_targets-join t (take n ts) (h.0, All-take n ts h.1) in
    (
      rw (e, rest.0) (ap (λ l. t ∷ l) (take-append-drop n ts)),
      (rw e (omega arith, omega (arith, length-take n ts)), rest.1),
    )

chunk_size : (limit : ℕ) → max limit 1 ≡ suc (limit - 1)
chunk_size limit = omega arith

-- The requests name every target once and in order, so none is lost, repeated or moved, and each
-- request names at least one target and no more than the limit, or one where the limit is 0,
-- provided that no target is empty or holds a comma.
pub batched-targets :
    (targets : List Text) (limit : ℕ)
    → All IsTarget targets
    → (all_targets (batched targets limit) ≡ targets)
      × All (Within (max limit 1)) (batched targets limit)
unfolding batched chunks
batched-targets targets limit h =
    rw (chunk_size limit) (chunks_fuel-targets (length targets) (limit - 1) targets (omega arith) h)
