-- ===== src/Client/Timer/Drain.antt =====
-- `drain_due`: what is taken out of a map by deadline, what stays, and in which order.
use obby_client.Base.{
  ℕ, ◌≤◌, ◌≡◌, refl, ap, ◌∙◌, Bool, true, false, ◌||◌, Option, none, some, List, [], ◌∷◌, any, leb,
  or_else, if◌then◌else◌, arith, Bool-cases, Option-cases, inl, inr, Ord, All,
}
use obby_client.Base.OrdMap
use obby_client.Base.OrdMap.{Map, get-remove}
use obby_client.Base.OrdMap.Sorted.{IsSorted, Above, get-Above_self}
use obby_client.Client.Timer.{due, insert_due, sort_due, keep_found, take_each, drain_due}

-- The entry, where it is due, and where it is not.
abbrev pub if_due {κ} : {V : Type κ} (deadline_of : V → ℕ) → ℕ → Option V → Option V
if_due deadline_of now none = none
if_due deadline_of now (some v) = if leb (deadline_of v) now then some v else none

abbrev pub if_later {κ} : {V : Type κ} (deadline_of : V → ℕ) → ℕ → Option V → Option V
if_later deadline_of now none = none
if_later deadline_of now (some v) = if leb (deadline_of v) now then none else some v

-- The deadlines of a list of entries do not fall, and start at `from` or later.
abbrev pub Ascends {ℓ κ} :
    {K : Type ℓ} {V : Type κ} (deadline_of : V → ℕ) → ℕ → List (K × V) → Type 0
Ascends deadline_of from [] = Unit
Ascends deadline_of from ((k, v) ∷ es) =
    (from ≤ deadline_of v) × Ascends deadline_of (deadline_of v) es

abbrev is_due {κ} : {V : Type κ} (deadline_of : V → ℕ) → ℕ → Option V → Bool
is_due deadline_of now none = false
is_due deadline_of now (some v) = leb (deadline_of v) now

later_cases {κ} :
    {V : Type κ} (deadline_of : V → ℕ) (now : ℕ) (r : Option V)
    → (if is_due deadline_of now r then none else r) ≡ if_later deadline_of now r
later_cases deadline_of now none = refl
later_cases deadline_of now (some v) = refl

due_cases {κ} :
    {V : Type κ} (deadline_of : V → ℕ) (now : ℕ) (r : Option V)
    → (if is_due deadline_of now r then r else none) ≡ if_due deadline_of now r
due_cases deadline_of now none = refl
due_cases deadline_of now (some v) = refl

module _ {ℓ} {K : Type ℓ} ⦃o : Ord K⦄ where
  abbrev has_key : K → List (ℕ × K) → Bool
  has_key k es = any (λ e. o.beq k e.1) es

  has_key-insert_due :
      (k : K) (e : ℕ × K) (es : List (ℕ × K))
      → has_key k (insert_due e es) ≡ (o.beq k e.1 || has_key k es)
  unfolding any insert_due
  has_key-insert_due k e [] = refl
  has_key-insert_due k e (f ∷ es) = ground (arith, has_key-insert_due k e es)

  has_key-sort_due : (k : K) (es : List (ℕ × K)) → has_key k (sort_due es) ≡ has_key k es
  unfolding sort_due any
  has_key-sort_due k [] = refl
  has_key-sort_due k (e ∷ es) =
      has_key-insert_due k e (sort_due es) ∙ ap (λ b. o.beq k e.1 || b) (has_key-sort_due k es)

module _ {ℓ} {K : Type ℓ} where
  -- The order of the drained entries.
  abbrev Rises : ℕ → List (ℕ × K) → Type 0
  Rises from [] = Unit
  Rises from (e ∷ es) = (from ≤ e.0) × Rises e.0 es

  Rises-insert_due :
      (from : ℕ) (e : ℕ × K) (es : List (ℕ × K))
      → from ≤ e.0
      → Rises from es
      → Rises from (insert_due e es)
  unfolding insert_due
  Rises-insert_due from e [] h r = (h, tt)
  Rises-insert_due from e (f ∷ es) h r = ground (arith, Rises-insert_due f.0 e es)

  Rises-sort_due : (es : List (ℕ × K)) → Rises 0 (sort_due es)
  unfolding sort_due
  Rises-sort_due [] = tt
  Rises-sort_due (e ∷ es) = Rises-insert_due 0 e (sort_due es) (omega arith) (Rises-sort_due es)

-- The entry under the key, if there is one, has the deadline that was noted.
abbrev Notes {κ} : {V : Type κ} → (V → ℕ) → Option V → ℕ → Type 0
Notes deadline_of none at = Unit
Notes deadline_of (some v) at = deadline_of v ≡ at

module _ {ℓ κ} {K : Type ℓ} {V : Type κ} ⦃o : Ord K⦄ where
  has_key-due :
      (deadline_of : V → ℕ) (now : ℕ) (k : K) (m : Map K V)
      → IsSorted m
      → has_key k (due deadline_of now m) ≡ is_due deadline_of now (OrdMap.get k m)
  unfolding any due OrdMap.get
  has_key-due deadline_of now k [] s = refl
  has_key-due deadline_of now k ((j, v) ∷ m) s = elim (Bool-cases (o.beq k j)) [
    | inl e ↦ ground (
      arith,
      has_key-due deadline_of now k m s.1,
      get-Above_self j m s.0,
      ap (λ x. OrdMap.get x m) ((o.beq_iff k j).0 e),
    )
    | inr e ↦ ground (arith, has_key-due deadline_of now k m s.1)
  ]

  get-keep_found :
      (k j : K) (r : Option V) (rest : List (K × V))
      → OrdMap.get k (keep_found j r rest)
        ≡ (if o.beq k j then or_else r (OrdMap.get k rest) else OrdMap.get k rest)
  unfolding OrdMap.get
  get-keep_found k j none rest = ground arith
  get-keep_found k j (some v) rest = refl

  get-take_each :
      (k : K) (es : List (ℕ × K)) (m : Map K V)
      → (OrdMap.get k (take_each es m).1 ≡ (if has_key k es then none else OrdMap.get k m))
        × (OrdMap.get k (take_each es m).0 ≡ (if has_key k es then OrdMap.get k m else none))
  unfolding any take_each
  get-take_each k [] m = (refl, unfold OrdMap.get in refl)
  get-take_each k ((at, j) ∷ es) m =
      let (left, found) = get-take_each k es (OrdMap.remove j m) in
      (
        ground (arith, left, get-remove j k m, o.beq_iff j k, o.beq_iff k j),
        rw (get-keep_found k j (OrdMap.get j m) (take_each es (OrdMap.remove j m)).0)
            (elim (Bool-cases (o.beq k j)) [
              | inl e ↦ ground (
                arith,
                found,
                get-remove j k m,
                o.beq_iff j k,
                ap (λ x. OrdMap.get x m) ((o.beq_iff k j).0 e),
              )
              | inr e ↦ ground (arith, found, get-remove j k m, o.beq_iff j k, o.beq_iff k j)
            ]),
      )

  abbrev Matches : (V → ℕ) → Map K V → List (ℕ × K) → Type 0
  Matches deadline_of m es = All (λ e. Notes deadline_of (OrdMap.get e.1 m) e.0) es

  Matches-remove :
      (deadline_of : V → ℕ) (k : K) (m : Map K V) (es : List (ℕ × K))
      → Matches deadline_of m es
      → Matches deadline_of (OrdMap.remove k m) es
  Matches-remove deadline_of k m [] h = tt
  Matches-remove deadline_of k m ((at, j) ∷ es) h = (
    rw (get-remove k j m) (elim (Bool-cases (o.beq k j)) [ inl e ↦ rw e tt | inr e ↦ rw e h.0 ]),
    Matches-remove deadline_of k m es h.1,
  )

  Ascends-weaken :
      (deadline_of : V → ℕ) (a b : ℕ) (es : List (K × V))
      → a ≤ b
      → Ascends deadline_of b es
      → Ascends deadline_of a es
  Ascends-weaken deadline_of a b [] h r = tt
  Ascends-weaken deadline_of a b ((k, v) ∷ es) h r = (omega arith, r.1)

  Ascends-take_each :
      (deadline_of : V → ℕ) (from : ℕ) (es : List (ℕ × K)) (m : Map K V)
      → Rises from es
      → Matches deadline_of m es
      → Ascends deadline_of from (take_each es m).0
  unfolding take_each
  Ascends-take_each deadline_of from [] m r h = tt
  Ascends-take_each deadline_of from ((at, k) ∷ es) m r h =
      let rest =
        Ascends-take_each deadline_of at es (OrdMap.remove k m) r.1
          (Matches-remove deadline_of k m es h.1) in
      elim (Option-cases (OrdMap.get k m)) [
        | inl e ↦ rw e (Ascends-weaken deadline_of from at _ r.0 rest)
        | inr (v, e) ↦
            let n : Notes deadline_of (some v) at = rw e at h.0 in
            rw e (omega arith, Ascends-weaken deadline_of (deadline_of v) at _ (omega arith) rest)
      ]

  Above-due :
      (deadline_of : V → ℕ) (now : ℕ) (k : K) (m : Map K V)
      → Above k m
      → All (λ e. o.below k e.1 ≡ true) (due deadline_of now m)
  unfolding due
  Above-due deadline_of now k [] a = tt
  Above-due deadline_of now k ((j, v) ∷ m) a = ground (arith, Above-due deadline_of now k m a.1)

  Matches-cons :
      (deadline_of : V → ℕ) (k : K) (v : V) (m : Map K V) (es : List (ℕ × K))
      → All (λ e. o.below k e.1 ≡ true) es
      → Matches deadline_of m es
      → Matches deadline_of ((k, v) ∷ m) es
  unfolding OrdMap.get
  Matches-cons deadline_of k v m [] a h = tt
  Matches-cons deadline_of k v m ((at, j) ∷ es) a h = (
    ground (arith, o.beq_iff j k, o.below_irrefl j, ap (λ x. o.below x j)),
    Matches-cons deadline_of k v m es a.1 h.1,
  )

  get-first : (k : K) (v : V) (m : Map K V) → OrdMap.get k ((k, v) ∷ m) ≡ some v
  unfolding OrdMap.get
  get-first k v m = rw ((o.beq_iff k k).1 refl)

  Matches-due :
      (deadline_of : V → ℕ) (now : ℕ) (m : Map K V)
      → IsSorted m
      → Matches deadline_of m (due deadline_of now m)
  unfolding due
  Matches-due deadline_of now [] s = tt
  Matches-due deadline_of now ((k, v) ∷ m) s =
      let rest =
        Matches-cons deadline_of k v m _ (Above-due deadline_of now k m s.0)
          (Matches-due deadline_of now m s.1) in
      elim (Bool-cases (leb (deadline_of v) now)) [
        | inl e ↦ rw e (rw (get-first k v m) refl, rest)
        | inr e ↦ rw e rest
      ]

  Matches-insert_due :
      (deadline_of : V → ℕ) (m : Map K V) (e : ℕ × K) (es : List (ℕ × K))
      → Notes deadline_of (OrdMap.get e.1 m) e.0
      → Matches deadline_of m es
      → Matches deadline_of m (insert_due e es)
  unfolding insert_due
  Matches-insert_due deadline_of m e [] n h = (n, tt)
  Matches-insert_due deadline_of m e (f ∷ es) n h = elim (Bool-cases (leb e.0 f.0)) [
    | inl l ↦ rw l (n, h)
    | inr l ↦ rw l (h.0, Matches-insert_due deadline_of m e es n h.1)
  ]

  Matches-sort_due :
      (deadline_of : V → ℕ) (m : Map K V) (es : List (ℕ × K))
      → Matches deadline_of m es
      → Matches deadline_of m (sort_due es)
  unfolding sort_due
  Matches-sort_due deadline_of m [] h = tt
  Matches-sort_due deadline_of m (e ∷ es) h =
      Matches-insert_due deadline_of m e (sort_due es) h.0 (Matches-sort_due deadline_of m es h.1)

  -- What draining a map promises: the map keeps exactly the entries that are not yet due, the
  -- list has exactly those that are, and the list is in the order of the deadlines.
  pub record IsDrained (deadline_of : V → ℕ) (now : ℕ) (m : Map K V) (r : List (K × V) × Map K V)
      : Type (ℓ ⊔ κ) where
    pub left : (k : K) → OrdMap.get k r.1 ≡ if_later deadline_of now (OrdMap.get k m)
    pub taken : (k : K) → OrdMap.get k r.0 ≡ if_due deadline_of now (OrdMap.get k m)
    pub ordered : Ascends deadline_of 0 r.0

  -- Draining a sorted map takes out the entries that are due, all of them and no other, the
  -- earliest first.
  pub drain_due-IsDrained :
      (deadline_of : V → ℕ) (now : ℕ) (m : Map K V)
      → IsSorted m
      → IsDrained deadline_of now m (drain_due deadline_of now m)
  unfolding drain_due
  drain_due-IsDrained deadline_of now m s =
      let es = sort_due (due deadline_of now m) in
      let keys =
        λ (k : K). has_key-sort_due k (due deadline_of now m) ∙ has_key-due deadline_of now k m s in
      record {
        left = λ k.
            (get-take_each k es m).0 ∙ rw (keys k) (later_cases deadline_of now (OrdMap.get k m));
        taken = λ k.
            (get-take_each k es m).1 ∙ rw (keys k) (due_cases deadline_of now (OrdMap.get k m));
        ordered =
            Ascends-take_each deadline_of 0 es m (Rises-sort_due (due deadline_of now m))
              (Matches-sort_due deadline_of m _ (Matches-due deadline_of now m s));
      }
