-- ===== src/Client/Timer/Expiry.antt =====
-- What collecting the due deadlines leaves: crates/obby-client/src/timer.rs.
use obby_client.Base.{
  ℕ, ◌≡◌, ◌<◌, ◌≤◌, ◌∙◌, refl, sym, ap, Option, none, some, List, [], ◌∷◌, map, arith, Ord, All,
  min,
}
use obby_client.Base.OrdMap
use obby_client.Base.OrdMap.{Map}
use obby_client.Base.OrdMap.Sorted.{IsSorted, Above, remove-IsSorted, get-Above_self}
use obby_client.Client.Timer.{Now, take_each, drain_due, least, sort_due, due}
use obby_client.Client.Timer.Drain.{drain_due-IsDrained, if_later, if_due}
use obby_client.Client.Timer.Deadlines.{deadline_ord, Timers, expire, next}

module _ {ℓ κ} {K : Type ℓ} {V : Type κ} ⦃o : Ord K⦄ where
  pub take_each-IsSorted :
      (es : List (ℕ × K)) (m : Map K V) → IsSorted m → IsSorted (take_each es m).1
  unfolding take_each
  take_each-IsSorted [] m s = s
  take_each-IsSorted ((at, k) ∷ es) m s =
      take_each-IsSorted es (OrdMap.remove k m) (remove-IsSorted k m s)

  pub drain_due-IsSorted :
      (deadline_of : V → ℕ) (now : ℕ) (m : Map K V)
      → IsSorted m
      → IsSorted (drain_due deadline_of now m).1
  unfolding drain_due
  drain_due-IsSorted deadline_of now m s = take_each-IsSorted (sort_due (due deadline_of now m)) m s

  get-first : (k : K) (v : V) (m : Map K V) → OrdMap.get k ((k, v) ∷ m) ≡ some v
  unfolding OrdMap.get
  get-first k v m = rw ((o.beq_iff k k).1 refl) refl

  -- A key bound behind the first binding is bound in the whole list.
  get-rest :
      (j k : K) (v w : V) (m : Map K V)
      → Above k m
      → OrdMap.get j m ≡ some w
      → OrdMap.get j ((k, v) ∷ m) ≡ some w
  unfolding OrdMap.get
  get-rest j k v w m a e = ground (arith, o.beq_iff j k, get-Above_self k m a, e)

  -- A list of bindings in which no key is bound is empty.
  pub get-nil : (m : Map K V) → ((k : K) → OrdMap.get k m ≡ none) → m ≡ []
  get-nil [] h = refl
  get-nil ((k, v) ∷ m) h = let e = h k in ground (arith, get-first k v m, e)

  -- What holds of all bindings that are found holds along the list.
  pub All-get :
      {P : V → Type 0} (m : Map K V)
      → IsSorted m
      → ((k : K) (v : V) → OrdMap.get k m ≡ some v → P v)
      → All (λ e. P e.1) m
  All-get [] s h = tt
  All-get ((k, v) ∷ m) s h =
      (h k v (get-first k v m), All-get m s.1 (λ j w e. h j w (get-rest j k v w m s.0 e)))

if_twice :
    {V : Type 0} (f : V → ℕ) (first second : ℕ) (v : Option V)
    → second ≤ first
    → if_due f second (if_later f first v) ≡ none
if_twice f first second none h = refl
if_twice f first second (some v) h = ground arith

later-lt : (now : ℕ) (o : Option ℕ) {at : ℕ} → if_later (λ t. t) now o ≡ some at → now < at
later-lt now none e = ground arith
later-lt now (some v) e = ground arith

least-lt :
    {K : Type 0} (now : ℕ) (m : Map K ℕ) {at : ℕ}
    → All (λ e. now < e.1) m
    → least m ≡ some at
    → now < at
unfolding least
least-lt now [] a e = ground arith
least-lt now ((k, v) ∷ m) {at = at} a e = least_of (least m) (λ w r. least-lt now m a.1 r) refl e
  where
    least_of :
        (o : Option ℕ)
        → ((w : ℕ) → least m ≡ some w → now < w)
        → least m ≡ o
        → elim o [ none ↦ some v | some w ↦ some (min v w) ] ≡ some at
        → now < at
    least_of none ih r f = ground (arith, a.0)
    least_of (some w) ih r f = ground (arith, a.0, ih w r)

-- What has been collected is not collected again: a second call, at the same instant or at an
-- earlier one, returns nothing. The schedule is in the order of its keys.
pub expire-expire :
    (t : Timers) (now again : Now)
    → IsSorted t.deadlines
    → again.monotonic_ms ≤ now.monotonic_ms
    → (expire again (expire now t).1).0 ≡ []
unfolding expire
expire-expire t now again s h =
    let m = (drain_due (λ at. at) now.monotonic_ms t.deadlines).1 in
    let d = drain_due-IsDrained (λ at. at) now.monotonic_ms t.deadlines s in
    let d' =
      drain_due-IsDrained (λ at. at) again.monotonic_ms m
        (drain_due-IsSorted (λ at. at) now.monotonic_ms t.deadlines s) in
    ap (map (λ e. e.0)) (
      get-nil (drain_due (λ at. at) again.monotonic_ms m).0 (λ k.
        d'.taken k
        ∙ (ap (if_due (λ at. at) again.monotonic_ms) (d.left k)
            ∙ if_twice (λ at. at) now.monotonic_ms again.monotonic_ms (OrdMap.get k t.deadlines)
                h)))

-- After the due deadlines have been collected from a schedule in the order of its keys, the
-- earliest one left lies in the future, so a host that sleeps until then does not wake in a
-- busy loop.
pub next-expire :
    (t : Timers) (now : Now) {at : ℕ}
    → IsSorted t.deadlines
    → next (expire now t).1 ≡ some at
    → now.monotonic_ms < at
unfolding next expire
next-expire t now {at = at} s e =
    let d = drain_due-IsDrained (λ at. at) now.monotonic_ms t.deadlines s in
    least-lt now.monotonic_ms (drain_due (λ at. at) now.monotonic_ms t.deadlines).1
      (All-get _ (drain_due-IsSorted (λ at. at) now.monotonic_ms t.deadlines s)
        (λ k v g. later-lt now.monotonic_ms (OrdMap.get k t.deadlines) (sym (d.left k) ∙ g)))
      e
