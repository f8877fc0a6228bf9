-- ===== src/Client/Batch/Routed.antt =====
-- One open batch among others: which messages are routed into it: crates/obby-client/src/batch.rs.
use obby_client.Base.{
  ℕ, ◌≡◌, ◌≢◌, ◌∙◌, refl, ap, Bool, true, false, Option, none, some, List, [], ◌∷◌, ◌++◌, Text,
  text, same, same_iff, same_refl, length, leb, bind, strip_prefix, All, All-append, if◌then◌else◌,
  ◌==◌, arith, Bool-cases, Option-cases, inl, inr, text_ord, is_some,
}
use obby_client.Base.OrdMap
use obby_client.Base.OrdMap.{Map, get-insert, get-remove, contains_key-get}
use obby_client.Proto.Message
use obby_client.Proto.Message.{Message}
use obby_client.Client.Batch.{
  OpenBatch, Batches, push, fresh, open_under, open_marked, open_batch, close_reference, close,
  route_into, route_tagged, route,
}
use obby_client.Client.Batch.Bounds.{push_all}
use obby_client.Client.Batch.Routing.{
  Event, opened, closed, routed, dropped, step, run, HasLimits, run-HasLimits,
}

belongs_to : Text → Option Text → Bool
belongs_to r none = false
belongs_to r (some q) = same q r

-- The message names the batch in its tag.
unfoldable pub belongs : Text → Message → Bool
unfolding belongs_to
belongs r m = belongs_to r (Message.tag m (text "batch"))

-- The messages of one batch among what happens, in the order in which they come.
unfoldable pub members : Text → List Event → List Message
members r [] = []
members r (routed m ∷ es) = if belongs r m then m ∷ members r es else members r es
members r (opened m ∷ es) = members r es
members r (closed m ∷ es) = members r es
members r (dropped ∷ es) = members r es

as_list : Option Message → List Message
as_list none = []
as_list (some m) = m ∷ []

-- The messages that `route` hands back, to be handled at once.
unfoldable pub returned : List Event → Batches → List Message
unfolding as_list
returned [] s = []
returned (routed m ∷ es) s = as_list (route m s).0 ++ returned es (step (routed m) s)
returned (opened m ∷ es) s = returned es (step (opened m) s)
returned (closed m ∷ es) s = returned es (step (closed m) s)
returned (dropped ∷ es) s = returned es (step dropped s)

-- The event ends no batch with this reference.
abbrev pub Keeps : Text → Event → Type 0
Keeps r (opened m) = Unit
Keeps r (closed m) = Message.param m 0 ≢ some (b'-' ∷ r)
Keeps r (routed m) = Unit
Keeps r dropped = ⊥

held-contains :
    (r : Text) (m : Map Text OpenBatch) {b : OpenBatch}
    → OrdMap.get r m ≡ some b
    → OrdMap.contains_key r m ≡ true
held-contains r m h = contains_key-get r m ∙ ap is_some h

pub free-contains :
    (r : Text) (m : Map Text OpenBatch) → OrdMap.get r m ≡ none → OrdMap.contains_key r m ≡ false
free-contains r m h = contains_key-get r m ∙ ap is_some h

open_under-get :
    (m : Message) (q kind r : Text) (s : Batches) (b : OpenBatch)
    → OrdMap.get r s.by_reference ≡ some b
    → OrdMap.get r (open_under m q kind s).by_reference ≡ some b
unfolding open_under
open_under-get m q kind r s b h = elim (Bool-cases (OrdMap.contains_key q s.by_reference)) [
  | inl e ↦ rw e h
  | inr e ↦ elim (Bool-cases (leb s.max_open (length s.by_reference))) [
    | inl f ↦ rw (e, f) h
    | inr f ↦
        let other : same q r ≡ false =
          ground (arith, same_iff q r, held-contains r s.by_reference h) in
        rw (e, f, get-insert q r (fresh m kind) s.by_reference, other) h
  ]
]

open_marked-get :
    (m : Message) (p q : Option Text) (r : Text) (s : Batches) (b : OpenBatch)
    → OrdMap.get r s.by_reference ≡ some b
    → OrdMap.get r (open_marked m p q s).by_reference ≡ some b
unfolding open_marked
open_marked-get m (some p) (some q) r s b h = open_under-get m p q r s b h
open_marked-get m (some p) none r s b h = h
open_marked-get m none q r s b h = h

close_reference-get :
    (o : Option Text) (r : Text) (s : Batches)
    → o ≢ some r
    → OrdMap.get r (close_reference o s).1.by_reference ≡ OrdMap.get r s.by_reference
unfolding close_reference
close_reference-get none r s n = refl
close_reference-get (some q) r s n =
    let other : same q r ≡ false = ground (arith, same_iff q r, λ (e : q ≡ r). n (ap some e)) in
    rw (get-remove q r s.by_reference, other) refl

-- A batch that is open takes a routed message exactly if the message names it, and then the
-- message is not handed back.
route_tagged-get :
    (m : Message) (o : Option Text) (r : Text) (s : Batches) (b : OpenBatch)
    → Message.tag m (text "batch") ≡ o
    → OrdMap.get r s.by_reference ≡ some b
    → (OrdMap.get r (route_tagged m o s).1.by_reference
        ≡ some (if belongs_to r o then push m s.max_buffered b else b))
      × All (λ k. belongs r k ≡ false) (as_list (route_tagged m o s).0)
unfolding route_tagged route_into belongs belongs_to as_list
route_tagged-get m none r s b t h = (h, (rw t refl, tt))
route_tagged-get m (some q) r s b t h = elim (Bool-cases (same q r)) [
  | inl e ↦
      let i : q ≡ r = ground (arith, same_iff q r) in
      rw (i, h, get-insert r r (push m s.max_buffered b) s.by_reference, same_refl r) (refl, tt)
  | inr e ↦ elim (Option-cases (OrdMap.get q s.by_reference)) [
    | inl g ↦ rw (e, g) (h, (rw t e, tt))
    | inr (c, g) ↦ rw (e, g, get-insert q r (push m s.max_buffered c) s.by_reference, e) (h, tt)
  ]
]

dashed : (p : Text) {r : Text} → strip_prefix b'-' p ≡ some r → p ≡ b'-' ∷ r
unfolding strip_prefix
dashed [] h = cc
dashed (c ∷ p) {r} h = elim (Bool-cases (c == b'-')) [
  | inl e ↦
      let h' : some p ≡ some r = rw e at h in
      let i : p ≡ r = cc in let j : c ≡ b'-' = ground (arith, e) in rw (i, j) refl
  | inr e ↦ let i : none ≡ some r = rw e at h in cc
]

-- A closing line that does not name the batch takes it from nobody.
not_named : (o : Option Text) (r : Text) → o ≢ some (b'-' ∷ r) → bind o (strip_prefix b'-') ≢ some r
not_named none r n e = cc
not_named (some p) r n e = n (ap some (dashed p e))

pub step-HasLimits :
    {n k : ℕ} (e : Event) (s : Batches) → HasLimits n k s → HasLimits n k (step e s)
step-HasLimits e s h = unfold run in run-HasLimits (e ∷ []) s h

-- An open batch takes the messages that name it, whatever happens to the others.
pub run-get :
    {n k : ℕ} (es : List Event) (r : Text) (s : Batches) (b : OpenBatch)
    → HasLimits n k s
    → All (Keeps r) es
    → OrdMap.get r s.by_reference ≡ some b
    → (OrdMap.get r (run es s).by_reference ≡ some (push_all (members r es) n b))
      × All (λ m. belongs r m ≡ false) (returned es s)
unfolding run step members returned push_all
run-get [] r s b l h e = (e, tt)
run-get (opened m ∷ es) r s b l h e =
    run-get es r (step (opened m) s) b (step-HasLimits (opened m) s l) h.1
      (unfold open_batch in open_marked-get m _ _ r s b e)
run-get (closed m ∷ es) r s b l h e =
    run-get es r (step (closed m) s) b (step-HasLimits (closed m) s l) h.1
      (unfold close in close_reference-get _ r s (not_named _ r h.0) ∙ e)
run-get (dropped ∷ es) r s b l h e = absurd h.0
run-get {n = n} (routed m ∷ es) r s b l h e =
    let (g, back) = route_tagged-get m _ r s b refl e in
    let (f, others) =
      run-get es r (route m s).1 (if belongs r m then push m s.max_buffered b else b)
        (step-HasLimits (routed m) s l) h.1 (unfold route belongs in g) in
    let same_push : some
          (push_all (members r es) n (if belongs r m then push m s.max_buffered b else b))
        ≡ some (push_all (members r (routed m ∷ es)) n b) =
      elim (Bool-cases (belongs r m)) [ inl x ↦ rw (x, l.0) refl | inr x ↦ rw x refl ] in
    (f ∙ same_push, All-append _ (as_list (route m s).0) _ (unfold route in back) others)
