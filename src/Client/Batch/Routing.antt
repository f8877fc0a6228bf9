-- ===== src/Client/Batch/Routing.antt =====
-- The bounds that every handler keeps: crates/obby-client/src/batch.rs.
use obby_client.Base.{
  ℕ, ◌≤◌, ◌≡◌, refl, Option, none, some, List, [], ◌∷◌, Text, same, length, length-append, leb,
  arith, Bool-cases, Option-cases, inl, inr, text_ord, text,
}
use obby_client.Base.OrdMap
use obby_client.Base.OrdMap.{Map, get-insert, get-remove}
use obby_client.Base.OrdMap.Sorted.{
  IsSorted, insert-IsSorted, remove-IsSorted, length-insert, length-remove, length-insert-some,
}
use obby_client.Proto.Message
use obby_client.Proto.Message.{Message}
use obby_client.Client.Batch.{
  OpenBatch, Batches, push_new, push, with_max_buffered, fresh, open_under, open_marked, open_batch,
  close_reference, close, route_into, route_tagged, route, drop_all,
}

abbrev Fits : ℕ → Option OpenBatch → Type 0
Fits limit none = Unit
Fits limit (some b) = length b.messages ≤ limit

-- No batch buffers more than `max_buffered` messages, and no more than `max_open` are open.
pub record IsBounded (s : Batches) : Type 0 where
  pub sorted : IsSorted s.by_reference
  pub open_le : length s.by_reference ≤ s.max_open
  pub buffered_le : (r : Text) → Fits s.max_buffered (OrdMap.get r s.by_reference)

push_new-le :
    (m : Message) (limit : ℕ) (seen : List Text) (b : OpenBatch)
    → length b.messages ≤ limit
    → length (push_new m limit seen b).messages ≤ limit
unfolding push_new
push_new-le m limit seen b h = ground (arith, length-append b.messages (m ∷ []))

push-le :
    (m : Message) (limit : ℕ) (b : OpenBatch)
    → length b.messages ≤ limit
    → length (push m limit b).messages ≤ limit
unfolding push
push-le m limit b h = elim (Option-cases (Message.tag m (text "msgid"))) [
  | inl e ↦ rw e (ground (arith, push_new-le m limit b.seen b h))
  | inr (id, e) ↦ rw e (ground (arith, push_new-le m limit (id ∷ b.seen) b h))
]

Fits-insert :
    (limit : ℕ) (k j : Text) (b : OpenBatch) (m : Map Text OpenBatch)
    → length b.messages ≤ limit
    → Fits limit (OrdMap.get j m)
    → Fits limit (OrdMap.get j (OrdMap.insert k b m))
Fits-insert limit k j b m h f =
    rw (get-insert k j b m) (elim (Bool-cases (same k j)) [ inl e ↦ rw e h | inr e ↦ rw e f ])

Fits-remove :
    (limit : ℕ) (k j : Text) (m : Map Text OpenBatch)
    → Fits limit (OrdMap.get j m)
    → Fits limit (OrdMap.get j (OrdMap.remove k m))
Fits-remove limit k j m f =
    rw (get-remove k j m) (elim (Bool-cases (same k j)) [ inl e ↦ rw e tt | inr e ↦ rw e f ])

open_under-IsBounded :
    (m : Message) (reference kind : Text) (s : Batches)
    → IsBounded s
    → IsBounded (open_under m reference kind s)
unfolding open_under
open_under-IsBounded m reference kind s h =
    elim (Bool-cases (OrdMap.contains_key reference s.by_reference)) [
      | inl held ↦ rw held h
      | inr free ↦ elim (Bool-cases (leb s.max_open (length s.by_reference))) [
        | inl full ↦ rw (free, full) h
        | inr room ↦
            rw (free, room)
              (record {
                sorted = insert-IsSorted reference (fresh m kind) s.by_reference h.sorted;
                open_le = ground (arith, length-insert reference (fresh m kind) s.by_reference);
                buffered_le = λ r.
                    Fits-insert s.max_buffered reference r (fresh m kind) s.by_reference
                      (unfold fresh in omega arith) (h.buffered_le r);
              })
      ]
    ]

open_marked-IsBounded :
    (m : Message) (r k : Option Text) (s : Batches) → IsBounded s → IsBounded (open_marked m r k s)
unfolding open_marked
open_marked-IsBounded m (some r) (some k) s h = open_under-IsBounded m r k s h
open_marked-IsBounded m (some r) none s h = h
open_marked-IsBounded m none k s h = h

close_reference-IsBounded :
    (r : Option Text) (s : Batches) → IsBounded s → IsBounded (close_reference r s).1
unfolding close_reference
close_reference-IsBounded none s h = h
close_reference-IsBounded (some r) s h = record {
  sorted = remove-IsSorted r s.by_reference h.sorted;
  open_le = omega (arith, length-remove r s.by_reference, h.open_le);
  buffered_le = λ j. Fits-remove s.max_buffered r j s.by_reference (h.buffered_le j);
}

route_into-IsBounded :
    (m : Message) (r : Text) (o : Option OpenBatch) (s : Batches)
    → OrdMap.get r s.by_reference ≡ o
    → IsBounded s
    → IsBounded (route_into m r o s).1
unfolding route_into
route_into-IsBounded m r none s e h = h
route_into-IsBounded m r (some b) s e h =
    let f : Fits s.max_buffered (some b) = rw e at (h.buffered_le r) in
    record {
      sorted = insert-IsSorted r (push m s.max_buffered b) s.by_reference h.sorted;
      open_le = omega (
        arith,
        length-insert-some r (push m s.max_buffered b) s.by_reference {w = b} h.sorted e,
        h.open_le,
      );
      buffered_le = λ j.
          Fits-insert s.max_buffered r j (push m s.max_buffered b) s.by_reference
            (push-le m s.max_buffered b f) (h.buffered_le j);
    }

route_tagged-IsBounded :
    (m : Message) (t : Option Text) (s : Batches) → IsBounded s → IsBounded (route_tagged m t s).1
unfolding route_tagged
route_tagged-IsBounded m none s h = h
route_tagged-IsBounded m (some r) s h = route_into-IsBounded m r _ s refl h

-- One event on the connection that the framing sees.
pub data Event : Type 0 where
  opened closed routed : Message → Event
  dropped : Event

unfoldable pub step : Event → Batches → Batches
step (opened m) s = open_batch m s
step (closed m) s = (close m s).1
step (routed m) s = (route m s).1
step dropped s = drop_all s

step-IsBounded : (e : Event) (s : Batches) → IsBounded s → IsBounded (step e s)
unfolding step open_batch close route drop_all
step-IsBounded (opened m) s h = open_marked-IsBounded m _ _ s h
step-IsBounded (closed m) s h = close_reference-IsBounded _ s h
step-IsBounded (routed m) s h = route_tagged-IsBounded m _ s h
step-IsBounded dropped s h = record {
  sorted = tt;
  open_le = omega arith;
  buffered_le = λ r. unfold OrdMap.get in tt;
}

unfoldable pub run : List Event → Batches → Batches
run [] s = s
run (e ∷ es) s = run es (step e s)

run-IsBounded : (es : List Event) (s : Batches) → IsBounded s → IsBounded (run es s)
unfolding run
run-IsBounded [] s h = h
run-IsBounded (e ∷ es) s h = run-IsBounded es (step e s) (step-IsBounded e s h)

-- The two limits of a tracker.
abbrev pub HasLimits : ℕ → ℕ → Batches → Type 0
HasLimits n k s = (s.max_buffered ≡ n) × (s.max_open ≡ k)

open_under-HasLimits :
    {n k : ℕ} (m : Message) (reference kind : Text) (s : Batches)
    → HasLimits n k s
    → HasLimits n k (open_under m reference kind s)
unfolding open_under
open_under-HasLimits m reference kind s h =
    elim (Bool-cases (OrdMap.contains_key reference s.by_reference)) [
      | inl e ↦ rw e h
      | inr e ↦ elim (Bool-cases (leb s.max_open (length s.by_reference))) [
        | inl f ↦ rw (e, f) h
        | inr f ↦ rw (e, f) h
      ]
    ]

open_marked-HasLimits :
    {n k : ℕ} (m : Message) (r t : Option Text) (s : Batches)
    → HasLimits n k s
    → HasLimits n k (open_marked m r t s)
unfolding open_marked
open_marked-HasLimits m (some r) (some t) s h = open_under-HasLimits m r t s h
open_marked-HasLimits m (some r) none s h = h
open_marked-HasLimits m none t s h = h

close_reference-HasLimits :
    {n k : ℕ} (r : Option Text) (s : Batches)
    → HasLimits n k s
    → HasLimits n k (close_reference r s).1
unfolding close_reference
close_reference-HasLimits none s h = h
close_reference-HasLimits (some r) s h = h

route_into-HasLimits :
    {n k : ℕ} (m : Message) (r : Text) (o : Option OpenBatch) (s : Batches)
    → HasLimits n k s
    → HasLimits n k (route_into m r o s).1
unfolding route_into
route_into-HasLimits m r none s h = h
route_into-HasLimits m r (some b) s h = h

route_tagged-HasLimits :
    {n k : ℕ} (m : Message) (o : Option Text) (s : Batches)
    → HasLimits n k s
    → HasLimits n k (route_tagged m o s).1
unfolding route_tagged
route_tagged-HasLimits m none s h = h
route_tagged-HasLimits m (some r) s h = route_into-HasLimits m r _ s h

pub run-HasLimits :
    {n k : ℕ} (es : List Event) (s : Batches) → HasLimits n k s → HasLimits n k (run es s)
unfolding run step open_batch close route drop_all
run-HasLimits [] s h = h
run-HasLimits (opened m ∷ es) s h =
    run-HasLimits es (open_batch m s) (open_marked-HasLimits m _ _ s h)
run-HasLimits (closed m ∷ es) s h = run-HasLimits es (close m s).1 (close_reference-HasLimits _ s h)
run-HasLimits (routed m ∷ es) s h = run-HasLimits es (route m s).1 (route_tagged-HasLimits m _ s h)
run-HasLimits (dropped ∷ es) s h = run-HasLimits es (drop_all s) h

-- Whatever lines a server sends, in whatever order, no batch ever buffers more messages than the
-- bound that the tracker was made with, no more batches are open than its limit, and both stay
-- what they were: the bound that was given and 64.
pub run-new_IsBounded :
    (es : List Event) (n : ℕ)
    → IsBounded (run es (with_max_buffered n)) × HasLimits n 64 (run es (with_max_buffered n))
run-new_IsBounded es n = (
  run-IsBounded es (with_max_buffered n) (
      unfold with_max_buffered OrdMap.get in
      record { sorted = tt; open_le = omega arith; buffered_le = λ r. tt }),
  run-HasLimits es (with_max_buffered n) (unfold with_max_buffered in (refl, refl)),
)
