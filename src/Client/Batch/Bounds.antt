-- ===== src/Client/Batch/Bounds.antt =====
-- How much a connection buffers, and what one batch holds when it closes.
use obby_client.Base.{
  ℕ, zero, suc, ◌+◌, ◌-◌, ◌≤◌, ◌<◌, ◌≡◌, refl, sym, ap, ◌∙◌, true, false, Option, none, some, List,
  [], ◌∷◌, ◌++◌, append-nil, append_assoc, Text, text, same, any, length, length-append, take, ltb,
  if◌then◌else◌, arith, Bool-cases, Option-cases, inl, inr, text_ord,
}
use obby_client.Proto.Message
use obby_client.Proto.Message.{Message}
use obby_client.Client.Batch.{OpenBatch, is_seen, push_new, push, fresh}

msgid : Message → Option Text
msgid m = Message.tag m (text "msgid")

-- The messages whose id has not come before, neither among `seen` nor among themselves.
unfoldable pub dedup : List Text → List Message → List Message
unfolding msgid
dedup seen [] = []
dedup seen (m ∷ ms) = elim (msgid m) [
  | none ↦ m ∷ dedup seen ms
  | some id ↦ if any (same id) seen then dedup seen ms else m ∷ dedup (id ∷ seen) ms
]

-- A batch that the messages are pushed into, one by one.
unfoldable pub push_all : List Message → ℕ → OpenBatch → OpenBatch
push_all [] limit b = b
push_all (m ∷ ms) limit b = push_all ms limit (push m limit b)

push-overflowed :
    (m : Message) (limit : ℕ) (b : OpenBatch) → b.overflowed ≡ true → push m limit b ≡ b
unfolding push
push-overflowed m limit b h = ground arith

push_all-overflowed :
    (ms : List Message) (limit : ℕ) (b : OpenBatch) → b.overflowed ≡ true → push_all ms limit b ≡ b
unfolding push_all
push_all-overflowed [] limit b h = refl
push_all-overflowed (m ∷ ms) limit b h =
    ap (push_all ms limit) (push-overflowed m limit b h) ∙ push_all-overflowed ms limit b h

-- What a batch that still takes messages holds after more of them.
record Collects (ms : List Message) (limit : ℕ) (b r : OpenBatch) : Type 0 where
  messages : r.messages ≡ b.messages ++ take (limit - length b.messages) (dedup b.seen ms)
  overflowed : r.overflowed ≡ ltb (limit - length b.messages) (length (dedup b.seen ms))

abbrev Takes : ℕ → OpenBatch → Type 0
Takes limit b = (b.overflowed ≡ false) × (length b.messages ≤ limit)

ltb-suc : (a b : ℕ) → ltb a b ≡ ltb (suc a) (suc b)
ltb-suc a b = ground arith

take_nothing {ℓ} : {A : Type ℓ} (xs : List A) (n : ℕ) → xs ++ take n [] ≡ xs
take_nothing xs zero = append-nil xs
take_nothing xs (suc n) = append-nil xs

taken : Message → List Text → OpenBatch → OpenBatch
taken m seen b = record b { seen = seen; messages = b.messages ++ m ∷ [] }

push_new-full :
    (m : Message) (limit : ℕ) (seen : List Text) (b : OpenBatch)
    → limit ≤ length b.messages
    → push_new m limit seen b ≡ record b { overflowed = true }
unfolding push_new
push_new-full m limit seen b h = ground arith

push_new-room :
    (m : Message) (limit : ℕ) (seen : List Text) (b : OpenBatch)
    → length b.messages < limit
    → push_new m limit seen b ≡ taken m seen b
unfolding push_new taken
push_new-room m limit seen b h = ground arith

Collects-full :
    (m : Message) (ms d : List Message) (limit : ℕ) (b : OpenBatch)
    → limit ≤ length b.messages
    → dedup b.seen ms ≡ m ∷ d
    → Collects ms limit b (record b { overflowed = true })
Collects-full m ms d limit b h e =
    let z : limit - length b.messages ≡ 0 = omega arith in
    record { messages = rw (z, append-nil); overflowed = rw (z, e) (ground arith) }

Collects-room :
    (m : Message) (ms rest : List Message) (seen : List Text) (limit : ℕ) (b r : OpenBatch)
    → length b.messages < limit
    → dedup b.seen ms ≡ m ∷ dedup seen rest
    → Collects rest limit (taken m seen b) r
    → Collects ms limit b r
unfolding taken
Collects-room m ms rest seen limit b r h e c =
    let l : length (b.messages ++ m ∷ []) ≡ length b.messages + 1 =
      length-append b.messages (m ∷ []) in
    let z : limit - length b.messages ≡ suc (limit - (length b.messages + 1)) = omega arith in
    record {
      messages = rw (z, e) (rw l at c.messages ∙ append_assoc b.messages (m ∷ []) _);
      overflowed = rw (z, e) (rw l at c.overflowed ∙ ltb-suc (limit - (length b.messages + 1)) _);
    }

Takes-taken :
    (m : Message) (seen : List Text) (limit : ℕ) (b : OpenBatch)
    → Takes limit b
    → length b.messages < limit
    → Takes limit (taken m seen b)
unfolding taken
Takes-taken m seen limit b t h = (t.0, omega (arith, length-append b.messages (m ∷ [])))

-- The step at a message that the batch has not seen; the hypothesis on the rest is used where
-- the batch has room.
Collects-new :
    (m : Message) (ms : List Message) (seen : List Text) (limit : ℕ) (b : OpenBatch)
    → Takes limit b
    → push m limit b ≡ push_new m limit seen b
    → dedup b.seen (m ∷ ms) ≡ m ∷ dedup seen ms
    → (Takes limit (taken m seen b)
        → Collects ms limit (taken m seen b) (push_all ms limit (taken m seen b)))
    → Collects (m ∷ ms) limit b (push_all (m ∷ ms) limit b)
unfolding push_all
Collects-new m ms seen limit b t p d rest = elim (Bool-cases (ltb (length b.messages) limit)) [
  | inl room ↦
      rw (p, push_new-room m limit seen b (ground arith))
        (Collects-room m (m ∷ ms) ms seen limit b _ (ground arith) d
          (rest (Takes-taken m seen limit b t (ground arith))))
  | inr full ↦
      rw
        (
          p,
          push_new-full m limit seen b (ground arith),
          push_all-overflowed ms limit (record b { overflowed = true }) refl,
        )
        (Collects-full m (m ∷ ms) _ limit b (ground arith) d)
]

Collects-seen :
    (m : Message) (ms : List Message) (limit : ℕ) (b : OpenBatch)
    → push m limit b ≡ b
    → dedup b.seen (m ∷ ms) ≡ dedup b.seen ms
    → Collects ms limit b (push_all ms limit b)
    → Collects (m ∷ ms) limit b (push_all (m ∷ ms) limit b)
unfolding push_all
Collects-seen m ms limit b p d c =
    rw p (record { messages = rw d c.messages; overflowed = rw d c.overflowed })

push-none :
    (m : Message) (limit : ℕ) (b : OpenBatch)
    → b.overflowed ≡ false
    → msgid m ≡ none
    → push m limit b ≡ push_new m limit b.seen b
unfolding push msgid
push-none m limit b o e = ground arith

push-some :
    (m : Message) (limit : ℕ) (b : OpenBatch) (id : Text)
    → b.overflowed ≡ false
    → msgid m ≡ some id
    → push m limit b ≡ (if any (same id) b.seen then b else push_new m limit (id ∷ b.seen) b)
unfolding push msgid is_seen
push-some m limit b id o e = ground arith

dedup-none :
    (seen : List Text) (m : Message) (ms : List Message)
    → msgid m ≡ none
    → dedup seen (m ∷ ms) ≡ m ∷ dedup seen ms
unfolding dedup
dedup-none seen m ms e = ground arith

dedup-some :
    (seen : List Text) (m : Message) (ms : List Message) (id : Text)
    → msgid m ≡ some id
    → dedup seen (m ∷ ms) ≡ (if any (same id) seen then dedup seen ms else m ∷ dedup (id ∷ seen) ms)
unfolding dedup
dedup-some seen m ms id e = ground arith

push_all-Collects :
    (ms : List Message) (limit : ℕ) (b : OpenBatch)
    → Takes limit b
    → Collects ms limit b (push_all ms limit b)
push_all-Collects [] limit b t =
    unfold push_all dedup in
    record {
      messages = sym (take_nothing b.messages (limit - length b.messages));
      overflowed = ground arith;
    }
push_all-Collects (m ∷ ms) limit b t = elim (Option-cases (msgid m)) [
  | inl e ↦
      Collects-new m ms b.seen limit b t (push-none m limit b t.0 e) (dedup-none b.seen m ms e)
        (λ k. push_all-Collects ms limit (taken m b.seen b) k)
  | inr (id, e) ↦ elim (Bool-cases (any (same id) b.seen)) [
    | inl s ↦
        Collects-seen m ms limit b (push-some m limit b id t.0 e ∙ rw s)
          (dedup-some b.seen m ms id e ∙ rw s) (push_all-Collects ms limit b t)
    | inr s ↦
        Collects-new m ms (id ∷ b.seen) limit b t (push-some m limit b id t.0 e ∙ rw s)
          (dedup-some b.seen m ms id e ∙ rw s)
          (λ k. push_all-Collects ms limit (taken m (id ∷ b.seen) b) k)
  ]
]

-- A batch just opened, into which messages are pushed, holds those whose `msgid` has not come
-- before, in order of arrival, cut at the limit; and it is marked as overflowed exactly when
-- there were more of them than the limit.
pub push_all-dedup :
    (ms : List Message) (limit : ℕ) (m : Message) (kind : Text)
    → ((push_all ms limit (fresh m kind)).messages ≡ take limit (dedup [] ms))
      × ((push_all ms limit (fresh m kind)).overflowed ≡ ltb limit (length (dedup [] ms)))
unfolding fresh
push_all-dedup ms limit m kind =
    let c = push_all-Collects ms limit (fresh m kind) (refl, omega arith) in
    let z : limit - 0 ≡ limit = omega arith in (rw z at c.messages, rw z at c.overflowed)
