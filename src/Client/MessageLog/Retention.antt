-- ===== src/Client/MessageLog/Retention.antt =====
-- What a log keeps: `MessageLog` of crates/obby-client/src/model.rs.
use obby_client.Base.{
  ℕ, ◌≡◌, ◌≤◌, ◌<◌, refl, ap, ◌∙◌, subst, inl, inr, true, false, Bool-cases, Option, some, List, [],
  ◌∷◌, Text, length, ltb, max, arith, text_ord, Ord,
}
use obby_client.Base.OrdMap
use obby_client.Base.OrdMap.{Map, get-insert}
use obby_client.Base.OrdMap.Sorted.{IsSorted, insert-IsSorted, length-insert}
use obby_client.Client.MessageLog.{
  MessageKey, key_ord, ChatMessage, MessageLog, with_retention, trim_loop, trim, is_held,
  note_msgid, insert_under, insert, forget_msgid, contains, get,
}

-- The messages are in order, the oldest first, each key once, and no more than `retention`.
pub record IsKept {L : Type 0} (log : MessageLog L) : Type 0 where
  pub sorted : IsSorted log.messages
  pub bounded : length log.messages ≤ log.retention

module _ {L : Type 0} where
  trim_loop-kept :
      (n : ℕ) (ms : Map MessageKey (ChatMessage L)) (ids : Map Text MessageKey)
      → IsSorted ms
      → IsSorted (trim_loop n ms ids).0 × (length (trim_loop n ms ids).0 ≤ n)
  unfolding trim_loop
  trim_loop-kept n [] ids s = (tt, omega arith)
  trim_loop-kept n ((k, m) ∷ ms) ids s = elim (Bool-cases (ltb n (length ((k, m) ∷ ms)))) [
    | inl e ↦ rw e (trim_loop-kept n ms (forget_msgid m.msgid ids) s.1)
    | inr e ↦ rw e (s, ground arith)
  ]

  insert_under-IsKept :
      (msgid : Option Text) (m : ChatMessage L) (log : MessageLog L)
      → IsKept log
      → IsKept (insert_under msgid m log).1
  unfolding insert_under trim
  insert_under-IsKept msgid m log h = elim (Bool-cases (is_held msgid m log)) [
    | inl e ↦ rw e h
    | inr e ↦
        let k =
          trim_loop-kept log.retention (OrdMap.insert m.key m log.messages)
            (note_msgid msgid m.key log.by_msgid) (insert-IsSorted m.key m log.messages h.sorted) in
        rw e (record { sorted = k.0; bounded = k.1 })
  ]

  insert-IsKept : (m : ChatMessage L) (log : MessageLog L) → IsKept log → IsKept (insert m log).1
  unfolding insert
  insert-IsKept m log h = insert_under-IsKept m.msgid m log h

  insert_under-retention :
      (msgid : Option Text) (m : ChatMessage L) (log : MessageLog L)
      → (insert_under msgid m log).1.retention ≡ log.retention
  unfolding insert_under trim
  insert_under-retention msgid m log = elim (Bool-cases (is_held msgid m log)) [
    | inl e ↦ rw e refl
    | inr e ↦ rw e refl
  ]

  unfoldable pub insert_all : List (ChatMessage L) → MessageLog L → MessageLog L
  insert_all [] log = log
  insert_all (m ∷ ms) log = insert_all ms (insert m log).1

  insert_all-IsKept :
      (ms : List (ChatMessage L)) (log : MessageLog L) → IsKept log → IsKept (insert_all ms log)
  unfolding insert_all
  insert_all-IsKept [] log h = h
  insert_all-IsKept (m ∷ ms) log h = insert_all-IsKept ms (insert m log).1 (insert-IsKept m log h)

insert_all-retention :
    {L : Type 0} (ms : List (ChatMessage L)) (log : MessageLog L)
    → (insert_all ms log).retention ≡ log.retention
unfolding insert_all insert
insert_all-retention [] log = refl
insert_all-retention (m ∷ ms) log =
    insert_all-retention ms (insert m log).1 ∙ insert_under-retention m.msgid m log

with_retention-max : (L : Type 0) (n : ℕ) → (with_retention {L = L} n).retention ≡ max n 1
unfolding with_retention
with_retention-max L n = refl

-- Whatever messages arrive, in whatever order, a log keeps them in the order of their times,
-- and of their arrival among equal times, and never holds more than the number it was made
-- with, or one where that is 0.
pub insert_all-new-IsKept :
    {L : Type 0} (ms : List (ChatMessage L)) (retention : ℕ)
    → (let log = insert_all ms (with_retention retention) in
        IsSorted log.messages × (length log.messages ≤ max retention 1))
insert_all-new-IsKept ms retention =
    let k =
      insert_all-IsKept ms (with_retention retention)
        (unfold with_retention in record { sorted = tt; bounded = omega arith }) in
    let e = insert_all-retention ms (with_retention retention) ∙ with_retention-max _ retention in
    (
      k.sorted,
      subst (λ n. length (insert_all ms (with_retention retention)).messages ≤ n) e k.bounded,
    )

trim_loop-id :
    {L : Type 0} (n : ℕ) (ms : Map MessageKey (ChatMessage L)) (ids : Map Text MessageKey)
    → length ms ≤ n
    → trim_loop n ms ids ≡ (ms, ids)
unfolding trim_loop
trim_loop-id n [] ids h = refl
trim_loop-id n ((k, m) ∷ ms) ids h =
    let e : ltb n (length ((k, m) ∷ ms)) ≡ false = ground arith in rw e refl

-- The log with the message, before it is trimmed.
abbrev stored : {L : Type 0} → Text → ChatMessage L → MessageLog L → MessageLog L
stored msgid m log = record log {
  by_msgid = OrdMap.insert msgid m.key log.by_msgid;
  messages = OrdMap.insert m.key m log.messages;
}

insert_under-stored :
    {L : Type 0} (m : ChatMessage L) (msgid : Text) (log : MessageLog L)
    → contains msgid log ≡ false
    → length log.messages < log.retention
    → insert_under (some msgid) m log ≡ (true, stored msgid m log)
unfolding insert_under is_held note_msgid trim
insert_under-stored m msgid log c l =
    let h = length-insert m.key m log.messages in
    rw c (
      rw
        (trim_loop-id log.retention (OrdMap.insert m.key m log.messages)
          (OrdMap.insert msgid m.key log.by_msgid) (omega arith))
        refl)

insert-stored :
    {L : Type 0} (m : ChatMessage L) (msgid : Text) (log : MessageLog L)
    → m.msgid ≡ some msgid
    → contains msgid log ≡ false
    → length log.messages < log.retention
    → insert m log ≡ (true, stored msgid m log)
unfolding insert
insert-stored m msgid log e c l =
    ap (λ o. insert_under o m log) e ∙ insert_under-stored m msgid log c l

get-inserted :
    {K V : Type 0} ⦃o : Ord K⦄ (k : K) (v : V) (m : Map K V)
    → OrdMap.get k (OrdMap.insert k v m) ≡ some v
get-inserted ⦃o⦄ k v m = get-insert k k v m ∙ rw ((o.beq_iff k k).1 refl) refl

contains_key-inserted :
    {K V : Type 0} ⦃o : Ord K⦄ (k : K) (v : V) (m : Map K V)
    → OrdMap.contains_key k (OrdMap.insert k v m) ≡ true
unfolding OrdMap.contains_key OrdMap.insert
contains_key-inserted ⦃o⦄ k v [] = rw ((o.beq_iff k k).1 refl) refl
contains_key-inserted ⦃o⦄ k v ((j, w) ∷ m) =
    ground (arith, contains_key-inserted k v m, o.beq_iff k k)

get-stored :
    {L : Type 0} (msgid : Text) (m : ChatMessage L) (log : MessageLog L)
    → get msgid (stored msgid m log) ≡ some m
unfolding get
get-stored msgid m log =
    rw (get-inserted msgid m.key log.by_msgid) (get-inserted m.key m log.messages)

insert_under-held :
    {L : Type 0} (replay : ChatMessage L) (msgid : Text) (log : MessageLog L)
    → contains msgid log ≡ true
    → insert_under (some msgid) replay log ≡ (false, log)
unfolding insert_under is_held
insert_under-held replay msgid log c = rw c refl

insert-held :
    {L : Type 0} (replay : ChatMessage L) (msgid : Text) (log : MessageLog L)
    → replay.msgid ≡ some msgid
    → contains msgid log ≡ true
    → insert replay log ≡ (false, log)
unfolding insert
insert-held replay msgid log f c =
    ap (λ o. insert_under o replay log) f ∙ insert_under-held replay msgid log c

-- A message with an id that the log does not hold is stored while there is room: it is found by
-- its id, and any other message with that id, such as a replay with another time, is refused
-- and changes nothing.
pub insert-insert :
    {L : Type 0} (m replay : ChatMessage L) (msgid : Text) (log : MessageLog L)
    → m.msgid ≡ some msgid
    → replay.msgid ≡ some msgid
    → contains msgid log ≡ false
    → length log.messages < log.retention
    → ((insert m log).0 ≡ true)
      × ((get msgid (insert m log).1 ≡ some m)
          × (insert replay (insert m log).1 ≡ (false, (insert m log).1)))
insert-insert m replay msgid log e f c l =
    let h : contains msgid (stored msgid m log) ≡ true =
      unfold contains in contains_key-inserted msgid m.key log.by_msgid in
    rw (insert-stored m msgid log e c l)
      (refl, (get-stored msgid m log, insert-held replay msgid (stored msgid m log) f h))
