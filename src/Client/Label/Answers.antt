-- ===== src/Client/Label/Answers.antt =====
-- Each label is answered once: crates/obby-client/src/label.rs.
use obby_client.Base.{
  ℕ, ◌≡◌, refl, ◌∙◌, true, false, none, some, ◌∷◌, Text, text, same, same_iff, arith, if◌then◌else◌,
  text_ord, strip_prefix,
}
use obby_client.Base.OrdMap
use obby_client.Base.OrdMap.{Map, get-insert, get-remove}
use obby_client.Base.OrdMap.Sorted.{IsSorted}
use obby_client.Proto.Message
use obby_client.Proto.Message.{Message}
use obby_client.Client.Timer.Drain.{drain_due-IsDrained, if_later}
use obby_client.Client.Label.{
  Pending, Labels, register, resolve, resolve_batch, resolve_label, take_pending, close_batch,
  open_batch, open_marked, close_marked, take_answered, expire,
}

get-inserted :
    {V : Type 0} (k : Text) (v : V) (m : Map Text V) → OrdMap.get k (OrdMap.insert k v m) ≡ some v
get-inserted k v m = get-insert k k v m ∙ rw ((same_iff k k).1 refl) refl

-- A line that carries a label just registered, and is no `BATCH`, answers it: what was registered
-- comes back, and the label, with no other, is no longer waited for.
pub resolve-register :
    {T : Type 0} (m : Message) (label : Text) (deadline_ms : ℕ) (datum : T) (s : Labels T)
    → Message.is m (text "BATCH") ≡ false
    → Message.tag m (text "label") ≡ some label
    → ((resolve m (register label deadline_ms datum s)).0 ≡ some datum)
      × ((j : Text)
          → OrdMap.get j (resolve m (register label deadline_ms datum s)).1.pending
            ≡ (if same label j then none else OrdMap.get j s.pending))
unfolding resolve resolve_label take_answered register
resolve-register m label deadline_ms datum s b t =
    let p : Pending _ = record { deadline_ms = deadline_ms; batch_id = none; datum = datum } in
    rw (b, t)
      (rw (get-inserted label p s.pending) (
        refl,
        λ j.
            get-remove label j (OrdMap.insert label p s.pending)
            ∙ rw (get-insert label j p s.pending) (ground arith),
      ))

-- A labelled batch answers the label at its end and not before: the opening line returns nothing
-- and the closing line, which carries no label, returns what was registered.
pub resolve-batch :
    {T : Type 0} (first last : Message) (label id : Text) (deadline_ms : ℕ) (datum : T)
    (s : Labels T)
    → Message.is first (text "BATCH") ≡ true
    → Message.param first 0 ≡ some (b'+' ∷ id)
    → Message.tag first (text "label") ≡ some label
    → Message.is last (text "BATCH") ≡ true
    → Message.param last 0 ≡ some (b'-' ∷ id)
    → (let opened = resolve first (register label deadline_ms datum s) in
        (opened.0 ≡ none) × ((resolve last opened.1).0 ≡ some datum))
unfolding resolve resolve_batch close_marked open_marked open_batch close_batch take_pending
    register strip_prefix
resolve-batch first last label id deadline_ms datum s b p t c q =
    let waiting : Pending _ = record {
      deadline_ms = deadline_ms;
      batch_id = none;
      datum = datum;
    } in
    let named : Pending _ = record waiting { batch_id = some id } in
    rw (b, p, t, c, q)
      (rw (get-inserted label waiting s.pending) (
        refl,
        rw (get-inserted id label s.open_batches)
            (rw (get-inserted label named (OrdMap.insert label waiting s.pending)) refl),
      ))

-- Whatever is due at an instant leaves the table at it and nothing else does: exactly the labels
-- with a later deadline are still waited for. The table is in the order of its keys.
pub expire-pending :
    {T : Type 0} (now : ℕ) (s : Labels T)
    → IsSorted s.pending
    → (j : Text)
    → OrdMap.get j (expire now s).1.pending
      ≡ if_later (λ (p : Pending T). p.deadline_ms) now (OrdMap.get j s.pending)
unfolding expire
expire-pending now s h j = (drain_due-IsDrained (λ p. p.deadline_ms) now s.pending h).left j
