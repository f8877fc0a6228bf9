-- ===== src/Client/Label.antt =====
-- Labelled responses: crates/obby-client/src/label.rs.
pub mod Answers
use obby_client.Base.{
  ℕ, ◌≡◌, ◌+◌, Option, none, some, List, [], ◌∷◌, ◌++◌, Text, text, strip_prefix, bind, text_ord,
  if◌then◌else◌,
}
use obby_client.Base.OrdMap
use obby_client.Base.OrdMap.{Map}
use obby_client.Proto.Message
use obby_client.Proto.Message.{Message}
use obby_client.Proto.ServerTime.{decimal}
use obby_client.Client.Timer.{drain_due}

abbrev pub default_timeout_ms : ℕ
default_timeout_ms = 30000

pub record Pending (T : Type 0) : Type 0 where
  pub deadline_ms : ℕ
  pub batch_id : Option Text
  pub datum : T

pub record Labels (T : Type 0) : Type 0 where
  pub next_id : ℕ
  pub pending : Map Text (Pending T)
  pub open_batches : Map Text Text

-- `if let Some(batch_id) = .. { open_batches.remove(batch_id) }`.
unfoldable pub forget_batch : Option Text → Map Text Text → Map Text Text
forget_batch none open_now = open_now
forget_batch (some id) open_now = OrdMap.remove id open_now

module _ {T : Type 0} where
  abbrev pub new : Labels T
  new = record { next_id = 0; pending = []; open_batches = [] }

  -- A `u64` counter; it does not wrap within the life of a connection.
  unfoldable pub generate : Labels T → Text × Labels T
  generate s = (b'l' ∷ decimal (s.next_id + 1), record s { next_id = s.next_id + 1 })

  unfoldable pub register : Text → ℕ → T → Labels T → Labels T
  register label deadline_ms datum s =
      let p : Pending T = record { deadline_ms = deadline_ms; batch_id = none; datum = datum } in
      record s { pending = OrdMap.insert label p s.pending }

  -- The label is answered: it leaves the table.
  unfoldable pub take_pending : Text → Labels T → Option T × Labels T
  take_pending label s = (
    bind (OrdMap.get label s.pending) (λ p. some p.datum),
    record s { pending = OrdMap.remove label s.pending },
  )

  close_batch : Text → Option Text → Labels T → Option T × Labels T
  close_batch id none s = (none, s)
  close_batch id (some label) s =
      take_pending label (record s { open_batches = OrdMap.remove id s.open_batches })

  open_batch : Text → Option Text → Option (Pending T) → Labels T → Labels T
  open_batch id (some label) (some p) s = record s {
    pending = OrdMap.insert label (record p { batch_id = some id }) s.pending;
    open_batches = OrdMap.insert id label s.open_batches;
  }
  open_batch id _ _ s = s

  open_marked : Message → Option Text → Labels T → Option T × Labels T
  unfolding open_batch
  open_marked m none s = (none, s)
  open_marked m (some id) s =
      let label = Message.tag m (text "label") in
      (none, open_batch id label (bind label (λ l. OrdMap.get l s.pending)) s)

  close_marked : Message → Text → Option Text → Labels T → Option T × Labels T
  unfolding close_batch open_marked
  close_marked m marker (some id) s = close_batch id (OrdMap.get id s.open_batches) s
  close_marked m marker none s = open_marked m (strip_prefix b'+' marker) s

  resolve_batch : Message → Option Text → Labels T → Option T × Labels T
  unfolding close_marked
  resolve_batch m none s = (none, s)
  resolve_batch m (some marker) s = close_marked m marker (strip_prefix b'-' marker) s

  take_answered : Text → Option (Pending T) → Labels T → Option T × Labels T
  unfolding forget_batch
  take_answered label none s = (none, s)
  take_answered label (some p) s = (
    some p.datum,
    record s {
      pending = OrdMap.remove label s.pending;
      open_batches = forget_batch p.batch_id s.open_batches;
    },
  )

  resolve_label : Option Text → Labels T → Option T × Labels T
  unfolding take_answered
  resolve_label none s = (none, s)
  resolve_label (some label) s = take_answered label (OrdMap.get label s.pending) s

  -- `Labels::resolve`.
  unfoldable pub resolve : Message → Labels T → Option T × Labels T
  unfolding resolve_batch resolve_label
  resolve m s =
      if Message.is m (text "BATCH")
      then resolve_batch m (Message.param m 0) s
      else resolve_label (Message.tag m (text "label")) s

  -- The closure over each expired entry, in order.
  unfoldable pub forget_each : List (Text × Pending T) → Map Text Text → List T × Map Text Text
  unfolding forget_batch
  forget_each [] open_now = ([], open_now)
  forget_each ((label, p) ∷ es) open_now =
      let (expired, left) = forget_each es (forget_batch p.batch_id open_now) in
      (p.datum ∷ expired, left)

  -- `Labels::expire`.
  unfoldable pub expire : ℕ → Labels T → List T × Labels T
  unfolding forget_each
  expire now_monotonic_ms s =
      let (due, pending) =
        drain_due (λ (p : Pending T). p.deadline_ms) now_monotonic_ms s.pending in
      let (expired, open_now) = forget_each due s.open_batches in
      (expired, record s { pending = pending; open_batches = open_now })
