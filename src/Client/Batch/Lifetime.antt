-- ===== src/Client/Batch/Lifetime.antt =====
-- A batch from its opening line to its closing line, whatever happens to the other batches in
-- between: crates/obby-client/src/batch.rs.
use obby_client.Base.{ℕ, ◌≡◌, Option, List, [], Text, length, take, ltb, text_ord}
use obby_client.Base.OrdMap
use obby_client.Base.OrdMap.{Map, contains_key-get}
use obby_client.Proto.Message
use obby_client.Proto.Message.{Message}
use obby_client.Client.Batch.{ClosedBatch, OpenBatch, fresh}
use obby_client.Client.Batch.Bounds.{dedup}

-- What a batch is, but for the messages in it.
abbrev framing : OpenBatch → Text × (List Text × Option Text)
framing b = (b.kind, (b.params, b.parent))

-- A closed batch that the line `m` opened with this kind, and the messages that came for it.
pub record IsGathered (m : Message) (kind : Text) (limit : ℕ) (ms : List Message) (c : ClosedBatch)
    : Type 0 where
  pub framed : (c.kind, (c.params, c.parent)) ≡ framing (fresh m kind)
  pub messages : c.messages ≡ take limit (dedup [] ms)
  pub overflowed : c.overflowed ≡ ltb limit (length (dedup [] ms))
