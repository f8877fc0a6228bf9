-- ===== src/Client/Inbound.antt =====
-- Lines out of the bytes of the transport: `Client::handle_bytes` of
-- crates/obby-client/src/client.rs.
pub mod Chunking
use obby_client.Base.{
  ℕ, zero, suc, ◌≡◌, ◌+◌, Bool, true, false, Option, none, some, List, [], ◌∷◌, ◌++◌, Text,
  split_once, length, ltb, if◌then◌else◌, Bytes, from_utf8_lossy,
}
use obby_client.Proto.Message
use obby_client.Proto.Message.{Message}

-- Of crates/obby-proto/src/lib.rs.
abbrev pub max_tag_bytes : ℕ
max_tag_bytes = 8191

abbrev pub max_line_bytes : ℕ
max_line_bytes = 512

abbrev pub max_inbound_line : ℕ
max_inbound_line = max_tag_bytes + max_line_bytes

-- What the client keeps between two reads.
pub record Framing : Type 0 where
  pub incomplete : Bytes
  pub discarding : Bool

abbrev pub new : Framing
new = record { incomplete = []; discarding = false }

-- What a read hands to the rest of the client: a message to handle, or that a line was dropped.
pub data Arrival : Type 0 where
  handled : (m : Message) → Arrival
  dropped : Arrival

unfoldable pub arrival : Option Message → Arrival
arrival none = dropped
arrival (some m) = handled m

unfoldable pub read_line : Bytes → Arrival
unfolding arrival from_utf8_lossy Message.parse
read_line line = arrival (Message.parse (from_utf8_lossy line))

-- What is left of a read without a line end.
unfoldable pub hold : Bytes → Bool → Framing × List Arrival
hold bytes discarding =
    if ltb max_inbound_line (length bytes)
    then (record { incomplete = []; discarding = true }, dropped ∷ [])
    else (record { incomplete = bytes; discarding = discarding }, [])

-- The line goes in front of what the rest of the read gives, unless it is the end of one skipped.
unfoldable pub take_line : Bool → Bytes → Framing × List Arrival → Framing × List Arrival
unfolding read_line
take_line discarding line rest = if discarding then rest else (rest.0, read_line line ∷ rest.1)

-- Each round takes a line end, so the number of bytes is fuel enough.
unfoldable pub read_loop : ℕ → Bytes → Bool → Framing × List Arrival
unfolding hold
read_loop zero bytes discarding = hold bytes discarding
read_loop (suc n) bytes discarding = elim (split_once b'\n' bytes) [
  | none ↦ hold bytes discarding
  | some parts ↦ take_line discarding (parts.0 ++ b'\n' ∷ []) (read_loop n parts.1 false)
]

unfoldable pub handle_bytes : Bytes → Framing → Framing × List Arrival
unfolding read_loop
handle_bytes bytes s =
    let buffer = s.incomplete ++ bytes in read_loop (length buffer) buffer s.discarding
