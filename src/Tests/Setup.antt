-- ===== src/Tests/Setup.antt =====
-- Setting up a connection, and lines out of bytes, on concrete inputs:
-- crates/obby-client/src/client.rs.
use obby_client.Base.{
  ◌≡◌, refl, false, none, some, List, [], ◌∷◌, ◌++◌, map, text, arith, Bytes, same,
  eq_ignore_ascii_case, to_ascii_lowercase,
}
use obby_client.Proto.Message
use obby_client.Proto.Message.{Message}
use obby_client.Client.Batch
use obby_client.Client.Caps
use obby_client.Client.Monitor
use obby_client.Client.Label
use obby_client.Client.Timer.Deadlines
use obby_client.Client.Timer.Backoff
use obby_client.Client.Sasl.{external, idle, in_flight}
use obby_client.Client.Negotiation.{
  Client, disconnected, negotiating, handle_connected, poll_transmit,
}
use obby_client.Client.Negotiation.Handlers.{handle_cap}
use obby_client.Client.Negotiation.Dispatch.{handle_message, dispatch, note_line}
use obby_client.Client.Negotiation.View.{view, Allowed}
use obby_client.Client.Negotiation.Dispatch.Run.{handle_message-Allowed}
use obby_client.Client.Negotiation.Dispatch.Connection.{
  start, receive, transmit, connect, IsSafe, reaches-IsSafe,
}
use obby_client.Client.Inbound
use obby_client.Client.Inbound.{Framing, read_line, handle_bytes}
use obby_client.Client.Inbound.Chunking.{
  Fits, lines, concat, handle_all, handle_all-lines, IsHeld, handle_bytes-IsHeld, extend,
}
use obby_client.Tests.Codec.{sums}

abbrev fresh : Client
fresh = record {
  config = record {
    nick = text "ann";
    username = text "ann";
    realname = text "Ann";
    password = none;
    sasl = some external;
    alt_nicks = [];
  };
  phase = disconnected;
  caps = Caps.default;
  nick = text "ann";
  batches = Batch.new;
  monitor = Monitor.new;
  timers = Deadlines.new;
  labels = Label.new;
  backoff = Backoff.default;
  monotonic_ms = 0;
  sasl = idle;
  scram = none;
  nick_attempt = 0;
  outbox = [];
  events = [];
}

-- The server grants the `sasl` that the client asked for.
abbrev granted : Message
granted = record {
  tags = [];
  source = none;
  command = text "CAP";
  params = text "*" ∷ text "ACK" ∷ text "sasl" ∷ [];
}

abbrev asking : Client
asking = record fresh {
  phase = negotiating;
  caps = record Caps.default { pending = text "sasl" ∷ [] };
}

abbrev authenticating : Client
authenticating = handle_cap granted (note_line granted asking)

granted-dispatch :
    (s : Client) → handle_message sums granted s ≡ some (handle_cap granted (note_line granted s))
unfolding handle_message dispatch Message.is eq_ignore_ascii_case same to_ascii_lowercase
granted-dispatch s = refl

handle_message-Allowed_example : Allowed (view asking) (view authenticating)
handle_message-Allowed_example =
    handle_message-Allowed sums granted asking authenticating (granted-dispatch asking)

fresh-IsSafe : IsSafe (view fresh)
unfolding view in_flight
fresh-IsSafe e = λ r. cc

abbrev written : Client
written = (poll_transmit (handle_connected fresh)).1

reaches-IsSafe_example : IsSafe (view (handle_cap granted (note_line granted written)))
reaches-IsSafe_example =
    reaches-IsSafe sums fresh _
      (receive granted written _ (transmit (handle_connected fresh) (connect fresh start))
        (granted-dispatch written))
      fresh-IsSafe

-- A line in two reads, and the start of another.
abbrev reads : List Bytes
reads = text "PING" ∷ (text " :a" ++ 13 ∷ 10 ∷ text "PO") ∷ []

reads-Fits : Fits (lines (concat reads))
unfolding lines concat extend
reads-Fits = ground arith

handle_all-lines_example : handle_all reads Inbound.new ≡ (
  record { incomplete = (lines (concat reads)).1; discarding = false },
  map read_line (lines (concat reads)).0,
)
handle_all-lines_example = handle_all-lines reads reads-Fits

handle_bytes-IsHeld_example : IsHeld (handle_bytes (text "PING") Inbound.new).0
handle_bytes-IsHeld_example = handle_bytes-IsHeld (text "PING") Inbound.new
