-- ===== src/Client/Negotiation.antt =====
-- Registration, capability negotiation and authentication: the part of `Client` of
-- crates/obby-client/src/client.rs that decides when the connection is set up. What one line makes
-- of the channels and the people belongs to other parts.
pub mod Handlers
pub mod Dispatch
pub mod View
use obby_client.Base.{
  ℕ, zero, suc, ◌≡◌, ◌+◌, min, Bool, true, false, not, ◌&&◌, ◌||◌, Option, none, some, List, [],
  ◌∷◌, ◌++◌, map, Text, text, same, is_nil, get_elem?, if◌then◌else◌, unwrap_or, Bytes, as_bytes,
  to_ascii_uppercase,
}
use obby_client.Proto.Message
use obby_client.Proto.Message.{Message, is, param, trailing}
use obby_client.Client.Command.{part}
use obby_client.Client.Command
use obby_client.Client.Batch
use obby_client.Client.Batch.{Batches}
use obby_client.Client.Caps
use obby_client.Client.Caps.{Capabilities}
use obby_client.Client.Monitor
use obby_client.Client.Monitor.{WatchList}
use obby_client.Client.Label
use obby_client.Client.Label.{Labels}
use obby_client.Client.Timer.Deadlines
use obby_client.Client.Timer.Deadlines.{Timers, ping_keepalive, dead_link, reconnect}
use obby_client.Client.Timer.Backoff
use obby_client.Client.Timer.Backoff.{ReconnectBackoff, u64_max}
use obby_client.Client.Base64.{Base64}
use obby_client.Client.Sasl
use obby_client.Client.Sasl.{
  Credentials, SaslFailure, SaslState, idle, offered, responded, scram_challenged, scram_proved,
  settled, in_flight, rejected, too_long, aborted, already_authenticated, no_shared_mechanism,
  server_not_verified, encode_response, decode_challenge, mechanism, response, offers, plain,
  external, scram,
}
use obby_client.Client.Scram
use obby_client.Client.Scram.{Scram, Crypto, Result, ok, err}

pub data Phase : Type 0 where
  disconnected : Phase
  negotiating : Phase
  registering : Phase
  registered : Phase

pub record Config : Type 0 where
  pub nick : Text
  pub username : Text
  pub realname : Text
  pub password : Option Text
  pub sasl : Option Credentials
  pub alt_nicks : List Text

-- The events of this part.
pub data Event : Type 0 where
  capabilities_acknowledged : (names : List Text) → Event
  is_registered : (nick : Text) → Event
  logged_in : (account : Text) → Event
  sasl_failed : (reason : SaslFailure) → Event
  nick_in_use : (refused trying : Text) → Event
  reconnect_after : (after_ms : ℕ) → Event
  reconnect_abandoned : Event
  raw_line : (m : Message) → Event

-- The fields of `Client` that this part reads or changes. The outbox holds the messages;
-- `wire_line` is how each is written.
pub record Client : Type 0 where
  pub config : Config
  pub phase : Phase
  pub caps : Capabilities
  pub nick : Text
  pub batches : Batches
  pub monitor : WatchList
  pub timers : Timers
  pub labels : Labels Text
  pub backoff : ReconnectBackoff
  pub monotonic_ms : ℕ
  pub sasl : SaslState
  pub scram : Option Scram
  pub nick_attempt : ℕ
  pub outbox : List Message
  pub events : List Event

unfoldable pub wire_line : Message → Bytes
wire_line m = as_bytes (Message.display m) ++ 13 ∷ 10 ∷ []

unfoldable pub send_line : Message → Client → Client
send_line m s = record s { outbox = s.outbox ++ m ∷ [] }

unfoldable pub pop_front : List Message → Client → Option Message × Client
pop_front [] s = (none, s)
pop_front (m ∷ ms) s = (some m, record s { outbox = ms })

-- `poll_transmit`: the host takes the next message to write.
unfoldable pub poll_transmit : Client → Option Message × Client
unfolding pop_front
poll_transmit s = pop_front s.outbox s

unfoldable pub push_event : Event → Client → Client
push_event e s = record s { events = s.events ++ e ∷ [] }

unfoldable pub saturating_add : ℕ → ℕ → ℕ
saturating_add a b = min (a + b) u64_max

abbrev pub ping_keepalive_ms : ℕ
ping_keepalive_ms = 30000

unfoldable pub arm_keepalive : Client → Client
unfolding saturating_add
arm_keepalive s = record s {
  timers =
      Deadlines.set ping_keepalive (saturating_add s.monotonic_ms ping_keepalive_ms)
        (Deadlines.clear dead_link s.timers);
}

send_password : Option Text → Client → Client
send_password none s = s
send_password (some password) s = send_line (Command.new (text "PASS") (password ∷ [])) s

-- The clock starts, the reconnect is off, and the phase is back at the start.
unfoldable pub reset_connection : Client → Client
reset_connection s = arm_keepalive (record s {
  phase = negotiating;
  backoff = Backoff.reset s.backoff;
  timers = Deadlines.clear reconnect s.timers;
})

unfoldable pub handle_connected : Client → Client
unfolding send_password reset_connection
handle_connected s =
    let opened =
      send_line (Command.new (text "CAP") (text "LS" ∷ text "302" ∷ [])) (reset_connection s) in
    let named =
      send_line (Command.new (text "NICK") (s.config.nick ∷ []))
        (send_password s.config.password opened) in
    send_line
      (Command.new (text "USER") (s.config.username ∷ text "0" ∷ text "*" ∷ s.config.realname ∷ []))
      named

-- The delay before the next attempt, if there is to be one.
unfoldable pub plan_reconnect : Option ℕ → Client → Client
unfolding saturating_add
plan_reconnect none s = push_event reconnect_abandoned s
plan_reconnect (some after_ms) s = push_event (reconnect_after after_ms) (record s {
  timers = Deadlines.set reconnect (saturating_add s.monotonic_ms after_ms) s.timers;
})

-- `handle_disconnected`, but for the model and the bots.
unfoldable pub handle_disconnected : Client → Client
unfolding plan_reconnect
handle_disconnected s =
    let (delay, backoff) = Backoff.next_delay_ms s.backoff in
    plan_reconnect delay (record s {
      phase = disconnected;
      batches = Batch.drop_all s.batches;
      caps = Caps.default;
      sasl = idle;
      monitor = Monitor.forget_presence s.monitor;
      timers = Deadlines.clear dead_link (Deadlines.clear ping_keepalive s.timers);
      backoff = backoff;
    })

abbrev pub cap_end : Message
cap_end = record { tags = []; source = none; command = text "CAP"; params = text "END" ∷ [] }

-- `Self::Negotiating == self.phase`.
unfoldable pub is_negotiating : Phase → Bool
is_negotiating negotiating = true
is_negotiating _ = false
