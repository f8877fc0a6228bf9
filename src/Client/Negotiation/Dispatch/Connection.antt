-- ===== src/Client/Negotiation/Dispatch/Connection.antt =====
-- Whole connections: lines, in any order, and the transport coming up and going down, in
-- crates/obby-client/src/client.rs.
use obby_client.Base.{
  ℕ, ◌≡◌, ◌≢◌, refl, ap, sym, ◌∙◌, true, false, Option, none, some, inl, inr, Text, List, [], ◌∷◌,
}
use obby_client.Proto.Message.{Message}
use obby_client.Client.Batch.{Batches}
use obby_client.Client.Monitor.{WatchList}
use obby_client.Client.Label.{Labels}
use obby_client.Client.Timer.Deadlines.{Timers}
use obby_client.Client.Scram.{Crypto}
use obby_client.Client.Sasl.{in_flight}
use obby_client.Client.Negotiation.{
  Client, Event, poll_transmit, pop_front, send_line, push_event, registering, negotiating,
  arm_keepalive, reset_connection, handle_connected, send_password, handle_disconnected,
  plan_reconnect,
}
use obby_client.Client.Negotiation.Dispatch.{handle_message}
use obby_client.Client.Negotiation.View.{View, view, Allowed, hold, finish, welcome}
use obby_client.Client.Negotiation.Dispatch.Run.{handle_message-Allowed}

-- What one state of a client comes to. A line of this part is handled; the host takes a line to
-- write; the transport comes up or goes down. Lines of the other parts, commands of the host and the
-- clock may change in any way the fields that their code writes: all of the client's but the
-- configuration, the phase, the capabilities, the exchange and the counts of attempts.
pub data Reaches (crypto : Crypto) (s : Client) : Client → Type 0 where
  start : Reaches crypto s s
  receive :
      (m : Message) (t u : Client)
      → Reaches crypto s t
      → handle_message crypto m t ≡ some u
      → Reaches crypto s u
  transmit : (t : Client) → Reaches crypto s t → Reaches crypto s (poll_transmit t).1
  elsewhere :
      (t : Client) (nick : Text) (batches : Batches) (monitor : WatchList) (timers : Timers)
      (labels : Labels Text) (monotonic_ms : ℕ) (outbox : List Message) (events : List Event)
      → Reaches crypto s t
      → Reaches crypto s (record t {
        nick = nick;
        batches = batches;
        monitor = monitor;
        timers = timers;
        labels = labels;
        monotonic_ms = monotonic_ms;
        outbox = outbox;
        events = events;
      })
  connect : (t : Client) → Reaches crypto s t → Reaches crypto s (handle_connected t)
  disconnect : (t : Client) → Reaches crypto s t → Reaches crypto s (handle_disconnected t)

-- No exchange is in flight once `CAP END` is sent and the client waits to be registered.
abbrev pub IsSafe : View → Type 0
IsSafe v = v.busy ≡ true → v.phase ≢ registering

Allowed-IsSafe : (v w : View) → Allowed v w → IsSafe v → IsSafe w
Allowed-IsSafe v w (hold p n b k) h e r = elim (b e) [
  | inl c ↦ h c (sym p ∙ r)
  | inr q ↦ clash (sym q ∙ (sym p ∙ r))
]
  where
    clash : negotiating ≡ registering → ⊥
    clash z = cc
Allowed-IsSafe v w (finish p r b q n) h e x = cc
Allowed-IsSafe v w (welcome r n b q) h e x = cc

send_password-phase : (o : Option Text) (s : Client) → (send_password o s).phase ≡ s.phase
unfolding send_password send_line
send_password-phase none s = refl
send_password-phase (some password) s = refl

connected-phase : (s : Client) → (handle_connected s).phase ≡ negotiating
unfolding handle_connected send_line reset_connection arm_keepalive
connected-phase s = send_password-phase s.config.password _

connected-IsSafe : (s : Client) → IsSafe (view (handle_connected s))
unfolding view
connected-IsSafe s e r = clash (sym (connected-phase s) ∙ r)
  where
    clash : negotiating ≡ registering → ⊥
    clash z = cc

plan_reconnect-sasl : (o : Option ℕ) (s : Client) → (plan_reconnect o s).sasl ≡ s.sasl
unfolding plan_reconnect push_event
plan_reconnect-sasl none s = refl
plan_reconnect-sasl (some after_ms) s = refl

disconnected-sasl : (s : Client) → in_flight (handle_disconnected s).sasl ≡ false
unfolding handle_disconnected in_flight
disconnected-sasl s = ap in_flight (plan_reconnect-sasl _ _)

disconnected-IsSafe : (s : Client) → IsSafe (view (handle_disconnected s))
unfolding view
disconnected-IsSafe s e r = clash (sym (disconnected-sasl s) ∙ e)
  where
    clash : false ≡ true → ⊥
    clash z = cc

popped-IsSafe :
    (ms : List Message) (s : Client) → IsSafe (view s) → IsSafe (view (pop_front ms s).1)
unfolding view pop_front
popped-IsSafe [] s h = h
popped-IsSafe (m ∷ ms) s h = h

transmitted-IsSafe : (s : Client) → IsSafe (view s) → IsSafe (view (poll_transmit s).1)
unfolding poll_transmit
transmitted-IsSafe s h = popped-IsSafe s.outbox s h

-- At no point of any run, over any number of connections, is an exchange of authentication in flight
-- while the client waits to be registered, having ended negotiation, where this held at the start. A
-- run has, in any order, any lines of the server that this part handles, the host taking lines to
-- write, the transport coming up and going down, and any change by other code to the fields of this
-- part that other code writes, the outbox among them.
pub reaches-IsSafe :
    (crypto : Crypto) (s t : Client) → Reaches crypto s t → IsSafe (view s) → IsSafe (view t)
unfolding view
reaches-IsSafe crypto s t start h = h
reaches-IsSafe crypto s _ (receive m t u r e) h =
    Allowed-IsSafe (view t) (view u) (handle_message-Allowed crypto m t u e)
      (reaches-IsSafe crypto s t r h)
reaches-IsSafe crypto s _ (transmit t r) h = transmitted-IsSafe t (reaches-IsSafe crypto s t r h)
reaches-IsSafe crypto s _
      (elsewhere t nick batches monitor timers labels monotonic_ms outbox events r) h =
    reaches-IsSafe crypto s t r h
reaches-IsSafe crypto s _ (connect t r) h = connected-IsSafe t
reaches-IsSafe crypto s _ (disconnect t r) h = disconnected-IsSafe t
