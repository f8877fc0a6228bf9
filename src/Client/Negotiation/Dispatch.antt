-- ===== src/Client/Negotiation/Dispatch.antt =====
-- The numerics of registration, and which handler a line goes to: `handle_message` of
-- crates/obby-client/src/client.rs.
pub mod Safety
pub mod Refines
pub mod Run
pub mod Connection
use obby_client.Base.{
  ℕ, zero, suc, ◌≡◌, ◌+◌, Bool, true, false, not, ◌&&◌, ◌||◌, Option, none, some, List, [], ◌∷◌,
  ◌++◌, Text, text, same, get_elem?, if◌then◌else◌, unwrap_or, Bytes,
}
use obby_client.Proto.Message
use obby_client.Proto.Message.{Message, is, param, trailing}
use obby_client.Client.Command
use obby_client.Client.Label
use obby_client.Client.Sasl.{SaslFailure, rejected, too_long, aborted, already_authenticated}
use obby_client.Client.Scram.{Crypto}
use obby_client.Client.Negotiation.{
  Client, Phase, send_line, push_event, arm_keepalive, disconnected, negotiating, registering,
  registered, is_registered, logged_in, nick_in_use, raw_line, handle_connected,
  handle_disconnected,
}
use obby_client.Client.Negotiation.Handlers.{handle_cap, handle_authenticate, finish_sasl}

unfoldable pub sasl_failure : Text → Option SaslFailure
sasl_failure command =
    if same command (text "904")
    then some rejected
    else if same command (text "905")
    then some too_long
    else if same command (text "906")
    then some aborted
    else if same command (text "907")
    then some already_authenticated
    else none

-- The next nick to try: the alternatives in order, then the nick with an underscore.
unfoldable pub next_nick : Client → Text
next_nick s = unwrap_or (get_elem? s.config.alt_nicks s.nick_attempt) (s.nick ++ text "_")

-- The model keeps a copy of the nick, which is not part of this state.
unfoldable pub try_nick : Text → Text → Client → Client
try_nick refused trying s = send_line (Command.new (text "NICK") (trying ∷ [])) (
    push_event (nick_in_use refused trying)
      (record s { nick_attempt = s.nick_attempt + 1; nick = trying }))

unfoldable pub is_phase_registered : Phase → Bool
is_phase_registered registered = true
is_phase_registered _ = false

unfoldable pub handle_nick_refused : Message → Client → Client
unfolding next_nick try_nick is_phase_registered
handle_nick_refused m s =
    if is_phase_registered s.phase
    then push_event (raw_line m) s
    else try_nick (unwrap_or (param m 1) s.nick) (next_nick s) s

-- `001`, but for the rejoining of channels.
unfoldable pub handle_welcome : Message → Client → Client
handle_welcome m s =
    let nick = unwrap_or (param m 0) s.nick in
    push_event (is_registered nick) (record s { phase = registered; nick = nick })

unfoldable pub report_account : Option Text → Client → Client
report_account none s = s
report_account (some account) s = push_event (logged_in account) s

-- Each line starts the clock of the keepalive over and may answer a labelled command.
unfoldable pub note_line : Message → Client → Client
note_line m s =
    let alive = arm_keepalive s in record alive { labels = (Label.resolve m alive.labels).1 }

module _ (crypto : Crypto) where
  unfoldable pub settled_by : Option SaslFailure → Message → Client → Option Client
  unfolding report_account
  settled_by (some reason) m s = some (finish_sasl (some reason) s)
  settled_by none m s =
      if is m (text "900")
      then some (report_account (param m 2) s)
      else if is m (text "903")
      then some (finish_sasl none s)
      else none

  -- The handler of a line, where it is one of those of this part.
  unfoldable pub dispatch : Message → Client → Option Client
  unfolding settled_by sasl_failure
  dispatch m s =
      if is m (text "PONG")
      then some s
      else if is m (text "PING")
      then some (send_line (Command.new (text "PONG") (unwrap_or (trailing m) [] ∷ [])) s)
      else if is m (text "CAP")
      then some (handle_cap m s)
      else if is m (text "001")
      then some (handle_welcome m s)
      else if is m (text "AUTHENTICATE")
      then some (handle_authenticate crypto m s)
      else if is m (text "433") || is m (text "432")
      then some (handle_nick_refused m s)
      else settled_by (sasl_failure m.command) m s

  unfoldable pub handle_message : Message → Client → Option Client
  unfolding note_line dispatch
  handle_message m s = dispatch m (note_line m s)
