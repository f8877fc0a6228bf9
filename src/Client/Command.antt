-- ===== src/Client/Command.antt =====
-- What a host asks the connection to do: crates/obby-client/src/command.rs, and the line that
-- carries it, `Client::wire` of crates/obby-client/src/client.rs.
pub mod Arguments
pub mod Understood
pub mod RoundTrip
use obby_client.Base.{
  ℕ, ◌≡◌, Option, none, some, List, [], ◌∷◌, ◌++◌, Text, text, unwrap_or, zero, suc,
}
use obby_client.Proto.Tags
use obby_client.Proto.Tags.{Tag, Tags, tag}
use obby_client.Proto.Message
use obby_client.Proto.Message.{Message}
use obby_client.Proto.ServerTime
use obby_client.Proto.ServerTime.{decimal}

pub data Typing : Type 0 where
  active paused done : Typing

unfoldable pub as_str : Typing → Text
as_str active = text "active"
as_str paused = text "paused"
as_str done = text "done"

-- A voice frame is of the type `Signal` of the voice module, of which only its JSON is used here.
pub data Command (Signal : Type 0) : Type 0 where
  join : (channel : Text) (key : Option Text) → Command Signal
  part : (channel : Text) (reason : Option Text) → Command Signal
  send_message send_notice send_action : (target body : Text) → Command Signal
  set_nick : (nick : Text) → Command Signal
  set_topic : (channel : Text) (topic : Option Text) → Command Signal
  set_away : (message : Option Text) → Command Signal
  set_typing : (target : Text) (state : Typing) → Command Signal
  add_reaction remove_reaction : (target msgid emoji : Text) → Command Signal
  redact_message : (target msgid : Text) (reason : Option Text) → Command Signal
  mark_read : (target : Text) (at_ms : ℕ) → Command Signal
  fetch_history : (target : Text) (before_msgid : Option Text) (limit : ℕ) → Command Signal
  set_metadata : (key : Text) (value : Option Text) → Command Signal
  subscribe_metadata : (keys : List Text) → Command Signal
  whois : (nick : Text) → Command Signal
  rename_channel : (channel new_name : Text) (reason : Option Text) → Command Signal
  create_invite_link : (channel description : Option Text) → Command Signal
  list_invite_links : Command Signal
  delete_invite_link : (share_id : Text) → Command Signal
  redeem_invite_code : (code : Text) → Command Signal
  generate_token : (service : Text) → Command Signal
  watch_nicks unwatch_nicks : (nicks : List Text) → Command Signal
  send_voice_signal : (channel : Text) (signal : Signal) → Command Signal
  quit : (reason : Option Text) → Command Signal
  send_raw_line : (line : Text) → Command Signal

-- `Message::new`.
unfoldable pub new : Text → List Text → Message
new command params = record { tags = []; source = none; command = command; params = params }

-- `line.tags.set(..)`.
unfoldable pub with_tag : Tag → Message → Message
with_tag t line = record line { tags = Tags.set t line.tags }

-- The parameters, and one more where there is one: the shape of every `match reason`.
unfoldable pub optional : List Text → Option Text → List Text
optional params none = params
optional params (some p) = params ++ p ∷ []

history_point : Option Text → List Text → List Text
history_point (some msgid) rest = (text "msgid=" ++ msgid) ∷ rest
history_point none rest = text "*" ∷ rest

history_selector : Option Text → Text
history_selector (some msgid) = text "BEFORE"
history_selector none = text "LATEST"

-- `Client::chathistory`.
unfoldable pub chathistory : Text → Option Text → ℕ → Message
unfolding history_point history_selector
chathistory target before_msgid limit =
    new (text "CHATHISTORY")
      (history_selector before_msgid ∷ target ∷ history_point before_msgid (decimal limit ∷ []))

invited : Option Text → Option Text → List Text
invited (some channel) description = channel ∷ []
invited none (some description) = text "*" ∷ []
invited none none = []

-- `Client::invite_link`.
unfoldable pub invite_link : Option Text → Option Text → Message
unfolding invited
invite_link channel description =
    new (text "INVITELINK") (optional (text "CREATE" ∷ invited channel description) description)

-- `Client::reaction`.
unfoldable pub reaction : Text → Text → Text → Text → Message
reaction key target msgid emoji =
    with_tag (tag (text "+draft/reply") msgid)
      (with_tag (tag key emoji) (new (text "TAGMSG") (target ∷ [])))

-- `Client::wire`, over the JSON of a voice frame.
unfoldable pub wire : {Signal : Type 0} (to_json : Signal → Text) → Command Signal → Option Message
wire to_json (send_message target body) = none
wire to_json (send_notice target body) = none
wire to_json (send_action target body) = none
wire to_json (watch_nicks nicks) = none
wire to_json (unwatch_nicks nicks) = none
wire to_json (join channel key) = none
wire to_json (subscribe_metadata keys) = none
wire to_json (part channel reason) = some (new (text "PART") (optional (channel ∷ []) reason))
wire to_json (set_nick nick) = some (new (text "NICK") (nick ∷ []))
wire to_json (set_topic channel topic) =
    some (new (text "TOPIC") (channel ∷ unwrap_or topic [] ∷ []))
wire to_json (set_away message) = some (new (text "AWAY") (optional [] message))
wire to_json (set_typing target state) =
    some (with_tag (tag (text "+typing") (as_str state)) (new (text "TAGMSG") (target ∷ [])))
wire to_json (add_reaction target msgid emoji) =
    some (reaction (text "+draft/react") target msgid emoji)
wire to_json (remove_reaction target msgid emoji) =
    some (reaction (text "+draft/unreact") target msgid emoji)
wire to_json (redact_message target msgid reason) =
    some (new (text "REDACT") (optional (target ∷ msgid ∷ []) reason))
wire to_json (mark_read target at_ms) =
    some (new (text "MARKREAD") (target ∷ (text "timestamp=" ++ ServerTime.format at_ms) ∷ []))
wire to_json (fetch_history target before_msgid limit) =
    some (chathistory target before_msgid limit)
wire to_json (whois nick) = some (new (text "WHOIS") (nick ∷ []))
wire to_json (rename_channel channel new_name reason) =
    some (new (text "RENAME") (optional (channel ∷ new_name ∷ []) reason))
wire to_json (create_invite_link channel description) = some (invite_link channel description)
wire to_json list_invite_links = some (new (text "INVITELINK") (text "LIST" ∷ []))
wire to_json (delete_invite_link share_id) =
    some (new (text "INVITELINK") (text "DELETE" ∷ share_id ∷ []))
wire to_json (redeem_invite_code code) = some (new (text "INVITECODE") (code ∷ []))
wire to_json (generate_token service) = some (new (text "TOKEN") (text "GENERATE" ∷ service ∷ []))
wire to_json (set_metadata key value) =
    some (new (text "METADATA") (optional (text "*" ∷ text "SET" ∷ key ∷ []) value))
wire to_json (send_voice_signal channel signal) =
    some (
      with_tag (tag (text "+obsidianirc/rtc") (to_json signal))
        (new (text "TAGMSG") (channel ∷ [])))
wire to_json (quit reason) = some (new (text "QUIT") (optional [] reason))
wire to_json (send_raw_line line) = Message.parse line
