-- ===== src/Client/Command/Understood.antt =====
-- What a server makes of the line that carries a command, by the specifications of the commands:
-- the reader of the lines that `Client::wire` of crates/obby-client/src/client.rs writes.
use obby_client.Base.{
  Option, none, some, List, [], ◌∷◌, Text, text, bind, ◌>>=◌, or_else, same, split_once, unwrap_or,
  if◌then◌else◌, parse_unsigned, u16_limit,
}
use obby_client.Proto.Tags
use obby_client.Proto.Tags.{Tags}
use obby_client.Proto.Message.{Message}
use obby_client.Proto.ServerTime
use obby_client.Client.Command.{
  Command, Typing, active, paused, done, join, part, send_message, send_notice, send_action,
  set_nick, set_topic, set_away, set_typing, add_reaction, remove_reaction, redact_message,
  mark_read, fetch_history, set_metadata, subscribe_metadata, whois, rename_channel,
  create_invite_link, list_invite_links, delete_invite_link, redeem_invite_code, generate_token,
  watch_nicks, unwatch_nicks, send_voice_signal, quit, send_raw_line,
}

-- What a command asks for: an absent topic is the empty one, and a voice frame is its JSON.
unfoldable pub meaning : {Signal : Type 0} → (Signal → Text) → Command Signal → Command Text
meaning to_json (join channel key) = join channel key
meaning to_json (part channel reason) = part channel reason
meaning to_json (send_message target body) = send_message target body
meaning to_json (send_notice target body) = send_notice target body
meaning to_json (send_action target body) = send_action target body
meaning to_json (set_nick nick) = set_nick nick
meaning to_json (set_topic channel topic) = set_topic channel (some (unwrap_or topic []))
meaning to_json (set_away message) = set_away message
meaning to_json (set_typing target state) = set_typing target state
meaning to_json (add_reaction target msgid emoji) = add_reaction target msgid emoji
meaning to_json (remove_reaction target msgid emoji) = remove_reaction target msgid emoji
meaning to_json (redact_message target msgid reason) = redact_message target msgid reason
meaning to_json (mark_read target at_ms) = mark_read target at_ms
meaning to_json (fetch_history target before_msgid limit) = fetch_history target before_msgid limit
meaning to_json (set_metadata key value) = set_metadata key value
meaning to_json (subscribe_metadata keys) = subscribe_metadata keys
meaning to_json (whois nick) = whois nick
meaning to_json (rename_channel channel new_name reason) = rename_channel channel new_name reason
meaning to_json (create_invite_link channel description) = create_invite_link channel description
meaning to_json list_invite_links = list_invite_links
meaning to_json (delete_invite_link share_id) = delete_invite_link share_id
meaning to_json (redeem_invite_code code) = redeem_invite_code code
meaning to_json (generate_token service) = generate_token service
meaning to_json (watch_nicks nicks) = watch_nicks nicks
meaning to_json (unwatch_nicks nicks) = unwatch_nicks nicks
meaning to_json (send_voice_signal channel signal) = send_voice_signal channel (to_json signal)
meaning to_json (quit reason) = quit reason
meaning to_json (send_raw_line line) = send_raw_line line

-- At most one more parameter.
unfoldable pub read_rest : (Option Text → Command Text) → List Text → Option (Command Text)
read_rest make [] = some (make none)
read_rest make (p ∷ []) = some (make (some p))
read_rest make _ = none

unfoldable pub read_part : List Text → Option (Command Text)
unfolding read_rest
read_part (channel ∷ rest) = read_rest (part channel) rest
read_part _ = none

unfoldable pub read_topic : List Text → Option (Command Text)
read_topic (channel ∷ topic ∷ []) = some (set_topic channel (some topic))
read_topic _ = none

unfoldable pub read_nick : List Text → Option (Command Text)
read_nick (nick ∷ []) = some (set_nick nick)
read_nick _ = none

unfoldable pub read_whois : List Text → Option (Command Text)
read_whois (nick ∷ []) = some (whois nick)
read_whois _ = none

unfoldable pub read_code : List Text → Option (Command Text)
read_code (code ∷ []) = some (redeem_invite_code code)
read_code _ = none

unfoldable pub read_token : List Text → Option (Command Text)
read_token (verb ∷ service ∷ []) =
    if same verb (text "GENERATE") then some (generate_token service) else none
read_token _ = none

unfoldable pub read_redact : List Text → Option (Command Text)
unfolding read_rest
read_redact (target ∷ msgid ∷ rest) = read_rest (redact_message target msgid) rest
read_redact _ = none

unfoldable pub read_rename : List Text → Option (Command Text)
unfolding read_rest
read_rename (channel ∷ new_name ∷ rest) = read_rest (rename_channel channel new_name) rest
read_rename _ = none

-- A key of the client's own is set or unset.
unfoldable pub read_metadata : List Text → Option (Command Text)
unfolding read_rest
read_metadata (target ∷ verb ∷ key ∷ rest) =
    if same verb (text "SET") then read_rest (set_metadata key) rest else none
read_metadata _ = none

-- The value of a parameter `key=value`.
unfoldable pub valued : Text → Text → Option Text
valued key p = bind (split_once b'=' p) (λ parts. if same parts.0 key then some parts.1 else none)

unfoldable pub read_marker : List Text → Option (Command Text)
unfolding valued
read_marker (target ∷ p ∷ []) =
    bind (valued (text "timestamp") p)
      (λ t. bind (ServerTime.parse t) (λ at_ms. some (mark_read target at_ms)))
read_marker _ = none

unfoldable pub read_history : List Text → Option (Command Text)
unfolding valued
read_history (verb ∷ target ∷ point ∷ count ∷ []) = do
  limit ← parse_unsigned u16_limit count
  if same verb (text "LATEST")
      then some (fetch_history target none limit)
      else bind (valued (text "msgid") point)
          (λ msgid. some (fetch_history target (some msgid) limit))
read_history _ = none

-- The channel of an invitation, where `*` stands for none.
unfoldable pub read_invited : Text → Option Text
read_invited channel = if same channel (text "*") then none else some channel

unfoldable pub read_create : List Text → Option (Command Text)
unfolding read_invited
read_create [] = some (create_invite_link none none)
read_create (channel ∷ []) = some (create_invite_link (some channel) none)
read_create (channel ∷ description ∷ []) =
    some (create_invite_link (read_invited channel) (some description))
read_create _ = none

unfoldable pub read_delete : List Text → Option (Command Text)
read_delete (share_id ∷ []) = some (delete_invite_link share_id)
read_delete _ = none

unfoldable pub read_invite : List Text → Option (Command Text)
unfolding read_create read_delete
read_invite (verb ∷ rest) =
    if same verb (text "CREATE")
    then read_create rest
    else if same verb (text "DELETE")
    then read_delete rest
    else if same verb (text "LIST")
    then some list_invite_links
    else none
read_invite _ = none

unfoldable pub read_state : Text → Option Typing
read_state s =
    if same s (text "active")
    then some active
    else if same s (text "paused")
    then some paused
    else if same s (text "done")
    then some done
    else none

-- A message of tags alone says by its tags what it is.
unfoldable pub read_tags : Tags → List Text → Option (Command Text)
unfolding read_state
read_tags tags (target ∷ []) =
    or_else
      (bind (Tags.get (text "+typing") tags)
        (λ s. bind (read_state s) (λ state. some (set_typing target state))))
      (or_else
        (bind (Tags.get (text "+draft/react") tags) (λ emoji.
          bind (Tags.get (text "+draft/reply") tags)
            (λ msgid. some (add_reaction target msgid emoji))))
        (or_else
          (bind (Tags.get (text "+draft/unreact") tags) (λ emoji.
            bind (Tags.get (text "+draft/reply") tags)
              (λ msgid. some (remove_reaction target msgid emoji))))
          (bind (Tags.get (text "+obsidianirc/rtc") tags)
            (λ frame. some (send_voice_signal target frame)))))
read_tags tags _ = none

-- The command of a line, by its name.
unfoldable pub understood : Message → Option (Command Text)
unfolding read_rest read_part read_topic read_nick read_whois read_code read_token read_redact
    read_rename read_metadata read_marker read_history read_invite read_tags
understood m =
    let is = same m.command in
    if is (text "PART")
    then read_part m.params
    else if is (text "NICK")
    then read_nick m.params
    else if is (text "TOPIC")
    then read_topic m.params
    else if is (text "AWAY")
    then read_rest set_away m.params
    else if is (text "TAGMSG")
    then read_tags m.tags m.params
    else if is (text "REDACT")
    then read_redact m.params
    else if is (text "MARKREAD")
    then read_marker m.params
    else if is (text "CHATHISTORY")
    then read_history m.params
    else if is (text "WHOIS")
    then read_whois m.params
    else if is (text "RENAME")
    then read_rename m.params
    else if is (text "INVITELINK")
    then read_invite m.params
    else if is (text "INVITECODE")
    then read_code m.params
    else if is (text "TOKEN")
    then read_token m.params
    else if is (text "METADATA")
    then read_metadata m.params
    else if is (text "QUIT")
    then read_rest quit m.params
    else none
