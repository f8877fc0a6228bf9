-- ===== src/Client/Caps/Wanted.antt =====
-- `WANTED_CAPS` of crates/obby-client/src/caps.rs, with the entries of every feature.
use obby_client.Base.{List, [], ◌∷◌, Text, text}

abbrev pub wanted_caps : List Text
wanted_caps =
    text "message-tags"
    ∷ text "server-time"
    ∷ text "batch"
    ∷ text "labeled-response"
    ∷ text "echo-message"
    ∷ text "draft/multiline"
    ∷ text "multi-prefix"
    ∷ text "userhost-in-names"
    ∷ text "extended-join"
    ∷ text "account-notify"
    ∷ text "account-tag"
    ∷ text "away-notify"
    ∷ text "chghost"
    ∷ text "invite-notify"
    ∷ text "setname"
    ∷ text "cap-notify"
    ∷ text "monitor"
    ∷ text "extended-monitor"
    ∷ text "draft/chathistory"
    ∷ text "draft/event-playback"
    ∷ text "draft/read-marker"
    ∷ text "draft/typing"
    ∷ text "draft/message-redaction"
    ∷ text "draft/channel-rename"
    ∷ text "channel-context"
    ∷ text "draft/channel-context"
    ∷ text "standard-replies"
    ∷ text "draft/named-modes"
    ∷ text "draft/metadata-2"
    ∷ text "draft/extended-isupport"
    ∷ text "draft/extended-isupport-0.2"
    ∷ text "sasl"
    ∷ text "znc.in/playback"
    ∷ text "obsidianirc/cmdslist"
    ∷ text "obby.world/channel-bots"
    ∷ text "draft/bot-cmds"
    ∷ text "obby.world/whois"
    ∷ text "obby.world/invitation"
    ∷ text "draft/authtoken"
    ∷ text "obsidianirc/voice"
    ∷ []
