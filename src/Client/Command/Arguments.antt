-- ===== src/Client/Command/Arguments.antt =====
-- What a host may put into a command so that one line can carry it: `Client::wire` of
-- crates/obby-client/src/client.rs with the printer of crates/obby-proto/src/message.rs.
use obby_client.Base.{
  ◌≡◌, ◌≢◌, ◌<◌, refl, Option, none, some, [], ◌∷◌, Text, text, find, any, same, Lacks, All, arith,
  subst, sym, All-append, u16_limit,
}
use obby_client.Proto.Tags
use obby_client.Proto.Tags.{Tag, Tags, tag}
use obby_client.Proto.Tags.Wire.{IsWireTag, display-Lacks}
use obby_client.Proto.Message
use obby_client.Proto.Message.{Message}
use obby_client.Proto.Message.Params.{MiddleFits, ParamsFit}
use obby_client.Proto.Message.RoundTrip.{IsLine, CommandFits, SourceFits, OnOneLine}
use obby_client.Client.Command.{
  Command, join, send_message, send_notice, send_action, watch_nicks, unwatch_nicks,
  subscribe_metadata, Typing, active, paused, done, as_str, part, set_topic, set_away, set_typing,
  add_reaction, remove_reaction, redact_message, mark_read, fetch_history, set_metadata,
  rename_channel, create_invite_link, delete_invite_link, generate_token, send_voice_signal, quit,
  send_raw_line, new, with_tag, optional, chathistory, invite_link, reaction, wire,
}

-- An argument that another one follows.
abbrev Before : Text → Option Text → Type 0
Before p none = Unit
Before p (some q) = MiddleFits p

abbrev NoSpace : Option Text → Type 0
NoSpace none = Unit
NoSpace (some msgid) = Lacks b' ' msgid

-- Every argument in front of another one can stand there, what travels in a tag is not empty, an
-- instant is one of the years up to 9999, a count fits its type, and a channel to invite to is
-- not the `*` that stands for none. The last argument is free.
abbrev pub IsSendable : {Signal : Type 0} → (Signal → Text) → Command Signal → Type 0
IsSendable to_json (part channel reason) = Before channel reason
IsSendable to_json (set_topic channel topic) = MiddleFits channel
IsSendable to_json (add_reaction target msgid emoji) = (msgid ≢ []) × (emoji ≢ [])
IsSendable to_json (remove_reaction target msgid emoji) = (msgid ≢ []) × (emoji ≢ [])
IsSendable to_json (redact_message target msgid reason) = MiddleFits target × Before msgid reason
IsSendable to_json (mark_read target at_ms) = MiddleFits target × (at_ms < 253402300800000)
IsSendable to_json (fetch_history target before_msgid limit) =
    MiddleFits target × (limit < u16_limit) × NoSpace before_msgid
IsSendable to_json (set_metadata key value) = Before key value
IsSendable to_json (rename_channel channel new_name reason) =
    MiddleFits channel × Before new_name reason
IsSendable to_json (create_invite_link (some channel) (some description)) =
    MiddleFits channel × (channel ≢ text "*")
IsSendable to_json (send_voice_signal channel signal) = to_json signal ≢ []
IsSendable to_json (send_raw_line line) = ⊥
IsSendable to_json _ = Unit

abbrev Fits : Option Message → Type 0
Fits none = Unit
Fits (some m) = ParamsFit m.params

wire-Fits :
    {Signal : Type 0} (to_json : Signal → Text) (c : Command Signal)
    → IsSendable to_json c
    → Fits (wire to_json c)
unfolding wire new with_tag optional chathistory invite_link reaction
wire-Fits to_json (part channel none) h = tt
wire-Fits to_json (part channel (some r)) h = (h, tt)
wire-Fits to_json (set_topic channel topic) h = (h, tt)
wire-Fits to_json (set_away none) h = tt
wire-Fits to_json (set_away (some m)) h = tt
wire-Fits to_json (redact_message target msgid none) h = (h.0, tt)
wire-Fits to_json (redact_message target msgid (some r)) h = (h.0, (h.1, tt))
wire-Fits to_json (mark_read target at_ms) h = (h.0, tt)
wire-Fits to_json (fetch_history target none limit) h =
    ((omega arith, omega arith), (h.0, ((omega arith, omega arith), tt)))
wire-Fits to_json (fetch_history target (some msgid) limit) h = (
  (omega arith, omega arith),
  (h.0, ((omega arith, All-append (λ c. c ≢ b' ') (text "msgid=") msgid (omega arith) h.2), tt)),
)
wire-Fits to_json (set_metadata key none) h =
    ((omega arith, omega arith), ((omega arith, omega arith), tt))
wire-Fits to_json (set_metadata key (some v)) h =
    ((omega arith, omega arith), ((omega arith, omega arith), (h, tt)))
wire-Fits to_json (rename_channel channel new_name none) h = (h.0, tt)
wire-Fits to_json (rename_channel channel new_name (some r)) h = (h.0, (h.1, tt))
wire-Fits to_json (create_invite_link none none) h = tt
wire-Fits to_json (create_invite_link none (some d)) h =
    ((omega arith, omega arith), ((omega arith, omega arith), tt))
wire-Fits to_json (create_invite_link (some c) none) h = ((omega arith, omega arith), tt)
wire-Fits to_json (create_invite_link (some c) (some d)) h = ((omega arith, omega arith), (h.0, tt))
wire-Fits to_json (delete_invite_link share_id) h = ((omega arith, omega arith), tt)
wire-Fits to_json (generate_token service) h = ((omega arith, omega arith), tt)
wire-Fits to_json (quit none) h = tt
wire-Fits to_json (quit (some r)) h = tt
wire-Fits to_json (send_raw_line line) h = absurd h
wire-Fits to_json _ h = tt

-- A tag as the client makes them.
abbrev IsPlainTag : Tag → Type 0
IsPlainTag t = IsWireTag t × Lacks b' ' t.key

abbrev IsShown : Option Message → Type 0
IsShown none = Unit
IsShown (some m) = All IsPlainTag m.tags × (m.source ≡ none) × CommandFits m.command

as_str-ne-nil : (state : Typing) → as_str state ≢ []
unfolding as_str
as_str-ne-nil active e = cc
as_str-ne-nil paused e = cc
as_str-ne-nil done e = cc

wire-IsShown :
    {Signal : Type 0} (to_json : Signal → Text) (c : Command Signal)
    → IsSendable to_json c
    → IsShown (wire to_json c)
unfolding wire new with_tag chathistory invite_link reaction Tags.set Tags.replace_first find same
    any
wire-IsShown to_json (set_typing target state) h =
    ((((omega arith, omega arith, as_str-ne-nil state), omega arith), tt), refl, omega arith)
wire-IsShown to_json (add_reaction target msgid emoji) h = (
  (
    ((omega arith, omega arith, h.1), omega arith),
    (((omega arith, omega arith, h.0), omega arith), tt),
  ),
  refl,
  omega arith,
)
wire-IsShown to_json (remove_reaction target msgid emoji) h = (
  (
    ((omega arith, omega arith, h.1), omega arith),
    (((omega arith, omega arith, h.0), omega arith), tt),
  ),
  refl,
  omega arith,
)
wire-IsShown to_json (send_voice_signal channel signal) h =
    ((((omega arith, omega arith, h), omega arith), tt), refl, omega arith)
wire-IsShown to_json (send_raw_line line) h = absurd h
wire-IsShown to_json (join channel key) h = tt
wire-IsShown to_json (send_message target body) h = tt
wire-IsShown to_json (send_notice target body) h = tt
wire-IsShown to_json (send_action target body) h = tt
wire-IsShown to_json (watch_nicks nicks) h = tt
wire-IsShown to_json (unwatch_nicks nicks) h = tt
wire-IsShown to_json (subscribe_metadata keys) h = tt
wire-IsShown to_json _ h = (tt, refl, omega arith)

plain : (ts : Tags) → All IsPlainTag ts → All IsWireTag ts × All (λ t. Lacks b' ' t.key) ts
plain [] h = (tt, tt)
plain (t ∷ ts) h = let (p, q) = plain ts h.1 in ((h.0.0, p), (h.0.1, q))

-- The line of such a command can be read back.
pub wire-IsLine :
    {Signal : Type 0} (to_json : Signal → Text) (c : Command Signal) {m : Message}
    → IsSendable to_json c
    → wire to_json c ≡ some m
    → OnOneLine (Message.display m)
    → IsLine m
wire-IsLine to_json c {m = m} h e l =
    let shown : IsShown (some m) = subst IsShown e (wire-IsShown to_json c h) in
    record {
      tags = (plain m.tags shown.0).0;
      no_space = display-Lacks m.tags (plain m.tags shown.0).1;
      source = subst SourceFits (sym shown.1) tt;
      command = shown.2;
      params = subst Fits e (wire-Fits to_json c h);
      one_line = l;
    }
