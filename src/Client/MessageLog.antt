-- ===== src/Client/MessageLog.antt =====
-- The messages of one conversation: `MessageKey`, `MessageKind`, `ChatMessage` and `MessageLog` of
-- crates/obby-client/src/model.rs, built with every feature.
pub mod Retention
use obby_client.Base.{
  ℕ, ◌≡◌, refl, ◌+◌, Bool, true, false, not, ◌&&◌, Option, none, some, List, [], ◌∷◌, map, Text,
  same, any, length, ltb, min, max, is_nil, last, bind, if◌then◌else◌, Ord, nat_ord, text_ord,
  pair_ord, ord_by,
}
use obby_client.Base.OrdMap
use obby_client.Base.OrdMap.{Map}

pub record MessageKey : Type 0 where
  pub time_ms : ℕ
  pub seq : ℕ

-- The derived order: by time, and by arrival among equal times.
abbrev fields : MessageKey → ℕ × ℕ
fields k = (k.time_ms, k.seq)

abbrev of_fields : ℕ × ℕ → MessageKey
of_fields p = record { time_ms = p.0; seq = p.1 }

pub of_fields-fields : (k : MessageKey) → of_fields (fields k) ≡ k
of_fields-fields k = refl

instance abbrev pub key_ord : Ord MessageKey
key_ord = ord_by fields of_fields of_fields-fields (pair_ord nat_ord nat_ord)

pub data MessageKind : Type 0 where
  privmsg notice : MessageKind
  ctcp : (command : Text) → MessageKind
  tagmsg join part quit : MessageKind
  kick : (target : Text) → MessageKind
  nick : (new_nick : Text) → MessageKind
  topic mode : MessageKind

-- The derived `==`.
unfoldable pub kind_eq : MessageKind → MessageKind → Bool
kind_eq privmsg privmsg = true
kind_eq notice notice = true
kind_eq (ctcp a) (ctcp b) = same a b
kind_eq tagmsg tagmsg = true
kind_eq join join = true
kind_eq part part = true
kind_eq quit quit = true
kind_eq (kick a) (kick b) = same a b
kind_eq (nick a) (nick b) = same a b
kind_eq topic topic = true
kind_eq mode mode = true
kind_eq _ _ = false

-- A link preview is of a type of the extensions, and only carried here.
pub record ChatMessage (LinkPreview : Type 0) : Type 0 where
  pub key : MessageKey
  pub msgid : Option Text
  pub sender : Text
  pub kind : MessageKind
  pub text : Text
  pub account : Option Text
  pub historical : Bool
  pub own : Bool
  pub reply_to : Option Text
  pub reactions : Map Text (List Text)
  pub link_preview : Option LinkPreview
  pub redacted : Bool

pub record MessageLog (LinkPreview : Type 0) : Type 0 where
  pub messages : Map MessageKey (ChatMessage LinkPreview)
  pub by_msgid : Map Text MessageKey
  pub retention : ℕ

abbrev u64_max : ℕ
u64_max = 18446744073709551615

-- The range of `has_twin`: from the time's first key to the next time's, excluded.
unfoldable pub at_instant : ℕ → MessageKey → Bool
at_instant time_ms k =
    let from : MessageKey = record { time_ms = time_ms; seq = 0 } in
    let to : MessageKey = record { time_ms = min (time_ms + 1) u64_max; seq = 0 } in
    not (key_ord.below k from) && key_ord.below k to

-- `if let Some(msgid) = .. { by_msgid.remove(&msgid) }`.
unfoldable pub forget_msgid : Option Text → Map Text MessageKey → Map Text MessageKey
forget_msgid none ids = ids
forget_msgid (some msgid) ids = OrdMap.remove msgid ids

unfoldable pub note_msgid : Option Text → MessageKey → Map Text MessageKey → Map Text MessageKey
note_msgid none key ids = ids
note_msgid (some msgid) key ids = OrdMap.insert msgid key ids

module _ {L : Type 0} where
  -- `ChatMessage::new`.
  unfoldable pub new : MessageKey → Text → MessageKind → ChatMessage L
  new key sender kind = record {
    key = key;
    msgid = none;
    sender = sender;
    kind = kind;
    text = [];
    account = none;
    historical = false;
    own = false;
    reply_to = none;
    reactions = [];
    link_preview = none;
    redacted = false;
  }

  unfoldable pub with_retention : ℕ → MessageLog L
  with_retention retention = record { messages = []; by_msgid = []; retention = max retention 1 }

  unfoldable pub is_twin : ChatMessage L → ChatMessage L → Bool
  is_twin held candidate =
      same held.sender candidate.sender
      && (same held.text candidate.text && kind_eq held.kind candidate.kind)

  unfoldable pub has_twin : ChatMessage L → MessageLog L → Bool
  unfolding at_instant is_twin
  has_twin candidate log =
      any (λ e. at_instant candidate.key.time_ms e.0 && is_twin e.1 candidate) log.messages

  -- The loop of `trim`, which takes the first message while there are too many.
  unfoldable pub trim_loop :
      ℕ
      → Map MessageKey (ChatMessage L)
      → Map Text MessageKey
      → Map MessageKey (ChatMessage L) × Map Text MessageKey
  unfolding forget_msgid
  trim_loop retention [] ids = ([], ids)
  trim_loop retention ((k, m) ∷ ms) ids =
      let rest = trim_loop retention ms (forget_msgid m.msgid ids) in
      if ltb retention (length ((k, m) ∷ ms)) then rest else ((k, m) ∷ ms, ids)

  unfoldable pub trim : MessageLog L → MessageLog L
  unfolding trim_loop
  trim log =
      let (messages, ids) = trim_loop log.retention log.messages log.by_msgid in
      record log { messages = messages; by_msgid = ids }

  unfoldable pub contains : Text → MessageLog L → Bool
  contains msgid log = OrdMap.contains_key msgid log.by_msgid

  -- The guard of `insert`.
  unfoldable pub is_held : Option Text → ChatMessage L → MessageLog L → Bool
  unfolding has_twin contains
  is_held none message log = has_twin message log
  is_held (some msgid) message log = contains msgid log

  unfoldable pub insert_under : Option Text → ChatMessage L → MessageLog L → Bool × MessageLog L
  unfolding is_held note_msgid trim
  insert_under msgid message log = if is_held msgid message log then (false, log) else (
    true,
    trim (record log {
      by_msgid = note_msgid msgid message.key log.by_msgid;
      messages = OrdMap.insert message.key message log.messages;
    }),
  )

  -- `MessageLog::insert`.
  unfoldable pub insert : ChatMessage L → MessageLog L → Bool × MessageLog L
  unfolding insert_under
  insert message log = insert_under message.msgid message log

  unfoldable pub get : Text → MessageLog L → Option (ChatMessage L)
  get msgid log = bind (OrdMap.get msgid log.by_msgid) (λ key. OrdMap.get key log.messages)

  -- A change to the message of the key, if the log has it.
  unfoldable pub changed :
      MessageKey
      → (ChatMessage L → ChatMessage L)
      → Option (ChatMessage L)
      → MessageLog L
      → MessageLog L
  changed key change none log = log
  changed key change (some m) log = record log {
    messages = OrdMap.insert key (change m) log.messages;
  }

  -- `Option`'s `?` on the key of the id, then `changed`.
  unfoldable pub change_under :
      (ChatMessage L → ChatMessage L) → Option MessageKey → MessageLog L → MessageLog L
  unfolding changed
  change_under change none log = log
  change_under change (some key) log = changed key change (OrdMap.get key log.messages) log

  -- The change that is made to the message lent out.
  unfoldable pub get_mut : Text → (ChatMessage L → ChatMessage L) → MessageLog L → MessageLog L
  unfolding change_under
  get_mut msgid change log = change_under change (OrdMap.get msgid log.by_msgid) log

  unfoldable pub get_by_key : MessageKey → MessageLog L → Option (ChatMessage L)
  get_by_key key log = OrdMap.get key log.messages

  unfoldable pub iter : MessageLog L → List (ChatMessage L)
  iter log = map (λ e. e.1) log.messages

  unfoldable pub newest : MessageLog L → Option (ChatMessage L)
  newest log = bind (last log.messages) (λ e. some e.1)

  unfoldable pub oldest : MessageLog L → Option (ChatMessage L)
  oldest log = elim log.messages [ [] ↦ none | e ∷ es ↦ some e.1 ]

  unfoldable pub count : MessageLog L → ℕ
  count log = length log.messages

  unfoldable pub is_empty : MessageLog L → Bool
  is_empty log = is_nil log.messages
