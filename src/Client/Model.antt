-- ===== src/Client/Model.antt =====
-- Everything the connection knows: `Membership`, `Person`, `Whois`, `Channel`, `Conversation`,
-- `LocalUser` and `Model` of crates/obby-client/src/model.rs. A function that lends out an entry
-- takes the change that is made to it.
pub mod Records
pub mod Rename
pub mod Ranks
use obby_client.Base.{
  ℕ, zero, suc, ◌≡◌, ◌+◌, ◌%◌, Bool, true, false, not, ◌&&◌, ◌||◌, Option, none, some, List, [],
  ◌∷◌, ◌++◌, map, Text, text, same, any, retain, has_char, is_nil, is_some, length, leb, max,
  u64_limit, unwrap_or, or_else, if◌then◌else◌, text_ord, ◌==◌,
}
use mathlib.Core.Option
use obby_client.Base.OrdMap
use obby_client.Base.OrdMap.{Map}
use obby_client.Proto.Casemap
use obby_client.Proto.Casemap.{CaseFolded, Casemapping}
use obby_client.Proto.Isupport.{Prefix, rank}
use obby_client.Client.MessageLog
use obby_client.Client.MessageLog.{MessageLog, MessageKey}

abbrev pub default_retention : ℕ
default_retention = 5000

abbrev pub max_whois_records : ℕ
max_whois_records = 64

pub record Membership : Type 0 where
  pub prefixes : Text

unfoldable pub top_prefix : Membership → Option ℕ
top_prefix m = elim m.prefixes [ [] ↦ none | c ∷ _ ↦ some c ]

-- The key of the sort; `usize::MAX` is after every rank.
unfoldable pub rank_key : Prefix → ℕ → ℕ
rank_key order c = unwrap_or (rank order c) 18446744073709551615

-- `sort_by_key`, which keeps the order of equal keys.
unfoldable pub insert_ranked : (ℕ → ℕ) → ℕ → Text → Text
insert_ranked key c [] = c ∷ []
insert_ranked key c (d ∷ s) = if leb (key c) (key d) then c ∷ d ∷ s else d ∷ insert_ranked key c s

unfoldable pub sort_ranked : (ℕ → ℕ) → Text → Text
unfolding insert_ranked
sort_ranked key [] = []
sort_ranked key (c ∷ s) = insert_ranked key c (sort_ranked key s)

unfoldable pub grant : ℕ → Prefix → Membership → Membership
unfolding sort_ranked rank_key
grant prefix order m =
    if has_char m.prefixes prefix
    then m
    else record { prefixes = sort_ranked (rank_key order) (m.prefixes ++ prefix ∷ []) }

unfoldable pub revoke : ℕ → Membership → Membership
revoke prefix m = record { prefixes = retain (λ c. not (c == prefix)) m.prefixes }

pub record Person : Type 0 where
  pub nick : Text
  pub account : Option Text
  pub away : Option Text
  pub bot : Bool
  pub username : Option Text
  pub host : Option Text
  pub realname : Option Text
  pub operator : Bool
  pub metadata : Map Text Text

pub record Whois : Type 0 where
  pub nick : Text
  pub username : Option Text
  pub host : Option Text
  pub realname : Option Text
  pub server : Option Text
  pub server_info : Option Text
  pub operator : Option Text
  pub idle_secs : Option ℕ
  pub signon_ms : Option ℕ
  pub channels : List Text
  pub account : Option Text
  pub actual_host : Option Text
  pub secure : Bool
  pub complete : Bool

abbrev pub person_named : Text → Person
person_named nick = record {
  nick = nick;
  account = none;
  away = none;
  bot = false;
  username = none;
  host = none;
  realname = none;
  operator = false;
  metadata = [];
}

abbrev pub whois_named : Text → Whois
whois_named nick = record {
  nick = nick;
  username = none;
  host = none;
  realname = none;
  server = none;
  server_info = none;
  operator = none;
  idle_secs = none;
  signon_ms = none;
  channels = [];
  account = none;
  actual_host = none;
  secure = false;
  complete = false;
}

-- A link preview is of a type of the extensions, and only carried here.
module _ (L : Type 0) where
  pub record Channel : Type 0 where
    pub name : Text
    pub topic : Option Text
    pub topic_by : Option Text
    pub modes : Map ℕ (Option Text)
    pub members : Map CaseFolded Membership
    pub log : MessageLog L
    pub unread : ℕ
    pub mentions : ℕ
    pub metadata : Map Text Text
    pub read_marker : Option Text
    pub typing : Map CaseFolded (Unit {0})
    pub named_modes : Map Text (Option Text)

  pub record Conversation : Type 0 where
    pub nick : Text
    pub log : MessageLog L
    pub unread : ℕ
    pub read_marker : Option Text
    pub typing : Map CaseFolded (Unit {0})

pub record LocalUser : Type 0 where
  pub nick : Text
  pub account : Option Text
  pub modes : Text
  pub metadata : Map Text Text
  pub away : Option Text

abbrev nobody : LocalUser
nobody = record { nick = []; account = none; modes = []; metadata = []; away = none }

pub record Model (L : Type 0) : Type 0 where
  pub me : LocalUser
  pub channels : Map CaseFolded (Channel L)
  pub conversations : Map CaseFolded (Conversation L)
  pub people : Map CaseFolded Person
  pub whois : Map CaseFolded Whois
  pub retention : ℕ
  pub next_seq : ℕ

-- The first record that is complete, or else the first.
unfoldable pub first_complete : Map CaseFolded Whois → Option CaseFolded
first_complete [] = none
first_complete ((k, r) ∷ m) = if r.complete then some k else first_complete m

unfoldable pub first_key : Map CaseFolded Whois → Option CaseFolded
first_key [] = none
first_key ((k, r) ∷ m) = some k

unfoldable pub stale : Map CaseFolded Whois → Option CaseFolded
unfolding first_complete first_key
stale m = or_else (first_complete m) (first_key m)

unfoldable pub remove_stale : Option CaseFolded → Map CaseFolded Whois → Map CaseFolded Whois
remove_stale none m = m
remove_stale (some k) m = OrdMap.remove k m

-- Room for a record of the key.
unfoldable pub make_room : CaseFolded → Map CaseFolded Whois → Map CaseFolded Whois
unfolding remove_stale stale
make_room key m =
    if leb max_whois_records (length m) && not (OrdMap.contains_key key m)
    then remove_stale (stale m) m
    else m

-- The record to fill in: a complete one, and one just made, start afresh.
unfoldable pub renewed : Text → Option Whois → Whois
renewed nick none = whois_named nick
renewed nick (some r) = if r.complete || is_nil r.nick then whois_named nick else r

-- The members of one channel after a rename.
unfoldable pub moved :
    {V : Type 0}
    → CaseFolded
    → CaseFolded
    → (V → V)
    → Option V
    → Map CaseFolded V
    → Map CaseFolded V
moved old new change none m = m
moved old new change (some v) m = OrdMap.insert new (change v) (OrdMap.remove old m)

-- `if let Some(v) = m.remove(old) { m.insert(new, v) }`.
unfoldable pub move_key :
    {V : Type 0} → CaseFolded → CaseFolded → (V → V) → Map CaseFolded V → Map CaseFolded V
unfolding moved
move_key old new change m = moved old new change (OrdMap.get old m) m

-- `values_mut`: every value changed, under its key.
unfoldable pub map_values : {V : Type 0} → (V → V) → Map CaseFolded V → Map CaseFolded V
map_values f [] = []
map_values f ((k, v) ∷ m) = (k, f v) ∷ map_values f m

-- `BTreeSet::insert` and `remove`, which say whether the set changed.
unfoldable pub set_member :
    CaseFolded → Bool → Map CaseFolded (Unit {0}) → Bool × Map CaseFolded (Unit {0})
set_member who true s = (not (OrdMap.contains_key who s), OrdMap.insert who tt s)
set_member who false s = (OrdMap.contains_key who s, OrdMap.remove who s)

-- `get_mut`: a change to the value of a key that is bound.
unfoldable pub changed {ℓ} :
    {V : Type ℓ} → CaseFolded → (V → V) → Option V → Map CaseFolded V → Map CaseFolded V
changed key change none m = m
changed key change (some v) m = OrdMap.insert key (change v) m

unfoldable pub get_mut {ℓ} :
    {V : Type ℓ} → CaseFolded → (V → V) → Map CaseFolded V → Map CaseFolded V
unfolding changed
get_mut key change m = changed key change (OrdMap.get key m) m

module _ {L : Type 0} where
  unfoldable pub with_retention : ℕ → Model L
  with_retention retention = record {
    me = nobody;
    channels = [];
    conversations = [];
    people = [];
    whois = [];
    retention = max retention 1;
    next_seq = 0;
  }

  unfoldable pub next_message_key : ℕ → Model L → MessageKey × Model L
  next_message_key time_ms m = (
    record { time_ms = time_ms; seq = m.next_seq },
    record m { next_seq = (m.next_seq + 1) % u64_limit },
  )

  unfoldable pub channel : CaseFolded → Model L → Option (Channel L)
  channel key m = OrdMap.get key m.channels

  abbrev new_channel : ℕ → Text → Channel L
  new_channel retention name = record {
    name = name;
    topic = none;
    topic_by = none;
    modes = [];
    members = [];
    log = MessageLog.with_retention retention;
    unread = 0;
    mentions = 0;
    metadata = [];
    read_marker = none;
    typing = [];
    named_modes = [];
  }

  unfoldable pub channel_or_insert : CaseFolded → Text → (Channel L → Channel L) → Model L → Model L
  channel_or_insert key name change m =
      let held = unwrap_or (OrdMap.get key m.channels) (new_channel m.retention name) in
      record m { channels = OrdMap.insert key (change held) m.channels }

  unfoldable pub remove_channel : CaseFolded → Model L → Option (Channel L) × Model L
  remove_channel key m =
      (OrdMap.get key m.channels, record m { channels = OrdMap.remove key m.channels })

  unfoldable pub conversation : CaseFolded → Model L → Option (Conversation L)
  conversation key m = OrdMap.get key m.conversations

  abbrev new_conversation : ℕ → Text → Conversation L
  new_conversation retention nick = record {
    nick = nick;
    log = MessageLog.with_retention retention;
    unread = 0;
    read_marker = none;
    typing = [];
  }

  unfoldable pub conversation_or_insert :
      CaseFolded → Text → (Conversation L → Conversation L) → Model L → Model L
  conversation_or_insert key nick change m =
      let held = unwrap_or (OrdMap.get key m.conversations) (new_conversation m.retention nick) in
      record m { conversations = OrdMap.insert key (change held) m.conversations }

  unfoldable pub person : CaseFolded → Model L → Option Person
  person key m = OrdMap.get key m.people

  unfoldable pub person_or_insert : CaseFolded → Text → (Person → Person) → Model L → Model L
  person_or_insert key nick change m =
      let held = unwrap_or (OrdMap.get key m.people) (person_named nick) in
      record m { people = OrdMap.insert key (change held) m.people }

  unfoldable pub whois : CaseFolded → Model L → Option Whois
  whois key m = OrdMap.get key m.whois

  unfoldable pub whois_or_insert : CaseFolded → Text → (Whois → Whois) → Model L → Model L
  unfolding make_room renewed
  whois_or_insert key nick change m =
      let room = make_room key m.whois in
      record m { whois = OrdMap.insert key (change (renewed nick (OrdMap.get key room))) room }

  unfoldable pub forget_whois : Model L → Model L
  forget_whois m = record m { whois = [] }

  unfoldable pub set_typing_query :
      Option (Conversation L) → CaseFolded → CaseFolded → Bool → Model L → Bool × Model L
  unfolding set_member
  set_typing_query none target who typing m = (false, m)
  set_typing_query (some query) target who typing m =
      let (changed, set) = set_member who typing query.typing in
      (
        changed,
        record m {
          conversations = OrdMap.insert target (record query { typing = set }) m.conversations;
        },
      )

  unfoldable pub set_typing_in :
      Option (Channel L) → CaseFolded → CaseFolded → Bool → Model L → Bool × Model L
  unfolding set_member set_typing_query
  set_typing_in none target who typing m =
      set_typing_query (OrdMap.get target m.conversations) target who typing m
  set_typing_in (some held) target who typing m =
      let (changed, set) = set_member who typing held.typing in
      (
        changed,
        record m { channels = OrdMap.insert target (record held { typing = set }) m.channels },
      )

  unfoldable pub set_typing : CaseFolded → CaseFolded → Bool → Model L → Bool × Model L
  unfolding set_typing_in
  set_typing target who typing m = set_typing_in (OrdMap.get target m.channels) target who typing m

  unfoldable pub rename_member : CaseFolded → CaseFolded → Channel L → Channel L
  unfolding move_key
  rename_member old new c = record c {
    members = move_key old new (λ membership. membership) c.members;
  }

  unfoldable pub rename : Casemapping → Text → Text → Model L → Model L
  unfolding rename_member move_key map_values
  rename casemapping from to m =
      let old = Casemap.fold casemapping from in
      let new = Casemap.fold casemapping to in
      record m {
        channels = map_values (rename_member old new) m.channels;
        conversations = move_key old new (λ query. record query { nick = to }) m.conversations;
        people = move_key old new (λ person. record person { nick = to }) m.people;
        me = if Casemap.eq casemapping m.me.nick from then record m.me { nick = to } else m.me;
      }

  unfoldable pub rename_channel : Casemapping → Text → Text → Model L → Bool × Model L
  unfolding move_key
  rename_channel casemapping from to m =
      let old = Casemap.fold casemapping from in
      (
        is_some (OrdMap.get old m.channels),
        record m {
          channels =
              move_key old (Casemap.fold casemapping to) (λ c. record c { name = to }) m.channels;
        },
      )

  unfoldable pub is_member_somewhere : CaseFolded → Map CaseFolded (Channel L) → Bool
  is_member_somewhere key [] = false
  is_member_somewhere key ((k, c) ∷ cs) =
      OrdMap.contains_key key c.members || is_member_somewhere key cs

  -- The names in the set `keep`.
  unfoldable pub is_known : Model L → CaseFolded → Bool
  unfolding is_member_somewhere
  is_known m key = OrdMap.contains_key key m.conversations || is_member_somewhere key m.channels

  unfoldable pub forget_strangers : Model L → Model L
  unfolding is_known
  forget_strangers m = record m {
    people = retain (λ e. is_known m e.0 || same (e.1).nick m.me.nick) m.people;
    whois = retain (λ e. is_known m e.0) m.whois;
  }

  unfoldable pub remove_from :
      CaseFolded → Map CaseFolded (Channel L) → List CaseFolded × Map CaseFolded (Channel L)
  remove_from who [] = ([], [])
  remove_from who ((k, c) ∷ cs) =
      let (left, rest) = remove_from who cs in
      (
        if OrdMap.contains_key who c.members then k ∷ left else left,
        (k, record c { members = OrdMap.remove who c.members }) ∷ rest,
      )

  unfoldable pub remove_everywhere : CaseFolded → Model L → List CaseFolded × Model L
  unfolding remove_from
  remove_everywhere who m =
      let (left, channels) = remove_from who m.channels in (left, record m { channels = channels })

  unfoldable pub channels_mut : (Channel L → Channel L) → Model L → Model L
  unfolding map_values
  channels_mut change m = record m { channels = map_values change m.channels }

  unfoldable pub channel_mut : CaseFolded → (Channel L → Channel L) → Model L → Model L
  unfolding get_mut
  channel_mut key change m = record m { channels = get_mut key change m.channels }

  unfoldable pub conversation_mut :
      CaseFolded → (Conversation L → Conversation L) → Model L → Model L
  unfolding get_mut
  conversation_mut key change m = record m { conversations = get_mut key change m.conversations }

  unfoldable pub person_mut : CaseFolded → (Person → Person) → Model L → Model L
  unfolding get_mut
  person_mut key change m = record m { people = get_mut key change m.people }

  unfoldable pub whois_mut : CaseFolded → (Whois → Whois) → Model L → Model L
  unfolding get_mut
  whois_mut key change m = record m { whois = get_mut key change m.whois }
