-- ===== src/Proto/Isupport.antt =====
-- The `005` tokens and the settings that they drive: crates/obby-proto/src/isupport.rs.
mod Views
pub mod Coherent
pub mod Split
unfoldable pub use Views.*
use obby_client.Base.{
  ℕ, ◌≡◌, Bool, true, false, not, ◌&&◌, ◌||◌, Option, none, some, List, [], ◌∷◌, ◌++◌, Text, text,
  same, strip_prefix, split_once, split, has_char, find, is_nil, is_some, unwrap_or, bind, ◌>>=◌,
  if◌then◌else◌, ◌==◌, eq_ignore_ascii_case, parse_unsigned, u32_limit,
}
use obby_client.Base.OrdMap
use obby_client.Base.OrdMap.{Map}
use obby_client.Base.{text_ord, strip_suffix}
use obby_client.Proto.Casemap
use obby_client.Proto.Casemap.{Casemapping, CaseFolded}

pub record Isupport : Type 0 where
  pub tokens : Map Text (Option Text)
  pub casemapping : Casemapping
  pub prefix : Prefix
  pub chanmodes : ChanModes
  pub chantypes : Text
  pub statusmsg : Text

-- `Isupport::default`.
abbrev pub default : Isupport
default = record {
  tokens = [];
  casemapping = Casemap.rfc1459;
  prefix = default_prefix;
  chanmodes = default_chanmodes;
  chantypes = [];
  statusmsg = [];
}

pub record Token : Type 0 where
  pub name : Text
  pub value : Option Text
  pub removed : Bool

recompute_prefix : Prefix → Option Text → Prefix
recompute_prefix held none = default_prefix
recompute_prefix held (some value) = unwrap_or (parse_prefix value) held

unfoldable pub recompute : Text → Option Text → Isupport → Isupport
unfolding recompute_prefix
recompute name value s =
    if same name (text "CASEMAPPING")
    then record s { casemapping = casemapping_of value }
    else if same name (text "PREFIX")
    then record s { prefix = recompute_prefix s.prefix value }
    else if same name (text "CHANMODES")
    then record s { chanmodes = chanmodes_of value }
    else if same name (text "CHANTYPES")
    then record s { chantypes = unwrap_or value [] }
    else if same name (text "STATUSMSG")
    then record s { statusmsg = unwrap_or value [] }
    else s

-- The tokens without one of them.
pub withdraw : Text → Isupport → Isupport
withdraw name s = recompute name none (record s { tokens = OrdMap.remove name s.tokens })

-- The tokens with a value, or a bare flag, under one name.
pub hold : Text → Option Text → Isupport → Isupport
hold name value s = recompute name value (record s { tokens = OrdMap.insert name value s.tokens })

-- `token.split('=').next()`.
before_equals : Text → Text
before_equals name = elim (split b'=' name) [ [] ↦ name | p ∷ ps ↦ p ]

-- The name and the value now in force, for a token with a value.
appended : Isupport → Text → Text → Option Text → Text × Text
appended s name raw none = (name, unescape raw)
appended s name raw (some base) =
    (base, unwrap_or (unwrap_or (OrdMap.get base s.tokens) none) [] ++ unescape raw)

apply_value : Isupport → Text × Text → Isupport × Token
apply_value s (name, value) =
    (hold name (some value) s, record { name = name; value = some value; removed = false })

apply_held : Isupport → Text → Option (Text × Text) → Isupport × Token
unfolding apply_value appended
apply_held s token none =
    (hold token none s, record { name = token; value = none; removed = false })
apply_held s token (some (name, raw)) = apply_value s (appended s name raw (strip_suffix b'+' name))

apply_token : Isupport → Text → Option Text → Isupport × Token
unfolding apply_held before_equals
apply_token s token none = apply_held s token (split_once b'=' token)
apply_token s token (some name) = (
  withdraw (before_equals name) s,
  record { name = before_equals name; value = none; removed = true },
)

-- `Isupport::apply`.
unfoldable pub apply : Text → Isupport → Isupport × Token
unfolding apply_token
apply token s = apply_token s token (strip_prefix b'-' token)

unfoldable pub get : Text → Isupport → Option (Option Text)
get name s = OrdMap.get name s.tokens

unfoldable pub has : Text → Isupport → Bool
has name s = OrdMap.contains_key name s.tokens

-- A token whose value is a `u32`.
unfoldable pub number : Text → Isupport → Option ℕ
unfolding get
number name s = bind (get name s) (λ v. bind v (parse_unsigned u32_limit))

unfoldable pub fold : Text → Isupport → CaseFolded
fold name s = Casemap.fold s.casemapping name

unfoldable pub is_channel : Text → Isupport → Bool
is_channel [] s = false
is_channel (c ∷ name) s = has_char (if is_nil s.chantypes then text "#&" else s.chantypes) c

unfoldable pub is_statusmsg : ℕ → Isupport → Bool
is_statusmsg c s = has_char s.statusmsg c

filter_pairs : List Text → List (Text × Text)
filter_pairs [] = []
filter_pairs (part ∷ parts) = elim (split_once b':' part) [
  | none ↦ filter_pairs parts
  | some p ↦ p ∷ filter_pairs parts
]

unfoldable pub targmax : Text → Isupport → Option ℕ
unfolding get filter_pairs
targmax command s = do
  value ← bind (get (text "TARGMAX") s) (λ v. v)
  pair ← find (λ p. eq_ignore_ascii_case p.0 command) (filter_pairs (split b',' value))
  parse_unsigned u32_limit pair.1
