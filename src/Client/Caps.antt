-- ===== src/Client/Caps.antt =====
-- Capability negotiation: crates/obby-client/src/caps.rs, built with every feature.
pub mod Wanted
pub mod Requests
use obby_client.Base.{
  ℕ, ◌≡◌, Bool, true, false, not, ◌&&◌, ◌||◌, Option, none, some, List, [], ◌∷◌, ◌++◌, map, Text,
  same, any, retain, split_once, strip_prefix, is_nil, leb, ◌==◌, if◌then◌else◌, or_else, unwrap_or,
  bind, text_ord,
}
use obby_client.Base.OrdMap
use obby_client.Base.OrdMap.{Map}
use Wanted.{wanted_caps}

pub record Capabilities : Type 0 where
  pub available : Map Text (Option Text)
  pub acknowledged : Map Text (Option Text)
  pub pending : List Text

abbrev pub default : Capabilities
default = record { available = []; acknowledged = []; pending = [] }

-- `char::is_whitespace`.
unfoldable pub is_whitespace : ℕ → Bool
is_whitespace c =
    (leb 9 c && leb c 13)
    || c == 32
    || c == 0x85
    || c == 0xa0
    || c == 0x1680
    || (leb 0x2000 c && leb c 0x200a)
    || c == 0x2028
    || c == 0x2029
    || c == 0x202f
    || c == 0x205f
    || c == 0x3000

-- The word being read, put in front of the words behind it.
end_word : Text → List Text → List Text
end_word [] ws = ws
end_word (c ∷ w) ws = (c ∷ w) ∷ ws

-- The word that the text opens with, and the words behind it.
words : Text → Text × List Text
unfolding is_whitespace end_word
words [] = ([], [])
words (c ∷ s) =
    let (w, ws) = words s in if is_whitespace c then ([], end_word w ws) else (c ∷ w, ws)

-- `str::split_whitespace`.
unfoldable pub split_whitespace : Text → List Text
unfolding words end_word
split_whitespace s = let (w, ws) = words s in end_word w ws

value_of : Text → Option (Text × Text) → Text × Option Text
value_of token none = (token, none)
value_of token (some (name, value)) = (name, some value)

unfoldable pub split_value : Text → Text × Option Text
unfolding value_of
split_value token = value_of token (split_once b'=' token)

unfoldable pub advertise_token : Text → Capabilities → Capabilities
advertise_token token c =
    let (name, value) = split_value token in
    record c { available = OrdMap.insert name value c.available }

-- A loop over the tokens of a line.
unfoldable pub for_each :
    (Text → Capabilities → Capabilities) → List Text → Capabilities → Capabilities
for_each f [] c = c
for_each f (t ∷ ts) c = for_each f ts (f t c)

unfoldable pub advertise : Text → Capabilities → Capabilities
unfolding advertise_token for_each
advertise list = for_each advertise_token (split_whitespace list)

unfoldable pub withdraw_token : Text → Capabilities → Capabilities
withdraw_token token c =
    let name = (split_value token).0 in
    record c {
      available = OrdMap.remove name c.available;
      acknowledged = OrdMap.remove name c.acknowledged;
    }

unfoldable pub withdraw : Text → Capabilities → Capabilities
unfolding withdraw_token for_each
withdraw list = for_each withdraw_token (split_whitespace list)

-- The tests of the three filters.
unfoldable pub is_askable : Capabilities → Text → Bool
is_askable c name =
    OrdMap.contains_key name c.available
    && not (OrdMap.contains_key name c.acknowledged)
    && not (any (λ p. same p name) c.pending)

unfoldable pub to_request : Capabilities → List Text
to_request c = retain (is_askable c) wanted_caps

unfoldable pub requested : List Text → Capabilities → Capabilities
requested names c = record c { pending = c.pending ++ names }

unfoldable pub without : Text → List Text → List Text
without name = retain (λ p. not (same p name))

-- One token of a `CAP ACK`: a capability that the server dropped, or one that we now hold.
acknowledge_marked : Text → Option Text → Capabilities → Option Text × Capabilities
unfolding without
acknowledge_marked token (some name) c = (
  none,
  record c { acknowledged = OrdMap.remove name c.acknowledged; pending = without name c.pending },
)
acknowledge_marked token none c =
    let (name, value) = split_value token in
    let held = or_else value (bind (OrdMap.get name c.available) (λ v. v)) in
    (
      some name,
      record c {
        acknowledged = OrdMap.insert name held c.acknowledged;
        pending = without name c.pending;
      },
    )

unfoldable pub acknowledge_token : Text → Capabilities → Option Text × Capabilities
unfolding acknowledge_marked
acknowledge_token token c = acknowledge_marked token (strip_prefix b'-' token) c

add_acked : Option Text → List Text → List Text
add_acked none acked = acked
add_acked (some name) acked = name ∷ acked

unfoldable pub acknowledge_loop : List Text → Capabilities → List Text × Capabilities
unfolding acknowledge_token add_acked
acknowledge_loop [] c = ([], c)
acknowledge_loop (t ∷ ts) c =
    let (name, next) = acknowledge_token t c in
    let (acked, last) = acknowledge_loop ts next in (add_acked name acked, last)

-- `Capabilities::acknowledge`.
unfoldable pub acknowledge : Text → Capabilities → List Text × Capabilities
unfolding acknowledge_loop
acknowledge list = acknowledge_loop (split_whitespace list)

unfoldable pub reject_token : Text → Capabilities → Capabilities
unfolding without
reject_token token c = record c { pending = without (split_value token).0 c.pending }

unfoldable pub reject : Text → Capabilities → Capabilities
unfolding reject_token for_each
reject list = for_each reject_token (split_whitespace list)

unfoldable pub has : Text → Capabilities → Bool
has name c = OrdMap.contains_key name c.acknowledged

unfoldable pub value : Text → Capabilities → Option Text
value name c = bind (OrdMap.get name c.acknowledged) (λ v. v)

unfoldable pub offers : Text → Capabilities → Bool
offers name c = OrdMap.contains_key name c.available

unfoldable pub settled : Capabilities → Bool
settled c = is_nil c.pending

pub record Capability : Type 0 where
  pub name : Text
  pub value : Option Text

-- Sorted by name, as the map is.
unfoldable pub enabled : Capabilities → List Capability
enabled c = map (λ p. record { name = p.0; value = p.1 }) c.acknowledged
