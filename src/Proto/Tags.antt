-- ===== src/Proto/Tags.antt =====
-- Message tags and their escaping: crates/obby-proto/src/tags.rs. `Tags` keeps the wire order.
pub mod Escape
pub mod Wire
pub mod Access
use mathlib.Core.List.{reverse, flat_map}
use obby_client.Base.{
  ℕ, ◌≡◌, Bool, true, false, not, Option, none, some, List, [], ◌∷◌, ◌++◌, map, Text, text, same,
  has_char, split, split_once, join, is_nil, any, find, retain, is_some, bind, length,
  if◌then◌else◌, ◌==◌,
}

pub record Tag : Type 0 where
  pub key : Text
  pub value : Option Text

abbrev pub Tags : Type 0
Tags = List Tag

abbrev pub tag : Text → Text → Tag
tag k v = record { key = k; value = some v }

abbrev pub flag : Text → Tag
flag k = record { key = k; value = none }

-- The character that a backslash before `c` stands for.
unfoldable pub unescape_char : ℕ → ℕ
unescape_char c =
    if c == b':'
    then b';'
    else if c == b's'
    then b' '
    else if c == b'\\'
    then b'\\'
    else if c == b'r'
    then b'\r'
    else if c == b'n'
    then b'\n'
    else c

unfoldable pub unescape_loop : Text → Text
unfolding unescape_char
unescape_loop [] = []
unescape_loop (c ∷ []) = if c == b'\\' then [] else c ∷ []
unescape_loop (c ∷ d ∷ s) =
    let escaped = unescape_char d ∷ unescape_loop s in
    let plain = c ∷ unescape_loop (d ∷ s) in if c == b'\\' then escaped else plain

unfoldable pub unescape : Text → Text
unfolding unescape_loop
unescape v = if not (has_char v b'\\') then v else unescape_loop v

unfoldable pub escape_char : ℕ → Text
escape_char c =
    if c == b';'
    then text "\\:"
    else if c == b' '
    then text "\\s"
    else if c == b'\\'
    then text "\\\\"
    else if c == b'\r'
    then text "\\r"
    else if c == b'\n'
    then text "\\n"
    else c ∷ []

-- `Display for Escaped`.
unfoldable pub escape : Text → Text
unfolding escape_char
escape [] = []
escape (c ∷ s) = escape_char c ++ escape s

-- The key of a part with no value behind it.
unfoldable pub key_of : Text → Text
key_of part = elim (split_once b'=' part) [ none ↦ part | some (k, v) ↦ k ]

parse_value : Text → Option (Text × Text) → Tag
unfolding key_of unescape
parse_value part none = flag (key_of part)
parse_value part (some (k, [])) = flag (key_of part)
parse_value part (some (k, c ∷ v)) = tag k (unescape (c ∷ v))

unfoldable pub parse_tag : Text → Tag
unfolding parse_value
parse_tag part = parse_value part (split_once b'=' part)

abbrev pub is_part : Text → Bool
is_part part = not (is_nil part)

-- `Tags::parse`.
unfoldable pub parse : Text → Tags
unfolding parse_tag
parse raw = map parse_tag (retain is_part (split b';' raw))

unfoldable pub display_value : Option Text → Text
unfolding escape
display_value none = []
display_value (some v) = b'=' ∷ escape v

unfoldable pub display_tag : Tag → Text
unfolding display_value
display_tag t = t.key ++ display_value t.value

-- `Display for Tags`.
unfoldable pub display : Tags → Text
unfolding display_tag
display ts = join b';' (map display_tag ts)

abbrev pub has_key : Text → Tag → Bool
has_key k t = same t.key k

unfoldable pub get : Text → Tags → Option Text
get k ts = bind (find (has_key k) (reverse ts)) (λ t. t.value)

unfoldable pub contains : Text → Tags → Bool
contains k ts = any (has_key k) ts

-- The write through `iter_mut().find`: the first tag with the key.
unfoldable pub replace_first : Tag → Tags → Tags
replace_first t [] = []
replace_first t (u ∷ ts) = if has_key t.key u then t ∷ ts else u ∷ replace_first t ts

unfoldable pub set : Tag → Tags → Tags
unfolding replace_first
set t ts = if is_some (find (has_key t.key) ts) then replace_first t ts else ts ++ t ∷ []

unfoldable pub remove : Text → Tags → Tags
remove k ts = retain (λ t. not (has_key k t)) ts

unfoldable pub is_client_only : Tag → Bool
is_client_only t = elim t.key [ [] ↦ false | c ∷ s ↦ c == b'+' ]
