-- ===== src/Proto/Isupport/Views.antt =====
-- The typed views of the tokens: `Prefix`, `ChanModes`, and the escaping of values.
use obby_client.Base.{
  ℕ, ◌+◌, ◌*◌, ◌≡◌, Bool, false, not, ◌&&◌, ◌||◌, Option, none, some, List, [], ◌∷◌, Text, text,
  strip_prefix, split_once, split, has_char, any, position, get_elem?, is_nil, length, bind, ◌>>=◌,
  if◌then◌else◌, ◌==◌, hex_digit, unwrap_or, arith,
}
use obby_client.Proto.Casemap
use obby_client.Proto.Casemap.{Casemapping}

pub record Prefix : Type 0 where
  pub modes : List ℕ
  pub chars : List ℕ

abbrev pub default_prefix : Prefix
default_prefix = record { modes = text "ov"; chars = text "@+" }

prefix_of_parts : Text × Text → Option Prefix
prefix_of_parts (modes, chars) =
    if is_nil modes || not (length modes == length chars)
    then none
    else some (record { modes = modes; chars = chars })

-- `Prefix::parse`.
unfoldable pub parse_prefix : Text → Option Prefix
unfolding prefix_of_parts
parse_prefix value = do
  inner ← strip_prefix b'(' value
  parts ← split_once b')' inner
  prefix_of_parts parts

unfoldable pub char_for_mode : Prefix → ℕ → Option ℕ
char_for_mode p mode = bind (position (λ m. m == mode) p.modes) (get_elem? p.chars)

unfoldable pub mode_for_char : Prefix → ℕ → Option ℕ
mode_for_char p prefix = bind (position (λ c. c == prefix) p.chars) (get_elem? p.modes)

unfoldable pub is_membership_mode : Prefix → ℕ → Bool
is_membership_mode p mode = any (λ m. m == mode) p.modes

unfoldable pub rank : Prefix → ℕ → Option ℕ
rank p prefix = position (λ c. c == prefix) p.chars

-- The entry cut before its first character that is no prefix.
unfoldable pub split_at_nick : List ℕ → Text → Text × Text
split_at_nick chars [] = ([], [])
split_at_nick chars (c ∷ entry) =
    let (held, nick) = split_at_nick chars entry in
    if not (has_char chars c) then ([], c ∷ entry) else (c ∷ held, nick)

-- `Prefix::split`.
unfoldable pub split_entry : Prefix → Text → Text × Text
unfolding split_at_nick
split_entry p entry = split_at_nick p.chars entry

pub record ChanModes : Type 0 where
  pub list : Text
  pub always_arg : Text
  pub arg_on_set : Text
  pub flag : Text

abbrev pub default_chanmodes : ChanModes
default_chanmodes = record {
  list = text "b";
  always_arg = text "k";
  arg_on_set = text "l";
  flag = text "imnpst";
}

-- `parts.next().unwrap_or_default()`, at each of the first four parts.
nth_part : List Text → ℕ → Text
nth_part parts i = unwrap_or (get_elem? parts i) []

-- `ChanModes::parse`.
unfoldable pub parse_chanmodes : Text → ChanModes
unfolding nth_part
parse_chanmodes value =
    let parts = split b',' value in
    record {
      list = nth_part parts 0;
      always_arg = nth_part parts 1;
      arg_on_set = nth_part parts 2;
      flag = nth_part parts 3;
    }

-- What `recompute` makes of a value, or of its absence.
abbrev pub casemapping_of : Option Text → Casemapping
casemapping_of none = Casemap.rfc1459
casemapping_of (some value) = Casemap.parse value

abbrev pub chanmodes_of : Option Text → ChanModes
chanmodes_of none = default_chanmodes
chanmodes_of (some value) = parse_chanmodes value

-- `u8::from_str_radix` of two characters: two hexadecimal digits, or a plus sign and one.
unfoldable pub hex_pair : ℕ → ℕ → Option ℕ
hex_pair h l =
    if h == b'+'
    then hex_digit l
    else bind (hex_digit h) (λ a. bind (hex_digit l) (λ b. some (a * 16 + b)))

-- The text holds `\x`.
unfoldable pub has_escape : Text → Bool
has_escape [] = false
has_escape (c ∷ []) = false
has_escape (c ∷ d ∷ s) = (c == b'\\' && d == b'x') || has_escape (d ∷ s)

-- The text behind `\x`: its two characters are read if they are a hexadecimal number, and `\x`
-- stays as it is otherwise. `shorter` and `longer` are the loop behind two characters, and behind
-- none.
after_escape : Option ℕ → Text → Text → Text
after_escape (some byte) shorter longer = byte ∷ shorter
after_escape none shorter longer = b'\\' ∷ b'x' ∷ longer

unfoldable pub unescape_loop : Text → Text
unfolding after_escape
unescape_loop [] = []
unescape_loop (c ∷ []) = c ∷ []
unescape_loop (c ∷ d ∷ []) = c ∷ d ∷ []
unescape_loop (c ∷ d ∷ h ∷ []) =
    let tail = unescape_loop (d ∷ h ∷ []) in
    if c == b'\\' && d == b'x' then c ∷ d ∷ h ∷ [] else c ∷ tail
unescape_loop (c ∷ d ∷ h ∷ l ∷ s) =
    let escaped = after_escape (hex_pair h l) (unescape_loop s) (unescape_loop (h ∷ l ∷ s)) in
    let plain = c ∷ unescape_loop (d ∷ h ∷ l ∷ s) in
    if c == b'\\' && d == b'x' then escaped else plain

unfoldable pub unescape : Text → Text
unfolding unescape_loop has_escape
unescape value = if not (has_escape value) then value else unescape_loop value

-- Both lists of a `Prefix` have the same length, and hold something.
abbrev pub PrefixFits : Prefix → Type 0
PrefixFits p = (length p.modes ≡ length p.chars) × (is_nil p.modes ≡ false)

pub parse_prefix-PrefixFits :
    (value : Text) {p : Prefix} → parse_prefix value ≡ some p → PrefixFits p
unfolding parse_prefix
parse_prefix-PrefixFits value h = ground arith
