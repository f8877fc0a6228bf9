-- ===== src/Proto/Format.antt =====
-- mIRC formatting codes and CTCP framing inside a message body: crates/obby-proto/src/format.rs.
pub mod Reading
pub mod Stripping
pub mod Fuel
use obby_client.Base.{
  ℕ, zero, suc, ◌≡◌, ◌+◌, ◌*◌, ◌-◌, Bool, true, false, not, Option, none, some, List, [], ◌∷◌, ◌++◌,
  map, Text, split_once, strip_prefix, unwrap_or, bind, is_digit, hex_digit, length, ◌==◌,
  if◌then◌else◌, ◌>>=◌,
}
use obby_client.Base.{strip_suffix}

abbrev pub bold_code : ℕ
bold_code = 2

abbrev pub italic_code : ℕ
italic_code = 29

abbrev pub underline_code : ℕ
underline_code = 31

abbrev pub strikethrough_code : ℕ
strikethrough_code = 30

abbrev pub monospace_code : ℕ
monospace_code = 17

abbrev pub reverse_code : ℕ
reverse_code = 22

abbrev pub reset_code : ℕ
reset_code = 15

abbrev pub colour_code : ℕ
colour_code = 3

abbrev pub hex_colour_code : ℕ
hex_colour_code = 4

abbrev pub ctcp_delim : ℕ
ctcp_delim = 1

pub data Colour : Type 0 where
  numbered : (n : ℕ) → Colour
  hex : (red green blue : ℕ) → Colour

-- The six bits of the byte, each of its own.
pub record Emphasis : Type 0 where
  pub bold : Bool
  pub italic : Bool
  pub underline : Bool
  pub strikethrough : Bool
  pub monospace : Bool
  pub reverse : Bool

pub record Style : Type 0 where
  pub emphasis : Emphasis
  pub foreground : Option Colour
  pub background : Option Colour

abbrev pub no_emphasis : Emphasis
no_emphasis = record {
  bold = false;
  italic = false;
  underline = false;
  strikethrough = false;
  monospace = false;
  reverse = false;
}

-- `Style::default`.
abbrev pub default : Style
default = record { emphasis = no_emphasis; foreground = none; background = none }

pub record Span : Type 0 where
  pub text : Text
  pub style : Style

pub record Ctcp : Type 0 where
  pub command : Text
  pub params : Text

unfoldable pub parse_ctcp : Text → Option Ctcp
parse_ctcp body = do
  opened ← strip_prefix ctcp_delim body
  let inner = unwrap_or (strip_suffix ctcp_delim opened) opened
  let parts = unwrap_or (split_once b' ' inner) (inner, [])
  some (record { command = parts.0; params = parts.1 })

-- `Emphasis::toggle` by the bit of each toggling code; any other character is no toggle.
unfoldable pub toggled : ℕ → Emphasis → Option Emphasis
toggled c e =
    if c == bold_code
    then some (record e { bold = not e.bold })
    else if c == italic_code
    then some (record e { italic = not e.italic })
    else if c == underline_code
    then some (record e { underline = not e.underline })
    else if c == strikethrough_code
    then some (record e { strikethrough = not e.strikethrough })
    else if c == monospace_code
    then some (record e { monospace = not e.monospace })
    else if c == reverse_code
    then some (record e { reverse = not e.reverse })
    else none

-- A reader of the characters: what it read, and the characters left.
abbrev pub Read : Type 0 → Type 0
Read A = Option (A × Text)

-- `take_digits`, with the value so far; the count of digits left to take is the fuel.
unfoldable pub more_digits : ℕ → ℕ → Text → ℕ × Text
more_digits zero value s = (value, s)
more_digits (suc n) value [] = (value, [])
more_digits (suc n) value (c ∷ s) =
    let next = more_digits n (value * 10 + (c - b'0')) s in
    if is_digit c then next else (value, c ∷ s)

unfoldable pub take_digits : ℕ → Text → Read ℕ
unfolding more_digits
take_digits max [] = none
take_digits max (c ∷ s) = if is_digit c then some (more_digits max 0 (c ∷ s)) else none

unfoldable pub take_comma_digits : Text → Read ℕ
unfolding take_digits
take_comma_digits s = bind (strip_prefix b',' s) (take_digits 2)

-- `hex_byte`: two hexadecimal digits.
unfoldable pub hex_byte : Text → Read ℕ
hex_byte (h ∷ l ∷ s) = bind (hex_digit h) (λ hi. bind (hex_digit l) (λ lo. some (hi * 16 + lo, s)))
hex_byte _ = none

unfoldable pub take_hex_triple : Text → Read (ℕ × ℕ × ℕ)
unfolding hex_byte
take_hex_triple s = do
  r ← hex_byte s
  g ← hex_byte r.1
  b ← hex_byte g.1
  some ((r.0, g.0, b.0), b.1)

unfoldable pub hex_of : ℕ × ℕ × ℕ → Colour
hex_of t = hex t.0 t.1 t.2

unfoldable pub take_comma_hex_triple : Text → Read Colour
unfolding hex_of take_hex_triple
take_comma_hex_triple s = do
  after ← strip_prefix b',' s
  t ← take_hex_triple after
  some (hex_of t.0, t.1)

-- A foreground and what may follow it: where no background can be read, nothing is taken.
with_background : Colour → Text → Read Colour → (Colour × Option Colour) × Text
with_background foreground s none = ((foreground, none), s)
with_background foreground s (some (background, rest)) = ((foreground, some background), rest)

number_background : Read ℕ → Read Colour
number_background none = none
number_background (some (n, rest)) = some (numbered n, rest)

unfoldable pub parse_numbered_colour : Text → Read (Colour × Option Colour)
unfolding with_background number_background take_digits take_comma_digits
parse_numbered_colour s =
    bind (take_digits 2 s)
      (λ f. some (with_background (numbered f.0) f.1 (number_background (take_comma_digits f.1))))

unfoldable pub parse_hex_colour : Text → Read (Colour × Option Colour)
unfolding with_background hex_of take_hex_triple take_comma_hex_triple
parse_hex_colour s =
    bind (take_hex_triple s)
      (λ f. some (with_background (hex_of f.0) f.1 (take_comma_hex_triple f.1)))

unfoldable pub apply_colour : Style → Option (Colour × Option Colour) → Style
apply_colour style none = record style { foreground = none; background = none }
apply_colour style (some (foreground, none)) = record style { foreground = some foreground }
apply_colour style (some (foreground, some background)) = record style {
  foreground = some foreground;
  background = some background;
}

-- `flush`: the text so far becomes a span, unless there is none.
unfoldable pub flush : Text → Style → List Span → List Span
flush [] style spans = spans
flush (c ∷ s) style spans = record { text = c ∷ s; style = style } ∷ spans

-- What one character does: it is text, or it changes the style and may take more characters.
pub data Action : Type 0 where
  push : Action
  restyle : (style : Style) (rest : Text) → Action

coloured : Style → Text → Read (Colour × Option Colour) → Action
coloured style s none = restyle (apply_colour style none) s
coloured style s (some (parsed, rest)) = restyle (apply_colour style (some parsed)) rest

emphasised : Style → Text → Option Emphasis → Action
emphasised style s none = push
emphasised style s (some e) = restyle (record style { emphasis = e }) s

-- The `match` on a character.
unfoldable pub action : ℕ → Style → Text → Action
unfolding coloured emphasised
action c style s =
    if c == reset_code
    then restyle default s
    else if c == colour_code
    then coloured style s (parse_numbered_colour s)
    else if c == hex_colour_code
    then coloured style s (parse_hex_colour s)
    else emphasised style s (toggled c style.emphasis)

-- The loop over the characters, with the text and the style so far. Each round takes a character,
-- so the number of characters is fuel enough.
unfoldable pub spans_loop : ℕ → Text → Style → Text → List Span
unfolding flush
spans_loop zero current style s = flush current style []
spans_loop (suc n) current style [] = flush current style []
spans_loop (suc n) current style (c ∷ s) = elim (action c style s) [
  | push ↦ spans_loop n (current ++ c ∷ []) style s
  | restyle next rest ↦ flush current style (spans_loop n [] next rest)
]

unfoldable pub parse_spans : Text → List Span
unfolding spans_loop
parse_spans body = spans_loop (length body) [] default body

unfoldable pub concat_text : List Span → Text
concat_text [] = []
concat_text (p ∷ spans) = p.text ++ concat_text spans

unfoldable pub strip_formatting : Text → Text
unfolding parse_spans concat_text
strip_formatting body = concat_text (parse_spans body)
