-- ===== src/Tests/Formatting.antt =====
-- Formatting codes on concrete inputs: crates/obby-proto/src/format.rs.
use obby_client.Base.{
  ◌≡◌, ◌≢◌, ◌++◌, true, refl, some, [], ◌∷◌, Text, text, All, retain, arith, split_once,
  strip_prefix, strip_suffix,
}
use obby_client.Proto.Format
use obby_client.Proto.Format.{
  parse_ctcp, parse_spans, strip_formatting, spans_loop, default, bold_code, colour_code,
  hex_colour_code, ctcp_delim,
}
use obby_client.Proto.Format.Stripping.{keeps, strip_formatting-retain, strip_formatting-IsPlain}
use obby_client.Proto.Format.Fuel.{parse_spans-fuel}

-- "a" in bold, then "b".
abbrev emphatic : Text
emphatic = bold_code ∷ b'a' ∷ bold_code ∷ b'b' ∷ []

-- "x" in white on red, then "y" with its colour reset.
abbrev colourful : Text
colourful = colour_code ∷ b'0' ∷ b',' ∷ b'4' ∷ b'x' ∷ colour_code ∷ b'y' ∷ []

emphatic-Uncoloured : All (λ c. (c ≢ colour_code) × (c ≢ hex_colour_code)) emphatic
emphatic-Uncoloured = ground arith

strip_formatting-retain_example : strip_formatting emphatic ≡ retain keeps emphatic
strip_formatting-retain_example = strip_formatting-retain emphatic emphatic-Uncoloured

strip_formatting-IsPlain_example : All (λ c. keeps c ≡ true) (strip_formatting colourful)
strip_formatting-IsPlain_example = strip_formatting-IsPlain colourful

parse_spans-fuel_example :
    (parse_spans colourful ≡ spans_loop 9 [] default colourful)
    × All (λ p. p.text ≢ []) (parse_spans colourful)
parse_spans-fuel_example = parse_spans-fuel colourful 9 (omega arith)

strip_colourful : strip_formatting colourful ≡ text "xy"
unfolding strip_formatting Format.action Format.parse_numbered_colour strip_prefix Format.toggled
strip_colourful = refl

parse_action :
    parse_ctcp (ctcp_delim ∷ text "ACTION waves" ++ ctcp_delim ∷ [])
    ≡ some (record { command = text "ACTION"; params = text "waves" })
unfolding parse_ctcp strip_prefix split_once strip_suffix
parse_action = refl
