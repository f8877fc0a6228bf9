-- ===== src/Tests/Wire.antt =====
-- Lines, sources, tags and case folding on concrete inputs: crates/obby-proto/src/message.rs,
-- tags.rs and casemap.rs.
use obby_client.Base.{
  ◌≡◌, some, [], ◌∷◌, text, All, trim_start, if◌then◌else◌, join, has_char, any, is_nil,
}
use native.Mathlib.Omega.{arith}
use obby_client.Proto.Tags
use obby_client.Proto.Tags.{Tag, Tags, tag, flag, escape, unescape}
use obby_client.Proto.Tags.Escape.{IsWireSafe, escape-IsWireSafe}
use obby_client.Proto.Tags.Wire.{IsWireTag, parse_tags-display}
use obby_client.Proto.Tags.Access.{repeats, get-set}
use obby_client.Proto.Source
use obby_client.Proto.Source.{Source, IsSource, display-parse, parse_source-display}
use obby_client.Proto.Message
use obby_client.Proto.Message.{Message, parse_params, loop_body}
use obby_client.Proto.Message.Params.{parse_params_lem}
use obby_client.Proto.Message.RoundTrip.{IsLine, parse_message-display}

abbrev tags_two : Tags
tags_two = tag (text "time") (text "a; b") ∷ flag (text "+x") ∷ []

abbrev nick_source : Source
nick_source = record { name = text "ann"; user = some (text "u"); host = some (text "host") }

abbrev greeting : Message
greeting = record {
  tags = tag (text "id") (text "a;b") ∷ [];
  source = some nick_source;
  command = text "PRIVMSG";
  params = text "#c" ∷ text "hi there" ∷ [];
}

greeting-IsLine : IsLine greeting
unfolding Message.display Message.display_params Message.needs_marker Message.display_tags
    Message.display_source Tags.display Tags.display_tag Tags.display_value escape Tags.escape_char
    Source.display Source.display_part join has_char any is_nil
greeting-IsLine = record {
  tags = ((omega arith, omega arith, λ e. cc), tt);
  no_space = omega arith;
  source = ((omega arith, omega arith), omega arith);
  command = (omega arith, omega arith, omega arith);
  params = ground arith;
  one_line = ground arith;
}

parse_message-display_example : Message.parse (Message.display greeting) ≡ some greeting
parse_message-display_example = parse_message-display greeting greeting-IsLine

parse_params_lem_example :
    parse_params (text " #c  :hi there")
    ≡ loop_body (trim_start b' ' (text " #c  :hi there")) parse_params
parse_params_lem_example = parse_params_lem (text " #c  :hi there")

tags_two-IsWireTag : All IsWireTag tags_two
tags_two-IsWireTag =
    ((omega arith, omega arith, λ e. cc), ((omega arith, omega arith, λ e. cc), tt))

parse_tags-display_example : Tags.parse (Tags.display tags_two) ≡ tags_two
parse_tags-display_example = parse_tags-display tags_two tags_two-IsWireTag

escape-IsWireSafe_example : All IsWireSafe (escape (text "a; b\\"))
escape-IsWireSafe_example = escape-IsWireSafe (text "a; b\\")

get-set_example :
    Tags.get (text "time") (Tags.set (tag (text "time") (text "b")) tags_two)
    ≡ (if repeats (text "time") tags_two then Tags.get (text "time") tags_two else some (text "b"))
get-set_example = get-set (tag (text "time") (text "b")) tags_two

display-parse_example : Source.display (Source.parse (text "ann!u@host")) ≡ text "ann!u@host"
display-parse_example = display-parse (text "ann!u@host")
