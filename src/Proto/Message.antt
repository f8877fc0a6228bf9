-- ===== src/Proto/Message.antt =====
-- `Message` of crates/obby-proto/src/message.rs: one protocol line.
pub mod Params
pub mod RoundTrip
use obby_client.Base.{
  ℕ, zero, suc, ◌+◌, ◌-◌, ◌≡◌, Bool, true, false, ◌||◌, Option, none, some, List, [], ◌∷◌, ◌++◌,
  Text, text, split_once, strip_prefix, trim_start, trim_end, has_char, is_nil, length, get_elem?,
  last, eq_ignore_ascii_case, if◌then◌else◌, ◌==◌, bind,
}
use obby_client.Proto.Tags
use obby_client.Proto.Tags.{Tags}
use obby_client.Proto.Source
use obby_client.Proto.Source.{Source}

pub record Message : Type 0 where
  pub tags : Tags
  pub source : Option Source
  pub command : Text
  pub params : List Text

-- `ParseError` has one constructor, so a result is an option: `none` is `MissingCommand`.
abbrev pub is_eol : ℕ → Bool
is_eol c = c == b'\r' || c == b'\n'

-- What follows a marked section that ends at the first space, `none` when no space ends it.
take_section : Option (Text × Text) → Option (Text × Text)
take_section none = none
take_section (some (raw, remainder)) = some (raw, trim_start b' ' remainder)

read_tags : Text → Option Text → Option (Tags × Text)
unfolding take_section
read_tags rest none = some ([], rest)
read_tags rest (some after) =
    bind (take_section (split_once b' ' after)) (λ p. some (Tags.parse p.0, p.1))

read_source : Text → Option Text → Option (Option Source × Text)
unfolding take_section
read_source rest none = some (none, rest)
read_source rest (some after) =
    bind (take_section (split_once b' ' after)) (λ p. some (some (Source.parse p.0), p.1))

-- One round of the parameter loop behind the trimming; `more` is the loop on the remainder.
pub param_step : Option (Text × Text) → Text → (Text → List Text) → List Text
param_step none rest more = rest ∷ []
param_step (some (param, remainder)) rest more = param ∷ more remainder

pub loop_body : Text → (Text → List Text) → List Text
unfolding param_step
loop_body [] more = []
loop_body (c ∷ rest) more =
    if c == b':' then rest ∷ [] else param_step (split_once b' ' (c ∷ rest)) (c ∷ rest) more

-- The `loop` over the parameters. Each round takes at least one character, so the length of the
-- text is fuel enough; out of fuel the list ends.
unfoldable pub params_loop : ℕ → Text → List Text
unfolding loop_body
params_loop zero rest = []
params_loop (suc n) rest = loop_body (trim_start b' ' rest) (λ r. params_loop n r)

unfoldable pub parse_params : Text → List Text
unfolding params_loop
parse_params rest = params_loop (length rest + 1) rest

split_command : Text → Option (Text × Text) → Text × Text
split_command rest none = (rest, [])
split_command rest (some p) = p

finish : Tags → Option Source → Text × Text → Option Message
unfolding parse_params
finish ts s (command, rest) =
    if is_nil command
    then none
    else some (record { tags = ts; source = s; command = command; params = parse_params rest })

-- `Message::parse`.
unfoldable pub parse : Text → Option Message
unfolding read_tags read_source finish split_command
parse line =
    let rest = trim_end is_eol line in
    bind (read_tags rest (strip_prefix b'@' rest)) λ t.
      bind (read_source t.1 (strip_prefix b':' t.1))
        λ s. finish t.0 s.0 (split_command s.1 (split_once b' ' s.1))

unfoldable pub is : Message → Text → Bool
is m command = eq_ignore_ascii_case m.command command

unfoldable pub param : Message → ℕ → Option Text
param m i = get_elem? m.params i

unfoldable pub trailing : Message → Option Text
trailing m = last m.params

unfoldable pub tag : Message → Text → Option Text
tag m k = Tags.get k m.tags

-- A last parameter that can only travel behind a marker.
unfoldable pub needs_marker : Text → Bool
needs_marker [] = true
needs_marker (c ∷ p) = has_char (c ∷ p) b' ' || c == b':'

unfoldable pub display_params : List Text → Text
unfolding needs_marker
display_params [] = []
display_params (p ∷ []) = if needs_marker p then b' ' ∷ b':' ∷ p else b' ' ∷ p
display_params (p ∷ q ∷ ps) = (b' ' ∷ p) ++ display_params (q ∷ ps)

unfoldable pub display_tags : Tags → Text
display_tags [] = []
display_tags (t ∷ ts) = b'@' ∷ (Tags.display (t ∷ ts) ++ (b' ' ∷ []))

unfoldable pub display_source : Option Source → Text
display_source none = []
display_source (some s) = b':' ∷ (Source.display s ++ (b' ' ∷ []))

-- `Display for Message`.
unfoldable pub display : Message → Text
unfolding display_params display_tags display_source
display m =
    display_tags m.tags ++ (display_source m.source ++ (m.command ++ display_params m.params))
