-- ===== src/Proto/Message/RoundTrip.antt =====
-- `Message::parse` reads back what `Display` writes.
use obby_client.Base.{
  ℕ, ◌≡◌, ◌≢◌, refl, sym, ap, ◌∙◌, false, Option, none, some, List, [], ◌∷◌, ◌++◌, append_assoc,
  append-nil, Text, split_once, split_once-append, split_once-Lacks, strip_prefix, trim_start,
  trim_end-id, Lacks, All, arith,
}
use obby_client.Proto.Tags
use obby_client.Proto.Tags.{Tags}
use obby_client.Proto.Tags.Wire
use obby_client.Proto.Tags.Wire.{IsWireTag}
use obby_client.Proto.Source
use obby_client.Proto.Source.{Source, IsSource}
use obby_client.Proto.Message.{
  Message, is_eol, take_section, read_tags, read_source, split_command, finish, parse_params, parse,
  display_params, display_tags, display_source, display,
}
use obby_client.Proto.Message.Params.{
  ParamsFit, parse_params-display, parse_params-space, display_params-cons,
}

-- Neither a CR nor a LF occurs.
abbrev pub OnOneLine : Text → Type 0
OnOneLine s = All (λ c. is_eol c ≡ false) s

-- A command is not empty, holds no space, and does not open with the mark of another section.
abbrev pub CommandFits : Text → Type 0
CommandFits [] = ⊥
CommandFits (c ∷ s) = (c ≢ b'@') × (c ≢ b':') × Lacks b' ' (c ∷ s)

abbrev pub SourceFits : Option Source → Type 0
SourceFits none = Unit
SourceFits (some s) = IsSource s × Lacks b' ' (Source.display s)

-- The messages that one line can express.
pub record IsLine (m : Message) : Type 0 where
  pub tags : All IsWireTag m.tags
  pub no_space : Lacks b' ' (Tags.display m.tags)
  pub source : SourceFits m.source
  pub command : CommandFits m.command
  pub params : ParamsFit m.params
  pub one_line : OnOneLine (display m)

trim_start-word : (c : ℕ) (s : Text) → c ≢ b' ' → trim_start b' ' (c ∷ s) ≡ c ∷ s
unfolding trim_start
trim_start-word c s h = ground arith

-- A section that ends at a space, before text that does not open with one.
take_section-word :
    (raw : Text) (c : ℕ) (s : Text)
    → Lacks b' ' raw
    → c ≢ b' '
    → take_section (split_once b' ' (raw ++ (b' ' ∷ c ∷ s))) ≡ some (raw, c ∷ s)
unfolding take_section
take_section-word raw c s h n =
    rw (split_once-append b' ' raw (c ∷ s) h) (rw (trim_start-word c s n))

-- What follows the tags opens with a character that is neither a space nor `@`.
abbrev Opens : Text → Type 0
Opens [] = ⊥
Opens (c ∷ s) = (c ≢ b' ') × (c ≢ b'@')

strip_prefix-ne : (c x : ℕ) (s : Text) → x ≢ c → strip_prefix c (x ∷ s) ≡ none
unfolding strip_prefix
strip_prefix-ne c x s h = ground arith

strip_prefix-eq : (c : ℕ) (s : Text) → strip_prefix c (c ∷ s) ≡ some s
unfolding strip_prefix
strip_prefix-eq c s = ground arith

read_tags-display :
    (ts : Tags) (s : Text)
    → All IsWireTag ts
    → Lacks b' ' (Tags.display ts)
    → Opens s
    → read_tags (display_tags ts ++ s) (strip_prefix b'@' (display_tags ts ++ s)) ≡ some (ts, s)
unfolding display_tags read_tags
read_tags-display ts [] h l o = absurd o
read_tags-display [] (c ∷ s) h l o = rw (strip_prefix-ne b'@' c s o.1, read_tags)
read_tags-display (t ∷ ts) (c ∷ s) h l o =
    rw (strip_prefix-eq, append_assoc, read_tags)
      (rw (take_section-word (Tags.display (t ∷ ts)) c s l o.0)
        (ap (λ u. some (u, c ∷ s)) (Wire.parse_tags-display (t ∷ ts) h)))

command_opens : (c : ℕ) (s : Text) → CommandFits (c ∷ s) → c ≢ b' '
command_opens c s h = h.2.0

read_source-display :
    (o : Option Source) (command s : Text)
    → SourceFits o
    → CommandFits command
    → read_source
        (display_source o ++ (command ++ s))
        (strip_prefix b':' (display_source o ++ (command ++ s)))
      ≡ some (o, command ++ s)
unfolding display_source read_source
read_source-display o [] s f k = absurd k
read_source-display none (c ∷ command) s f k =
    rw (strip_prefix-ne b':' c (command ++ s) k.1, read_source)
read_source-display (some src) (c ∷ command) s f k =
    rw (strip_prefix-eq, append_assoc, read_source)
      (rw (take_section-word (Source.display src) c (command ++ s) f.1 k.2.0)
        (ap (λ u. some (some u, c ∷ (command ++ s))) (Source.parse_source-display src f.0)))

abbrev built : Tags → Option Source → Text → List Text → Message
built ts o command ps = record { tags = ts; source = o; command = command; params = ps }

finish-word :
    (ts : Tags) (o : Option Source) (command rest : Text)
    → CommandFits command
    → finish ts o (command, rest) ≡ some (built ts o command (parse_params rest))
unfolding finish
finish-word ts o [] rest k = absurd k
finish-word ts o (c ∷ command) rest k = refl

split_params : Text → List Text → Text × Text
unfolding split_command
split_params command ps =
    split_command (command ++ display_params ps) (split_once b' ' (command ++ display_params ps))

Lacks-command : (command : Text) → CommandFits command → Lacks b' ' command
Lacks-command [] k = tt
Lacks-command (c ∷ command) k = k.2

split_params-nil : (command : Text) → Lacks b' ' command → split_params command [] ≡ (command, [])
unfolding split_params display_params
split_params-nil command k =
    rw (append-nil command) (rw (split_once-Lacks b' ' command k, split_command))

split_params-cons :
    (command p t : Text) (ps : List Text)
    → Lacks b' ' command
    → display_params (p ∷ ps) ≡ b' ' ∷ t
    → split_params command (p ∷ ps) ≡ (command, t)
unfolding split_params
split_params-cons command p t ps k e = rw e (rw (split_once-append b' ' command t k, split_command))

finish-params :
    (ts : Tags) (o : Option Source) (command : Text) (ps : List Text)
    → CommandFits command
    → ParamsFit ps
    → finish ts o (split_params command ps) ≡ some (built ts o command ps)
finish-params ts o command [] k f =
    ap (finish ts o) (split_params-nil command (Lacks-command command k))
    ∙ finish-word ts o command [] k
    ∙ ap (λ l. some (built ts o command l)) (unfold display_params in parse_params-display [] f)
finish-params ts o command (p ∷ ps) k f =
    let (t, e) = display_params-cons p ps in
    ap (finish ts o) (split_params-cons command p t ps (Lacks-command command k) e)
    ∙ finish-word ts o command t k
    ∙ ap (λ l. some (built ts o command l))
        (sym (parse_params-space t) ∙ ap parse_params (sym e) ∙ parse_params-display (p ∷ ps) f)

source-Opens :
    (o : Option Source) (command s : Text)
    → CommandFits command
    → Opens (display_source o ++ (command ++ s))
unfolding display_source
source-Opens o [] s k = absurd k
source-Opens none (c ∷ command) s k = (k.2.0, k.0)
source-Opens (some src) (c ∷ command) s k = (omega arith, omega arith)

-- A message that one line can express is read back from the line that `Display` writes: the
-- same tags in the same order, the same source, command and parameters. That is a message whose
-- tags, source and command have the form that their section can show, in which every parameter
-- but the last is not empty, holds no space and does not start with a colon, and which holds no
-- CR or LF.
pub parse_message-display : (m : Message) → IsLine m → parse (display m) ≡ some m
unfolding parse display split_params
parse_message-display m w =
    let body = display_source m.source ++ (m.command ++ display_params m.params) in
    rw (trim_end-id is_eol (display_tags m.tags ++ body) w.one_line) (
      rw
        (read_tags-display m.tags body w.tags w.no_space
          (source-Opens m.source m.command _ w.command))
        (rw (read_source-display m.source m.command (display_params m.params) w.source w.command)
          (finish-params m.tags m.source m.command m.params w.command w.params)))
