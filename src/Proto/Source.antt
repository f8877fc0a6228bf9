-- ===== src/Proto/Source.antt =====
-- `Source` of crates/obby-proto/src/message.rs: where a message came from.
use obby_client.Base.{
  ℕ, ◌≡◌, sym, ap, ◌∙◌, Bool, ◌&&◌, not, Option, none, some, [], ◌∷◌, ◌++◌, append-nil, Text, arith,
  Lacks, split_once, split_once-append, split_once-Lacks, SplitsAt, split_once-SplitsAt, has_char,
  is_some, All-append,
}

pub record Source : Type 0 where
  pub name : Text
  pub user : Option Text
  pub host : Option Text

abbrev source : Text → Option Text → Option Text → Source
source n u h = record { name = n; user = u; host = h }

-- A part that runs up to `@`, and the host behind it.
with_user : Text → Text → Option (Text × Text) → Source
with_user n rest none = source n (some rest) none
with_user n rest (some (u, h)) = source n (some u) (some h)

without_user : Text → Option (Text × Text) → Source
without_user n none = source n none none
without_user n (some (m, h)) = source m none (some h)

parse_split : Text → Option (Text × Text) → Source
unfolding with_user without_user
parse_split raw none = without_user raw (split_once b'@' raw)
parse_split raw (some (n, rest)) = with_user n rest (split_once b'@' rest)

-- `Source::parse`.
unfoldable pub parse : Text → Source
unfolding parse_split
parse raw = parse_split raw (split_once b'!' raw)

unfoldable pub looks_like_server : Source → Bool
looks_like_server s = not (is_some s.user) && has_char s.name b'.'

unfoldable pub display_part : ℕ → Option Text → Text
display_part c none = []
display_part c (some t) = c ∷ t

-- `Display for Source`.
unfoldable pub display : Source → Text
unfolding display_part
display s = s.name ++ (display_part b'!' s.user ++ display_part b'@' s.host)

with_user-display :
    (n rest : Text) (r : Option (Text × Text))
    → SplitsAt b'@' rest r
    → display (with_user n rest r) ≡ n ++ (b'!' ∷ rest)
unfolding with_user display
with_user-display n rest none h = ap (λ t. n ++ (b'!' ∷ t)) (append-nil rest)
with_user-display n rest (some (u, h)) e = ap (λ t. n ++ (b'!' ∷ t)) (sym e.0)

without_user-display :
    (n : Text) (r : Option (Text × Text)) → SplitsAt b'@' n r → display (without_user n r) ≡ n
unfolding without_user display
without_user-display n none h = append-nil n
without_user-display n (some (m, h)) e = sym e.0

parse_split-display :
    (raw : Text) (r : Option (Text × Text))
    → SplitsAt b'!' raw r
    → display (parse_split raw r) ≡ raw
unfolding parse_split
parse_split-display raw none h = without_user-display raw _ (split_once-SplitsAt b'@' raw)
parse_split-display raw (some (n, rest)) e =
    with_user-display n rest _ (split_once-SplitsAt b'@' rest) ∙ sym e.0

-- Splitting a raw source loses nothing: writing the parts out gives the raw source back.
pub display-parse : (raw : Text) → display (parse raw) ≡ raw
unfolding parse
display-parse raw = parse_split-display raw _ (split_once-SplitsAt b'!' raw)

-- The parts that `parse` can return: where a user is present the name ends at the first `!` and
-- the user at the first `@`; otherwise nothing holds a `!`, and the name ends at the first `@`.
abbrev pub PartsFit : Text → Option Text → Option Text → Type 0
PartsFit n (some u) h = Lacks b'!' n × Lacks b'@' u
PartsFit n none (some h) = Lacks b'!' n × Lacks b'@' n × Lacks b'!' h
PartsFit n none none = Lacks b'!' n × Lacks b'@' n

abbrev pub IsSource : Source → Type 0
IsSource s = PartsFit s.name s.user s.host

parse-parts :
    (n : Text) (u h : Option Text)
    → PartsFit n u h
    → parse (n ++ (display_part b'!' u ++ display_part b'@' h)) ≡ source n u h
unfolding parse display_part
parse-parts n (some u) none f =
    rw (append-nil u) (
      rw (split_once-append b'!' n u f.0, parse_split)
        (rw (split_once-Lacks b'@' u f.1, with_user)))
parse-parts n (some u) (some h) f =
    rw (split_once-append b'!' n (u ++ (b'@' ∷ h)) f.0, parse_split)
      (rw (split_once-append b'@' u h f.1, with_user))
parse-parts n none none f =
    rw (append-nil n) (
      rw (split_once-Lacks b'!' n f.0, parse_split)
        (rw (split_once-Lacks b'@' n f.1, without_user)))
parse-parts n none (some h) f =
    rw
      (
        split_once-Lacks b'!' (n ++ (b'@' ∷ h)) (All-append _ n _ f.0 (omega arith, f.2)),
        parse_split,
      )
      (rw (split_once-append b'@' n h f.1, without_user))

-- Reading back a source that was written gives its three parts, where these have the form that
-- `parse` returns: the name ends at the first `!` and the user at the first `@`.
pub parse_source-display : (s : Source) → IsSource s → parse (display s) ≡ s
unfolding display
parse_source-display s f = parse-parts s.name s.user s.host f
