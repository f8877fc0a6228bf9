-- ===== src/Proto/Mode.antt =====
-- Parsing a MODE change: crates/obby-proto/src/mode.rs.
pub mod Arity
use obby_client.Base.{
  ℕ, ◌≡◌, refl, Bool, true, false, ◌&&◌, ◌||◌, Option, none, some, List, [], ◌∷◌, Text, has_char,
  if◌then◌else◌, ◌==◌,
}
use obby_client.Proto.Isupport.{Isupport, is_membership_mode}

pub record ModeChange : Type 0 where
  pub set : Bool
  pub mode : ℕ
  pub arg : Option Text
  pub membership : Bool

-- `takes_arg`: the letter takes an argument in this direction.
unfoldable pub takes_arg : Isupport → Bool → ℕ → Bool
takes_arg s set mode =
    is_membership_mode s.prefix mode
    || has_char s.chanmodes.list mode
    || has_char s.chanmodes.always_arg mode
    || (set && has_char s.chanmodes.arg_on_set mode)

-- `args.next().cloned()`, with the arguments left.
next_arg : List Text → Option Text × List Text
next_arg [] = (none, [])
next_arg (a ∷ args) = (some a, args)

-- `takes_arg.then(|| args.next().cloned()).flatten()`.
unfoldable pub take_arg : Bool → List Text → Option Text × List Text
unfolding next_arg
take_arg takes args = if takes then next_arg args else (none, args)

-- The loop over the letters, with the direction in force and the arguments left.
unfoldable pub channel_loop : Isupport → Bool → List Text → Text → List ModeChange
channel_loop s set args [] = []
channel_loop s set args (mode ∷ spec) =
    let (arg, left) = take_arg (takes_arg s set mode) args in
    let change : ModeChange = record {
      set = set;
      mode = mode;
      arg = arg;
      membership = is_membership_mode s.prefix mode;
    } in
    let plus = channel_loop s true args spec in
    let minus = channel_loop s false args spec in
    let letter = change ∷ channel_loop s set left spec in
    if mode == b'+' then plus else if mode == b'-' then minus else letter

unfoldable pub parse_channel_modes : Isupport → List Text → List ModeChange
unfolding channel_loop
parse_channel_modes s [] = []
parse_channel_modes s (spec ∷ args) = channel_loop s true args spec

unfoldable pub user_loop : Bool → Text → List ModeChange
user_loop set [] = []
user_loop set (mode ∷ spec) =
    let change : ModeChange = record { set = set; mode = mode; arg = none; membership = false } in
    let plus = user_loop true spec in
    let minus = user_loop false spec in
    let letter = change ∷ user_loop set spec in
    if mode == b'+' then plus else if mode == b'-' then minus else letter

unfoldable pub parse_user_modes : Text → List ModeChange
unfolding user_loop
parse_user_modes spec = user_loop true spec
