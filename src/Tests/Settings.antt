-- ===== src/Tests/Settings.antt =====
-- Server settings and modes on concrete inputs: crates/obby-proto/src/isupport.rs and mode.rs.
use obby_client.Base.{
  ◌≡◌, true, some, [], ◌∷◌, map, refl, text, take, has_char, any, strip_prefix, split_once, is_nil,
}
use obby_client.Proto.Isupport
use obby_client.Proto.Isupport.{
  Isupport, Prefix, parse_prefix, split_entry, char_for_mode, is_membership_mode,
}
use obby_client.Proto.Isupport.Coherent.{IsCoherent, default-IsCoherent, apply-IsCoherent}
use obby_client.Proto.Mode.{parse_channel_modes, parse_user_modes, takes_arg}
use obby_client.Proto.Mode.Arity.{
  letters, arity, args_of, letter_of, parse_channel_modes-args, parse_user_modes-channel,
}

apply-IsCoherent_example : IsCoherent (Isupport.apply (text "PREFIX=(qov)~@+") Isupport.default).0
apply-IsCoherent_example =
    apply-IsCoherent (text "PREFIX=(qov)~@+") Isupport.default default-IsCoherent

abbrev three_levels : Prefix
three_levels = record { modes = text "qov"; chars = text "~@+" }

three_levels-parse : parse_prefix (text "(qov)~@+") ≡ some three_levels
unfolding parse_prefix strip_prefix split_once is_nil
three_levels-parse = refl

parse_channel_modes-args_example :
    (map letter_of (parse_channel_modes Isupport.default (text "+o-l" ∷ text "ann" ∷ []))
      ≡ letters true (text "+o-l"))
    × (args_of (parse_channel_modes Isupport.default (text "+o-l" ∷ text "ann" ∷ []))
        ≡ take (arity Isupport.default (letters true (text "+o-l"))) (text "ann" ∷ []))
parse_channel_modes-args_example =
    parse_channel_modes-args Isupport.default (text "+o-l") (text "ann" ∷ [])

-- Under the settings before any `005`, these letters are flags or unknown.
no_arguments : arity Isupport.default (letters true (text "+i-w")) ≡ 0
unfolding arity letters takes_arg is_membership_mode has_char any
no_arguments = refl

parse_user_modes-channel_example :
    parse_user_modes (text "+i-w")
    ≡ parse_channel_modes Isupport.default (text "+i-w" ∷ text "ann" ∷ [])
parse_user_modes-channel_example =
    parse_user_modes-channel Isupport.default (text "+i-w") (text "ann" ∷ []) no_arguments
