-- ===== src/Proto/Isupport/Coherent.antt =====
-- The typed views always say what the tokens held say.
use obby_client.Base.{
  ◌≡◌, refl, true, false, Option, none, some, [], Text, text, same, same_iff, unwrap_or,
  if◌then◌else◌, arith, text_ord, inl, inr, Option-cases,
}
use obby_client.Base.OrdMap
use obby_client.Base.OrdMap.{Map, get-insert, get-remove}
use obby_client.Proto.Isupport.{
  Prefix, casemapping_of, chanmodes_of, parse_prefix, PrefixFits, parse_prefix-PrefixFits, Isupport,
  default, recompute_prefix, recompute, withdraw, hold, apply_value, apply_held, apply_token, apply,
}

-- The value in force under a name: none for an absent token and for a bare flag.
abbrev pub value_of : Text → Map Text (Option Text) → Option Text
value_of name tokens = unwrap_or (OrdMap.get name tokens) none

-- Each view is computed from its own token. `PREFIX` is not among them, because a malformed value
-- keeps the prefixes held before; its two lists have the same length, and are not empty.
pub record IsCoherent (s : Isupport) : Type 0 where
  pub casemapping : s.casemapping ≡ casemapping_of (value_of (text "CASEMAPPING") s.tokens)
  pub chanmodes : s.chanmodes ≡ chanmodes_of (value_of (text "CHANMODES") s.tokens)
  pub chantypes : s.chantypes ≡ unwrap_or (value_of (text "CHANTYPES") s.tokens) []
  pub statusmsg : s.statusmsg ≡ unwrap_or (value_of (text "STATUSMSG") s.tokens) []
  pub prefix : PrefixFits s.prefix

pub default-IsCoherent : IsCoherent default
unfolding OrdMap.get
default-IsCoherent = record {
  casemapping = refl;
  chanmodes = refl;
  chantypes = refl;
  statusmsg = refl;
  prefix = (refl, refl);
}

-- A name that is one text is no other.
same_other : (a b name : Text) → same a b ≡ false → same name a ≡ true → same name b ≡ false
same_other a b name d h = ground (arith, same_iff name a, same_iff a b, same_iff name b)

recompute_prefix-PrefixFits :
    (p : Prefix) (value : Option Text) → PrefixFits p → PrefixFits (recompute_prefix p value)
unfolding recompute_prefix
recompute_prefix-PrefixFits p none h = (refl, refl)
recompute_prefix-PrefixFits p (some v) h = elim (Option-cases (parse_prefix v)) [
  | inl e ↦ rw e h
  | inr (q, e) ↦ rw e (parse_prefix-PrefixFits v e)
]

module _ (name : Text) (value : Option Text) (s : Isupport) (c : IsCoherent s)
    (tokens : Map Text (Option Text))
    (changed : (k : Text)
      → value_of k tokens ≡ (if same name k then value else value_of k s.tokens)) where
  abbrev next : Isupport
  next = recompute name value (record s { tokens = tokens })

  recompute-IsCoherent : IsCoherent next
  unfolding recompute same
  recompute-IsCoherent = record {
    casemapping = ground (arith, c.casemapping, changed (text "CASEMAPPING"));
    chanmodes = ground (
      arith,
      c.chanmodes,
      changed (text "CHANMODES"),
      same_other (text "CASEMAPPING") (text "CHANMODES") name refl,
      same_other (text "PREFIX") (text "CHANMODES") name refl,
    );
    chantypes = ground (
      arith,
      c.chantypes,
      changed (text "CHANTYPES"),
      same_other (text "CASEMAPPING") (text "CHANTYPES") name refl,
      same_other (text "PREFIX") (text "CHANTYPES") name refl,
      same_other (text "CHANMODES") (text "CHANTYPES") name refl,
    );
    statusmsg = ground (
      arith,
      c.statusmsg,
      changed (text "STATUSMSG"),
      same_other (text "CASEMAPPING") (text "STATUSMSG") name refl,
      same_other (text "PREFIX") (text "STATUSMSG") name refl,
      same_other (text "CHANMODES") (text "STATUSMSG") name refl,
      same_other (text "CHANTYPES") (text "STATUSMSG") name refl,
    );
    prefix = ground (arith, c.prefix, recompute_prefix-PrefixFits s.prefix value c.prefix);
  }

hold-IsCoherent :
    (name : Text) (value : Option Text) (s : Isupport)
    → IsCoherent s
    → IsCoherent (hold name value s)
unfolding hold
hold-IsCoherent name value s c =
    recompute-IsCoherent name value s c (OrdMap.insert name value s.tokens)
      (λ k. ground (arith, get-insert name k value s.tokens))

withdraw-IsCoherent : (name : Text) (s : Isupport) → IsCoherent s → IsCoherent (withdraw name s)
unfolding withdraw
withdraw-IsCoherent name s c =
    recompute-IsCoherent name none s c (OrdMap.remove name s.tokens)
      (λ k. ground (arith, get-remove name k s.tokens))

apply_held-IsCoherent :
    (s : Isupport) (token : Text) (r : Option (Text × Text))
    → IsCoherent s
    → IsCoherent (apply_held s token r).0
unfolding apply_held apply_value
apply_held-IsCoherent s token none c = hold-IsCoherent token none s c
apply_held-IsCoherent s token (some (name, raw)) c = hold-IsCoherent _ _ s c

apply_token-IsCoherent :
    (s : Isupport) (token : Text) (r : Option Text)
    → IsCoherent s
    → IsCoherent (apply_token s token r).0
unfolding apply_token
apply_token-IsCoherent s token none c = apply_held-IsCoherent s token _ c
apply_token-IsCoherent s token (some name) c = withdraw-IsCoherent _ s c

-- Any token keeps the settings coherent: the views of `CASEMAPPING`, `CHANMODES`, `CHANTYPES`
-- and `STATUSMSG` are those of the value that is then held under the name, or the default where
-- none is, and the lists of `PREFIX` have one length.
pub apply-IsCoherent : (token : Text) (s : Isupport) → IsCoherent s → IsCoherent (apply token s).0
unfolding apply
apply-IsCoherent token s c = apply_token-IsCoherent s token _ c
