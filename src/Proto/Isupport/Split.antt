-- ===== src/Proto/Isupport/Split.antt =====
-- Prefix characters: NAMES entries and membership modes.
use obby_client.Base.{
  ℕ, zero, suc, ◌≡◌, refl, ap, true, false, some, List, [], ◌∷◌, ◌++◌, Text, has_char, any,
  position, get_elem?, length, is_some, All, ◌==◌, arith, Bool-cases, inl, inr, ◌<◌, Option-cases,
}
use obby_client.Proto.Isupport.{
  Prefix, split_entry, split_at_nick, is_membership_mode, char_for_mode, parse_prefix,
  parse_prefix-PrefixFits,
}

-- The text opens with no character of the list.
abbrev pub OpensWithout : List ℕ → Text → Type 0
OpensWithout chars [] = Unit
OpensWithout chars (c ∷ s) = has_char chars c ≡ false

-- What splitting an entry promises.
pub record IsSplit (chars : List ℕ) (entry : Text) (r : Text × Text) : Type 0 where
  pub whole : r.0 ++ r.1 ≡ entry
  pub prefixes : All (λ c. has_char chars c ≡ true) r.0
  pub nick : OpensWithout chars r.1

split_at_nick-IsSplit :
    (chars : List ℕ) (entry : Text) → IsSplit chars entry (split_at_nick chars entry)
unfolding split_at_nick
split_at_nick-IsSplit chars [] = record { whole = refl; prefixes = tt; nick = tt }
split_at_nick-IsSplit chars (c ∷ entry) =
    let rest = split_at_nick-IsSplit chars entry in
    elim (Bool-cases (has_char chars c)) [
      | inl e ↦ rw e (record {
        whole = ap (λ s. c ∷ s) rest.whole;
        prefixes = (e, rest.prefixes);
        nick = rest.nick;
      })
      | inr e ↦ rw e (record { whole = refl; prefixes = tt; nick = e })
    ]

-- Splitting a NAMES entry cuts it in two without loss: all that stands in front is a prefix
-- character of the server, and what is left does not open with one.
pub split_entry-IsSplit : (p : Prefix) (entry : Text) → IsSplit p.chars entry (split_entry p entry)
unfolding split_entry
split_entry-IsSplit p entry = split_at_nick-IsSplit p.chars entry

position-any : (m : ℕ) (ms : List ℕ) → is_some (position (λ x. x == m) ms) ≡ any (λ x. x == m) ms
unfolding position any
position-any m [] = refl
position-any m (x ∷ ms) = ground (arith, position-any m ms)

position-lt : (m : ℕ) (ms : List ℕ) {i : ℕ} → position (λ x. x == m) ms ≡ some i → i < length ms
unfolding position
position-lt m [] h = cc
position-lt m (x ∷ ms) {i} h = elim (Option-cases (position (λ y. y == m) ms)) [
  | inl e ↦ ground arith
  | inr (j, e) ↦ ground (arith, position-lt m ms {i = j} e)
]

get_elem?-some : (cs : List ℕ) (i : ℕ) → i < length cs → is_some (get_elem? cs i) ≡ true
get_elem?-some [] i h = elim h [ ]
get_elem?-some (c ∷ cs) zero h = refl
get_elem?-some (c ∷ cs) (suc i) h = get_elem?-some cs i (omega arith)

-- With the prefixes of a well-formed `PREFIX` value a mode letter grants a membership status
-- exactly when there is a prefix character to show it.
pub is_membership_mode-char :
    (value : Text) {p : Prefix} (mode : ℕ)
    → parse_prefix value ≡ some p
    → is_membership_mode p mode ≡ is_some (char_for_mode p mode)
unfolding is_membership_mode char_for_mode
is_membership_mode-char value {p} mode h = elim (Option-cases (position (λ x. x == mode) p.modes)) [
  | inl e ↦ ground (arith, position-any mode p.modes)
  | inr (i, e) ↦ ground (
    arith,
    position-any mode p.modes,
    position-lt mode p.modes {i = i} e,
    parse_prefix-PrefixFits value {p = p} h,
    get_elem?-some p.chars i,
  )
]
