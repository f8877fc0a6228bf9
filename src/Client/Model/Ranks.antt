-- ===== src/Client/Model/Ranks.antt =====
-- The prefixes of a member stay in the server's order: `grant` of crates/obby-client/src/model.rs.
use obby_client.Base.{
  ℕ, ◌≡◌, ◌≤◌, refl, ap, sym, ◌∙◌, subst, Bool, true, false, ◌||◌, [], ◌∷◌, ◌++◌, Text, has_char,
  any, any-append, leb, ◌==◌, arith, Bool-cases, ==_iff, inl, inr, All,
}
use obby_client.Proto.Isupport.{Prefix}
use obby_client.Client.Model.{Membership, rank_key, insert_ranked, sort_ranked, grant}

-- Each prefix ranks no lower than the next.
abbrev pub IsRanked : (ℕ → ℕ) → Text → Type 0
IsRanked key [] = Unit
IsRanked key (c ∷ s) = All (λ d. key c ≤ key d) s × IsRanked key s

above_trans :
    (key : ℕ → ℕ) (c d : ℕ) (s : Text)
    → key c ≤ key d
    → All (λ e. key d ≤ key e) s
    → All (λ e. key c ≤ key e) s
above_trans key c d [] h a = tt
above_trans key c d (e ∷ s) h a = (omega arith, above_trans key c d s h a.1)

insert_ranked-above :
    (key : ℕ → ℕ) (b c : ℕ) (s : Text)
    → key b ≤ key c
    → All (λ e. key b ≤ key e) s
    → All (λ e. key b ≤ key e) (insert_ranked key c s)
unfolding insert_ranked
insert_ranked-above key b c [] h a = (h, tt)
insert_ranked-above key b c (d ∷ s) h a = elim (Bool-cases (leb (key c) (key d))) [
  | inl e ↦ rw e (h, a)
  | inr e ↦ rw e (a.0, insert_ranked-above key b c s h a.1)
]

insert_ranked-IsRanked :
    (key : ℕ → ℕ) (c : ℕ) (s : Text) → IsRanked key s → IsRanked key (insert_ranked key c s)
unfolding insert_ranked
insert_ranked-IsRanked key c [] h = (tt, tt)
insert_ranked-IsRanked key c (d ∷ s) h = elim (Bool-cases (leb (key c) (key d))) [
  | inl e ↦ let k : key c ≤ key d = ground (arith, e) in rw e ((k, above_trans key c d s k h.0), h)
  | inr e ↦
      let k : key d ≤ key c = ground (arith, e) in
      rw e (insert_ranked-above key d c s k h.0, insert_ranked-IsRanked key c s h.1)
]

sort_ranked-IsRanked : (key : ℕ → ℕ) (s : Text) → IsRanked key (sort_ranked key s)
unfolding sort_ranked
sort_ranked-IsRanked key [] = tt
sort_ranked-IsRanked key (c ∷ s) =
    insert_ranked-IsRanked key c (sort_ranked key s) (sort_ranked-IsRanked key s)

any-insert_ranked :
    (p : ℕ → Bool) (key : ℕ → ℕ) (c : ℕ) (s : Text)
    → any p (insert_ranked key c s) ≡ (p c || any p s)
unfolding any insert_ranked
any-insert_ranked p key c [] = refl
any-insert_ranked p key c (d ∷ s) = ground (arith, any-insert_ranked p key c s)

any-sort_ranked : (p : ℕ → Bool) (key : ℕ → ℕ) (s : Text) → any p (sort_ranked key s) ≡ any p s
unfolding sort_ranked any
any-sort_ranked p key [] = refl
any-sort_ranked p key (c ∷ s) =
    any-insert_ranked p key c (sort_ranked key s) ∙ ap (λ b. p c || b) (any-sort_ranked p key s)

or_false : (b : Bool) → b ≡ (b || false)
or_false b = ground arith

has_granted :
    (s : Text) (prefix c : ℕ)
    → has_char s prefix ≡ true
    → has_char s c ≡ (has_char s c || prefix == c)
has_granted s prefix c h = elim (Bool-cases (prefix == c)) [
  | inl e ↦
      let q : has_char s c ≡ true = subst (λ x. has_char s x ≡ true) ((==_iff prefix c).0 e) h in
      rw q refl
  | inr e ↦ rw e (or_false (has_char s c))
]

has_appended :
    (key : ℕ → ℕ) (s : Text) (prefix c : ℕ)
    → has_char (sort_ranked key (s ++ prefix ∷ [])) c ≡ (has_char s c || prefix == c)
unfolding has_char any
has_appended key s prefix c =
    any-sort_ranked (λ x. x == c) key (s ++ prefix ∷ [])
    ∙ (any-append (λ x. x == c) s (prefix ∷ [])
        ∙ ap (λ b. any (λ x. x == c) s || b) (sym (or_false (prefix == c))))

-- Granting a prefix to a member whose prefixes are in the server's order keeps that order, so the
-- first one is still the highest; the member holds the prefix, and of the others what it held.
pub grant-IsRanked :
    (prefix : ℕ) (order : Prefix) (m : Membership)
    → IsRanked (rank_key order) m.prefixes
    → IsRanked (rank_key order) (grant prefix order m).prefixes
      × ((c : ℕ)
          → has_char (grant prefix order m).prefixes c ≡ (has_char m.prefixes c || prefix == c))
unfolding grant
grant-IsRanked prefix order m h = elim (Bool-cases (has_char m.prefixes prefix)) [
  | inl e ↦ rw e (h, λ c. has_granted m.prefixes prefix c e)
  | inr e ↦ rw e (
    sort_ranked-IsRanked (rank_key order) (m.prefixes ++ prefix ∷ []),
    λ c. has_appended (rank_key order) m.prefixes prefix c,
  )
]
