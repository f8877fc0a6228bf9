-- ===== src/Proto/Mode/Arity.antt =====
-- Each argument is attached to the letter that takes it.
use obby_client.Base.{
  ℕ, zero, suc, ◌≡◌, refl, ap, sym, ◌∙◌, Bool, true, false, none, some, List, [], ◌∷◌, Text, map,
  take, if◌then◌else◌, ◌==◌, arith, Bool-cases, inl, inr,
}
use obby_client.Proto.Isupport.{Isupport, is_membership_mode}
use obby_client.Proto.Mode.{
  ModeChange, takes_arg, take_arg, next_arg, channel_loop, parse_channel_modes, user_loop,
  parse_user_modes,
}

-- The letters of a mode string, each with the direction in force where it stands.
unfoldable pub letters : Bool → Text → List (Bool × ℕ)
letters set [] = []
letters set (c ∷ spec) =
    let plus = letters true spec in
    let minus = letters false spec in
    let letter = (set, c) ∷ letters set spec in
    if c == b'+' then plus else if c == b'-' then minus else letter

-- How many of the letters take an argument.
unfoldable pub arity : Isupport → List (Bool × ℕ) → ℕ
arity s [] = 0
arity s ((set, c) ∷ ls) = if takes_arg s set c then suc (arity s ls) else arity s ls

-- The arguments that the changes carry, in order.
unfoldable pub args_of : List ModeChange → List Text
args_of [] = []
args_of (c ∷ cs) = elim c.arg [ none ↦ args_of cs | some a ↦ a ∷ args_of cs ]

abbrev pub letter_of : ModeChange → Bool × ℕ
letter_of c = (c.set, c.mode)

-- The list of changes that the letters make, one by one, from the arguments.
changes : Isupport → List Text → List (Bool × ℕ) → List ModeChange
changes s args [] = []
changes s args ((set, c) ∷ ls) =
    let (arg, left) = take_arg (takes_arg s set c) args in
    record { set = set; mode = c; arg = arg; membership = is_membership_mode s.prefix c }
    ∷ changes s left ls

channel_loop-changes :
    (s : Isupport) (set : Bool) (args : List Text) (spec : Text)
    → channel_loop s set args spec ≡ changes s args (letters set spec)
unfolding channel_loop letters changes
channel_loop-changes s set args [] = refl
channel_loop-changes s set args (c ∷ spec) = elim (Bool-cases (c == b'+')) [
  | inl p ↦ rw p (channel_loop-changes s true args spec)
  | inr p ↦ elim (Bool-cases (c == b'-')) [
    | inl m ↦ rw (p, m) (channel_loop-changes s false args spec)
    | inr m ↦
        rw (p, m)
          (ap
            (λ l.
              record {
                set = set;
                mode = c;
                arg = (take_arg (takes_arg s set c) args).0;
                membership = is_membership_mode s.prefix c;
              }
              ∷ l)
            (channel_loop-changes s set (take_arg (takes_arg s set c) args).1 spec))
  ]
]

changes-letters :
    (s : Isupport) (args : List Text) (ls : List (Bool × ℕ))
    → map letter_of (changes s args ls) ≡ ls
unfolding changes
changes-letters s args [] = refl
changes-letters s args ((set, c) ∷ ls) =
    ap (λ l. (set, c) ∷ l) (changes-letters s (take_arg (takes_arg s set c) args).1 ls)

take_nil {ℓ} : {A : Type ℓ} (n : ℕ) → take {A = A} n [] ≡ []
take_nil zero = refl
take_nil (suc n) = refl

changes-args :
    (s : Isupport) (args : List Text) (ls : List (Bool × ℕ))
    → args_of (changes s args ls) ≡ take (arity s ls) args
unfolding changes args_of arity take_arg next_arg
changes-args s args [] = refl
changes-args s [] ((set, c) ∷ ls) = elim (Bool-cases (takes_arg s set c)) [
  | inl e ↦ rw e (changes-args s [] ls ∙ take_nil (arity s ls))
  | inr e ↦ rw e (changes-args s [] ls)
]
changes-args s (a ∷ args) ((set, c) ∷ ls) = elim (Bool-cases (takes_arg s set c)) [
  | inl e ↦ rw e (ap (λ l. a ∷ l) (changes-args s args ls))
  | inr e ↦ rw e (changes-args s (a ∷ args) ls)
]

-- A channel MODE line gives one change for each letter, in order and with the direction in force,
-- and the changes carry, in order, the first arguments of the line: as many as there are letters
-- that the server says take one, or all of them where the line has fewer.
pub parse_channel_modes-args :
    (s : Isupport) (spec : Text) (args : List Text)
    → (map letter_of (parse_channel_modes s (spec ∷ args)) ≡ letters true spec)
      × (args_of (parse_channel_modes s (spec ∷ args)) ≡ take (arity s (letters true spec)) args)
unfolding parse_channel_modes
parse_channel_modes-args s spec args =
    rw (channel_loop-changes s true args spec)
      (changes-letters s args (letters true spec), changes-args s args (letters true spec))

-- A letter that takes no argument grants no membership.
bare :
    (s : Isupport) (set : Bool) (c : ℕ)
    → takes_arg s set c ≡ false
    → is_membership_mode s.prefix c ≡ false
unfolding takes_arg
bare s set c h = ground (arith, h)

-- The change of a letter without an argument.
plain : Bool × ℕ → ModeChange
plain (set, c) = record { set = set; mode = c; arg = none; membership = false }

changes-plain :
    (s : Isupport) (args : List Text) (ls : List (Bool × ℕ))
    → arity s ls ≡ 0
    → changes s args ls ≡ map plain ls
unfolding changes arity take_arg plain
changes-plain s args [] h = refl
changes-plain s args ((set, c) ∷ ls) h = elim (Bool-cases (takes_arg s set c)) [
  | inl e ↦ absurd (let k = rw e at h in omega arith)
  | inr e ↦
      rw (e, bare s set c e) (ap (λ l. plain (set, c) ∷ l) (changes-plain s args ls (rw e at h)))
]

user_loop-plain : (set : Bool) (spec : Text) → user_loop set spec ≡ map plain (letters set spec)
unfolding user_loop letters plain
user_loop-plain set [] = refl
user_loop-plain set (c ∷ spec) =
    ground (arith, user_loop-plain true spec, user_loop-plain false spec, user_loop-plain set spec)

-- A user MODE string is read as a channel MODE string is, whatever arguments follow it, where the
-- settings of the server give an argument to none of its letters, each in its direction.
pub parse_user_modes-channel :
    (s : Isupport) (spec : Text) (args : List Text)
    → arity s (letters true spec) ≡ 0
    → parse_user_modes spec ≡ parse_channel_modes s (spec ∷ args)
unfolding parse_user_modes parse_channel_modes
parse_user_modes-channel s spec args h =
    user_loop-plain true spec
    ∙ sym (channel_loop-changes s true args spec ∙ changes-plain s args (letters true spec) h)
