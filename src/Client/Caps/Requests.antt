-- ===== src/Client/Caps/Requests.antt =====
-- What is asked for, and when negotiation is settled.
use obby_client.Base.{
  ◌≡◌, refl, ap, ◌∙◌, Bool, true, false, not, ◌&&◌, ◌||◌, Option, none, some, List, [], ◌∷◌, Text,
  same, same_iff, same_refl, any, any-append, retain, strip_prefix, arith, Bool-cases, inl, inr,
  text_ord,
}
use obby_client.Client.Caps.{
  Capabilities, is_askable, to_request, requested, without, reject_token, reject, for_each,
  split_value, split_whitespace, acknowledge_token, acknowledge_marked, acknowledge_loop,
  acknowledge,
}
use obby_client.Client.Caps.Wanted.{wanted_caps}

or_true : (b : Bool) → (b || true) ≡ true
or_true b = ground arith

same_comm : (a b : Text) → same a b ≡ same b a
same_comm a b = ground (arith, same_iff a b, same_iff b a)

-- Membership of a text, as the source tests it.
abbrev pub mem : Text → List Text → Bool
mem name names = any (λ p. same p name) names

mem-retain :
    (p : Text → Bool) (name : Text) (names : List Text)
    → mem name (retain p names) ≡ (mem name names && p name)
unfolding any retain
mem-retain p name [] = refl
mem-retain p name (n ∷ names) = elim (Bool-cases (same n name)) [
  | inl e ↦
      rw (ap p ((same_iff n name).0 e), e)
        (ground (arith, mem-retain p name names, same_iff n name))
  | inr e ↦ ground (arith, mem-retain p name names)
]

-- A name is asked for exactly when it is one that the engine knows, the server offers it, we do
-- not hold it, and it is not being asked for already.
pub to_request_iff :
    (c : Capabilities) (name : Text)
    → mem name (to_request c) ≡ (mem name wanted_caps && is_askable c name)
unfolding to_request
to_request_iff c name = mem-retain (is_askable c) name wanted_caps

retain-none :
    (q : Text → Bool) (names : List Text)
    → ((n : Text) → mem n names ≡ true → q n ≡ false)
    → retain q names ≡ []
unfolding retain any
retain-none q [] h = refl
retain-none q (n ∷ names) h =
    rw (h n (rw (same_refl n))) (retain-none q names (λ m k. h m (rw k (or_true (same n m)))))

askable_pending :
    (c : Capabilities) (names : List Text) (n : Text)
    → is_askable (requested names c) n ≡ (is_askable c n && not (mem n names))
unfolding is_askable requested
askable_pending c names n = rw any-append (ground arith)

-- After everything that can be asked for has been asked for, there is nothing to ask for: no
-- capability is requested twice while the first request is unanswered.
pub to_request-requested : (c : Capabilities) → to_request (requested (to_request c) c) ≡ []
unfolding to_request
to_request-requested c = retain-none _ wanted_caps (λ n k. elim (Bool-cases (is_askable c n)) [
  | inl e ↦
      ground (arith, askable_pending c (to_request c) n, mem-retain (is_askable c) n wanted_caps)
  | inr e ↦ ground (arith, askable_pending c (to_request c) n)
])

mem-without :
    (name n : Text) (names : List Text)
    → mem n (without name names) ≡ (mem n names && not (same name n))
unfolding without
mem-without name n names =
    mem-retain (λ p. not (same p name)) n names ∙ ap (λ b. mem n names && not b) (same_comm n name)

-- The name that a token of an answer is about.
abbrev rejected_name : Text → Text
rejected_name token = (split_value token).0

answered_name : Text → Text
answered_name token = elim (strip_prefix b'-' token) [
  | none ↦ (split_value token).0
  | some name ↦ name
]

pub answered : List Text → List Text
answered [] = []
answered (t ∷ ts) = answered_name t ∷ answered ts

pub rejected : List Text → List Text
rejected [] = []
rejected (t ∷ ts) = rejected_name t ∷ rejected ts

pending-acknowledge_token :
    (token : Text) (c : Capabilities) (n : Text)
    → mem n (acknowledge_token token c).1.pending
      ≡ (mem n c.pending && not (same (answered_name token) n))
unfolding acknowledge_token answered_name
pending-acknowledge_token token c n = go (strip_prefix b'-' token) refl
  where
    go :
        (o : Option Text)
        → strip_prefix b'-' token ≡ o
        → mem n (acknowledge_marked token (strip_prefix b'-' token) c).1.pending ≡ (
            mem n c.pending
            && not (
                same
                  (elim (strip_prefix b'-' token) [
                    | none ↦ (split_value token).0
                    | some name ↦ name
                  ])
                  n))
    go none e = rw e (mem-without (split_value token).0 n c.pending)
    go (some name) e = rw e (mem-without name n c.pending)

pending-acknowledge_loop :
    (ts : List Text) (c : Capabilities) (n : Text)
    → mem n (acknowledge_loop ts c).1.pending ≡ (mem n c.pending && not (mem n (answered ts)))
unfolding acknowledge_loop answered any
pending-acknowledge_loop [] c n = ground arith
pending-acknowledge_loop (t ∷ ts) c n =
    pending-acknowledge_loop ts (acknowledge_token t c).1 n
    ∙ rw (pending-acknowledge_token t c n) (ground arith)

pending-reject_token :
    (token : Text) (c : Capabilities) (n : Text)
    → mem n (reject_token token c).pending ≡ (mem n c.pending && not (same (rejected_name token) n))
unfolding reject_token
pending-reject_token token c n = mem-without (rejected_name token) n c.pending

pending-for_each :
    (ts : List Text) (c : Capabilities) (n : Text)
    → mem n (for_each reject_token ts c).pending ≡ (mem n c.pending && not (mem n (rejected ts)))
unfolding for_each rejected any
pending-for_each [] c n = ground arith
pending-for_each (t ∷ ts) c n =
    pending-for_each ts (reject_token t c) n ∙ rw (pending-reject_token t c n) (ground arith)

-- An ACK and a NAK each answer exactly the requests that they name: those are no longer waited
-- for, and all others still are.
pub pending-answered :
    (list : Text) (c : Capabilities) (n : Text)
    → (mem n (acknowledge list c).1.pending
        ≡ (mem n c.pending && not (mem n (answered (split_whitespace list)))))
      × (mem n (reject list c).pending
          ≡ (mem n c.pending && not (mem n (rejected (split_whitespace list)))))
unfolding acknowledge reject
pending-answered list c n = (
  pending-acknowledge_loop (split_whitespace list) c n,
  pending-for_each (split_whitespace list) c n,
)
