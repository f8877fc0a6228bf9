-- ===== src/Client/Negotiation/View.antt =====
-- An abstract view of the set-up of a connection, and what one line may change of it.
use obby_client.Base.{
  ℕ, suc, ◌≡◌, refl, Bool, true, false, ◌&&◌, List, [], ◌∷◌, ◌++◌, Text, text, same, if◌then◌else◌,
  ◌⊎◌, inl, arith,
}
use obby_client.Proto.Message.{Message}
use obby_client.Client.Caps
use obby_client.Client.Sasl.{in_flight}
use obby_client.Client.Negotiation.{Client, Phase, negotiating, registering, registered}

-- `CAP END`, whatever its tags.
unfoldable pub is_cap_end : Message → Bool
is_cap_end m = same m.command (text "CAP") && is_end m.params
  where
    is_end : List Text → Bool
    is_end [] = false
    is_end (p ∷ ps) = same p (text "END")

-- How many of the lines are `CAP END`.
unfoldable pub ends : List Message → ℕ
ends [] = 0
ends (m ∷ ms) = if is_cap_end m then suc (ends ms) else ends ms

pub record View : Type 0 where
  pub phase : Phase
  pub busy : Bool
  pub quiet : Bool
  pub sent : ℕ

-- Whether an exchange is in flight, whether no request waits for an answer, and how often
-- negotiation was ended.
unfoldable pub view : Client → View
view s = record {
  phase = s.phase;
  busy = in_flight s.sasl;
  quiet = Caps.settled s.caps;
  sent = ends s.outbox;
}

-- The server owes an answer: to a request, or in the exchange.
abbrev pub Waits : View → Type 0
Waits v = (v.quiet ≡ false) ⊎ (v.busy ≡ true)

pub data Allowed (v w : View) : Type 0 where
  -- No end is sent, an exchange opens only in negotiation, and the client does not stop waiting.
  hold :
      w.phase ≡ v.phase
      → w.sent ≡ v.sent
      → (w.busy ≡ true → (v.busy ≡ true) ⊎ (v.phase ≡ negotiating))
      → (w.phase ≡ negotiating → Waits v → Waits w)
      → Allowed v w
  -- Negotiation ends, once, with nothing in flight and nothing asked.
  finish :
      v.phase ≡ negotiating
      → w.phase ≡ registering
      → w.busy ≡ false
      → w.quiet ≡ true
      → w.sent ≡ suc v.sent
      → Allowed v w
  -- The server has registered the client.
  welcome :
      w.phase ≡ registered → w.sent ≡ v.sent → w.busy ≡ v.busy → w.quiet ≡ v.quiet → Allowed v w

pub Allowed_refl : (v : View) → Allowed v v
Allowed_refl v = hold refl refl (λ h. inl h) (λ _ h. h)

pub ends-append :
    (ms : List Message) (m : Message) → is_cap_end m ≡ false → ends (ms ++ m ∷ []) ≡ ends ms
unfolding ends
ends-append [] m h = rw h refl
ends-append (n ∷ ms) m h = ground (arith, ends-append ms m h)

pub ends_more :
    (ms : List Message) (m : Message) → is_cap_end m ≡ true → ends (ms ++ m ∷ []) ≡ suc (ends ms)
unfolding ends
ends_more [] m h = rw h refl
ends_more (n ∷ ms) m h = ground (arith, ends_more ms m h)

-- The same view, but for what is given.
abbrev pub seen : Phase → Bool → Bool → ℕ → View
seen phase busy quiet sent = record { phase = phase; busy = busy; quiet = quiet; sent = sent }
