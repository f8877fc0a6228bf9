-- ===== src/Client/Negotiation/Dispatch/Safety.antt =====
-- What a line may do to the set-up of a connection: `handle_message` of
-- crates/obby-client/src/client.rs refines the abstract view.
use obby_client.Base.{
  suc, ◌≡◌, refl, ap, sym, ◌∙◌, Bool, true, false, not, ◌||◌, Option, none, some, List, Text, text,
  same, if-holds, ◌⊎◌, inl, inr, Bool-cases,
}
use obby_client.Proto.Message.{Message}
use obby_client.Client.Command
use obby_client.Client.Caps
use obby_client.Client.Sasl.{Credentials, offered, settled, in_flight, mechanism, offers}
use obby_client.Client.Negotiation.{
  Client, Phase, Event, send_line, push_event, cap_end, is_negotiating, negotiating, registering,
  registered, disconnected,
}
use obby_client.Client.Negotiation.Handlers.{
  start_sasl_if_wanted, offer, offer_any, is_idle, end_negotiation, finish_negotiation_if_settled,
}
use obby_client.Client.Negotiation.View.{
  View, view, Waits, Allowed, hold, finish, ends, is_cap_end, ends-append, ends_more,
}

is_negotiating-eq : (p : Phase) → is_negotiating p ≡ true → p ≡ negotiating
unfolding is_negotiating
is_negotiating-eq negotiating h = refl
is_negotiating-eq disconnected h = cc
is_negotiating-eq registering h = cc
is_negotiating-eq registered h = cc

-- The client may come from the view: the same phase and lines, and an exchange only where there was
-- one or one may open.
pub record From (v : View) (s : Client) : Type 0 where
  pub phase : s.phase ≡ v.phase
  pub sent : ends s.outbox ≡ v.sent
  pub busy : in_flight s.sasl ≡ true → (v.busy ≡ true) ⊎ (v.phase ≡ negotiating)

pub waiting : (v : View) (s : Client) → From v s → Waits (view s) → Allowed v (view s)
unfolding view
waiting v s f w = hold f.phase f.sent f.busy (λ _ _. w)

ended :
    (v : View) (s : Client)
    → From v s
    → s.phase ≡ negotiating
    → Caps.settled s.caps ≡ true
    → in_flight s.sasl ≡ false
    → Allowed v (view (send_line cap_end (record s { phase = registering })))
unfolding view send_line
ended v s f p q b =
    finish (sym f.phase ∙ p) refl b q
      (ends_more s.outbox cap_end (unfold is_cap_end same in refl) ∙ ap suc f.sent)

-- Where nothing else happens, the view is as it was, unless the exchange moved on.
pub From-push : (v : View) (s : Client) (e : Event) → From v s → From v (push_event e s)
unfolding push_event
From-push v s e f = record { phase = f.phase; sent = f.sent; busy = f.busy }

pub From-send :
    (v : View) (s : Client) (m : Message) → is_cap_end m ≡ false → From v s → From v (send_line m s)
unfolding send_line
From-send v s m h f = record {
  phase = f.phase;
  sent = ends-append s.outbox m h ∙ f.sent;
  busy = f.busy;
}

pub settle : (v : View) (s : Client) → From v s → From v (record s { sasl = settled })
unfolding in_flight
settle v s f = record { phase = f.phase; sent = f.sent; busy = λ h. cc }

open_now :
    (v : View) (s : Client)
    → From v s
    → s.phase ≡ negotiating
    → From v (record s { sasl = offered })
open_now v s f p = record { phase = f.phase; sent = f.sent; busy = λ _. inr (sym f.phase ∙ p) }

not_end : (params : List Text) → is_cap_end (Command.new (text "AUTHENTICATE") params) ≡ false
unfolding is_cap_end same Command.new
not_end params = refl

end_negotiation-Allowed :
    (v : View) (waits : Bool) (s : Client)
    → From v s
    → s.phase ≡ negotiating
    → Caps.settled s.caps ≡ true
    → (waits ≡ true → in_flight s.sasl ≡ true)
    → Allowed v (view (end_negotiation (waits, s)))
unfolding end_negotiation view in_flight
end_negotiation-Allowed v true s f p q h = waiting v s f (inr (h refl))
end_negotiation-Allowed v false s f p q h = elim (Bool-cases (in_flight s.sasl)) [
  | inl e ↦ rw e (waiting v s f (inr e))
  | inr e ↦ rw e (ended v s f p q e)
]

offer-Allowed :
    (v : View) (credentials : Credentials) (s : Client)
    → From v s
    → s.phase ≡ negotiating
    → Caps.settled s.caps ≡ true
    → Allowed v (view (end_negotiation (offer credentials s)))
unfolding offer send_line in_flight push_event
offer-Allowed v credentials s f p q =
    elim (Bool-cases (offers (Caps.value (text "sasl") s.caps) (mechanism credentials))) [
      | inl e ↦ rw e (
          end_negotiation-Allowed v true _ (From-send v _ _ (not_end _) (open_now v s f p)) p q
            (λ _. refl))
      | inr e ↦
          rw e (end_negotiation-Allowed v false _ (From-push v _ _ (settle v s f)) p q (λ h. cc))
    ]

offer_any-Allowed :
    (v : View) (o : Option Credentials) (s : Client)
    → From v s
    → s.phase ≡ negotiating
    → Caps.settled s.caps ≡ true
    → Allowed v (view (end_negotiation (offer_any o s)))
unfolding offer_any
offer_any-Allowed v none s f p q = end_negotiation-Allowed v false s f p q (λ h. cc)
offer_any-Allowed v (some credentials) s f p q = offer-Allowed v credentials s f p q

start-Allowed :
    (v : View) (s : Client)
    → From v s
    → s.phase ≡ negotiating
    → Caps.settled s.caps ≡ true
    → Allowed v (view (end_negotiation (start_sasl_if_wanted s)))
unfolding start_sasl_if_wanted
start-Allowed v s f p q =
    if-holds (λ r. Allowed v (view (end_negotiation r)))
      (not (is_idle s.sasl) || not (Caps.has (text "sasl") s.caps))
      (end_negotiation-Allowed v false s f p q (λ h. cc))
      (offer_any-Allowed v s.config.sasl s f p q)

other_phase :
    (v : View) (s : Client) → From v s → is_negotiating s.phase ≡ false → Allowed v (view s)
unfolding view is_negotiating
other_phase v s f p = hold f.phase f.sent f.busy (λ q _. absurd (clash s.phase p q))
  where
    clash : (p : Phase) → is_negotiating p ≡ false → p ≡ negotiating → ⊥
    clash p h e = cc

-- Where negotiation goes on, the client waits for an answer; else it ended with nothing open.
pub finish_negotiation-Allowed :
    (v : View) (s : Client) → From v s → Allowed v (view (finish_negotiation_if_settled s))
unfolding finish_negotiation_if_settled view Caps.settled
finish_negotiation-Allowed v s f = elim (Bool-cases (is_negotiating s.phase)) [
  | inl p ↦ elim (Bool-cases (Caps.settled s.caps)) [
    | inl q ↦ rw (p, q) (start-Allowed v s f (is_negotiating-eq s.phase p) q)
    | inr q ↦ rw (p, q) (waiting v s f (inl q))
  ]
  | inr p ↦ rw p (other_phase v s f p)
]
