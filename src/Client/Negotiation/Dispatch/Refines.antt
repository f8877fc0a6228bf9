-- ===== src/Client/Negotiation/Dispatch/Refines.antt =====
-- Every line refines the abstract view: the handlers of crates/obby-client/src/client.rs one by one.
use obby_client.Base.{
  ◌≡◌, refl, ap, ◌∙◌, Bool, false, List, [], ◌∷◌, ◌++◌, Text, text, same, if-holds, is_nil, inl,
  inr,
}
use obby_client.Client.Command
use obby_client.Client.Caps
use obby_client.Client.Caps.{Capabilities}
use obby_client.Client.Sasl.{in_flight}
use obby_client.Client.Negotiation.{Client, send_line}
use obby_client.Client.Negotiation.Handlers.{
  finish_negotiation_if_settled, send_requests, request_all, request_wanted, acknowledged,
  cap_subcommand,
}
use obby_client.Client.Negotiation.View.{View, view, Waits, Allowed, hold, Allowed_refl, is_cap_end}
use obby_client.Client.Negotiation.Dispatch.Safety.{
  From, waiting, finish_negotiation-Allowed, From-send, From-push,
}

pub From-refl : (s : Client) → From (view s) s
unfolding view
From-refl s = record { phase = refl; sent = refl; busy = λ h. inl h }

From-caps : (v : View) (s : Client) (c : Capabilities) → From v s → From v (record s { caps = c })
From-caps v s c f = record { phase = f.phase; sent = f.sent; busy = f.busy }

-- The requests that wait are as they were.
pub kept :
    (v : View) (s : Client)
    → From v s
    → Caps.settled s.caps ≡ v.quiet
    → in_flight s.sasl ≡ v.busy
    → Allowed v (view s)
unfolding view
kept v s f q b = hold f.phase f.sent f.busy (λ _ w. still w)
  where
    still : Waits v → Waits (view s)
    still (inl h) = inl (q ∙ h)
    still (inr h) = inr (b ∙ h)

request_line :
    (name : Text) → is_cap_end (Command.new (text "CAP") (text "REQ" ∷ name ∷ [])) ≡ false
unfolding is_cap_end same Command.new
request_line name = refl

send_requests-Allowed :
    (v : View) (names : List Text) (s : Client)
    → From v s
    → Caps.settled s.caps ≡ false
    → Allowed v (view (send_requests names s))
unfolding send_requests view
send_requests-Allowed v [] s f h = waiting v s f (inl h)
send_requests-Allowed v (name ∷ names) s f h =
    send_requests-Allowed v names _ (From-send v s _ (request_line name) f) (unfold send_line in h)

asked :
    (c : Capabilities) (name : Text) (names : List Text)
    → Caps.settled (Caps.requested (name ∷ names) c) ≡ false
unfolding Caps.settled Caps.requested
asked c name names = go c.pending
  where
    go : (ps : List Text) → is_nil (ps ++ name ∷ names) ≡ false
    go [] = refl
    go (p ∷ ps) = refl

request_all-Allowed :
    (v : View) (names : List Text) (s : Client) → From v s → Allowed v (view (request_all names s))
unfolding request_all
request_all-Allowed v [] s f = finish_negotiation-Allowed v s f
request_all-Allowed v (name ∷ names) s f =
    send_requests-Allowed v (name ∷ names) _ (From-caps v s _ f) (asked s.caps name names)

request_wanted-Allowed : (v : View) (s : Client) → From v s → Allowed v (view (request_wanted s))
unfolding request_wanted
request_wanted-Allowed v s f = request_all-Allowed v (Caps.to_request s.caps) s f

for_each-pending :
    (g : Text → Capabilities → Capabilities) (ts : List Text) (c : Capabilities)
    → ((t : Text) (d : Capabilities) → (g t d).pending ≡ d.pending)
    → (Caps.for_each g ts c).pending ≡ c.pending
unfolding Caps.for_each
for_each-pending g [] c h = refl
for_each-pending g (t ∷ ts) c h = for_each-pending g ts (g t c) h ∙ h t c

advertise-settled :
    (list : Text) (c : Capabilities) → Caps.settled (Caps.advertise list c) ≡ Caps.settled c
unfolding Caps.settled Caps.advertise Caps.advertise_token
advertise-settled list c =
    ap is_nil (for_each-pending _ (Caps.split_whitespace list) c (λ t d. refl))

withdraw-settled :
    (list : Text) (c : Capabilities) → Caps.settled (Caps.withdraw list c) ≡ Caps.settled c
unfolding Caps.settled Caps.withdraw Caps.withdraw_token
withdraw-settled list c =
    ap is_nil (for_each-pending _ (Caps.split_whitespace list) c (λ t d. refl))

acknowledged-Allowed :
    (v : View) (names : List Text) (s : Client)
    → From v s
    → Allowed v (view (finish_negotiation_if_settled (acknowledged names s)))
unfolding acknowledged
acknowledged-Allowed v [] s f = finish_negotiation-Allowed v s f
acknowledged-Allowed v (name ∷ names) s f = finish_negotiation-Allowed v _ (From-push v s _ f)

pub cap_subcommand-Allowed :
    (subcommand list : Text) (more : Bool) (s : Client)
    → Allowed (view s) (view (cap_subcommand subcommand list more s))
unfolding cap_subcommand
cap_subcommand-Allowed subcommand list more s =
    let v = view s in
    let f = From-refl s in
    let P : Client → Type 0 = λ t. Allowed v (view t) in
    let caps : (c : Capabilities) → From v (record s { caps = c }) = λ c. From-caps v s c f in
    let after_advertise = caps (Caps.advertise list s.caps) in
    if-holds P (same subcommand (text "LS"))
      (if-holds P more
        (unfold view in kept v _ after_advertise (advertise-settled list s.caps) refl)
        (request_wanted-Allowed v _ after_advertise))
      (if-holds P (same subcommand (text "NEW")) (request_wanted-Allowed v _ after_advertise) (
        if-holds P (same subcommand (text "DEL"))
          (unfold view in
            kept v _ (caps (Caps.withdraw list s.caps)) (withdraw-settled list s.caps) refl)
          (if-holds P (same subcommand (text "ACK"))
            (acknowledged-Allowed v (Caps.acknowledge list s.caps).0 _
              (caps (Caps.acknowledge list s.caps).1))
            (if-holds P (same subcommand (text "NAK"))
              (finish_negotiation-Allowed v _ (caps (Caps.reject list s.caps))) (Allowed_refl v)))))
