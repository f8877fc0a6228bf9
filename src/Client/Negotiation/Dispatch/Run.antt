-- ===== src/Client/Negotiation/Dispatch/Run.antt =====
-- The exchange of authentication, and whole connections: `handle_message` of
-- crates/obby-client/src/client.rs.
use obby_client.Base.{
  ◌≡◌, refl, ap, sym, ◌∙◌, subst, true, false, ◌||◌, Option, none, some, List, [], ◌∷◌, Text, text,
  same, if-holds, inl, inr, Bytes, unwrap_or, map, to_ascii_uppercase,
}
use obby_client.Proto.Message.{Message, is, param, trailing}
use obby_client.Client.Command
use obby_client.Client.Caps
use obby_client.Client.Scram
use obby_client.Client.Scram.{Crypto, Scram, Result, ok, err}
use obby_client.Client.Sasl.{
  Credentials, SaslFailure, SaslState, idle, offered, responded, scram_challenged, scram_proved,
  settled, in_flight, plain, external, scram, encode_response, decode_challenge,
}
use obby_client.Client.Negotiation.{Client, Event, send_line, push_event, arm_keepalive}
use obby_client.Client.Negotiation.Handlers.{
  is_star, cap_reply, handle_cap, report, is_settled, finish_sasl, send_lines, send_sasl,
  open_exchange, begin_sasl_response, proved, answer_scram, answer_scram_challenge, judged,
  verify_server, verify_scram_server, continue_sasl, challenged, handle_authenticate,
}
use obby_client.Client.Negotiation.Dispatch.{
  sasl_failure, try_nick, handle_nick_refused, is_phase_registered, handle_welcome, report_account,
  note_line, settled_by, dispatch, handle_message,
}
use obby_client.Client.Negotiation.View.{
  View, view, Allowed, welcome, Allowed_refl, is_cap_end, ends-append,
}
use obby_client.Client.Negotiation.Dispatch.Safety.{
  From, waiting, finish_negotiation-Allowed, From-send, From-push, settle,
}
use obby_client.Client.Negotiation.Dispatch.Refines.{From-refl, cap_subcommand-Allowed}

handle_cap-Allowed : (m : Message) (s : Client) → Allowed (view s) (view (handle_cap m s))
unfolding handle_cap cap_reply
handle_cap-Allowed m s = go (param m 1)
  where
    go : (o : Option Text) → Allowed (view s) (view (cap_reply m o s))
    go none = Allowed_refl (view s)
    go (some subcommand) =
        cap_subcommand-Allowed (map to_ascii_uppercase subcommand) (unwrap_or (trailing m) [])
          (is_star (param m 2)) s

reported :
    (v : View) (failure : Option SaslFailure) (s : Client) → From v s → From v (report failure s)
unfolding report
reported v none s f = f
reported v (some reason) s f = From-push v s _ f

-- The end of the exchange, from a state that shows the same view.
finish_sasl-Allowed :
    (v : View) (failure : Option SaslFailure) (s : Client)
    → view s ≡ v
    → Allowed v (view (finish_sasl failure s))
unfolding finish_sasl
finish_sasl-Allowed v failure s e =
    if-holds (λ t. Allowed v (view t)) (is_settled s.sasl)
      (subst (Allowed v) (sym e) (Allowed_refl v))
      (finish_negotiation-Allowed v _
        (reported v failure _ (settle v s (subst (λ w. From w s) e (From-refl s)))))

authenticate_line :
    (params : List Text) → is_cap_end (Command.new (text "AUTHENTICATE") params) ≡ false
unfolding is_cap_end same Command.new
authenticate_line params = refl

send_lines-Allowed :
    (v : View) (lines : List Text) (s : Client)
    → From v s
    → in_flight s.sasl ≡ true
    → Allowed v (view (send_lines lines s))
unfolding send_lines view
send_lines-Allowed v [] s f h = waiting v s f (inr h)
send_lines-Allowed v (line ∷ lines) s f h =
    send_lines-Allowed v lines _ (From-send v s _ (authenticate_line _) f) (unfold send_line in h)

-- The exchange goes on, in another of its states.
moved :
    (s : Client) (next : SaslState) (o : Option Scram)
    → in_flight s.sasl ≡ true
    → From (view s) (record s { sasl = next; scram = o })
unfolding view
moved s next o h = record { phase = refl; sent = refl; busy = λ _. inl h }

module _ (crypto : Crypto) where
  send_sasl-Allowed :
      (s : Client) (payload : Bytes) (next : SaslState) (o : Option Scram)
      → in_flight s.sasl ≡ true
      → in_flight next ≡ true
      → Allowed (view s) (view (send_sasl crypto payload (record s { sasl = next; scram = o })))
  unfolding send_sasl
  send_sasl-Allowed s payload next o h k =
      send_lines-Allowed (view s) (encode_response crypto.base64 payload) _ (moved s next o h) k

  open_exchange-Allowed :
      (o : Option Credentials) (s : Client)
      → in_flight s.sasl ≡ true
      → Allowed (view s) (view (open_exchange crypto o s))
  unfolding open_exchange in_flight
  open_exchange-Allowed none s h = Allowed_refl (view s)
  open_exchange-Allowed (some (scram username password nonce)) s h =
      send_sasl-Allowed s _ scram_challenged _ h refl
  open_exchange-Allowed (some (plain username password)) s h =
      send_sasl-Allowed s _ responded s.scram h refl
  open_exchange-Allowed (some external) s h = send_sasl-Allowed s _ responded s.scram h refl

  proved-Allowed :
      (r : Scram × Result Bytes) (s : Client)
      → in_flight s.sasl ≡ true
      → Allowed (view s) (view (proved crypto r s))
  unfolding proved in_flight
  proved-Allowed (next, ok answer) s h = send_sasl-Allowed s answer scram_proved (some next) h refl
  proved-Allowed (next, err e) s h = finish_sasl-Allowed (view s) _ _ (unfold view in refl)

  answer_scram-Allowed :
      (o : Option Scram) (challenge : Bytes) (s : Client)
      → in_flight s.sasl ≡ true
      → Allowed (view s) (view (answer_scram crypto o challenge s))
  unfolding answer_scram
  answer_scram-Allowed none challenge s h = finish_sasl-Allowed (view s) _ s refl
  answer_scram-Allowed (some started) challenge s h =
      proved-Allowed (Scram.client_final crypto started challenge) s h

  judged-Allowed :
      (r : Result (Unit {0})) (s : Client)
      → in_flight s.sasl ≡ true
      → Allowed (view s) (view (judged r s))
  unfolding judged in_flight
  judged-Allowed (err e) s h = finish_sasl-Allowed (view s) _ _ (unfold view in refl)
  judged-Allowed (ok u) s h =
      waiting (view s) _ (From-send (view s) _ _ (authenticate_line _) (moved s responded none h))
        (inr (unfold view send_line in refl))

  verify_server-Allowed :
      (o : Option Scram) (challenge : Bytes) (s : Client)
      → in_flight s.sasl ≡ true
      → Allowed (view s) (view (verify_server crypto o challenge s))
  unfolding verify_server
  verify_server-Allowed none challenge s h = finish_sasl-Allowed (view s) _ s refl
  verify_server-Allowed (some started) challenge s h =
      judged-Allowed (Scram.verify crypto started challenge) s h

  continue_sasl-Allowed :
      (state : SaslState) (challenge : Bytes) (s : Client)
      → s.sasl ≡ state
      → Allowed (view s) (view (continue_sasl crypto state challenge s))
  unfolding continue_sasl begin_sasl_response answer_scram_challenge verify_scram_server in_flight
  continue_sasl-Allowed offered challenge s e =
      open_exchange-Allowed s.config.sasl s (ap in_flight e)
  continue_sasl-Allowed scram_challenged challenge s e =
      answer_scram-Allowed s.scram challenge s (ap in_flight e)
  continue_sasl-Allowed scram_proved challenge s e =
      verify_server-Allowed s.scram challenge s (ap in_flight e)
  continue_sasl-Allowed idle challenge s e = Allowed_refl (view s)
  continue_sasl-Allowed responded challenge s e = Allowed_refl (view s)
  continue_sasl-Allowed settled challenge s e = Allowed_refl (view s)

  challenged-Allowed :
      (o : Option Bytes) (s : Client) → Allowed (view s) (view (challenged crypto o s))
  unfolding challenged
  challenged-Allowed none s = finish_sasl-Allowed (view s) _ s refl
  challenged-Allowed (some challenge) s = continue_sasl-Allowed s.sasl challenge s refl

  handle_authenticate-Allowed :
      (m : Message) (s : Client) → Allowed (view s) (view (handle_authenticate crypto m s))
  unfolding handle_authenticate
  handle_authenticate-Allowed m s =
      challenged-Allowed (decode_challenge crypto.base64 (unwrap_or (param m 0) (text "+"))) s

-- A line that is no `CAP END` does not show in the view.
view-send : (s : Client) (m : Message) → is_cap_end m ≡ false → view (send_line m s) ≡ view s
unfolding view send_line
view-send s m h =
    ap
      (λ n. record {
        phase = s.phase;
        busy = in_flight s.sasl;
        quiet = Caps.settled s.caps;
        sent = n;
      })
      (ends-append s.outbox m h)

unseen : (s t : Client) → view t ≡ view s → Allowed (view s) (view t)
unseen s t e = subst (Allowed (view s)) (sym e) (Allowed_refl (view s))

nick_line : (nick : Text) → is_cap_end (Command.new (text "NICK") (nick ∷ [])) ≡ false
unfolding is_cap_end same Command.new
nick_line nick = refl

pong_line : (token : Text) → is_cap_end (Command.new (text "PONG") (token ∷ [])) ≡ false
unfolding is_cap_end same Command.new
pong_line token = refl

view-push : (s : Client) (e : Event) → view (push_event e s) ≡ view s
unfolding view push_event
view-push s e = refl

view-try_nick : (refused trying : Text) (s : Client) → view (try_nick refused trying s) ≡ view s
unfolding try_nick
view-try_nick refused trying s = view-send _ _ (nick_line trying) ∙ (unfold view push_event in refl)

handle_nick_refused-Allowed :
    (m : Message) (s : Client) → Allowed (view s) (view (handle_nick_refused m s))
unfolding handle_nick_refused
handle_nick_refused-Allowed m s =
    if-holds (λ t. Allowed (view s) (view t)) (is_phase_registered s.phase)
      (unseen s _ (view-push s _)) (unseen s _ (view-try_nick _ _ s))

handle_welcome-Allowed : (m : Message) (s : Client) → Allowed (view s) (view (handle_welcome m s))
unfolding handle_welcome view push_event
handle_welcome-Allowed m s = welcome refl refl refl refl

report_account-Allowed :
    (o : Option Text) (s : Client) → Allowed (view s) (view (report_account o s))
unfolding report_account
report_account-Allowed none s = Allowed_refl (view s)
report_account-Allowed (some account) s = unseen s _ (view-push s _)

view-note_line : (m : Message) (s : Client) → view (note_line m s) ≡ view s
unfolding view note_line arm_keepalive
view-note_line m s = refl

-- A line that this part deals with leaves a client that the view allows.
Fine : Client → Option Client → Type 0
Fine s none = Unit
Fine s (some t) = Allowed (view s) (view t)

module _ (crypto : Crypto) where
  settled_by-Fine :
      (o : Option SaslFailure) (m : Message) (s : Client) → Fine s (settled_by crypto o m s)
  unfolding settled_by Fine
  settled_by-Fine (some reason) m s = finish_sasl-Allowed (view s) _ s refl
  settled_by-Fine none m s =
      if-holds (Fine s) (is m (text "900")) (report_account-Allowed (param m 2) s)
        (if-holds (Fine s) (is m (text "903")) (finish_sasl-Allowed (view s) _ s refl) tt)

  dispatch-Fine : (m : Message) (s : Client) → Fine s (dispatch crypto m s)
  unfolding dispatch Fine
  dispatch-Fine m s = if-holds (Fine s) (is m (text "PONG")) (Allowed_refl (view s)) (
      if-holds (Fine s) (is m (text "PING")) (unseen s _ (view-send s _ (pong_line _))) (
        if-holds (Fine s) (is m (text "CAP")) (handle_cap-Allowed m s) (
          if-holds (Fine s) (is m (text "001")) (handle_welcome-Allowed m s) (
            if-holds (Fine s) (is m (text "AUTHENTICATE")) (handle_authenticate-Allowed crypto m s)
              (if-holds (Fine s) (is m (text "433") || is m (text "432"))
                (handle_nick_refused-Allowed m s)
                (settled_by-Fine (sasl_failure m.command) m s))))))

  -- Whatever line of this part the server sends, in whatever state: what it makes of the set-up is one of three
  -- changes. Either no `CAP END` is sent, the phase stays, an exchange of authentication opens only
  -- during negotiation, and a negotiating client that was owed an answer still is; or negotiation
  -- ends, with one `CAP END`, nothing in flight and nothing asked; or the server's welcome makes the
  -- client registered and changes nothing else.
  pub handle_message-Allowed :
      (m : Message) (s t : Client) → handle_message crypto m s ≡ some t → Allowed (view s) (view t)
  unfolding handle_message Fine
  handle_message-Allowed m s t h =
      subst (λ v. Allowed v (view t)) (view-note_line m s)
        (subst (Fine (note_line m s)) h (dispatch-Fine m (note_line m s)))
