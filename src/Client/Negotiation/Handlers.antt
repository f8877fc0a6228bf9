-- ===== src/Client/Negotiation/Handlers.antt =====
-- The handlers of `CAP`, `AUTHENTICATE` and the numerics of registration, in
-- crates/obby-client/src/client.rs.
use obby_client.Base.{
  Bool, true, false, not, ◌||◌, Option, none, some, List, [], ◌∷◌, map, Text, text, same,
  if◌then◌else◌, unwrap_or, Bytes, to_ascii_uppercase,
}
use obby_client.Proto.Message.{Message, param, trailing}
use obby_client.Client.Command
use obby_client.Client.Caps
use obby_client.Client.Sasl.{
  Credentials, SaslFailure, SaslState, idle, offered, responded, scram_challenged, scram_proved,
  settled, in_flight, rejected, aborted, no_shared_mechanism, server_not_verified, encode_response,
  decode_challenge, mechanism, response, offers, plain, external, scram,
}
use obby_client.Client.Scram
use obby_client.Client.Scram.{Scram, Crypto, Result, ok, err}
use obby_client.Client.Negotiation.{
  Client, send_line, push_event, cap_end, is_negotiating, registering, capabilities_acknowledged,
  sasl_failed,
}

unfoldable pub is_idle : SaslState → Bool
is_idle idle = true
is_idle _ = false

unfoldable pub is_settled : SaslState → Bool
is_settled settled = true
is_settled _ = false

-- With credentials, and a server that has the `sasl` capability.
unfoldable pub offer : Credentials → Client → Bool × Client
offer credentials s =
    if offers (Caps.value (text "sasl") s.caps) (mechanism credentials)
    then (
      true,
      send_line (Command.new (text "AUTHENTICATE") (mechanism credentials ∷ []))
          (record s { sasl = offered }),
    )
    else (false, push_event (sasl_failed no_shared_mechanism) (record s { sasl = settled }))

unfoldable pub offer_any : Option Credentials → Client → Bool × Client
unfolding offer
offer_any none s = (false, s)
offer_any (some credentials) s = offer credentials s

-- True when the client now waits on the server.
unfoldable pub start_sasl_if_wanted : Client → Bool × Client
unfolding is_idle offer_any
start_sasl_if_wanted s =
    if not (is_idle s.sasl) || not (Caps.has (text "sasl") s.caps)
    then (false, s)
    else offer_any s.config.sasl s

-- The end of negotiation, unless an exchange was started or is in flight.
unfoldable pub end_negotiation : Bool × Client → Client
end_negotiation (waiting, s) =
    if waiting || in_flight s.sasl then s else send_line cap_end (record s { phase = registering })

unfoldable pub finish_negotiation_if_settled : Client → Client
unfolding end_negotiation start_sasl_if_wanted
finish_negotiation_if_settled s =
    if not (is_negotiating s.phase) || not (Caps.settled s.caps)
    then s
    else end_negotiation (start_sasl_if_wanted s)

unfoldable pub send_requests : List Text → Client → Client
send_requests [] s = s
send_requests (name ∷ names) s =
    send_requests names (send_line (Command.new (text "CAP") (text "REQ" ∷ name ∷ [])) s)

unfoldable pub request_all : List Text → Client → Client
unfolding send_requests finish_negotiation_if_settled
request_all [] s = finish_negotiation_if_settled s
request_all (name ∷ names) s =
    send_requests (name ∷ names) (record s { caps = Caps.requested (name ∷ names) s.caps })

unfoldable pub request_wanted : Client → Client
unfolding request_all
request_wanted s = request_all (Caps.to_request s.caps) s

unfoldable pub acknowledged : List Text → Client → Client
acknowledged [] s = s
acknowledged (name ∷ names) s = push_event (capabilities_acknowledged (name ∷ names)) s

-- One `CAP` subcommand, with its list and whether more lines of it follow.
unfoldable pub cap_subcommand : Text → Text → Bool → Client → Client
unfolding request_wanted acknowledged
cap_subcommand subcommand list more_to_come s =
    if same subcommand (text "LS")
    then (let advertised = record s { caps = Caps.advertise list s.caps } in
        if more_to_come then advertised else request_wanted advertised)
    else if same subcommand (text "NEW")
    then request_wanted (record s { caps = Caps.advertise list s.caps })
    else if same subcommand (text "DEL")
    then record s { caps = Caps.withdraw list s.caps }
    else if same subcommand (text "ACK")
    then (let answer = Caps.acknowledge list s.caps in
        finish_negotiation_if_settled (acknowledged answer.0 (record s { caps = answer.1 })))
    else if same subcommand (text "NAK")
    then finish_negotiation_if_settled (record s { caps = Caps.reject list s.caps })
    else s

unfoldable pub is_star : Option Text → Bool
is_star none = false
is_star (some p) = same p (text "*")

unfoldable pub cap_reply : Message → Option Text → Client → Client
unfolding cap_subcommand is_star
cap_reply m none s = s
cap_reply m (some subcommand) s =
    cap_subcommand (map to_ascii_uppercase subcommand) (unwrap_or (trailing m) [])
      (is_star (param m 2)) s

unfoldable pub handle_cap : Message → Client → Client
unfolding cap_reply
handle_cap m s = cap_reply m (param m 1) s

unfoldable pub report : Option SaslFailure → Client → Client
report none s = s
report (some reason) s = push_event (sasl_failed reason) s

unfoldable pub finish_sasl : Option SaslFailure → Client → Client
unfolding report finish_negotiation_if_settled is_settled
finish_sasl failure s =
    if is_settled s.sasl
    then s
    else finish_negotiation_if_settled (report failure (record s { sasl = settled }))

unfoldable pub send_lines : List Text → Client → Client
send_lines [] s = s
send_lines (line ∷ lines) s =
    send_lines lines (send_line (Command.new (text "AUTHENTICATE") (line ∷ [])) s)

unfoldable pub judged : Result (Unit {0}) → Client → Client
judged (err e) s = finish_sasl (some server_not_verified) (record s { scram = none })
judged (ok u) s =
    send_line (Command.new (text "AUTHENTICATE") (text "+" ∷ []))
      (record s { scram = none; sasl = responded })

module _ (crypto : Crypto) where
  unfoldable pub send_sasl : Bytes → Client → Client
  unfolding send_lines
  send_sasl payload s = send_lines (encode_response crypto.base64 payload) s

  unfoldable pub open_exchange : Option Credentials → Client → Client
  unfolding send_sasl
  open_exchange none s = s
  open_exchange (some (scram username password nonce)) s =
      let started = Scram.new username password nonce in
      send_sasl (Scram.client_first started)
        (record s { scram = some started; sasl = scram_challenged })
  open_exchange (some (plain username password)) s =
      send_sasl (response (plain username password)) (record s { sasl = responded })
  open_exchange (some external) s = send_sasl (response external) (record s { sasl = responded })

  unfoldable pub begin_sasl_response : Client → Client
  unfolding open_exchange
  begin_sasl_response s = open_exchange s.config.sasl s

  unfoldable pub proved : Scram × Result Bytes → Client → Client
  unfolding send_sasl
  proved (next, ok answer) s =
      send_sasl answer (record s { scram = some next; sasl = scram_proved })
  proved (next, err e) s = finish_sasl (some rejected) (record s { scram = some next })

  unfoldable pub answer_scram : Option Scram → Bytes → Client → Client
  unfolding proved
  answer_scram none challenge s = finish_sasl (some aborted) s
  answer_scram (some started) challenge s = proved (Scram.client_final crypto started challenge) s

  unfoldable pub answer_scram_challenge : Bytes → Client → Client
  unfolding answer_scram
  answer_scram_challenge challenge s = answer_scram s.scram challenge s

  unfoldable pub verify_server : Option Scram → Bytes → Client → Client
  unfolding judged
  verify_server none challenge s = finish_sasl (some aborted) s
  verify_server (some started) challenge s = judged (Scram.verify crypto started challenge) s

  unfoldable pub verify_scram_server : Bytes → Client → Client
  unfolding verify_server
  verify_scram_server challenge s = verify_server s.scram challenge s

  unfoldable pub continue_sasl : SaslState → Bytes → Client → Client
  unfolding begin_sasl_response answer_scram_challenge verify_scram_server
  continue_sasl offered challenge s = begin_sasl_response s
  continue_sasl scram_challenged challenge s = answer_scram_challenge challenge s
  continue_sasl scram_proved challenge s = verify_scram_server challenge s
  continue_sasl _ challenge s = s

  unfoldable pub challenged : Option Bytes → Client → Client
  unfolding continue_sasl
  challenged none s = finish_sasl (some aborted) s
  challenged (some challenge) s = continue_sasl s.sasl challenge s

  unfoldable pub handle_authenticate : Message → Client → Client
  unfolding challenged
  handle_authenticate m s =
      challenged (decode_challenge crypto.base64 (unwrap_or (param m 0) (text "+"))) s
