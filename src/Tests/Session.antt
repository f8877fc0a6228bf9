-- ===== src/Tests/Session.antt =====
-- Capabilities, timers and the bookkeeping of a session on concrete inputs:
-- crates/obby-client/src/caps.rs, timer.rs and monitor.rs.
use native.Mathlib.Omega.{arith}
use obby_client.Base.{
  ℕ, ◌≡◌, ◌*◌, ◌^◌, min, not, ◌&&◌, none, some, [], ◌∷◌, text, ltb, if◌then◌else◌, ◌<◌, All, List,
  refl, Text, same, text_below, text_ord, nat_ord,
}
use obby_client.Base.OrdMap
use obby_client.Base.OrdMap.{Map}
use obby_client.Base.OrdMap.Sorted.{IsSorted}
use obby_client.Client.Caps
use obby_client.Client.Caps.{
  Capabilities, to_request, requested, is_askable, advertise, acknowledge, reject, split_whitespace,
}
use obby_client.Client.Caps.Requests.{mem, answered, rejected, pending-answered}
use obby_client.Client.Timer.{Now, drain_due, take_each, sort_due, insert_due, due, least}
use obby_client.Client.Timer.Deadlines
use obby_client.Client.Timer.Deadlines.{Timers, ping_keepalive, reconnect, next, deadline_ord}
use obby_client.Client.Timer.Expiry.{expire-expire, next-expire}
use obby_client.Client.Monitor
use obby_client.Client.Monitor.{batched}
use obby_client.Client.Monitor.Presence.{IsWatched, run, came_online, unwatched, run-new-IsWatched}
use obby_client.Client.Monitor.Requests.{IsTarget, Within, all_targets, batched-targets}
use obby_client.Client.Timer.Drain.{IsDrained, drain_due-IsDrained}
use obby_client.Client.Timer.Backoff.{new, after, next_delay_ms, next_delay_ms-exact}

abbrev offered : Capabilities
offered = advertise (text "sasl=PLAIN batch echo-message") Caps.default

abbrev waiting : Capabilities
waiting = requested (text "sasl" ∷ text "batch" ∷ []) offered

pending-answered_example :
    (mem (text "batch") (acknowledge (text "batch") waiting).1.pending ≡ (
      mem (text "batch") waiting.pending
      && not (mem (text "batch") (answered (split_whitespace (text "batch"))))))
    × (mem (text "batch") (reject (text "batch") waiting).pending ≡ (
        mem (text "batch") waiting.pending
        && not (mem (text "batch") (rejected (split_whitespace (text "batch"))))))
pending-answered_example = pending-answered (text "batch") waiting (text "batch")

next_delay_ms-exact_example :
    (next_delay_ms (after 3 (new 2000 300000 100))).0
    ≡ (if ltb 3 100 then some (min (2000 * 2 ^ 3) 300000) else none)
next_delay_ms-exact_example = next_delay_ms-exact 2000 300000 100 3 (omega arith)

abbrev three_due : Map ℕ ℕ
three_due = (1, 30) ∷ (2, 10) ∷ (3, 50) ∷ []

three_due-IsSorted : IsSorted three_due
three_due-IsSorted = ground arith

drain_due-IsDrained_example : IsDrained (λ at. at) 40 three_due (drain_due (λ at. at) 40 three_due)
drain_due-IsDrained_example = drain_due-IsDrained (λ at. at) 40 three_due three_due-IsSorted

abbrev armed : Timers
armed = record { deadlines = (ping_keepalive, 30) ∷ (reconnect, 10) ∷ [] }

armed-IsSorted : IsSorted armed.deadlines
armed-IsSorted = ground arith

abbrev at_twenty : Now
at_twenty = record { monotonic_ms = 20; unix_ms = 0 }

expire-expire_example : (Deadlines.expire at_twenty (Deadlines.expire at_twenty armed).1).0 ≡ []
expire-expire_example = expire-expire armed at_twenty at_twenty armed-IsSorted (omega arith)

armed-next : next (Deadlines.expire at_twenty armed).1 ≡ some 30
unfolding next Deadlines.expire least drain_due take_each sort_due insert_due due OrdMap.get
    OrdMap.remove same text_below
armed-next = refl

next-expire_example : 20 < 30
next-expire_example = next-expire armed at_twenty armed-IsSorted armed-next

run-new-IsWatched_example :
    IsWatched (run (came_online (text "ann") ∷ unwatched (text "ann" ∷ []) ∷ []) Monitor.new)
run-new-IsWatched_example =
    run-new-IsWatched (came_online (text "ann") ∷ unwatched (text "ann" ∷ []) ∷ [])

abbrev three_nicks : List Text
three_nicks = text "ann" ∷ text "bob" ∷ text "cat" ∷ []

three_nicks-IsTarget : All IsTarget three_nicks
three_nicks-IsTarget =
    ((λ e. cc, omega arith), ((λ e. cc, omega arith), ((λ e. cc, omega arith), tt)))

batched-targets_example :
    (all_targets (batched three_nicks 2) ≡ three_nicks) × All (Within 2) (batched three_nicks 2)
batched-targets_example = batched-targets three_nicks 2 three_nicks-IsTarget
