-- ===== src/Client/Timer/Deadlines.antt =====
-- The named deadlines: `Deadline` and `Timers` of crates/obby-client/src/timer.rs.
use obby_client.Base.{
  ℕ, zero, suc, ◌≡◌, refl, Option, List, [], map, Text, Ord, nat_ord, text_ord, pair_ord, ord_by,
}
use obby_client.Base.OrdMap
use obby_client.Base.OrdMap.{Map}
use obby_client.Client.Timer.{Now, drain_due, least}

pub data Deadline : Type 0 where
  ping_keepalive dead_link reconnect : Deadline
  typing : Text → Text → Deadline

-- The derived order: the variants in the order of their declaration, then the fields.
abbrev fields : Deadline → ℕ × (Text × Text)
fields ping_keepalive = (0, ([], []))
fields dead_link = (1, ([], []))
fields reconnect = (2, ([], []))
fields (typing place who) = (3, (place, who))

abbrev of_fields : ℕ × (Text × Text) → Deadline
of_fields (zero, _) = ping_keepalive
of_fields (suc zero, _) = dead_link
of_fields (suc (suc zero), _) = reconnect
of_fields (suc (suc (suc n)), (place, who)) = typing place who

pub of_fields-fields : (d : Deadline) → of_fields (fields d) ≡ d
of_fields-fields ping_keepalive = refl
of_fields-fields dead_link = refl
of_fields-fields reconnect = refl
of_fields-fields (typing place who) = refl

instance abbrev pub deadline_ord : Ord Deadline
deadline_ord =
    ord_by fields of_fields of_fields-fields (pair_ord nat_ord (pair_ord text_ord text_ord))

pub record Timers : Type 0 where
  pub deadlines : Map Deadline ℕ

abbrev pub new : Timers
new = record { deadlines = [] }

unfoldable pub set : Deadline → ℕ → Timers → Timers
set d at_monotonic_ms t = record { deadlines = OrdMap.insert d at_monotonic_ms t.deadlines }

unfoldable pub clear : Deadline → Timers → Timers
clear d t = record { deadlines = OrdMap.remove d t.deadlines }

unfoldable pub expire : Now → Timers → List Deadline × Timers
expire now t =
    let (taken, left) = drain_due (λ at. at) now.monotonic_ms t.deadlines in
    (map (λ e. e.0) taken, record { deadlines = left })

unfoldable pub next : Timers → Option ℕ
next t = least t.deadlines
