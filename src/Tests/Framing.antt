-- ===== src/Tests/Framing.antt =====
-- Batches on concrete inputs: crates/obby-client/src/batch.rs.
use obby_client.Base.{◌≡◌, ◌↔◌, true, List, none, [], ◌∷◌, text, take, length, ltb, text_ord}
use obby_client.Base.OrdMap
use obby_client.Proto.Tags.{tag}
use obby_client.Proto.Message
use obby_client.Proto.Message.{Message}
use obby_client.Client.Batch.{Batches, fresh, is_within, with_max_buffered}
use obby_client.Client.Batch.Bounds.{dedup, push_all, push_all-dedup}
use obby_client.Client.Batch.Nesting.{Holds, is_within_iff_Holds}
use obby_client.Client.Batch.Routing.{
  IsBounded, HasLimits, opened, routed, run, run-new_IsBounded, Event, closed,
}

abbrev opening : Message
opening = record {
  tags = [];
  source = none;
  command = text "BATCH";
  params = text "+r1" ∷ text "chathistory" ∷ text "#c" ∷ [];
}

abbrev line : Message
line = record {
  tags = tag (text "batch") (text "r1") ∷ tag (text "msgid") (text "m1") ∷ [];
  source = none;
  command = text "PRIVMSG";
  params = text "#c" ∷ text "hi" ∷ [];
}

abbrev one_open : Batches
one_open = record (with_max_buffered 8) {
  by_reference = (text "r1", fresh opening (text "chathistory")) ∷ [];
}

run-new_IsBounded_example :
    IsBounded (run (opened opening ∷ routed line ∷ routed line ∷ []) (with_max_buffered 1))
    × HasLimits 1 64 (run (opened opening ∷ routed line ∷ routed line ∷ []) (with_max_buffered 1))
run-new_IsBounded_example = run-new_IsBounded (opened opening ∷ routed line ∷ routed line ∷ []) 1

abbrev stray : Message
stray = record { tags = []; source = none; command = text "PING"; params = text "x" ∷ [] }

abbrev closing : Message
closing = record { tags = []; source = none; command = text "BATCH"; params = text "-r1" ∷ [] }

-- The same line twice, a line outside the batch and the end of another one.
abbrev between : List Event
between = routed line ∷ routed stray ∷ closed opening ∷ routed line ∷ []

is_within_iff_Holds_example :
    (is_within (text "r1") (text "chathistory") one_open ≡ true)
    ↔ Holds one_open.by_reference (text "chathistory") (text "r1")
is_within_iff_Holds_example = is_within_iff_Holds one_open (text "r1") (text "chathistory")

push_all-dedup_example :
    ((push_all (line ∷ line ∷ opening ∷ []) 1 (fresh opening (text "k"))).messages
      ≡ take 1 (dedup [] (line ∷ line ∷ opening ∷ [])))
    × ((push_all (line ∷ line ∷ opening ∷ []) 1 (fresh opening (text "k"))).overflowed
        ≡ ltb 1 (length (dedup [] (line ∷ line ∷ opening ∷ []))))
push_all-dedup_example = push_all-dedup (line ∷ line ∷ opening ∷ []) 1 opening (text "k")
