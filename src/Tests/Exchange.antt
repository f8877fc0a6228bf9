-- ===== src/Tests/Exchange.antt =====
-- Commands and labelled responses on concrete inputs: crates/obby-client/src/command.rs, client.rs,
-- label.rs and model.rs.
use obby_client.Base.{
  ℕ, ◌≡◌, ◌≤◌, length, refl, true, false, none, some, List, [], ◌∷◌, Text, text, same, find, arith,
  eq_ignore_ascii_case, to_ascii_lowercase, text_below, text_ord,
}
use obby_client.Base.OrdMap
use obby_client.Base.OrdMap.Sorted.{IsSorted}
use obby_client.Proto.Tags
use obby_client.Proto.Tags.{tag}
use obby_client.Proto.Message
use obby_client.Proto.Message.{Message}
use obby_client.Client.Command.{Command, part, new}
use obby_client.Client.Label.{Labels, register, resolve}
use obby_client.Client.Label.Answers.{resolve-batch}
use obby_client.Client.MessageLog
use obby_client.Client.MessageLog.{
  key_ord, ChatMessage, MessageLog, privmsg, contains, insert, get, with_retention,
}
use obby_client.Client.MessageLog.Retention.{insert_all, insert-insert, insert_all-new-IsKept}

abbrev to_json : Text → Text
to_json frame = frame

abbrev leaving : Command Text
leaving = part (text "#c") (some (text ": see you"))

abbrev leaving_params : List Text
leaving_params = text "#c" ∷ text ": see you" ∷ []

abbrev nothing_sent : Labels ℕ
nothing_sent = record { next_id = 0; pending = []; open_batches = [] }

abbrev labelled : Text → List Text → Message
labelled command params = record {
  tags = tag (text "label") (text "l1") ∷ [];
  source = none;
  command = command;
  params = params;
}

abbrev answer : Message
answer = labelled (text "ACK") []

abbrev opening : Message
opening = labelled (text "BATCH") (text "+r1" ∷ text "labeled-response" ∷ [])

abbrev closing : Message
closing = record { tags = []; source = none; command = text "BATCH"; params = text "-r1" ∷ [] }

answer_is : Message.is answer (text "BATCH") ≡ false
unfolding Message.is eq_ignore_ascii_case to_ascii_lowercase same
answer_is = refl

answer_label : Message.tag answer (text "label") ≡ some (text "l1")
unfolding Message.tag Tags.get find same
answer_label = refl

opening_is : Message.is opening (text "BATCH") ≡ true
unfolding Message.is eq_ignore_ascii_case to_ascii_lowercase same
opening_is = refl

opening-param : Message.param opening 0 ≡ some (text "+r1")
unfolding Message.param
opening-param = refl

opening_label : Message.tag opening (text "label") ≡ some (text "l1")
unfolding Message.tag Tags.get find same
opening_label = refl

closing_is : Message.is closing (text "BATCH") ≡ true
unfolding Message.is eq_ignore_ascii_case to_ascii_lowercase same
closing_is = refl

closing-param : Message.param closing 0 ≡ some (text "-r1")
unfolding Message.param
closing-param = refl

resolve-batch_example :
    (let opened = resolve opening (register (text "l1") 30 7 nothing_sent) in
      (opened.0 ≡ none) × ((resolve closing opened.1).0 ≡ some 7))
resolve-batch_example =
    resolve-batch opening closing (text "l1") (text "r1") 30 7 nothing_sent opening_is opening-param
      opening_label closing_is closing-param

abbrev two_sent : Labels ℕ
two_sent = record {
  next_id = 2;
  pending =
      (text "l1", record { deadline_ms = 10; batch_id = none; datum = 7 })
      ∷ (text "l2", record { deadline_ms = 40; batch_id = none; datum = 8 })
      ∷ [];
  open_batches = [];
}

two_sent-IsSorted : IsSorted two_sent.pending
unfolding text_below same
two_sent-IsSorted = ground arith

abbrev said : ℕ → ChatMessage Text
said time_ms =
    record (MessageLog.new (record { time_ms = time_ms; seq = 1 }) (text "ann") privmsg) {
      msgid = some (text "m1");
      text = text "hi";
    }

abbrev nothing_said : MessageLog Text
nothing_said = record { messages = []; by_msgid = []; retention = 5 }

nothing_said-contains : contains (text "m1") nothing_said ≡ false
unfolding contains OrdMap.contains_key
nothing_said-contains = refl

said-msgid : (time_ms : ℕ) → (said time_ms).msgid ≡ some (text "m1")
said-msgid time_ms = refl

insert-insert_example :
    ((insert (said 7) nothing_said).0 ≡ true)
    × ((get (text "m1") (insert (said 7) nothing_said).1 ≡ some (said 7))
        × (insert (said 9) (insert (said 7) nothing_said).1
            ≡ (false, (insert (said 7) nothing_said).1)))
insert-insert_example =
    insert-insert (said 7) (said 9) (text "m1") nothing_said (said-msgid 7) (said-msgid 9)
      nothing_said-contains (omega arith)

insert_all-new-IsKept_example :
    (let log = insert_all (said 7 ∷ said 9 ∷ []) (with_retention 1) in
      IsSorted log.messages × (length log.messages ≤ 1))
insert_all-new-IsKept_example = insert_all-new-IsKept (said 7 ∷ said 9 ∷ []) 1
