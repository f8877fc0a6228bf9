-- ===== src/Client/Command/RoundTrip.antt =====
-- A command is understood from the line that carries it: `Client::wire` of
-- crates/obby-client/src/client.rs with the printer and the parser of
-- crates/obby-proto/src/message.rs.
use obby_client.Base.{◌≡◌, refl, Option, none, some, [], Text}
use obby_client.Proto.Tags
use obby_client.Proto.Tags.{Tags}
use obby_client.Proto.Message
use obby_client.Proto.Message.{Message}
use obby_client.Client.Command.{Command, optional}
use obby_client.Client.Command.Understood.{understood, read_rest}

read_rest-optional :
    (make : Option Text → Command Text) (o : Option Text)
    → read_rest make (optional [] o) ≡ some (make o)
unfolding read_rest optional
read_rest-optional make none = refl
read_rest-optional make (some p) = refl

abbrev IsUnderstood : Option Message → Command Text → Type 0
IsUnderstood none c = Unit
IsUnderstood (some m) c = understood m ≡ some c
