-- ===== src/Client/Batch.antt =====
-- `BATCH` framing: crates/obby-client/src/batch.rs.
pub mod Bounds
pub mod Nesting
pub mod Routing
pub mod Routed
pub mod Lifetime
use obby_client.Base.{
  ℕ, zero, suc, ◌+◌, ◌≡◌, Bool, true, false, not, ◌||◌, Option, none, some, List, [], ◌∷◌, ◌++◌,
  Text, same, any, length, drop, leb, is_nil, strip_prefix, bind, ◌>>=◌, if◌then◌else◌, unwrap_or,
}
use obby_client.Base.OrdMap
use obby_client.Base.OrdMap.{Map}
use obby_client.Base.{text_ord}
use obby_client.Proto.Message
use obby_client.Proto.Message.{Message}
use obby_client.Base.{text}

pub record ClosedBatch : Type 0 where
  pub kind : Text
  pub params : List Text
  pub parent : Option Text
  pub messages : List Message
  pub overflowed : Bool

-- `seen` is a set that is only added to and looked up, so it is the list of its members.
pub record OpenBatch : Type 0 where
  pub kind : Text
  pub params : List Text
  pub parent : Option Text
  pub messages : List Message
  pub seen : List Text
  pub overflowed : Bool

unfoldable pub is_seen : Text → OpenBatch → Bool
is_seen id b = any (same id) b.seen

-- The buffer takes the message, or is marked as overflowed.
unfoldable pub push_new : Message → ℕ → List Text → OpenBatch → OpenBatch
push_new m max_buffered seen b =
    if leb max_buffered (length b.messages)
    then record b { overflowed = true }
    else record b { seen = seen; messages = b.messages ++ m ∷ [] }

push_tagged : Option Text → Message → ℕ → OpenBatch → OpenBatch
unfolding push_new
push_tagged none m max_buffered b = push_new m max_buffered b.seen b
push_tagged (some id) m max_buffered b =
    if is_seen id b then b else push_new m max_buffered (id ∷ b.seen) b

-- `OpenBatch::push`.
unfoldable pub push : Message → ℕ → OpenBatch → OpenBatch
unfolding push_tagged
push m max_buffered b =
    if b.overflowed then b else push_tagged (Message.tag m (text "msgid")) m max_buffered b

unfoldable pub into_closed : OpenBatch → ClosedBatch
into_closed b = record {
  kind = b.kind;
  params = b.params;
  parent = b.parent;
  messages = b.messages;
  overflowed = b.overflowed;
}

pub record Batches : Type 0 where
  pub by_reference : Map Text OpenBatch
  pub max_buffered : ℕ
  pub max_open : ℕ

abbrev pub default_max_buffered : ℕ
default_max_buffered = 1024

abbrev pub default_max_open : ℕ
default_max_open = 64

unfoldable pub with_max_buffered : ℕ → Batches
with_max_buffered n = record { by_reference = []; max_buffered = n; max_open = default_max_open }

unfoldable pub new : Batches
unfolding with_max_buffered
new = with_max_buffered default_max_buffered

unfoldable pub fresh : Message → Text → OpenBatch
fresh m kind = record {
  kind = kind;
  params = drop 2 m.params;
  parent = Message.tag m (text "batch");
  messages = [];
  seen = [];
  overflowed = false;
}

open_under : Message → Text → Text → Batches → Batches
unfolding fresh
open_under m reference kind s =
    if OrdMap.contains_key reference s.by_reference
    then s
    else if leb s.max_open (length s.by_reference)
    then s
    else record s { by_reference = OrdMap.insert reference (fresh m kind) s.by_reference }

open_marked : Message → Option Text → Option Text → Batches → Batches
unfolding open_under
open_marked m (some reference) (some kind) s = open_under m reference kind s
open_marked m _ _ s = s

-- `Batches::open`.
unfoldable pub open_batch : Message → Batches → Batches
unfolding open_marked
open_batch m s = open_marked m (bind (Message.param m 0) (strip_prefix b'+')) (Message.param m 1) s

close_reference : Option Text → Batches → Option ClosedBatch × Batches
unfolding into_closed
close_reference none s = (none, s)
close_reference (some reference) s = (
  bind (OrdMap.get reference s.by_reference) (λ b. some (into_closed b)),
  record s { by_reference = OrdMap.remove reference s.by_reference },
)

-- `Batches::close`.
unfoldable pub close : Message → Batches → Option ClosedBatch × Batches
unfolding close_reference
close m s = close_reference (bind (Message.param m 0) (strip_prefix b'-')) s

-- The write through `get_mut`.
route_into : Message → Text → Option OpenBatch → Batches → Option Message × Batches
route_into m reference none s = (some m, s)
route_into m reference (some b) s = (
  none,
  record s { by_reference = OrdMap.insert reference (push m s.max_buffered b) s.by_reference },
)

route_tagged : Message → Option Text → Batches → Option Message × Batches
unfolding route_into
route_tagged m none s = (some m, s)
route_tagged m (some reference) s = route_into m reference (OrdMap.get reference s.by_reference) s

-- `Batches::route`: the message comes back unless a batch has taken it.
unfoldable pub route : Message → Batches → Option Message × Batches
unfolding route_tagged
route m s = route_tagged m (Message.tag m (text "batch")) s

-- The loop of `is_within` at the batch `current`; the count of steps left is the fuel. The loop
-- gives up once it has taken more steps than there are batches.
unfoldable pub within_loop : ℕ → Map Text OpenBatch → Text → Option OpenBatch → Bool
within_loop zero m kind current = false
within_loop (suc steps) m kind none = false
within_loop (suc steps) m kind (some b) =
    same b.kind kind || within_loop steps m kind (bind b.parent (λ p. OrdMap.get p m))

-- `Batches::is_within`.
unfoldable pub is_within : Text → Text → Batches → Bool
unfolding within_loop
is_within reference kind s =
    within_loop (suc (length s.by_reference)) s.by_reference kind
      (OrdMap.get reference s.by_reference)

unfoldable pub drop_all : Batches → Batches
drop_all s = record s { by_reference = [] }
