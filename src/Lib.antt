-- ===== src/Lib.antt =====
-- The IRC engine obby-client: the protocol crate crates/obby-proto and the parts of the engine
-- crates/obby-client that keep their own state.
--
-- A line from the server is parsed by `Message::parse` into tags, source, command and parameters;
-- the tags carry escaped values, the `time` tag an instant, and the `batch` tag the framing that
-- holds the line back until its batch closes. `005` tokens build the settings (`Isupport`), which
-- decide how names are folded, which characters open a channel name, and which mode letters take
-- an argument. `Capabilities` records what was offered, asked for and granted, and the timers say
-- what is due.
--
-- Files and the code they model (paths from the repository's root):
--   Base and below: shared types and lemmas. A string is the list of its code points (`Text`), a
--     `BTreeMap` an ordered list of bindings (`OrdMap`), a `BTreeSet` the map to the unit type.
--   Proto/Tags: crates/obby-proto/src/tags.rs; Tags/Escape, Tags/Wire and Tags/Access prove.
--   Proto/Source, Proto/Message: crates/obby-proto/src/message.rs; Message/Params and
--     Message/RoundTrip prove.
--   Proto/Casemap: crates/obby-proto/src/casemap.rs.
--   Proto/Isupport, with its views in Isupport/Views: crates/obby-proto/src/isupport.rs;
--     Isupport/Coherent and Isupport/Split prove.
--   Proto/Mode: crates/obby-proto/src/mode.rs; Mode/Arity proves.
--   Proto/ServerTime, with its calendar in ServerTime/Civil: crates/obby-proto/src/servertime.rs;
--     ServerTime/Print, ServerTime/RoundTrip and ServerTime/Range prove.
--   Client/Batch: crates/obby-client/src/batch.rs; Batch/Bounds, Batch/Nesting, Batch/Routing,
--     Batch/Routed and Batch/Lifetime prove.
--   Client/Caps, with the wanted names in Caps/Wanted: crates/obby-client/src/caps.rs;
--     Caps/Requests proves.
--   Proto/Format: crates/obby-proto/src/format.rs; Format/Stripping and Format/Fuel prove.
--   Client/Timer: crates/obby-client/src/timer.rs; Timer/Backoff has the reconnect delays and
--     Timer/Drain proves.
--     Timer/Deadlines has the named deadlines and Timer/Expiry proves about them.
--   Client/Label: crates/obby-client/src/label.rs; Label/Answers proves.
--   Client/MessageLog: the message log of crates/obby-client/src/model.rs;
--     MessageLog/Retention proves.
--   Client/Model: the rest of crates/obby-client/src/model.rs; Model/Rename, Model/Records and
--     Model/Ranks prove. A function that lends out an entry takes the change made to it.
--   Client/Monitor: crates/obby-client/src/monitor.rs; Monitor/Presence and Monitor/Requests prove.
--   Client/Sasl: crates/obby-client/src/sasl.rs; Sasl/Lines proves. Client/Base64 is the interface
--     of the base64 crate.
--   Client/Scram: crates/obby-client/src/scram.rs; Scram/Equality, Scram/Fields, Scram/Answers and
--     Scram/Server prove; Scram/Enrol has what a server of RFC 5802 stores of a password. HMAC and
--     SHA-256 are fields of `Crypto`.
--   Client/Inbound: `Client::handle_bytes` of crates/obby-client/src/client.rs; Inbound/Chunking
--     proves.
--   Client/Negotiation, Negotiation/Handlers and Negotiation/Dispatch: `handle_connected`,
--     `poll_transmit`, `handle_disconnected` but for the model, and the handlers of registration,
--     `CAP` and `AUTHENTICATE` in crates/obby-client/src/client.rs. Negotiation/View is the abstract view of
--     the set-up; Dispatch/Safety, Dispatch/Refines, Dispatch/Run and Dispatch/Connection prove.
--   Client/Command: crates/obby-client/src/command.rs and `Client::wire` with its helpers in
--     crates/obby-client/src/client.rs; Command/Understood is the reader of the lines, and
--     Command/Arguments and Command/RoundTrip prove. The JSON of a voice frame is an argument of
--     the model.
--   Tests: concrete inputs.
--
-- Operations that take `&mut self` return the new state, paired with the result where there is
-- one. Numbers are natural numbers; the widths show where the code depends on them: `u64` products
-- saturate and `u32` and `u16` values are parsed with their limits. The loop over the parameters
-- of a line runs on the length of the line as fuel, the walk over parent batches on the number of
-- open batches, which is the code's own bound, and the printer of a number on the number itself,
-- which has fewer digits; the loops over the bytes of a read and over the characters of a body run on
-- their number, since each round takes one at least. All other loops are structural.
--
-- Not modelled: the rest of the connection engine (of client.rs; session.rs), the list form of a
-- message log, extensions, voice, end-to-end encryption and JSON, and the bindings.
pub mod Base
pub mod Proto
pub mod Client
pub mod Tests
