-- ===== src/Client.antt =====
-- The `obby-client` crate: the state that a connection keeps.
pub mod Batch
pub mod Caps
pub mod Timer
pub mod Command
pub mod Monitor
pub mod Label
pub mod MessageLog
pub mod Base64
pub mod Sasl
pub mod Scram
pub mod Inbound
pub mod Negotiation
pub mod Model
