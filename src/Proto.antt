-- ===== src/Proto.antt =====
-- The `obby-proto` crate: the wire format, with no connection and no state.
pub mod Tags
pub mod Source
pub mod Message
pub mod Casemap
pub mod Isupport
pub mod Mode
pub mod ServerTime
pub mod Format
