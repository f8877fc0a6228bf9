-- ===== src/Tests.antt =====
-- Concrete inputs for the theorems, grouped as the modules are.
mod Wire
mod Settings
mod Time
mod Framing
mod Session
mod Exchange
mod Formatting
mod Codec
mod Login
mod Setup
mod Roster
