-- ===== src/Wire.antt =====
-- The wire formats.
pub mod Error
pub mod Bin
pub mod Policy
pub mod Flags
pub mod Frame
pub mod Framing
pub mod Payload
pub mod Envelope
pub mod Attach
pub mod Sticker
pub mod Text
pub mod Profile
mod Tests
