-- ===== src/Transport.antt =====
-- The transport of frames.
pub mod Seen
pub mod Heal
mod Tests
