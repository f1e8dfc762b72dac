-- ===== src/Live.antt =====
-- The tables that live in memory only: who types, who is there.
pub mod Table
pub mod Typing
pub mod Presence
mod Tests
